-- ===== src/BlockingQueue/Outcomes.antt =====
-- What each outcome of a pass of `queue_put` or `queue_get` says of the ring before and after it.
use code_c.Base.{
  ℕ, suc, ◌-◌, ◌<◌, ◌≡◌, ◌≢◌, inl, inr, refl, ap, true, false, [], ◌∷◌, arith, ◌++◌, Bool-cases,
  ℕ_discrete, ◌∙◌,
}
use code_c.BlockingQueue.{Queue, put, get, returned, waits, stored, refused, fault}
use code_c.BlockingQueue.Ring.{IsValid, count, count-lt-size, contents}
use code_c.BlockingQueue.Passes.{
  count-stored_in, contents-stored_in, put_refused, put_stored, put_waits, get_refused,
  fetched_from, get_waits, get_fetched, count-fetched_from, contents_pos,
}

-- What each outcome of a pass says of the ring before and after it.
pub record Stored (q : Queue) (x : ℕ) (q' : Queue) : Type 0 where
  pub was_open : q.closed ≡ false
  pub room : suc (count q) < q.size
  pub still_open : q'.closed ≡ false
  pub same_size : q'.size ≡ q.size
  pub one_more : count q' ≡ suc (count q)
  pub appended : contents q' ≡ contents q ++ (x ∷ [])

pub put-Stored :
    (q : Queue) (x : ℕ) → IsValid q → (put q x).0 ≡ returned stored → Stored q x (put q x).1
put-Stored q x v e = elim (Bool-cases q.closed) [
  | inl c ↦ cc (put_refused q x c)
  | inr o ↦ elim (ℕ_discrete (count q) (q.size - 1)) [
    | yes full ↦ cc (put_waits q x v o full)
    | no ne ↦ rw (put_stored q x v o ne) record {
      was_open = o;
      room = omega (arith, count-lt-size v);
      still_open = o;
      same_size = refl;
      one_more = count-stored_in q x v ne;
      appended = contents-stored_in q x v ne;
    }
  ]
]

pub put-waits :
    (q : Queue) (x : ℕ)
    → IsValid q
    → (put q x).0 ≡ waits
    → ((put q x).1 ≡ q) × (q.closed ≡ false) × (suc (count q) ≡ q.size)
put-waits q x v e = elim (Bool-cases q.closed) [
  | inl c ↦ cc (put_refused q x c)
  | inr o ↦ elim (ℕ_discrete (count q) (q.size - 1)) [
    | yes full ↦ (ap (λ p. p.1) (put_waits q x v o full), o, omega arith)
    | no ne ↦ cc (put_stored q x v o ne)
  ]
]

pub put-refused :
    (q : Queue) (x : ℕ)
    → IsValid q
    → (put q x).0 ≡ returned refused
    → ((put q x).1 ≡ q) × (q.closed ≡ true)
put-refused q x v e = elim (Bool-cases q.closed) [
  | inl c ↦ (ap (λ p. p.1) (put_refused q x c), c)
  | inr o ↦ elim (ℕ_discrete (count q) (q.size - 1)) [
    | yes full ↦ cc (put_waits q x v o full)
    | no ne ↦ cc (put_stored q x v o ne)
  ]
]

pub record Fetched (q : Queue) (x : ℕ) (q' : Queue) : Type 0 where
  pub still_open : q'.closed ≡ false
  pub same_size : q'.size ≡ q.size
  pub one_less : suc (count q') ≡ count q
  pub front : contents q ≡ x ∷ contents q'

pub get-Fetched :
    (q : Queue) (x : ℕ)
    → IsValid q
    → q.closed ≡ false
    → (get q).0 ≡ returned x
    → Fetched q x (get q).1
get-Fetched q x v o e = elim (ℕ_discrete (count q) 0) [
  | yes empty ↦ cc (get_waits q v o empty)
  | no ne ↦ rw (get_fetched q v o ne) record {
    still_open = o;
    same_size = refl;
    one_less = omega (arith, count-fetched_from q v ne);
    front =
        contents_pos q v ne
        ∙ ap (λ y. y ∷ contents (fetched_from q)) (ground (arith, get_fetched q v o ne));
  }
]

pub get-waits :
    (q : Queue)
    → IsValid q
    → (get q).0 ≡ waits
    → ((get q).1 ≡ q) × (q.closed ≡ false) × (count q ≡ 0)
get-waits q v e = elim (Bool-cases q.closed) [
  | inl c ↦ cc (get_refused q c)
  | inr o ↦ elim (ℕ_discrete (count q) 0) [
    | yes empty ↦ (ap (λ p. p.1) (get_waits q v o empty), o, empty)
    | no ne ↦ cc (get_fetched q v o ne)
  ]
]

pub get_closed : (q : Queue) → q.closed ≡ true → (get q).1 ≡ q
get_closed q c = ap (λ p. p.1) (get_refused q c)

pub put_no_fault : (q : Queue) (x : ℕ) → IsValid q → (put q x).0 ≢ fault
put_no_fault q x v e = elim (Bool-cases q.closed) [
  | inl c ↦ cc (put_refused q x c)
  | inr o ↦ elim (ℕ_discrete (count q) (q.size - 1)) [
    | yes full ↦ cc (put_waits q x v o full)
    | no ne ↦ cc (put_stored q x v o ne)
  ]
]

pub get_no_fault : (q : Queue) → IsValid q → (get q).0 ≢ fault
get_no_fault q v e = elim (Bool-cases q.closed) [
  | inl c ↦ cc (get_refused q c)
  | inr o ↦ elim (ℕ_discrete (count q) 0) [
    | yes empty ↦ cc (get_waits q v o empty)
    | no ne ↦ cc (get_fetched q v o ne)
  ]
]
