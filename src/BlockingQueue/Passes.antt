-- ===== src/BlockingQueue/Passes.antt =====
-- How a pass of `queue_put` or `queue_get` on a valid ring can end, and what each end does to the
-- ring: remainders are turned into counts here.
use code_c.Base.Cyclic.{mod_below, mod_round}
use code_c.Base.{
  ℕ, zero, suc, ◌+◌, ◌-◌, ◌%◌, ◌≤◌, ◌<◌, ◌≡◌, ◌≢◌, ◌⊎◌, inl, inr, dec_lt, refl, ap, true, false,
  List, [], ◌∷◌, arith, set, length-set, ◌++◌, get_or, ◌↔◌,
}
use code_c.BlockingQueue.{Queue, size_mod, put, get, returned, waits, null, stored, refused}
use code_c.BlockingQueue.Ring.{IsValid, count, run_of, contents, run_of-set}

run_of_pos :
    (slots : List ℕ) (size h n : ℕ)
    → n ≢ 0
    → run_of slots size h n ≡ run_of slots size h (suc (n - 1))
run_of_pos slots size h zero p = absurd (p refl)
run_of_pos slots size h (suc n) p = ap (λ k. run_of slots size h (suc k)) (omega arith)

-- The slot after `i`, and the count, without a remainder.
next_cases :
    (size i : ℕ)
    → i < size
    → size < size_mod
    → ((suc i < size) × ((i + 1) % size_mod % size ≡ i + 1))
      ⊎ ((suc i ≡ size) × ((i + 1) % size_mod % size ≡ 0))
next_cases size i h fits = elim (dec_lt (suc i) size) [
  | yes p ↦
      inl (p, rw (mod_below (i + 1) size_mod (omega arith)) (mod_below (i + 1) size (omega arith)))
  | no p ↦ inr (
    omega arith,
    rw (mod_below (i + 1) size_mod (omega arith))
        (omega (arith, mod_round (i + 1) size (omega arith) (omega arith))),
  )
]

count_cases :
    (q : Queue)
    → IsValid q
    → ((q.out_pos ≤ q.in_pos) × (count q + q.out_pos ≡ q.in_pos))
      ⊎ ((q.in_pos < q.out_pos) × (count q + q.out_pos ≡ q.in_pos + q.size))
count_cases q v = elim (dec_lt q.in_pos q.out_pos) [
  | yes p ↦ inr (p, omega (arith, mod_below (in_pos + size - out_pos) size (omega arith)))
  | no p ↦ inl (
    omega arith,
    omega (arith, mod_round (in_pos + size - out_pos) size (omega arith) (omega arith)),
  )
]
  where
    open q use {in_pos, out_pos, size}

-- The code's test for a full ring, and what a store does to the ring.
full_iff :
    (q : Queue)
    → IsValid q
    → ((q.in_pos + 1) % size_mod % q.size ≡ q.out_pos) ↔ (count q ≡ q.size - 1)
full_iff q v = omega (arith, next_cases q.size q.in_pos, count_cases q v)

empty_iff : (q : Queue) → IsValid q → (q.in_pos ≡ q.out_pos) ↔ (count q ≡ 0)
empty_iff q v = omega (arith, count_cases q v)

abbrev pub stored_in : Queue → ℕ → Queue
stored_in q x = record q {
  slots = set q.slots q.in_pos x;
  in_pos = (q.in_pos + 1) % size_mod % q.size;
}

pub count-stored_in :
    (q : Queue) (x : ℕ) → IsValid q → count q ≢ q.size - 1 → count (stored_in q x) ≡ suc (count q)
count-stored_in q x v ne =
    omega (
      arith,
      next_cases q.size q.in_pos,
      count_cases q v,
      count_cases (stored_in q x) (put_v q x v),
    )
  where
    put_v : (q : Queue) (x : ℕ) → IsValid q → IsValid (stored_in q x)
    put_v q x v = ground (arith, length-set q.slots q.in_pos x)

in_pos_lem : (q : Queue) → IsValid q → q.in_pos ≡ (q.out_pos + count q) % q.size
in_pos_lem q v = ground (
  arith,
  count_cases q v,
  mod_below (q.out_pos + count q) q.size,
  mod_round (q.out_pos + count q) q.size,
)

pub contents-stored_in :
    (q : Queue) (x : ℕ)
    → IsValid q
    → count q ≢ q.size - 1
    → contents (stored_in q x) ≡ contents q ++ (x ∷ [])
contents-stored_in q x v ne = rw (count-stored_in q x v ne) (
    run_of-set q.slots q.size x (count q) q.out_pos q.in_pos v.allocated v.out_lt (omega arith)
      (in_pos_lem q v))

pub put_refused : (q : Queue) (x : ℕ) → q.closed ≡ true → put q x ≡ (returned refused, q)
unfolding put
put_refused q x c = rw c

pub put_stored :
    (q : Queue) (x : ℕ)
    → IsValid q
    → q.closed ≡ false
    → count q ≢ q.size - 1
    → put q x ≡ (returned stored, stored_in q x)
unfolding put
put_stored q x v open_q ne = ground (arith, full_iff q v)

pub put_waits :
    (q : Queue) (x : ℕ) → IsValid q → q.closed ≡ false → count q ≡ q.size - 1 → put q x ≡ (waits, q)
unfolding put
put_waits q x v open_q e = ground (arith, full_iff q v)

pub get_refused : (q : Queue) → q.closed ≡ true → get q ≡ (returned null, q)
unfolding get
get_refused q c = rw c

abbrev pub fetched_from : Queue → Queue
fetched_from q = record q { out_pos = (q.out_pos + 1) % size_mod % q.size }

pub get_waits : (q : Queue) → IsValid q → q.closed ≡ false → count q ≡ 0 → get q ≡ (waits, q)
unfolding get
get_waits q v o e = ground (arith, empty_iff q v)

pub get_fetched :
    (q : Queue)
    → IsValid q
    → q.closed ≡ false
    → count q ≢ 0
    → get q ≡ (returned (get_or q.slots q.out_pos 0), fetched_from q)
unfolding get
get_fetched q v o ne = ground (arith, empty_iff q v)

fetched_from-IsValid : {q : Queue} → IsValid q → IsValid (fetched_from q)
fetched_from-IsValid v = omega arith

pub count-fetched_from :
    (q : Queue) → IsValid q → count q ≢ 0 → count (fetched_from q) ≡ count q - 1
count-fetched_from q v ne = omega (
  arith,
  next_cases q.size q.out_pos,
  count_cases q v,
  count_cases (fetched_from q) (fetched_from-IsValid v),
)

pub contents_pos :
    (q : Queue)
    → IsValid q
    → count q ≢ 0
    → contents q ≡ get_or q.slots q.out_pos 0 ∷ contents (fetched_from q)
contents_pos q v ne =
    rw (count-fetched_from q v ne, mod_below (q.out_pos + 1) size_mod (omega arith))
      (run_of_pos q.slots q.size q.out_pos (count q) ne)
