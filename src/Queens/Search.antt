-- ===== src/Queens/Search.antt =====
-- The search of 51-2.cpp row by row, and what of it is left at a vector.
use code_c.Base.{
  ℕ, zero, suc, ◌-◌, ◌≤◌, ◌<◌, ◌≡◌, refl, ap, sym, ◌∙◌, Bool, true, false, not, Option, none, some,
  List, [], ◌∷◌, ◌++◌, append_assoc, append-nil, ltb, if◌then◌else◌, length, arith, Bool-cases,
  Option-cases, inl, inr, some_injective, none_ne_some,
}
use code_c.Queens.{next, attacked, checked, legal}

-- The placements in which `d` more rows stand behind those of `r`, in the order of their entries;
-- `tries` has those whose next entry is one of the `k` from `q` on.
unfoldable pub tries : (List ℕ → List (List ℕ)) → List ℕ → ℕ → ℕ → List (List ℕ)
tries go_on r q zero = []
tries go_on r q (suc k) = (if attacked q 1 r then [] else go_on (q ∷ r)) ++ tries go_on r (suc q) k

unfoldable pub below : ℕ → ℕ → List ℕ → List (List ℕ)
below n zero r = r ∷ []
below n (suc d) r = tries (below n d) r 1 n

-- What the search has still to find when it stands at a vector, and when `legal` was asked about one.
pub remaining : ℕ → List ℕ → List (List ℕ)
remaining n [] = []
remaining n (q ∷ r) = tries (below n (n - suc (length r))) r (suc q) (n - q) ++ remaining n r

unfoldable pub todo : ℕ → Bool × List ℕ → List (List ℕ)
todo n (true, s) = below n (n - length s) s ++ remaining n s
todo n (false, s) = remaining n s

-- All rows but the last are legal.
abbrev pub FrontLegal : List ℕ → Type 0
FrontLegal [] = Unit
FrontLegal (q ∷ r) = legal r ≡ (true, r)

-- What `legal` leaves.
abbrev pub Left : List ℕ → Bool × List ℕ → Type 0
Left s (true, t) = t ≡ s
Left s (false, t) = FrontLegal t × (length t ≤ length s)

checked-Left :
    (q : ℕ) (r : List ℕ) (p : Bool × List ℕ) → legal r ≡ p → Left r p → Left (q ∷ r) (checked q r p)
unfolding checked
checked-Left q r (true, t) e h = elim (Bool-cases (attacked q 1 r)) [
  | inl a ↦ rw a (e ∙ ap (λ u. (true, u)) h, omega arith)
  | inr a ↦ rw a refl
]
checked-Left q r (false, t) e h = (h.0, omega (arith, h.1))

pub legal-Left : (s : List ℕ) → Left s (legal s)
unfolding legal
legal-Left [] = refl
legal-Left (q ∷ r) = checked-Left q r (legal r) refl (legal-Left r)

checked-true :
    (q : ℕ) (r : List ℕ) (p : Bool × List ℕ)
    → checked q r p ≡ (true, q ∷ r)
    → Left r p
    → p ≡ (true, r)
unfolding checked
checked-true q r (true, t) e h = ap (λ u. (true, u)) h
checked-true q r (false, t) e h =
    absurd (let differs : false ≡ true = ap (λ p. p.0) e in ground (arith, differs))

pub legal-FrontLegal : (s : List ℕ) → legal s ≡ (true, s) → FrontLegal s
unfolding legal
legal-FrontLegal [] e = tt
legal-FrontLegal (q ∷ r) e = checked-true q r (legal r) e (legal-Left r)

pub next_counts : (n q : ℕ) (r : List ℕ) → ltb q n ≡ true → next n (q ∷ r) ≡ some (suc q ∷ r)
unfolding next
next_counts n q r low = rw low refl

pub next_ends : (n q : ℕ) (r : List ℕ) → ltb q n ≡ false → next n r ≡ none → next n (q ∷ r) ≡ none
unfolding next
next_ends n q r high e = rw (high, e) refl

pub next_carries :
    (n q : ℕ) (r s : List ℕ) → ltb q n ≡ false → next n r ≡ some s → next n (q ∷ r) ≡ some (1 ∷ s)
unfolding next
next_carries n q r s high e = rw (high, e) refl

pub length-next : (n : ℕ) (r s : List ℕ) → next n r ≡ some s → length s ≡ length r
unfolding next
length-next n [] s e = absurd (none_ne_some e)
length-next n (q ∷ r) s e = elim (Bool-cases (ltb q n)) [
  | inl low ↦ sym (ap length (some_injective (sym (next_counts n q r low) ∙ e)))
  | inr high ↦ elim (Option-cases (next n r)) [
    | inl f ↦ absurd (none_ne_some (sym (next_ends n q r high f) ∙ e))
    | inr (t, f) ↦
        sym (ap length (some_injective (sym (next_carries n q r t high f) ∙ e)))
        ∙ ap suc (length-next n r t f)
  ]
]

-- The entry `q` is tried, and those behind it.
tried :
    (n q : ℕ) (r : List ℕ) (k : ℕ)
    → k ≡ suc (n - q)
    → todo n (not (attacked q 1 r), q ∷ r)
      ≡ tries (below n (n - suc (length r))) r q k ++ remaining n r
unfolding todo remaining tries
tried n q r k e = rw e (elim (Bool-cases (attacked q 1 r)) [
  | inl a ↦ rw a refl
  | inr a ↦ rw a (sym (append_assoc (below n (n - suc (length r)) (q ∷ r)) _ _))
])

pub all_left : (n : ℕ) → n - 0 ≡ n
all_left n = omega arith

none_over : (n k : ℕ) → k ≡ n → n - k ≡ 0
none_over n k e = omega (arith, e)

none_left : (n q : ℕ) → ltb q n ≡ false → n - q ≡ 0
none_left n q high = ground arith

pub room_for_one : {n k : ℕ} → k < n → suc (n - suc k) ≡ n - k
room_for_one l = omega (arith, l)

pub todo_full : (n : ℕ) (s : List ℕ) → length s ≡ n → todo n (true, s) ≡ s ∷ remaining n s
unfolding todo below
todo_full n s full = rw (none_over n (length s) full) refl

pub remaining_fresh : (n : ℕ) (s : List ℕ) → length s < n → remaining n (0 ∷ s) ≡ todo n (true, s)
unfolding todo below remaining
remaining_fresh n s room =
    rw (all_left n)
      (ap (λ d. below n d s ++ remaining n s) (room_for_one {n = n} {k = length s} room))

pub todo_start : (n : ℕ) → todo n (true, []) ≡ below n n []
unfolding todo remaining
todo_start n = rw (all_left n) (append-nil (below n n []))

first_tried :
    (n : ℕ) (s : List ℕ) → length s < n → todo n (not (attacked 1 1 s), 1 ∷ s) ≡ todo n (true, s)
unfolding todo below
first_tried n s room =
    tried n 1 s n (omega arith) ∙ ap (λ d. below n d s ++ remaining n s) (room_for_one room)

first_todo :
    (n : ℕ) (s : List ℕ) (p : Bool × List ℕ)
    → length s < n
    → Left s p
    → todo n (checked 1 s p) ≡ todo n p
unfolding checked
first_todo n s (true, t) room h = first_tried n s room ∙ ap (λ u. todo n (true, u)) (sym h)
first_todo n s (false, t) room h = refl

remaining_over : (n q : ℕ) (r : List ℕ) → ltb q n ≡ false → remaining n (q ∷ r) ≡ remaining n r
unfolding remaining tries
remaining_over n q r high = rw (none_left n q high) refl

-- One call of `next` and of `legal` takes the search on.
abbrev pub Goes : ℕ → List ℕ → Option (List ℕ) → Type 0
Goes n s none = remaining n s ≡ []
Goes n s (some t) = todo n (legal t) ≡ remaining n s

carried_Goes :
    (n q : ℕ) (r : List ℕ) (p : Option (List ℕ))
    → length r < n
    → ltb q n ≡ false
    → next n r ≡ p
    → Goes n r p
    → Goes n (q ∷ r) (next n (q ∷ r))
unfolding legal
carried_Goes n q r none room high e g = rw (next_ends n q r high e) (remaining_over n q r high ∙ g)
carried_Goes n q r (some t) room high e g = rw (next_carries n q r t high e) (
    first_todo n t (legal t) (omega (arith, length-next n r t e)) (legal-Left t)
    ∙ g
    ∙ sym (remaining_over n q r high))

pub next-Goes : (n : ℕ) (s : List ℕ) → FrontLegal s → length s ≤ n → Goes n s (next n s)
unfolding next legal remaining checked
next-Goes n [] f room = refl
next-Goes n (q ∷ r) f room = elim (Bool-cases (ltb q n)) [
  | inl low ↦ rw (low, f) (tried n (suc q) r (n - q) (ground arith))
  | inr high ↦
      carried_Goes n q r (next n r) (omega arith) high refl
        (next-Goes n r (legal-FrontLegal r f) (omega arith))
]
