-- ===== src/Queens/Work.antt =====
-- How many calls of `next` the search of 51-2.cpp makes at most, so that the loop ends.
use code_c.Base.{
  ℕ, zero, suc, ◌+◌, ◌-◌, ◌*◌, ◌≤◌, ◌<◌, ◌≡◌, refl, ap, sym, subst, ◌∙◌, Bool, true, false, not,
  Option, none, some, List, [], ◌∷◌, ◌++◌, append_assoc, append-nil, ltb, ◌==◌, length, arith,
  Bool-cases, inl, inr,
}
use code_c.Queens.{
  next, attacked, checked, legal, visit, queens_step, queens_loop, to_results, solve_n_queens,
}
use code_c.Queens.Search.{
  below, remaining, todo, FrontLegal, Left, legal-Left, legal-FrontLegal, length-next, Goes,
  next-Goes, next_ends, next_carries, todo_full, remaining_fresh, todo_start, room_for_one,
  all_left,
}

-- The calls for `d` rows of `n` entries, those that are left at a vector, and those after `legal`.
unfoldable pub cost : ℕ → ℕ → ℕ
cost n zero = 0
cost n (suc d) = n * suc (cost n d)

unfoldable pub left : ℕ → List ℕ → ℕ
left n [] = 0
left n (q ∷ r) = (n - q) * suc (cost n (n - suc (length r))) + left n r

unfoldable pub due : ℕ → Bool × List ℕ → ℕ
due n (true, s) = cost n (n - length s) + left n s
due n (false, s) = left n s

-- One of the entries is taken, and its rows.
once_less : (k c l : ℕ) → suc (c + (k * suc c + l)) ≡ suc k * suc c + l
once_less k c l = grind arith

one_less : {n q : ℕ} (c l : ℕ) → q < n → suc (c + ((n - suc q) * suc c + l)) ≡ (n - q) * suc c + l
one_less {n = n} {q = q} c l low =
    once_less (n - suc q) c l ∙ ap (λ k. k * suc c + l) (room_for_one {n = n} {k = q} low)

without : (a : ℕ) {b l : ℕ} → suc (a + b) ≡ l → suc b ≤ l
without a e = omega (arith, e)

due_tried :
    (n q : ℕ) (r : List ℕ) → q < n → due n (not (attacked (suc q) 1 r), suc q ∷ r) < left n (q ∷ r)
unfolding due left
due_tried n q r low =
    let one = one_less {n = n} {q = q} (cost n (n - suc (length r))) (left n r) low in
    elim (Bool-cases (attacked (suc q) 1 r)) [
      | inl a ↦ rw a (without _ one)
      | inr a ↦ rw a (omega (arith, one))
    ]

-- A row that is begun has all its entries before it.
left_fresh : (n : ℕ) (s : List ℕ) → length s < n → left n (0 ∷ s) ≡ due n (true, s)
unfolding due left cost
left_fresh n s room =
    rw (all_left n) (ap (λ d. cost n d + left n s) (room_for_one {n = n} {k = length s} room))

left-due : (n : ℕ) (s : List ℕ) → left n s ≤ due n (true, s)
unfolding due
left-due n s = omega arith

due_first :
    (n : ℕ) (s : List ℕ) (p : Bool × List ℕ)
    → length s < n
    → Left s p
    → due n (checked 1 s p) ≤ due n p
unfolding checked due
due_first n s (true, t) room h =
    let tried = due_tried n 0 t (omega (arith, room)) in
    subst (λ u. due n (not (attacked 1 1 u), 1 ∷ u) ≤ due n (true, t)) h
      (omega (arith, tried, left_fresh n t (subst (λ u. length u < n) (sym h) room)))
due_first n s (false, t) room h = omega arith

abbrev DueLess : ℕ → ℕ → Option (List ℕ) → Type 0
DueLess n k none = Unit
DueLess n k (some t) = due n (legal t) < k

carried_DueLess :
    (n q : ℕ) (r : List ℕ) (p : Option (List ℕ))
    → length r < n
    → ltb q n ≡ false
    → next n r ≡ p
    → DueLess n (left n r) p
    → DueLess n (left n (q ∷ r)) (next n (q ∷ r))
unfolding legal left
carried_DueLess n q r none room high e g = rw (next_ends n q r high e) tt
carried_DueLess n q r (some t) room high e g =
    let first = due_first n t (legal t) (omega (arith, length-next n r t e)) (legal-Left t) in
    rw (next_carries n q r t high e) (omega (arith, first, g))

next-DueLess : (n : ℕ) (s : List ℕ) → FrontLegal s → length s ≤ n → DueLess n (left n s) (next n s)
unfolding next legal checked
next-DueLess n [] f room = tt
next-DueLess n (q ∷ r) f room = elim (Bool-cases (ltb q n)) [
  | inl low ↦ rw (low, f) (due_tried n q r (ground arith))
  | inr high ↦
      carried_DueLess n q r (next n r) (omega arith) high refl
        (next-DueLess n r (legal-FrontLegal r f) (omega arith))
]

-- Enough calls find what remains.
Finds : ℕ → (List ℕ → List (List ℕ) → Option (List (List ℕ))) → ℕ → Type 0
Finds n go_on fuel =
    (s : List ℕ) (rs : List (List ℕ))
    → FrontLegal s
    → length s ≤ n
    → left n s < fuel
    → go_on s rs ≡ some (rs ++ remaining n s)

visit-legal :
    (n fuel : ℕ) (go_on : List ℕ → List (List ℕ) → Option (List (List ℕ))) (t : List ℕ)
    (rs : List (List ℕ))
    → Finds n go_on fuel
    → length t ≤ n
    → legal t ≡ (true, t)
    → due n (true, t) < fuel
    → visit go_on n rs (true, t) ≡ some (rs ++ todo n (true, t))
unfolding visit Finds
visit-legal n fuel go_on t rs finds room e enough = elim (Bool-cases (length t == n)) [
  | inl full ↦
      rw (full, todo_full n t (ground arith))
        (finds t (rs ++ (t ∷ [])) (legal-FrontLegal t e) room (omega (arith, enough, left-due n t))
          ∙ ap some (append_assoc rs (t ∷ []) (remaining n t)))
  | inr short ↦
      let more : length t < n = ground arith in
      rw (short, sym (remaining_fresh n t more))
        (finds (0 ∷ t) rs e (omega arith) (omega (arith, enough, left_fresh n t more)))
]

visit-Finds :
    (n fuel : ℕ) (go_on : List ℕ → List (List ℕ) → Option (List (List ℕ))) (s : List ℕ)
    (rs : List (List ℕ)) (p : Bool × List ℕ)
    → Finds n go_on fuel
    → length s ≤ n
    → legal s ≡ p
    → Left s p
    → due n p < fuel
    → visit go_on n rs p ≡ some (rs ++ todo n p)
unfolding visit Finds due todo
visit-Finds n fuel go_on s rs (true, t) finds room e h enough =
    visit-legal n fuel go_on t rs finds (subst (λ u. length u ≤ n) (sym h) room)
      (subst (λ u. legal u ≡ (true, t)) (sym h) e) enough
visit-Finds n fuel go_on s rs (false, t) finds room e h enough =
    finds t rs (h.0) (omega (arith, h.1)) enough

queens_step-Finds :
    (n fuel : ℕ) (s : List ℕ) (rs : List (List ℕ)) (p : Option (List ℕ))
    → Finds n (queens_loop fuel n) fuel
    → length s ≤ n
    → left n s < suc fuel
    → next n s ≡ p
    → Goes n s p
    → DueLess n (left n s) p
    → queens_step (queens_loop fuel n) n rs p ≡ some (rs ++ remaining n s)
unfolding queens_step
queens_step-Finds n fuel s rs none finds room enough e goes less = rw (goes, append-nil rs) refl
queens_step-Finds n fuel s rs (some t) finds room enough e goes less = rw (sym goes) (
    visit-Finds n fuel (queens_loop fuel n) t rs (legal t) finds
      (omega (arith, room, length-next n s t e)) refl (legal-Left t) (omega (arith, less, enough)))

queens_loop-Finds : (n fuel : ℕ) → Finds n (queens_loop fuel n) fuel
unfolding Finds queens_loop queens_step
queens_loop-Finds n zero s rs f room enough = absurd (omega (arith, enough))
queens_loop-Finds n (suc fuel) s rs f room enough =
    queens_step-Finds n fuel s rs (next n s) (queens_loop-Finds n fuel) room enough refl
      (next-Goes n s f room) (next-DueLess n s f room)

left_start : (n : ℕ) → 0 < n → left n (0 ∷ []) ≡ cost n n
unfolding due left
left_start n some_queen = left_fresh n [] some_queen ∙ rw (all_left n) (omega arith)

-- With more calls than the rows cost, the search of one or more queens returns.
pub solve_n_queens-below :
    (n fuel : ℕ)
    → 0 < n
    → cost n n < fuel
    → solve_n_queens fuel n ≡ some (to_results n (below n n []))
unfolding solve_n_queens Finds legal
solve_n_queens-below n fuel some_queen enough =
    rw
      ((queens_loop-Finds n fuel (0 ∷ []) [] refl some_queen
          (omega (arith, enough, left_start n some_queen))
        ∙ ap some (remaining_fresh n [] some_queen ∙ todo_start n)))
      refl
