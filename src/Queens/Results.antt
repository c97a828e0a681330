-- ===== src/Queens/Results.antt =====
-- The search of 51-2.cpp finds each placement once.
use mathlib.Core.List.Memᴰ
use mathlib.Core.List.{Memᴰ}
use code_c.Base.{
  ℕ, zero, suc, ◌+◌, ◌≤◌, ◌<◌, ◌≡◌, refl, ap, sym, ◌∙◌, Bool, true, false, some, List, [], ◌∷◌,
  ◌++◌, get_elem?, arith, Bool-cases, inl, inr, some_injective, if◌then◌else◌,
}
use code_c.Queens.{attacked, to_results, solve_n_queens}
use code_c.Queens.Search.{tries, below}
use code_c.Queens.Work.{cost, solve_n_queens-below}
use code_c.Queens.Boards.{AreBoards, to_results-AreBoards}
use code_c.Queens.Placed.{Placement, found, listed}

-- No entry of the list stands in it again.
abbrev pub Distinct : List (List ℕ) → Type 0
Distinct [] = Unit
Distinct (s ∷ rs) = (Memᴰ s rs → ⊥) × Distinct rs

append-Distinct :
    (rs ts : List (List ℕ))
    → Distinct rs
    → Distinct ts
    → ((s : List ℕ) → Memᴰ s rs → Memᴰ s ts → ⊥)
    → Distinct (rs ++ ts)
append-Distinct [] ts d e apart = e
append-Distinct (r ∷ rs) ts d e apart = (
  λ m. elim (Memᴰ.append_cases rs m) [ inl h ↦ d.0 h | inr h ↦ apart r (Memᴰ.head refl) h ],
  append-Distinct rs ts d.1 e (λ s h. apart s (Memᴰ.tail h)),
)

-- The vectors below one keep its rows, and the entry behind them is one of those tried.
abbrev Keeps : ℕ → List ℕ → List ℕ → Type 0
Keeps d r s = (i : ℕ) → get_elem? s (d + i) ≡ get_elem? r i

Behind : ℕ → ℕ → List ℕ → List ℕ → Type 0
Behind d q r s = (e : ℕ) × (q ≤ e) × Keeps d (e ∷ r) s

tries-Behind :
    (n d : ℕ) (r s : List ℕ) (q k : ℕ)
    → ((e : ℕ) → Memᴰ s (below n d (e ∷ r)) → Keeps d (e ∷ r) s)
    → Memᴰ s (tries (below n d) r q k)
    → Behind d q r s
unfolding tries Behind
tries-Behind n d r s q zero keeps m = absurd (Memᴰ.not-nil m)
tries-Behind n d r s q (suc k) keeps m =
    elim (Memᴰ.append_cases (if attacked q 1 r then [] else below n d (q ∷ r)) m) [
      | inl here ↦ elim (Bool-cases (attacked q 1 r)) [
        | inl a ↦ absurd (Memᴰ.not-nil (rw a at here))
        | inr a ↦ (q, omega arith, keeps q (rw a at here))
      ]
      | inr there ↦
          let (e, l, f) = tries-Behind n d r s (suc q) k keeps there in (e, omega (arith, l), f)
    ]

zero_first : (i : ℕ) → 0 + i ≡ i
zero_first i = omega arith

next_row : (d i : ℕ) → suc d + i ≡ d + suc i
next_row d i = omega arith

below-Keeps : (n d : ℕ) (r s : List ℕ) → Memᴰ s (below n d r) → Keeps d r s
unfolding below Behind
below-Keeps n zero r s m i =
    ap (λ u. get_elem? u (0 + i)) (Memᴰ.eq_of_singleton m) ∙ ap (get_elem? r) (zero_first i)
below-Keeps n (suc d) r s m i =
    let (e, l, f) = tries-Behind n d r s 1 n (λ e. below-Keeps n d (e ∷ r) s) m in
    ap (get_elem? s) (next_row d i) ∙ f (suc i)

if-Distinct : (b : Bool) (rs : List (List ℕ)) → Distinct rs → Distinct (if b then [] else rs)
if-Distinct true rs d = tt
if-Distinct false rs d = d

if_member : {s : List ℕ} (b : Bool) (rs : List (List ℕ)) → Memᴰ s (if b then [] else rs) → Memᴰ s rs
if_member true rs m = absurd (Memᴰ.not-nil m)
if_member false rs m = m

tries-Distinct :
    (n d : ℕ) (r : List ℕ) (q k : ℕ)
    → ((e : ℕ) → Distinct (below n d (e ∷ r)))
    → Distinct (tries (below n d) r q k)
unfolding tries Behind
tries-Distinct n d r q zero once = tt
tries-Distinct n d r q (suc k) once =
    append-Distinct (if attacked q 1 r then [] else below n d (q ∷ r))
      (tries (below n d) r (suc q) k) (if-Distinct (attacked q 1 r) (below n d (q ∷ r)) (once q))
      (tries-Distinct n d r (suc q) k once)
      (λ s here there.
        let (e, l, f) = tries-Behind n d r s (suc q) k (λ e. below-Keeps n d (e ∷ r) s) there in
        let q_here = below-Keeps n d (q ∷ r) s (if_member (attacked q 1 r) _ here) 0 in
        let same : q ≡ e = some_injective (sym q_here ∙ f 0) in omega (arith, l, same))

below-Distinct : (n d : ℕ) (r : List ℕ) → Distinct (below n d r)
unfolding below
below-Distinct n zero r = (Memᴰ.not-nil, tt)
below-Distinct n (suc d) r = tries-Distinct n d r 1 n (λ e. below-Distinct n d (e ∷ r))

-- With one queen or more, and more calls of `next` than `cost`, the search returns the boards of a
-- list of vectors. A vector is in the list when it is a placement of the queens and only then, no
-- vector is in it twice, and the board of each has a row for each of its columns, with a `Q` in the
-- column and dots in the others.
pub solve_n_queens-Placement :
    (n fuel : ℕ)
    → 0 < n
    → cost n n < fuel
    → (rs : List (List ℕ)) × (solve_n_queens fuel n ≡ some (to_results n rs))
      × ((s : List ℕ) → (Memᴰ s rs → Placement n s) × (Placement n s → Memᴰ s rs))
      × Distinct rs
      × AreBoards n rs (to_results n rs)
solve_n_queens-Placement n fuel some_queen enough = (
  below n n [],
  solve_n_queens-below n fuel some_queen enough,
  (λ s. (found n s, listed n s)),
  below-Distinct n n [],
  to_results-AreBoards n (below n n []) (found n),
)
