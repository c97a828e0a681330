-- ===== src/Queens.antt =====
-- c++/leetcode/51-2.cpp: the placements of n queens. A vector of the code is the list of its entries,
-- the last first, and an entry is one more than in the code, where -1 stands for a row that is not
-- begun: differences of entries are the same.
pub mod Search
pub mod Work
pub mod Placed
pub mod Boards
pub mod Results
mod Tests
use mathlib.Core.List.{reverse}
use code_c.Base.{
  ℕ, zero, suc, ◌+◌, ◌-◌, Bool, true, false, not, ◌||◌, Option, none, some, List, [], ◌∷◌, ◌++◌,
  ◌==◌, ltb, if◌then◌else◌, length, map, set, replicate, ◌>>=◌,
}

-- `next`; `none` is false, where the entries are of no more use.
pub next : ℕ → List ℕ → Option (List ℕ)
next n [] = none
next n (q ∷ r) =
    let carried = (do s ← next n r; some (1 ∷ s)) in if ltb q n then some (suc q ∷ r) else carried

-- The loop over `j` of `legal` for the entry `q`, with the rows `k` and more before it.
pub attacked : ℕ → ℕ → List ℕ → Bool
attacked q k [] = false
attacked q k (p ∷ r) = (q == p || (q == p + k || q + k == p)) || attacked q (suc k) r

-- `legal`, with what it leaves of the vector.
pub checked : ℕ → List ℕ → Bool × List ℕ → Bool × List ℕ
checked q r (true, s) = (not (attacked q 1 r), q ∷ r)
checked q r (false, s) = (false, s)

pub legal : List ℕ → Bool × List ℕ
legal [] = (true, [])
legal (q ∷ r) = checked q r (legal r)

-- The loop of `solveNQueens`, on fuel, with `rs` as an argument.
pub visit :
    (List ℕ → List (List ℕ) → Option (List (List ℕ)))
    → ℕ
    → List (List ℕ)
    → Bool × List ℕ
    → Option (List (List ℕ))
visit go_on n rs (true, r) = if length r == n then go_on r (rs ++ (r ∷ [])) else go_on (0 ∷ r) rs
visit go_on n rs (false, r) = go_on r rs

pub queens_step :
    (List ℕ → List (List ℕ) → Option (List (List ℕ)))
    → ℕ
    → List (List ℕ)
    → Option (List ℕ)
    → Option (List (List ℕ))
queens_step go_on n rs none = some rs
queens_step go_on n rs (some r) = visit go_on n rs (legal r)

pub queens_loop : ℕ → ℕ → List ℕ → List (List ℕ) → Option (List (List ℕ))
queens_loop zero n r rs = none
queens_loop (suc fuel) n r rs = queens_step (queens_loop fuel n) n rs (next n r)

-- `to_results` on one vector and on all.
pub board : ℕ → List ℕ → List (List ℕ)
board n r = map (λ q. set (replicate n b'.') (q - 1) b'Q') (reverse r)

pub to_results : ℕ → List (List ℕ) → List (List (List ℕ))
to_results n rs = map (board n) rs

-- `solveNQueens`
pub solve_n_queens : ℕ → ℕ → Option (List (List (List ℕ)))
solve_n_queens fuel n = do rs ← queens_loop fuel n (0 ∷ []) []; some (to_results n rs)
