-- ===== src/Queens/Tests.antt =====
-- The search of 51-2.cpp for four queens.
use mathlib.Core.List.{Memᴰ}
use code_c.Base.{ℕ, ◌<◌, ◌≡◌, refl, some, List, [], ◌∷◌, arith}
use code_c.Queens.{
  next, attacked, checked, legal, visit, queens_step, queens_loop, board, to_results,
  solve_n_queens,
}
use code_c.Queens.Placed.{Placement}
use code_c.Queens.Work.{cost}
use code_c.Queens.Boards.{AreBoards}
use code_c.Queens.Results.{Distinct, solve_n_queens-Placement}

three_queens : solve_n_queens 40 3 ≡ some []
unfolding solve_n_queens queens_loop queens_step visit legal checked attacked next to_results board
three_queens = refl

four_queens :
    queens_loop 341 4 (0 ∷ []) [] ≡ some ((3 ∷ 1 ∷ 4 ∷ 2 ∷ []) ∷ (2 ∷ 4 ∷ 1 ∷ 3 ∷ []) ∷ [])
unfolding queens_loop queens_step visit legal checked attacked next
four_queens = refl

two_rows : board 2 (2 ∷ 1 ∷ []) ≡ (b'Q' ∷ b'.' ∷ []) ∷ (b'.' ∷ b'Q' ∷ []) ∷ []
unfolding board
two_rows = refl

four_calls : cost 4 4 < 341
unfolding cost
four_calls = omega arith

solve_n_queens-Placement_example :
    (rs : List (List ℕ)) × (solve_n_queens 341 4 ≡ some (to_results 4 rs))
    × ((s : List ℕ) → (Memᴰ s rs → Placement 4 s) × (Placement 4 s → Memᴰ s rs))
    × Distinct rs
    × AreBoards 4 rs (to_results 4 rs)
solve_n_queens-Placement_example = solve_n_queens-Placement 4 341 (omega arith) four_calls
