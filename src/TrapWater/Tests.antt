-- ===== src/TrapWater/Tests.antt =====
-- The two versions on the row of the problem's statement.
use code_c.Base.{ℕ, List, [], ◌∷◌, ◌≡◌, refl, length}
use code_c.TrapWater.{trap, trap_with_levels, trap_loop, level_loop, sum_loop, raise}
use code_c.TrapWater.Levels.{water}
use code_c.TrapWater.Correct.{trap-water, trap_with_levels-trap}

abbrev row : List ℕ
row = 0 ∷ 1 ∷ 0 ∷ 2 ∷ 1 ∷ 0 ∷ 1 ∷ 3 ∷ 2 ∷ 1 ∷ 2 ∷ 1 ∷ []

row_holds : trap row ≡ 6
unfolding trap trap_loop raise
row_holds = refl

row_holds_by_levels : trap_with_levels row ≡ 6
unfolding trap_with_levels level_loop sum_loop raise
row_holds_by_levels = refl

trap-water_example : trap row ≡ water row 0 (length row)
trap-water_example = trap-water row

trap_with_levels-trap_example : trap_with_levels row ≡ trap row
trap_with_levels-trap_example = trap_with_levels-trap row
