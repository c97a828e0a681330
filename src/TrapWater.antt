-- ===== src/TrapWater.antt =====
-- c++/leetcode/42.cpp and 42-2.cpp: how much rain a row of walls holds, by two pointers. Heights are
-- numbers that are not negative, and sums stay below the range of `int`. The variable `j`, which is
-- -1 for an empty row, is `e` with `e` one more than `j`.
pub mod Levels
pub mod Pointers
pub mod Correct
mod Tests
use code_c.Base.{
  ℕ, zero, suc, ◌+◌, ◌-◌, List, [], ◌∷◌, ltb, leb, if◌then◌else◌, length, get_or, set, replicate,
}

-- `if (val < height[k]) val = height[k];`
pub raise : ℕ → ℕ → ℕ
raise val height = if ltb val height then height else val

-- The loop of 42-2.cpp, on fuel.
pub trap_loop : ℕ → List ℕ → ℕ → ℕ → ℕ → ℕ → ℕ
trap_loop zero height i e val result = result
trap_loop (suc fuel) height i e val result =
    let left = raise val (get_or height i 0) in
    let right = raise val (get_or height (e - 1) 0) in
    let go_left = trap_loop fuel height (i + 1) e left (result + (left - get_or height i 0)) in
    let go_right =
      trap_loop fuel height i (e - 1) right (result + (right - get_or height (e - 1) 0)) in
    if ltb i e
    then if leb (get_or height i 0) (get_or height (e - 1) 0) then go_left else go_right
    else result

-- `trap` of 42-2.cpp
pub trap : List ℕ → ℕ
unfolding trap_loop raise
trap height = trap_loop (length height) height 0 (length height) 0 0

-- The first loop of 42.cpp, which writes the water levels into `h`.
pub level_loop : ℕ → List ℕ → ℕ → ℕ → ℕ → List ℕ → List ℕ
level_loop zero height i e val h = h
level_loop (suc fuel) height i e val h =
    let left = raise val (get_or height i 0) in
    let right = raise val (get_or height (e - 1) 0) in
    let go_left = level_loop fuel height (i + 1) e left (set h i left) in
    let go_right = level_loop fuel height i (e - 1) right (set h (e - 1) right) in
    if ltb i e
    then if leb (get_or height i 0) (get_or height (e - 1) 0) then go_left else go_right
    else h

-- The second loop: `result += h[i]-height[i]` for the `rounds` places from `i` on.
pub sum_loop : ℕ → ℕ → List ℕ → List ℕ → ℕ → ℕ
sum_loop zero i h height result = result
sum_loop (suc rounds) i h height result =
    sum_loop rounds (i + 1) h height (result + (get_or h i 0 - get_or height i 0))

-- `trap` of 42.cpp
pub trap_with_levels : List ℕ → ℕ
unfolding level_loop sum_loop raise
trap_with_levels height =
    let h = level_loop (length height) height 0 (length height) 0 (replicate (length height) 0) in
    sum_loop (length height) 0 h height 0
