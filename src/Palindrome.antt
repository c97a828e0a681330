-- ===== src/Palindrome.antt =====
-- c++/leetcode/214.cpp: the shortest palindrome that a text can be completed to by characters before
-- it. A character is a number. Subscripts stay below the length; a read out of range would give 0.
pub mod Mirror
pub mod Reversed
pub mod Center
pub mod Shortest
mod Tests
use mathlib.Core.List.{reverse}
use code_c.Base.{
  ℕ, zero, suc, ◌+◌, ◌-◌, ◌/◌, Bool, ◌||◌, Option, none, some, List, [], ◌∷◌, ◌++◌, ◌==◌, leb, ltb,
  if◌then◌else◌, length, get_or, take, ◌>>=◌,
}

-- The loop over `j` down from `rounds - 1`: the first place that differs from its mirror image, if any.
pub mirror_loop : List ℕ → ℕ → ℕ → Option ℕ
mirror_loop s i zero = none
mirror_loop s i (suc j) =
    let rest = mirror_loop s i j in if get_or s j 0 == get_or s (i - j) 0 then rest else some j

-- The loop over `k` down from `rounds - 1` for the character `c`: `k + 1` at its end.
pub find_same : List ℕ → ℕ → ℕ → ℕ
find_same s c zero = 0
find_same s c (suc k) = let rest = find_same s c k in if get_or s k 0 == c then suc k else rest

-- `i = i-j+k+1` and the `i--` of the loop; `j` is below `i`.
pub next_center : List ℕ → ℕ → ℕ → ℕ
next_center s i j = i - j + find_same s (get_or s (i - j) 0) j - 1

-- The loop over `i`, on fuel: twice the place of the axis.
pub center_step : (ℕ → Option ℕ) → List ℕ → ℕ → Option ℕ → Option ℕ
center_step go_on s i none = some i
center_step go_on s i (some j) = go_on (next_center s i j)

pub center_loop : ℕ → List ℕ → ℕ → Option ℕ
center_loop zero s i = none
center_loop (suc fuel) s zero = some zero
center_loop (suc fuel) s (suc i) =
    center_step (center_loop fuel s) s (suc i) (mirror_loop s (suc i) (i / 2 + 1))

-- `complete`, for a `c` that is not negative.
pub complete : List ℕ → ℕ → List ℕ
complete s c =
    if leb (length s) 1 || ltb (length s - 1) c then s else take (length s - 1 - c) (reverse s) ++ s

-- `shortestPalindrome`. For an empty text `i` starts at -1 and not at 0, and `complete` returns the
-- text in both cases.
pub shortest_palindrome : List ℕ → Option (List ℕ)
shortest_palindrome s = do c ← center_loop (length s + 1) s (length s - 1); some (complete s c)
