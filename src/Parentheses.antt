-- ===== src/Parentheses.antt =====
-- c++/leetcode/32.cpp: the longest part of a text that is well-formed parentheses. A character is a
-- number; any but `(` counts as `)`, as in the code, which is meant for texts of `(` and `)`. Lengths
-- fit an `int`.
pub mod Balanced
pub mod Row
pub mod Parts
pub mod WellFormed
pub mod Longest
mod Tests
use mathlib.Core.List.{reverse}
use code_c.Base.{
  ℕ, zero, suc, ◌+◌, Bool, Option, none, some, List, [], ◌∷◌, ◌++◌, ◌==◌, ltb, if◌then◌else◌, ◌>>=◌,
}

-- The values 0, -1, -2 and 1 of an entry of `v`.
pub data Mark : Type 0 where
  untouched waiting unmatched matched : Mark

pub opens : ℕ → Bool
opens c = c == b'('

-- The loop over `j` and `v[last] = 1`, on the entries below `i`, the last first; `none` for `last`
-- -1.
pub close_last : List Mark → Option (List Mark)
close_last [] = none
close_last (waiting ∷ v) = some (matched ∷ v)
close_last (untouched ∷ v) = do w ← close_last v; some (untouched ∷ w)
close_last (unmatched ∷ v) = do w ← close_last v; some (unmatched ∷ w)
close_last (matched ∷ v) = do w ← close_last v; some (matched ∷ w)

pub closed : List Mark → Option (List Mark) → List Mark
closed v none = unmatched ∷ v
closed v (some w) = matched ∷ w

-- One round of the loop over `i`, and the loop.
pub mark : ℕ → List Mark → List Mark
mark c v = if opens c then waiting ∷ v else closed v (close_last v)

pub mark_loop : List ℕ → List Mark → List Mark
mark_loop [] v = v
mark_loop (c ∷ s) v = mark_loop s (mark c v)

-- The loop that counts consecutive ones.
pub count_loop : ℕ → ℕ → List Mark → ℕ
count_loop max cur [] = max
count_loop max cur (matched ∷ v) = count_loop max (cur + 1) v
count_loop max cur (untouched ∷ v) = count_loop (if ltb max cur then cur else max) 0 v
count_loop max cur (waiting ∷ v) = count_loop (if ltb max cur then cur else max) 0 v
count_loop max cur (unmatched ∷ v) = count_loop (if ltb max cur then cur else max) 0 v

-- `longestValidParentheses`; the last entry of `v` is not written.
pub longest_valid_parentheses : List ℕ → ℕ
longest_valid_parentheses s = count_loop 0 0 (reverse (mark_loop s []) ++ (untouched ∷ []))
