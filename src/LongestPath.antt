-- ===== src/LongestPath.antt =====
-- c++/leetcode/388.cpp: the longest path of a file in the text of a file system.
pub mod Forest
pub mod Texts
pub mod Longest
mod Tests
use code_c.Base.{
  ℕ, zero, suc, ◌+◌, ◌-◌, Bool, true, false, Option, none, some, List, [], ◌∷◌, ◌++◌, ◌==◌, ltb,
  if◌then◌else◌, length, replicate, ◌>>=◌,
}

-- The loop of `nextline` from `pos` on, where `k` characters of the line are behind: how many the line
-- has, `level`, `isfile` and the text at the new `pos`. Behind the text the code reads one 0.
pub scan : List ℕ → ℕ → ℕ → Bool → ℕ × ℕ × Bool × List ℕ
scan [] k level is_file = (k, level, is_file, [])
scan (c ∷ s) k level is_file =
    let more =
      scan s (suc k) (if c == 9 then suc level else level)
        (if c == 9 then is_file else if c == b'.' then true else is_file) in
    if c == 10 then (k, level, is_file, s) else more

-- `resize` of a vector, its last entry first.
pub resize : ℕ → List ℕ → List ℕ
resize level [] = replicate level 0
resize level (x ∷ v) =
    let fewer = resize level v in
    if ltb level (suc (length v)) then fewer else replicate (level - suc (length v)) 0 ++ (x ∷ v)

pub last_or_0 : List ℕ → ℕ
last_or_0 [] = 0
last_or_0 (x ∷ v) = x

-- The body of the loop of `lengthLongestPath` after `nextline`: `v` and `max`.
pub add_line : ℕ → ℕ → Bool → List ℕ → ℕ → List ℕ × ℕ
add_line len level is_file v longest =
    let above = resize level v in
    let cur = last_or_0 above + 1 + len in
    if is_file then (above, if ltb longest cur then cur else longest) else (cur ∷ above, longest)

-- That loop, on fuel. A line without a name ends it, and the end of the text.
pub path_loop : ℕ → List ℕ → List ℕ → ℕ → Option ℕ
path_loop zero s v longest = none
path_loop (suc fuel) s v longest =
    let (k, level, is_file, rest) = scan s 0 0 false in
    let added = add_line (k - level) level is_file v longest in
    let more = path_loop fuel rest added.0 added.1 in if k - level == 0 then some longest else more

-- `lengthLongestPath`
pub length_longest_path : ℕ → List ℕ → Option ℕ
length_longest_path fuel input = do
  longest ← path_loop fuel input [] 0
  some (if ltb 0 longest then longest - 1 else 0)
