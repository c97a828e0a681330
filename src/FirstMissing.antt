-- ===== src/FirstMissing.antt =====
-- c++/leetcode/41.cpp: the least positive number that is not in a list. The marks `v` are a member of
-- the class, so a call begins with what the last one left in them.
pub mod Least
mod Tests
use code_c.Base.{
  ℕ, zero, suc, ◌+◌, ◌-◌, Bool, true, false, ◌&&◌, List, [], ◌∷◌, ◌++◌, ltb, if◌then◌else◌, length,
  get_or, set, take, replicate,
}
use code_c.Base.Int.{ℤ, pos, negsuc}

-- `v.resize(size)`
pub sized : List Bool → ℕ → List Bool
sized v size = take size v ++ replicate (size - length v) false

-- `if (n > 0 && n < v.size()) v[n] = true;`
pub mark : ℤ → List Bool → List Bool
mark (pos n) v = if ltb 0 n && ltb n (length v) then set v n true else v
mark (negsuc n) v = v

pub mark_loop : List ℤ → List Bool → List Bool
unfolding mark
mark_loop [] v = v
mark_loop (n ∷ nums) v = mark_loop nums (mark n v)

-- The second loop, with `rounds` places from `i` on to look at, and the return behind it.
pub scan_loop : ℕ → ℕ → List Bool → ℕ
scan_loop zero i v = length v
scan_loop (suc rounds) i v =
    let later = scan_loop rounds (i + 1) v in if get_or v i false then later else i

-- `firstMissingPositive`: the result, and the marks it leaves.
pub first_missing : List ℤ → List Bool → ℕ × List Bool
unfolding sized mark_loop scan_loop
first_missing nums v =
    let marked = mark_loop nums (sized v (length nums + 1)) in
    (scan_loop (length marked - 1) 1 marked, marked)
