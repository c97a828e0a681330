-- ===== src/Permutation.antt =====
-- c++/leetcode/60.cpp: the k-th permutation of the numbers from 1 to n, written in digits. The
-- factorials are an `int` of 32 bits; the other numbers are at most `k` or `n`.
pub mod Factorial
pub mod Order
pub mod Written
mod Tests
use code_c.Base.{
  ℕ, zero, suc, ◌+◌, ◌-◌, ◌*◌, ◌/◌, ◌%◌, ◌^◌, ltb, ◌>>=◌, Option, none, some, List, [], ◌∷◌, ◌++◌,
  ◌==◌, if◌then◌else◌, length, get_elem?,
}

-- The loop of `fac` with `rounds` to go, and `fac`; `none` is an overflow of `f *= i`.
pub fac_loop : ℕ → ℕ → ℕ → Option ℕ
fac_loop zero i f = some f
fac_loop (suc rounds) i f =
    let more = fac_loop rounds (i + 1) (f * i) in if ltb (f * i) (2 ^ 31) then more else none

pub fac : ℕ → Option ℕ
unfolding fac_loop
fac x = fac_loop x 1 1

-- `v.erase(v.begin() + i)`
pub erase_at : ℕ → List ℕ → List ℕ
erase_at i [] = []
erase_at zero (x ∷ xs) = xs
erase_at (suc i) (x ∷ xs) = x ∷ erase_at i xs

-- `'0' + e`, as a `char`
abbrev pub digit : ℕ → ℕ
digit e = (b'0' + e) % 256

-- `solve`, on fuel: the text `res` afterwards. An overflow and an access outside `v` are `none`.
pub solve : ℕ → List ℕ → ℕ → List ℕ → Option (List ℕ)
unfolding fac erase_at
solve zero v k res = if length v == 0 then some res else none
solve (suc fuel) v k res =
    let go_on : Option (List ℕ) = (do
      f ← fac (length v - 1)
      e ← get_elem? v ((k - 1) / f)
      solve fuel (erase_at ((k - 1) / f) v) (k - (k - 1) / f * f) (res ++ (digit e ∷ []))) in
    if length v == 0 then some res else go_on

-- `v[i] = i+1`, for the `rounds` places from `i` on
pub counted : ℕ → ℕ → List ℕ
counted zero i = []
counted (suc rounds) i = (i + 1) ∷ counted rounds (i + 1)

-- `getPermutation`
pub get_permutation : ℕ → ℕ → Option (List ℕ)
unfolding solve counted
get_permutation n k = solve n (counted n 0) k []
