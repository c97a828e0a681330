-- ===== src/Permutation/Factorial.antt =====
-- `fac` of 60.cpp computes factorials as long as they fit its `int`.
use native.Mathlib.Nat.{suc-mul, mul_comm}
use code_c.Base.{
  ℕ, zero, suc, ◌+◌, ◌-◌, ◌*◌, ◌^◌, lt→ltb, ◌≤◌, ◌<◌, ◌≡◌, refl, ap, ◌∙◌, some, arith,
}
use code_c.Permutation.{fac_loop, fac}

unfoldable pub factorial : ℕ → ℕ
factorial zero = 1
factorial (suc n) = suc n * factorial n

pub factorial_pos : (m : ℕ) → 0 < factorial m
unfolding factorial
factorial_pos zero = omega arith
factorial_pos (suc m) = omega (arith, factorial_pos m, suc-mul m (factorial m))

pub factorial_0 : factorial 0 ≡ 1
unfolding factorial
factorial_0 = refl

pub factorial-suc : (n : ℕ) → factorial (suc n) ≡ suc n * factorial n
unfolding factorial
factorial-suc n = refl

-- `fac` of a number up to 12 does not overflow.
factorial_grows : (j r : ℕ) → factorial j ≤ factorial (j + r)
unfolding factorial
factorial_grows j zero = let same : j + 0 ≡ j = omega arith in rw same (omega arith)
factorial_grows j (suc r) =
    let next : j + suc r ≡ suc (j + r) = omega arith in
    rw next (omega (arith, factorial_grows j r, suc-mul (j + r) (factorial (j + r))))

factorial_12 : factorial 12 ≡ 479001600
unfolding factorial
factorial_12 = refl

factorial_fits : (j : ℕ) → j ≤ 12 → factorial j < 2 ^ 31
factorial_fits j h =
    let at : factorial (j + (12 - j)) ≡ factorial 12 = ap factorial (omega (arith, h)) in
    omega (arith, factorial_grows j (12 - j), at, factorial_12)

step : (j : ℕ) → suc j + 1 ≡ suc (suc j)
step j = omega arith

fac_loop-factorial :
    (r j : ℕ) → j + r ≤ 12 → fac_loop r (suc j) (factorial j) ≡ some (factorial (j + r))
unfolding fac_loop factorial
fac_loop-factorial zero j h = let same : j + 0 ≡ j = omega arith in rw same refl
fac_loop-factorial (suc r) j h =
    let next : suc j + r ≡ j + suc r = omega arith in
    let times : factorial j * suc j ≡ factorial (suc j) = mul_comm (factorial j) (suc j) in
    let small = factorial_fits (suc j) (omega (arith, h)) in
    rw (times, lt→ltb (factorial (suc j)) (2 ^ 31) small, step j)
      (fac_loop-factorial r (suc j) (omega (arith, h)) ∙ ap (λ k. some (factorial k)) next)

pub fac-factorial : (m : ℕ) → m ≤ 12 → fac m ≡ some (factorial m)
unfolding fac factorial
fac-factorial m h =
    fac_loop-factorial m 0 (omega (arith, h)) ∙ ap (λ k. some (factorial k)) (omega arith)
