-- ===== src/Base/Cyclic.antt =====
-- Remainders by a variable, in the one round that an index of a ring makes.
use native.Mathlib.Nat.{mod-eq_of_lt, mod-eq-sub-mod}
use code_c.Base.{ℕ, ◌+◌, ◌-◌, ◌%◌, ◌≤◌, ◌<◌, ◌≡◌, ◌∙◌, arith}

pub mod_below : (n size : ℕ) → n < size → n % size ≡ n
mod_below n size h = mod-eq_of_lt h

pub mod_round : (n size : ℕ) → size ≤ n → n < size + size → n % size ≡ n - size
mod_round n size low high =
    mod-eq-sub-mod {n = n} {m = size} low ∙ mod-eq_of_lt {n = n - size} (omega arith)
