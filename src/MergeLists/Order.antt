-- ===== src/MergeLists/Order.antt =====
-- What the comparator of 23.cpp orders.
use code_c.Base.{
  ℕ, ◌≡◌, ◌≢◌, ◌≤◌, refl, List, [], ◌∷◌, arith, true, ◌&&◌, leb, if◌then◌else◌, ◌⊎◌, Bool-cases,
  inl, inr,
}
use code_c.MergeLists.{weight, count, cmp, Orders}

-- No value stands in the lists twice.
abbrev pub Once : List (List ℕ) → Type 0
Once q = (v : ℕ) → weight (count v) q ≤ 1

weight_below :
    (f g : List ℕ → ℕ) (q : List (List ℕ)) → ((l : List ℕ) → f l ≤ g l) → weight f q ≤ weight g q
weight_below f g [] h = omega arith
weight_below f g (l ∷ q) h = omega (arith, h l, weight_below f g q h)

-- Two lists that are not below each other begin with the same value.
level_count :
    (v : ℕ) (ms l : List ℕ) → (if cmp l (v ∷ ms) && cmp (v ∷ ms) l then 1 else 0) ≤ count v l
unfolding cmp
level_count v ms [] = omega arith
level_count v ms (x ∷ l) = ground arith

level_null : (q : List (List ℕ)) → weight (λ l. if cmp l [] && cmp [] l then 1 else 0) q ≤ 1
unfolding cmp
level_null [] = omega arith
level_null ([] ∷ q) = omega (arith, level_null q)
level_null ((x ∷ l) ∷ q) = omega (arith, level_null q)

Once-level :
    (q : List (List ℕ))
    → Once q
    → (m : List ℕ) → weight (λ l. if cmp l m && cmp m l then 1 else 0) q ≤ 1
Once-level q once [] = level_null q
Once-level q once (v ∷ ms) = omega (arith, once v, weight_below _ _ q (level_count v ms))

cmp_trans : (a b c : List ℕ) → cmp a b ≡ true → cmp b c ≡ true → cmp a c ≡ true
unfolding cmp
cmp_trans [] b c h k = absurd (ground (arith, h))
cmp_trans (x ∷ a) [] c h k = absurd (ground (arith, h))
cmp_trans (x ∷ a) (y ∷ b) [] h k = absurd (ground (arith, k))
cmp_trans (x ∷ a) (y ∷ b) (z ∷ c) h k = ground arith

cmp_weak : (a b c : List ℕ) → b ≢ [] → cmp a c ≡ true → (cmp a b ≡ true) ⊎ (cmp b c ≡ true)
unfolding cmp
cmp_weak [] b c ne h = absurd (ground (arith, h))
cmp_weak (x ∷ a) [] c ne h = absurd (ne refl)
cmp_weak (x ∷ a) (y ∷ b) [] ne h = absurd (ground (arith, h))
cmp_weak (x ∷ a) (y ∷ b) (z ∷ c) ne h = elim (Bool-cases (leb y x)) [
  | inl e ↦ inl e
  | inr e ↦ inr (ground arith)
]

-- `cmp`, which holds of equal values both ways, orders lists of different values.
pub Once-Orders : (q : List (List ℕ)) → Once q → Orders cmp q
Once-Orders q once = (cmp_trans, cmp_weak, Once-level q once)
