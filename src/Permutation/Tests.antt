-- ===== src/Permutation/Tests.antt =====
-- Permutations of three numbers.
use code_c.Base.{ℕ, ◌-◌, ◌≤◌, ◌≡◌, refl, none, some, get_or, List, [], ◌∷◌, map, get_elem?, arith}
use code_c.Permutation.{fac, fac_loop, erase_at, solve, counted, get_permutation}
use code_c.Permutation.Factorial.{factorial}
use code_c.Permutation.Order.{permutations}
use code_c.Permutation.Written.{numerals, get_permutation-permutations}

third_holds : get_permutation 3 3 ≡ some (b'2' ∷ b'1' ∷ b'3' ∷ [])
unfolding get_permutation solve counted erase_at fac fac_loop
third_holds = refl

three_small : 3 ≤ factorial 3
unfolding factorial
three_small = omega arith

fac_overflows : fac 13 ≡ none
unfolding fac fac_loop
fac_overflows = refl

get_permutation-permutations_example :
    (p : List ℕ) × (get_elem? (permutations 3 (counted 3 0)) (3 - 1) ≡ some p)
    × (get_permutation 3 3 ≡ some (map (λ e. get_or numerals e 0) p))
get_permutation-permutations_example =
    get_permutation-permutations 3 3 (omega arith) (omega arith) three_small
