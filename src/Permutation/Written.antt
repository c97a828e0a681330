-- ===== src/Permutation/Written.antt =====
-- What 60.cpp writes, in the digits from 0 to 9.
use code_c.Base.{
  ℕ, zero, suc, ◌+◌, ◌-◌, ◌≤◌, ◌<◌, ◌≡◌, refl, ap, ap₂, ◌∙◌, some, List, [], ◌∷◌, map, All, arith,
  length, get_elem?, get_or,
}
use code_c.Permutation.{digit, counted, get_permutation}
use code_c.Permutation.Factorial.{factorial}
use code_c.Permutation.Order.{permutations, solve-permutations}

abbrev pub numerals : List ℕ
numerals = b'0' ∷ b'1' ∷ b'2' ∷ b'3' ∷ b'4' ∷ b'5' ∷ b'6' ∷ b'7' ∷ b'8' ∷ b'9' ∷ []

digit_numeral : (e : ℕ) → e ≤ 9 → digit e ≡ get_or numerals e 0
digit_numeral zero h = refl
digit_numeral (suc zero) h = refl
digit_numeral (suc (suc zero)) h = refl
digit_numeral (suc (suc (suc zero))) h = refl
digit_numeral (suc (suc (suc (suc zero)))) h = refl
digit_numeral (suc (suc (suc (suc (suc zero))))) h = refl
digit_numeral (suc (suc (suc (suc (suc (suc zero)))))) h = refl
digit_numeral (suc (suc (suc (suc (suc (suc (suc zero))))))) h = refl
digit_numeral (suc (suc (suc (suc (suc (suc (suc (suc zero)))))))) h = refl
digit_numeral (suc (suc (suc (suc (suc (suc (suc (suc (suc zero))))))))) h = refl
digit_numeral (suc (suc (suc (suc (suc (suc (suc (suc (suc (suc e)))))))))) h =
    absurd (omega (arith, h))

map-numerals : (p : List ℕ) → All (λ e. e ≤ 9) p → map digit p ≡ map (λ e. get_or numerals e 0) p
map-numerals [] h = refl
map-numerals (e ∷ p) h = ap₂ ◌∷◌ (digit_numeral e h.0) (map-numerals p h.1)

length-counted : (n i : ℕ) → length (counted n i) ≡ n
unfolding counted
length-counted zero i = refl
length-counted (suc n) i = ap suc (length-counted n (i + 1))

counted_All : (n i : ℕ) → i + n ≤ 9 → All (λ e. e ≤ 9) (counted n i)
unfolding counted
counted_All zero i h = tt
counted_All (suc n) i h = (omega (arith, h), counted_All n (i + 1) (omega (arith, h)))

-- For every `n` up to 9 and every `k` from 1 to the factorial of `n`: `getPermutation(n, k)` accesses
-- nothing outside its vector, no factorial in it overflows, and it returns the permutation at place
-- `k - 1` of all permutations of the numbers from 1 to `n` in the order of the dictionary, each number
-- as its digit.
pub get_permutation-permutations :
    (n k : ℕ)
    → n ≤ 9
    → 0 < k
    → k ≤ factorial n
    → (p : List ℕ) × (get_elem? (permutations n (counted n 0)) (k - 1) ≡ some p)
      × (get_permutation n k ≡ some (map (λ e. get_or numerals e 0) p))
unfolding get_permutation
get_permutation-permutations n k small low high =
    let (p, at, written, digits) =
      solve-permutations n (counted n 0) k [] (length-counted n 0) (omega (arith, small))
        (counted_All n 0 (omega (arith, small))) low high in
    (p, at, written ∙ ap some (map-numerals p digits))
