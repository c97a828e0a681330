-- ===== src/Permutation/Order.antt =====
-- The permutations in the order of the dictionary, and what `solve` writes.
use mathlib.Core.Option
use native.Mathlib.Nat.{mod-add-div, mod-lt, suc-mul, mul_comm, div-lt_iff_lt-mul}
use code_c.Base.{
  ℕ, zero, suc, ◌+◌, ◌-◌, ◌*◌, ◌/◌, ◌%◌, ◌≤◌, ◌<◌, ◌≡◌, refl, ap, sym, ◌∙◌, some, List, [], ◌∷◌,
  ◌++◌, map, append_assoc, append-nil, some_injective, none_ne_some, All, subst, arith, length,
  length-append, length-map, get_elem?, ◌==◌, false,
}
use code_c.Permutation.Factorial.{
  factorial, factorial_pos, factorial_0, factorial-suc, fac-factorial,
}
use code_c.Permutation.{erase_at, digit, solve}

-- Every choice of a first number from `xs`, followed by what `rest` gives for the others.
choose : (List ℕ → List (List ℕ)) → List ℕ → List ℕ → List (List ℕ)
choose rest front [] = []
choose rest front (x ∷ xs) =
    map (λ p. x ∷ p) (rest (front ++ xs)) ++ choose rest (front ++ (x ∷ [])) xs

-- All permutations of a list of `m` numbers, those with an earlier first number first.
pub permutations : ℕ → List ℕ → List (List ℕ)
unfolding choose
permutations zero v = [] ∷ []
permutations (suc m) v = choose (permutations m) [] v

module _ {ℓ} {A : Type ℓ} where
  get_elem?-append_left :
      (xs ys : List A) (i : ℕ) → i < length xs → get_elem? (xs ++ ys) i ≡ get_elem? xs i
  get_elem?-append_left [] ys i h = absurd (omega arith)
  get_elem?-append_left (x ∷ xs) ys zero h = refl
  get_elem?-append_left (x ∷ xs) ys (suc i) h = get_elem?-append_left xs ys i (omega arith)

  get_elem?-append_right :
      (xs ys : List A) (i j : ℕ) → i ≡ length xs + j → get_elem? (xs ++ ys) i ≡ get_elem? ys j
  get_elem?-append_right [] ys i j e = let same : i ≡ j = omega arith in rw same refl
  get_elem?-append_right (x ∷ xs) ys zero j e = absurd (omega arith)
  get_elem?-append_right (x ∷ xs) ys (suc i) j e = get_elem?-append_right xs ys i j (omega arith)

  get_elem?-map {κ} :
      {B : Type κ} (f : A → B) (xs : List A) (i : ℕ)
      → get_elem? (map f xs) i ≡ Option.map f (get_elem? xs i)
  get_elem?-map f [] i = refl
  get_elem?-map f (x ∷ xs) zero = refl
  get_elem?-map f (x ∷ xs) (suc i) = get_elem?-map f xs i

module _ (rest : List ℕ → List (List ℕ)) (n f : ℕ)
    (sizes : (w : List ℕ) → length w ≡ n → length (rest w) ≡ f) where
  length-block :
      (x : ℕ) (front xs : List ℕ)
      → length front + length xs ≡ n
      → length (map (λ p. x ∷ p) (rest (front ++ xs))) ≡ f
  length-block x front xs size =
      length-map (rest (front ++ xs)) (λ p. x ∷ p)
      ∙ sizes (front ++ xs) (omega (arith, length-append front xs))

  length-choose :
      (front xs : List ℕ)
      → length front + length xs ≡ n + 1
      → length (choose rest front xs) ≡ length xs * f
  unfolding choose
  length-choose front [] size = omega arith
  length-choose front (x ∷ xs) size = omega (
    arith,
    length-append (map (λ p. x ∷ p) (rest (front ++ xs))) (choose rest (front ++ (x ∷ [])) xs),
    length-block x front xs (omega arith),
    length-choose (front ++ (x ∷ [])) xs (omega (arith, length-append front (x ∷ []))),
    suc-mul (length xs) f,
  )

  choose-get :
      (front xs : List ℕ) (i r e : ℕ)
      → length front + length xs ≡ n + 1
      → get_elem? xs i ≡ some e
      → r < f
      → get_elem? (choose rest front xs) (i * f + r)
        ≡ Option.map (λ p. e ∷ p) (get_elem? (rest (front ++ erase_at i xs)) r)
  unfolding choose erase_at
  choose-get front [] i r e size here low = absurd (grind arith)
  choose-get front (x ∷ xs) zero r e size here low =
      let first : 0 * f + r ≡ r = omega arith in
      let same : x ≡ e = some_injective here in
      rw (first, sym same)
        (get_elem?-append_left (map (λ p. x ∷ p) (rest (front ++ xs)))
            (choose rest (front ++ (x ∷ [])) xs) r
            (omega (arith, length-block x front xs (omega arith)))
          ∙ get_elem?-map (λ p. x ∷ p) (rest (front ++ xs)) r)
  choose-get front (x ∷ xs) (suc i) r e size here low =
      get_elem?-append_right (map (λ p. x ∷ p) (rest (front ++ xs)))
        (choose rest (front ++ (x ∷ [])) xs) (suc i * f + r) (i * f + r)
        (omega (arith, suc-mul i f, length-block x front xs (omega arith)))
      ∙ choose-get (front ++ (x ∷ [])) xs i r e (omega (arith, length-append front (x ∷ []))) here
          low
      ∙ ap (λ w. Option.map (λ p. e ∷ p) (get_elem? (rest w) r))
          (append_assoc front (x ∷ []) (erase_at i xs))

length-permutations : (m : ℕ) (v : List ℕ) → length v ≡ m → length (permutations m v) ≡ factorial m
unfolding permutations
length-permutations zero v size = sym factorial_0
length-permutations (suc m) v size =
    length-choose (permutations m) m (factorial m) (length-permutations m) [] v (omega arith)
    ∙ rw (size, factorial-suc m) refl

get_elem?-inside : (v : List ℕ) (i : ℕ) → i < length v → (e : ℕ) × (get_elem? v i ≡ some e)
get_elem?-inside [] i h = absurd (omega arith)
get_elem?-inside (x ∷ xs) zero h = (x, refl)
get_elem?-inside (x ∷ xs) (suc i) h = get_elem?-inside xs i (omega arith)

length-erase_at : (i : ℕ) (v : List ℕ) → i < length v → length (erase_at i v) + 1 ≡ length v
unfolding erase_at
length-erase_at i [] h = absurd (omega arith)
length-erase_at zero (x ∷ xs) h = omega arith
length-erase_at (suc i) (x ∷ xs) h = omega (arith, length-erase_at i xs (omega arith))

erase_at_All : (i : ℕ) (v : List ℕ) → All (λ e. e ≤ 9) v → All (λ e. e ≤ 9) (erase_at i v)
unfolding erase_at
erase_at_All i [] h = tt
erase_at_All zero (x ∷ xs) h = h.1
erase_at_All (suc i) (x ∷ xs) h = (h.0, erase_at_All i xs h.1)

get_All : (v : List ℕ) (i e : ℕ) → All (λ e. e ≤ 9) v → get_elem? v i ≡ some e → e ≤ 9
get_All [] i e h f = absurd (none_ne_some f)
get_All (x ∷ xs) zero e h f = subst (λ u. u ≤ 9) (some_injective f) h.0
get_All (x ∷ xs) (suc i) e h f = get_All xs i e h.1 f

solve_step :
    (m : ℕ) (v : List ℕ) (k : ℕ) (res : List ℕ) (e : ℕ)
    → length v ≡ suc m
    → m ≤ 12
    → get_elem? v ((k - 1) / factorial m) ≡ some e
    → solve (suc m) v k res
      ≡ solve m
          (erase_at ((k - 1) / factorial m) v)
          (k - (k - 1) / factorial m * factorial m)
          (res ++ (digit e ∷ []))
unfolding solve
solve_step m v k res e size small here =
    let count : length v - 1 ≡ m = omega arith in
    let test : (length v == 0) ≡ false = ground arith in
    rw (test, count, fac-factorial m small, here) refl

pub solve-permutations :
    (m : ℕ) (v : List ℕ) (k : ℕ) (res : List ℕ)
    → length v ≡ m
    → m ≤ 13
    → All (λ e. e ≤ 9) v
    → 0 < k
    → k ≤ factorial m
    → (p : List ℕ) × (get_elem? (permutations m v) (k - 1) ≡ some p)
      × (solve m v k res ≡ some (res ++ map digit p))
      × All (λ e. e ≤ 9) p
unfolding permutations solve
solve-permutations zero v k res size small digits low high =
    let only : k - 1 ≡ 0 = omega (arith, factorial_0) in
    ([], rw only refl, rw (size, append-nil) refl, tt)
solve-permutations (suc m) v k res size small digits low high =
    let f = factorial m in
    let i = (k - 1) / f in
    let r = (k - 1) % f in
    let inside : i < suc m =
      (div-lt_iff_lt-mul (factorial_pos m)).1 (omega (arith, factorial-suc m)) in
    let (e, here) = get_elem?-inside v i (omega arith) in
    let back : i * f + r ≡ k - 1 = omega (arith, mod-add-div (k - 1) f, mul_comm f i) in
    let rest_low : r < f = mod-lt (k - 1) (factorial_pos m) in
    let (q, at, rest, others) =
      solve-permutations m (erase_at i v) (r + 1) (res ++ (digit e ∷ []))
        (omega (arith, length-erase_at i v (omega arith))) (omega (arith, small))
        (erase_at_All i v digits) (omega arith) (omega arith) in
    let place : r + 1 - 1 ≡ r = omega arith in
    let left : k - i * f ≡ r + 1 = omega arith in
    (
      e ∷ q,
      ap (get_elem? (choose (permutations m) [] v)) (sym back)
          ∙ choose-get (permutations m) m f (length-permutations m) [] v i r e (omega arith) here
              rest_low
          ∙ ap (Option.map (λ p. e ∷ p))
              (ap (get_elem? (permutations m (erase_at i v))) (sym place) ∙ at),
      solve_step m v k res e size (omega (arith, small)) here
          ∙ ap (λ t. solve m (erase_at i v) t (res ++ (digit e ∷ []))) left
          ∙ rest
          ∙ ap some (append_assoc res (digit e ∷ []) (map digit q)),
      (get_All v i e digits here, others),
    )
