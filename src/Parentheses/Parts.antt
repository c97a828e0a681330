-- ===== src/Parentheses/Parts.antt =====
-- The balanced parts of a text that 32.cpp has marked: each lies in a block.
use code_c.Base.{
  ℕ, suc, ◌≤◌, ◌≡◌, ◌≢◌, refl, ap, sym, subst, ◌∙◌, false, none, some, List, [], ◌∷◌, ◌++◌,
  append_assoc, append-nil, if◌then◌else◌, ltb, arith, length, length-append, ◌⊎◌, inl, inr,
  Bool-cases, none_ne_some,
}
use code_c.Parentheses.{opens}
use code_c.Parentheses.Balanced.{
  Balanced, depth, depth_behind, depth-split, end_of_Balanced, left_open,
}
use code_c.Parentheses.Row.{Row, block, behind, text, ends_open, Fine}

-- Two ways to take a text apart.
append-cases :
    (xs ys ps qs : List ℕ)
    → xs ++ ys ≡ ps ++ qs
    → ((k : List ℕ) × (xs ≡ ps ++ k) × (qs ≡ k ++ ys))
      ⊎ ((k : List ℕ) × (ps ≡ xs ++ k) × (ys ≡ k ++ qs))
append-cases [] ys ps qs e = inr (ps, refl, e)
append-cases (x ∷ xs) ys [] qs e = inl (x ∷ xs, refl, sym e)
append-cases (x ∷ xs) ys (p ∷ ps) qs e =
    let same : x ≡ p = cc in
    elim (append-cases xs ys ps qs (cc)) [
      | inl (k, a, b) ↦ inl (k, cc, b)
      | inr (k, a, b) ↦ inr (k, cc, b)
    ]

never_first : (c : ℕ) (m : List ℕ) (d : ℕ) → opens c ≡ false → depth 0 (c ∷ m) ≢ some d
unfolding depth depth_behind
never_first c m d shut h =
    let stuck : depth 0 (c ∷ m) ≡ none = rw shut refl in none_ne_some (sym stuck ∙ h)

-- An unmatched closing parenthesis stays unmatched: nothing is open before it.
nothing_open :
    (r : Row) (a x : List ℕ) (d : ℕ)
    → Fine r
    → ends_open r ≡ false
    → text r ≡ a ++ x
    → depth 0 x ≡ some d
    → d ≡ 0
unfolding depth depth_behind
nothing_open (block m) a x d f w e h = end_of_Balanced a x d (ap (depth 0) (sym e) ∙ f) h
nothing_open (behind c m r) a x d f w e h = elim (append-cases (text r) (c ∷ m) a x e) [
  | inl (k, e1, e2) ↦
      let (d1, front, back) = depth-split 0 d k (c ∷ m) (ap (depth 0) (sym e2) ∙ h) in
      let zero_open : d1 ≡ 0 = nothing_open r a k d1 f.2 (f.1 w) e1 front in
      absurd (never_first c m d w (subst (λ n. depth n (c ∷ m) ≡ some d) zero_open back))
  | inr ([], e1, e2) ↦ absurd (never_first c m d w (ap (depth 0) e2 ∙ h))
  | inr (b ∷ k, e1, e2) ↦
      let tail : m ≡ k ++ x = cc in end_of_Balanced k x d (subst Balanced tail f.0) h
]

module _ (c : ℕ) (m : List ℕ) (r : Row) (f : Fine (behind c m r)) where
  -- No balanced part reaches across the parenthesis.
  not_across : (a x y b : List ℕ) → text r ≡ a ++ x → m ≡ y ++ b → ¬ Balanced (x ++ (c ∷ y))
  unfolding depth depth_behind
  not_across a x y b e1 e2 bal =
      let (d, front, back) = depth-split 0 0 x (c ∷ y) bal in
      elim (Bool-cases (opens c)) [
        | inl o ↦
            let opened : depth d (c ∷ y) ≡ depth (suc d) y = rw o refl in
            absurd (omega (arith, left_open d 0 y b (subst Balanced e2 f.0) (sym opened ∙ back)))
        | inr shut ↦ never_first c y 0 shut (
            subst (λ n. depth n (c ∷ y) ≡ some 0) (nothing_open r a x d f.2 (f.1 shut) e1 front)
              back)
      ]

-- The larger of two lengths, as the code keeps it.
unfoldable pub larger : ℕ → ℕ → ℕ
larger n k = if ltb n k then k else n

larger_bounds : (n k : ℕ) → (n ≤ larger n k) × (k ≤ larger n k)
unfolding larger
larger_bounds n k = ground arith

-- The length of the longest block.
unfoldable pub widest : Row → ℕ
widest (block m) = larger 0 (length m)
widest (behind c m r) = larger (widest r) (length m)

-- No balanced part of a text is longer than `n`, and one is as long.
abbrev pub AtMost : List ℕ → ℕ → Type 0
AtMost s n = (a x b : List ℕ) → s ≡ a ++ (x ++ b) → Balanced x → length x ≤ n

abbrev pub Attains : List ℕ → ℕ → Type 0
Attains s n = (a x b : List ℕ) × (s ≡ a ++ (x ++ b)) × Balanced x × (length x ≡ n)

in_block : (m : List ℕ) → AtMost m (length m)
in_block m a x b e h = omega (arith, ap length e, length-append a (x ++ b), length-append x b)

module _ (c : ℕ) (m : List ℕ) (r : Row) (f : Fine (behind c m r))
    (rest : AtMost (text r) (widest r)) where
  -- A part that begins before the parenthesis.
  begins_before :
      (a k x b : List ℕ)
      → text r ≡ a ++ k
      → x ++ b ≡ k ++ (c ∷ m)
      → Balanced x
      → length x ≤ widest (behind c m r)
  unfolding widest
  begins_before a k x b e1 e2 h = elim (append-cases x b k (c ∷ m) e2) [
    | inl ([], e3, e4) ↦
        let here : text r ≡ a ++ (x ++ []) =
          e1 ∙ ap (λ t. a ++ t) (sym (append-nil k) ∙ sym e3 ∙ sym (append-nil x)) in
        omega (arith, rest a x [] here h, larger_bounds (widest r) (length m))
    | inl (j ∷ y, e3, e4) ↦
        let same : c ≡ j = cc in
        let tail : m ≡ y ++ b = cc in
        absurd (
          not_across c m r f a k y b e1 tail
            (subst Balanced (e3 ∙ ap (λ i. k ++ (i ∷ y)) (sym same)) h))
    | inr (j, e3, e4) ↦
        omega (arith, rest a x j (e1 ∙ ap (λ t. a ++ t) e3) h, larger_bounds (widest r) (length m))
  ]

  begins_behind :
      (k x b : List ℕ) → c ∷ m ≡ k ++ (x ++ b) → Balanced x → length x ≤ widest (behind c m r)
  unfolding widest
  begins_behind [] [] b e h = omega arith
  begins_behind [] (x0 ∷ x) b e h =
      let same : c ≡ x0 = cc in
      let tail : m ≡ x ++ b = cc in
      absurd (
        not_across c m r f (text r) [] x b (sym (append-nil (text r))) tail
          (subst Balanced (ap (λ i. i ∷ x) (sym same)) h))
  begins_behind (k0 ∷ k) x b e h =
      let tail : m ≡ k ++ (x ++ b) = cc in
      omega (arith, in_block m k x b tail h, larger_bounds (widest r) (length m))

pub text-AtMost : (r : Row) → Fine r → AtMost (text r) (widest r)
unfolding widest
text-AtMost (block m) f a x b e h = omega (arith, in_block m a x b e h, larger_bounds 0 (length m))
text-AtMost (behind c m r) f a x b e h =
    let rest = text-AtMost r f.2 in
    elim (append-cases (text r) (c ∷ m) a (x ++ b) e) [
      | inl (k, e1, e2) ↦ begins_before c m r f rest a k x b e1 e2 h
      | inr (k, e1, e2) ↦ begins_behind c m r f rest k x b e2 h
    ]

pub text-Attains : (r : Row) → Fine r → Attains (text r) (widest r)
unfolding widest larger
text-Attains (block m) f = ([], m, [], sym (append-nil m), f, ground arith)
text-Attains (behind c m r) f = elim (Bool-cases (ltb (widest r) (length m))) [
  | inl longer ↦ (
    text r ++ (c ∷ []),
    m,
    [],
    ap (λ t. text r ++ (c ∷ t)) (sym (append-nil m))
        ∙ sym (append_assoc (text r) (c ∷ []) (m ++ [])),
    f.0,
    rw longer refl,
  )
  | inr shorter ↦
      let (a, x, b, e, h, l) = text-Attains r f.2 in
      (
        a,
        x,
        b ++ (c ∷ m),
        ap (λ t. t ++ (c ∷ m)) e
            ∙ append_assoc a (x ++ b) (c ∷ m)
            ∙ ap (λ t. a ++ t) (append_assoc x b (c ∷ m)),
        h,
        rw shorter l,
      )
]
