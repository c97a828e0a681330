-- ===== src/Text/Find.antt =====
-- The first place of a pattern.
use mathlib.Core.Option
use code_c.Base.{
  ℕ, suc, ◌+◌, ◌≡◌, ◌≢◌, refl, ap, sym, ◌∙◌, true, false, Bool-cases, Option, none, some,
  Option-cases, some_injective, none_ne_some, inl, inr, List, [], ◌∷◌, ◌++◌, ◌==◌, ==_iff, length,
  take, drop, arith,
}
use code_c.Text.{is_prefix, find_text, text_eq}

pub is_prefix_lem : (p s : List ℕ) → is_prefix p s ≡ true → s ≡ p ++ drop (length p) s
unfolding is_prefix
is_prefix_lem [] s h = refl
is_prefix_lem (p ∷ ps) [] h = absurd (ground arith)
is_prefix_lem (p ∷ ps) (x ∷ xs) h = elim (Bool-cases (p == x)) [
  | inl e ↦
      let same : p ≡ x = (==_iff p x).0 e in
      let rest : is_prefix ps xs ≡ true = ground arith in cc (is_prefix_lem ps xs rest, same)
  | inr e ↦ absurd (ground arith)
]

pub is_prefix-append : (p b : List ℕ) → is_prefix p (p ++ b) ≡ true
unfolding is_prefix
is_prefix-append [] b = refl
is_prefix-append (p ∷ ps) b = ground (arith, is_prefix-append ps b)

find_text-prefix : (p s : List ℕ) → is_prefix p s ≡ true → find_text p s ≡ some 0
unfolding find_text
find_text-prefix p [] h = rw h refl
find_text-prefix p (x ∷ xs) h = rw h refl

find_text-nowhere : (p : List ℕ) → is_prefix p [] ≡ false → find_text p [] ≡ none
unfolding find_text
find_text-nowhere p h = rw h refl

find_text-later :
    (p : List ℕ) (x : ℕ) (xs : List ℕ)
    → is_prefix p (x ∷ xs) ≡ false
    → find_text p (x ∷ xs) ≡ Option.map suc (find_text p xs)
unfolding find_text
find_text-later p x xs h = rw h refl

-- The pattern stands in the text at place `i`.
abbrev pub StandsAt : List ℕ → List ℕ → ℕ → Type 0
StandsAt p s i = s ≡ take i s ++ (p ++ drop (i + length p) s)

StandsAt-prefix :
    (p s : List ℕ) (i : ℕ) → is_prefix p s ≡ true → find_text p s ≡ some i → StandsAt p s i
StandsAt-prefix p s i e h =
    let first : 0 ≡ i = some_injective (sym (find_text-prefix p s e) ∙ h) in
    let start : 0 + length p ≡ length p = omega arith in rw (sym first, start) (is_prefix_lem p s e)

-- What `find` finds stands there.
pub find_text-StandsAt : (p s : List ℕ) (i : ℕ) → find_text p s ≡ some i → StandsAt p s i
find_text-StandsAt p [] i h = elim (Bool-cases (is_prefix p [])) [
  | inl e ↦ StandsAt-prefix p [] i e h
  | inr e ↦ absurd (none_ne_some (sym (find_text-nowhere p e) ∙ h))
]
find_text-StandsAt p (x ∷ xs) i h = elim (Bool-cases (is_prefix p (x ∷ xs))) [
  | inl e ↦ StandsAt-prefix p (x ∷ xs) i e h
  | inr e ↦ elim (Option-cases (find_text p xs)) [
    | inl n ↦ absurd (none_ne_some (sym (find_text-later p x xs e ∙ rw n refl) ∙ h))
    | inr (j, f) ↦
        let next : suc j ≡ i = some_injective (sym (find_text-later p x xs e ∙ rw f refl) ∙ h) in
        let on : suc j + length p ≡ suc (j + length p) = omega arith in
        rw (sym next, on) (ap (λ t. x ∷ t) (find_text-StandsAt p xs j f))
  ]
]

none-map : (o : Option ℕ) → o ≢ none → Option.map suc o ≢ none
none-map none h e = h refl
none-map (some j) h e = absurd (grind arith)

-- What stands somewhere is found.
pub find_text-append : (p a b : List ℕ) → find_text p (a ++ (p ++ b)) ≢ none
find_text-append p [] b e =
    none_ne_some (sym e ∙ find_text-prefix p (p ++ b) (is_prefix-append p b))
find_text-append p (x ∷ xs) b e = elim (Bool-cases (is_prefix p (x ∷ (xs ++ (p ++ b))))) [
  | inl first ↦ none_ne_some (sym e ∙ find_text-prefix p (x ∷ (xs ++ (p ++ b))) first)
  | inr later ↦
      none-map (find_text p (xs ++ (p ++ b))) (find_text-append p xs b)
        (sym (find_text-later p x (xs ++ (p ++ b)) later) ∙ e)
]

pub text_eq_lem : (a b : List ℕ) → text_eq a b ≡ true → a ≡ b
unfolding text_eq
text_eq_lem [] [] h = refl
text_eq_lem [] (y ∷ ys) h = absurd (ground arith)
text_eq_lem (x ∷ xs) [] h = absurd (ground arith)
text_eq_lem (x ∷ xs) (y ∷ ys) h = elim (Bool-cases (x == y)) [
  | inl e ↦
      let same : x ≡ y = (==_iff x y).0 e in
      let rest : text_eq xs ys ≡ true = ground arith in cc (text_eq_lem xs ys rest, same)
  | inr e ↦ absurd (ground arith)
]

pub text_eq_self : (a : List ℕ) → text_eq a a ≡ true
unfolding text_eq
text_eq_self [] = refl
text_eq_self (x ∷ xs) = ground (arith, text_eq_self xs)
