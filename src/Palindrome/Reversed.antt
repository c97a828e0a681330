-- ===== src/Palindrome/Reversed.antt =====
-- Texts of 214.cpp read at a place, and read backwards.
use mathlib.Core.List.{reverse, reverse-cons}
use code_c.Base.{
  ℕ, zero, suc, ◌+◌, ◌-◌, ◌<◌, ◌≡◌, refl, ap, sym, ◌∙◌, List, [], ◌∷◌, ◌++◌, arith, get_or, length,
  length-append, take, dec_lt,
}

pub get_or-append_left :
    (xs ys : List ℕ) (i : ℕ) → i < length xs → get_or (xs ++ ys) i 0 ≡ get_or xs i 0
get_or-append_left [] ys i h = absurd (omega arith)
get_or-append_left (x ∷ xs) ys zero h = refl
get_or-append_left (x ∷ xs) ys (suc i) h = get_or-append_left xs ys i (omega arith)

pub get_or-append_right :
    (xs ys : List ℕ) (i k : ℕ) → k ≡ length xs + i → get_or (xs ++ ys) k 0 ≡ get_or ys i 0
get_or-append_right [] ys i k e = ap (λ t. get_or ys t 0) (omega arith)
get_or-append_right (x ∷ xs) ys i zero e = absurd (omega arith)
get_or-append_right (x ∷ xs) ys i (suc k) e = get_or-append_right xs ys i k (omega arith)

pub length-reverse : (xs : List ℕ) → length (reverse xs) ≡ length xs
length-reverse [] = refl
length-reverse (x ∷ xs) =
    ap length (reverse-cons x xs)
    ∙ omega (arith, length-append (reverse xs) (x ∷ []), length-reverse xs)

pub get_or-reverse :
    (xs : List ℕ) (i : ℕ)
    → i < length xs
    → get_or (reverse xs) i 0 ≡ get_or xs (length xs - 1 - i) 0
get_or-reverse [] i h = absurd (omega arith)
get_or-reverse (x ∷ xs) i h =
    ap (λ t. get_or t i 0) (reverse-cons x xs) ∙ elim (dec_lt i (length xs)) [
      | yes low ↦
          let place : suc (length xs) - 1 - i ≡ suc (length xs - 1 - i) = omega arith in
          get_or-append_left (reverse xs) (x ∷ []) i (omega (arith, length-reverse xs))
          ∙ get_or-reverse xs i low
          ∙ ap (λ k. get_or (x ∷ xs) k 0) (sym place)
      | no high ↦
          let place : suc (length xs) - 1 - i ≡ 0 = omega arith in
          get_or-append_right (reverse xs) (x ∷ []) 0 i (omega (arith, length-reverse xs))
          ∙ ap (λ k. get_or (x ∷ xs) k 0) (sym place)
    ]

pub get_or-ext :
    (xs ys : List ℕ)
    → length xs ≡ length ys
    → ((i : ℕ) → i < length xs → get_or xs i 0 ≡ get_or ys i 0)
    → xs ≡ ys
get_or-ext [] [] l h = refl
get_or-ext [] (y ∷ ys) l h = absurd (omega arith)
get_or-ext (x ∷ xs) [] l h = absurd (omega arith)
get_or-ext (x ∷ xs) (y ∷ ys) l h =
    let here : x ≡ y = h 0 (omega arith) in
    cc (here, get_or-ext xs ys (omega arith) (λ i b. h (suc i) (omega arith)))

pub get_or-take : (xs : List ℕ) (n i : ℕ) → i < n → get_or (take n xs) i 0 ≡ get_or xs i 0
get_or-take xs zero i h = absurd (omega arith)
get_or-take [] (suc n) i h = refl
get_or-take (x ∷ xs) (suc n) zero h = refl
get_or-take (x ∷ xs) (suc n) (suc i) h = get_or-take xs n i (omega arith)

pub take-append : (xs ys : List ℕ) (n : ℕ) → n ≡ length xs → take n (xs ++ ys) ≡ xs
take-append [] [] zero e = refl
take-append [] (y ∷ ys) zero e = refl
take-append [] ys (suc n) e = absurd (omega arith)
take-append (x ∷ xs) ys zero e = absurd (omega arith)
take-append (x ∷ xs) ys (suc n) e = ap (λ t. x ∷ t) (take-append xs ys n (omega arith))
