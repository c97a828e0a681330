-- ===== src/Palindrome/Shortest.antt =====
-- The result of 214.cpp: a palindrome, and the shortest that ends in the text.
use mathlib.Core.List.{reverse, reverse-append, reverse-reverse}
use code_c.Base.{
  ℕ, zero, suc, ◌+◌, ◌-◌, ◌≤◌, ◌<◌, ◌≡◌, refl, ap, ap₂, sym, ◌∙◌, false, some, List, [], ◌∷◌, ◌++◌,
  subst, arith, get_or, length, length-append, take, drop, take-append-drop, leb, ltb, append_assoc,
  length-take, length-drop, Bool-cases, inl, inr, dec_le, leb→le, ◌>>=◌,
}
use code_c.Palindrome.{center_loop, complete, shortest_palindrome}
use code_c.Palindrome.Reversed.{
  get_or-append_right, length-reverse, get_or-reverse, get_or-ext, get_or-take, take-append,
}
use code_c.Palindrome.Mirror.{Mirrored}
use code_c.Palindrome.Center.{IsCenter, center_loop-IsCenter}

abbrev pub IsPalindrome : List ℕ → Type 0
IsPalindrome w = reverse w ≡ w

module _ (a b : List ℕ) (h : IsPalindrome a) where
  -- A palindrome with `b` behind it and `b` backwards before it.
  completed-IsPalindrome : IsPalindrome (reverse b ++ (a ++ b))
  completed-IsPalindrome =
      reverse-append (reverse b) (a ++ b)
      ∙ ap₂ ◌++◌ (reverse-append a b) (reverse-reverse b)
      ∙ append_assoc (reverse b) (reverse a) b
      ∙ ap (λ t. reverse b ++ (t ++ b)) h

front-IsPalindrome :
    (s : List ℕ) (c : ℕ) → c < length s → Mirrored s c → IsPalindrome (take (suc c) s)
front-IsPalindrome s c inside m =
    let size : length (take (suc c) s) ≡ suc c = omega (arith, length-take (suc c) s) in
    get_or-ext (reverse (take (suc c) s)) (take (suc c) s) (length-reverse (take (suc c) s)) λ i b.
      let low : i < length (take (suc c) s) = omega (arith, length-reverse (take (suc c) s)) in
      get_or-reverse (take (suc c) s) i low
      ∙ get_or-take s (suc c) (length (take (suc c) s) - 1 - i) (omega arith)
      ∙ ap (λ k. get_or s k 0) (omega arith)
      ∙ sym (m i (omega arith))
      ∙ sym (get_or-take s (suc c) i (omega arith))

-- `complete` puts what is behind the axis, backwards, before the text.
reverse-split : (s : List ℕ) (k : ℕ) → take (length s - k) (reverse s) ≡ reverse (drop k s)
reverse-split s k =
    ap (λ t. take (length s - k) (reverse t)) (sym (take-append-drop k s))
    ∙ ap (take (length s - k)) (reverse-append (take k s) (drop k s))
    ∙ take-append (reverse (drop k s)) (reverse (take k s)) (length s - k)
        (omega (arith, length-reverse (drop k s), length-drop k s))

short_enough : (s : List ℕ) (c : ℕ) → length s ≤ 1 → drop (suc c) s ≡ []
short_enough [] c h = refl
short_enough (x ∷ []) zero h = refl
short_enough (x ∷ []) (suc c) h = refl
short_enough (x ∷ y ∷ s) c h = absurd (omega arith)

complete-append : (s : List ℕ) (c : ℕ) → c < length s → complete s c ≡ reverse (drop (suc c) s) ++ s
unfolding complete
complete-append s c inside = elim (Bool-cases (leb (length s) 1)) [
  | inl short ↦ rw (short, short_enough s c (leb→le _ _ short)) refl
  | inr long ↦
      let axis : ltb (length s - 1) c ≡ false = ground arith in
      let place : length s - 1 - c ≡ length s - suc c = omega arith in
      rw (long, axis)
        (ap (λ k. take k (reverse s) ++ s) place ∙ ap (λ t. t ++ s) (reverse-split s (suc c)))
]

-- A palindrome that ends in the text is mirrored in it.
ending-Mirrored :
    (t s : List ℕ) (d : ℕ) → IsPalindrome (t ++ s) → length t + suc d ≡ length s → Mirrored s d
ending-Mirrored t s d pal e = λ j le.
    let size = length-append t s in
    sym (get_or-append_right t s j (length t + j) refl)
    ∙ ap (λ w. get_or w (length t + j) 0) (sym pal)
    ∙ get_or-reverse (t ++ s) (length t + j) (omega arith)
    ∙ get_or-append_right t s (d - j) (length (t ++ s) - 1 - (length t + j)) (omega arith)

-- The loop ends with `c` as its last axis, in a text that is not empty.
module _ (s : List ℕ) (some_text : 0 < length s) (c : ℕ)
    (center : IsCenter s (length s - 1) c) where
  inside_text : c < length s
  inside_text = omega (arith, center.0)

  complete-IsPalindrome : IsPalindrome (complete s c)
  complete-IsPalindrome =
      let a = take (suc c) s in
      let b = drop (suc c) s in
      subst IsPalindrome
        (ap (λ t. reverse b ++ t) (take-append-drop (suc c) s)
          ∙ sym (complete-append s c inside_text))
        (completed-IsPalindrome a b (front-IsPalindrome s c inside_text center.1))

  no_shorter : (t : List ℕ) → IsPalindrome (t ++ s) → length (reverse (drop (suc c) s)) ≤ length t
  no_shorter t pal = elim (dec_le (length (reverse (drop (suc c) s))) (length t)) [
    | yes fine ↦ fine
    | no shorter ↦
        let size : length (reverse (drop (suc c) s)) ≡ length s - suc c =
          omega (arith, length-reverse (drop (suc c) s), length-drop (suc c) s) in
        absurd (
          center.2 (length s - 1 - length t) (omega arith) (omega arith)
            (ending-Mirrored t s (length s - 1 - length t) pal (omega arith)))
  ]

-- What the result is to be: a palindrome that ends in the text, with no more characters before the
-- text than any palindrome that ends in it.
abbrev pub Shortest : List ℕ → List ℕ → Type 0
Shortest s w =
    IsPalindrome w
    × (p : List ℕ) × (w ≡ p ++ s)
    × ((t : List ℕ) → IsPalindrome (t ++ s) → length p ≤ length t)

empty_text : (w : List ℕ) × (shortest_palindrome [] ≡ some w) × Shortest [] w
unfolding shortest_palindrome center_loop complete
empty_text = ([], refl, (refl, [], refl, λ t pal. omega arith))

-- `shortestPalindrome` ends on every text, and its result is the shortest palindrome that the text
-- can be completed to by characters before it.
pub shortest_palindrome-Shortest :
    (s : List ℕ) → (w : List ℕ) × (shortest_palindrome s ≡ some w) × Shortest s w
unfolding shortest_palindrome
shortest_palindrome-Shortest [] = empty_text
shortest_palindrome-Shortest (x ∷ xs) =
    let s : List ℕ = x ∷ xs in
    let (c, ends, center) = center_loop-IsCenter (length s + 1) s (length s - 1) (omega arith) in
    (
      complete s c,
      ap (λ o. o >>= λ k. some (complete s k)) ends,
      (
        complete-IsPalindrome s (omega arith) c center,
        reverse (drop (suc c) s),
        complete-append s c (inside_text s (omega arith) c center),
        no_shorter s (omega arith) c center,
      ),
    )
