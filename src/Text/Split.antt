-- ===== src/Text/Split.antt =====
-- `split` of string.hpp.
use code_c.Base.{
  ℕ, ◌≡◌, ◌⊎◌, inl, inr, refl, ap, ◌∙◌, true, false, Bool-cases, List, [], ◌∷◌, ◌++◌, append_assoc,
  append-nil, ◌==◌, ==_iff, arith,
}
use code_c.Text.{split_loop, split}

-- No character of the text is the delimiter.
abbrev pub Free : ℕ → List ℕ → Type 0
Free d [] = Unit
Free d (x ∷ xs) = ((x == d) ≡ false) × Free d xs

abbrev pub AllFree : ℕ → List (List ℕ) → Type 0
AllFree d [] = Unit
AllFree d (e ∷ es) = Free d e × AllFree d es

-- The items one after the other, each with a delimiter behind it.
abbrev pub terminated : ℕ → List (List ℕ) → List ℕ
terminated d [] = []
terminated d (e ∷ es) = e ++ (d ∷ terminated d es)

-- A text as the only item, if it is not empty.
abbrev pub if_any : List ℕ → List (List ℕ)
if_any [] = []
if_any (x ∷ xs) = (x ∷ xs) ∷ []

same_test : (d : ℕ) → (d == d) ≡ true
same_test d = ground arith

loop_item :
    (d : ℕ) (e item rest : List ℕ)
    → Free d e
    → split_loop (e ++ (d ∷ rest)) item d ≡ (item ++ e) ∷ split_loop rest [] d
unfolding split_loop
loop_item d [] item rest h = rw (same_test d, append-nil) refl
loop_item d (x ∷ xs) item rest h = rw h.0 (
    loop_item d xs (item ++ (x ∷ [])) rest h.1
    ∙ ap (λ t. t ∷ split_loop rest [] d) (append_assoc item (x ∷ []) xs))

loop_last : (d : ℕ) (e item : List ℕ) → Free d e → split_loop e item d ≡ if_any (item ++ e)
unfolding split_loop
loop_last d [] [] h = refl
loop_last d [] (c ∷ cs) h = rw append-nil refl
loop_last d (x ∷ xs) item h =
    rw h.0 (loop_last d xs (item ++ (x ∷ [])) h.1 ∙ ap if_any (append_assoc item (x ∷ []) xs))

-- Items without a delimiter in them, each followed by one, and then a text without one: `split` gives
-- the items back, and the text behind the last delimiter if it is not empty.
pub split-terminated :
    (d : ℕ) (es : List (List ℕ)) (last : List ℕ)
    → AllFree d es
    → Free d last
    → split (terminated d es ++ last) d ≡ es ++ if_any last
unfolding split
split-terminated d [] last h free = loop_last d last [] free
split-terminated d (e ∷ es) last h free = rw (append_assoc e (d ∷ terminated d es) last) (
    loop_item d e [] (terminated d es ++ last) h.0
    ∙ ap (λ t. e ∷ t) (split-terminated d es last h.1 free))

Free-append : (d : ℕ) (a : List ℕ) (x : ℕ) → Free d a → (x == d) ≡ false → Free d (a ++ (x ∷ []))
Free-append d [] x h e = (e, tt)
Free-append d (y ∷ ys) x h e = (h.0, Free-append d ys x h.1 e)

loop-AllFree : (d : ℕ) (s item : List ℕ) → Free d item → AllFree d (split_loop s item d)
unfolding split_loop
loop-AllFree d [] [] h = tt
loop-AllFree d [] (c ∷ cs) h = (h, tt)
loop-AllFree d (x ∷ xs) item h = elim (Bool-cases (x == d)) [
  | inl e ↦ rw e (h, loop-AllFree d xs [] tt)
  | inr e ↦ rw e (loop-AllFree d xs (item ++ (x ∷ [])) (Free-append d item x h e))
]

loop_joins :
    (d : ℕ) (s item : List ℕ)
    → (terminated d (split_loop s item d) ≡ item ++ s)
      ⊎ (terminated d (split_loop s item d) ≡ item ++ (s ++ (d ∷ [])))
unfolding split_loop
loop_joins d [] [] = inl refl
loop_joins d [] (c ∷ cs) = inr refl
loop_joins d (x ∷ xs) item = elim (Bool-cases (x == d)) [
  | inl e ↦
      let same : x ≡ d = (==_iff x d).0 e in
      elim (loop_joins d xs []) [
        | inl j ↦ inl (rw e (ap (λ t. item ++ t) (cc (j, same))))
        | inr j ↦ inr (rw e (ap (λ t. item ++ t) (cc (j, same))))
      ]
  | inr e ↦ elim (loop_joins d xs (item ++ (x ∷ []))) [
    | inl j ↦ inl (rw e (j ∙ append_assoc item (x ∷ []) xs))
    | inr j ↦ inr (rw e (j ∙ append_assoc item (x ∷ []) (xs ++ (d ∷ []))))
  ]
]

-- For every text, no item that `split` gives has a delimiter in it, and the items, each with a
-- delimiter behind it, are the text, or the text with a delimiter behind it.
pub split_joins :
    (d : ℕ) (s : List ℕ)
    → AllFree d (split s d)
      × ((terminated d (split s d) ≡ s) ⊎ (terminated d (split s d) ≡ s ++ (d ∷ [])))
unfolding split
split_joins d s = (loop-AllFree d s [] tt, loop_joins d s [])
