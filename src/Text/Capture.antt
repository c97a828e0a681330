-- ===== src/Text/Capture.antt =====
-- `capture` of string.hpp.
use code_c.Base.{
  ℕ, zero, suc, ◌+◌, ◌-◌, ◌≡◌, ◌≢◌, refl, ap, sym, ◌∙◌, none, some, Option-cases, inl, inr, List,
  [], ◌∷◌, ◌++◌, length, take, drop, arith,
}
use code_c.Text.{find_text, find_after, up_to, capture_after, capture}
use code_c.Text.Find.{find_text-StandsAt}

drop_nil {ℓ} : {A : Type ℓ} (b : ℕ) → drop {A = A} b [] ≡ []
drop_nil zero = refl
drop_nil (suc b) = refl

drop_sum {ℓ} : {A : Type ℓ} (a b : ℕ) (xs : List A) → drop b (drop a xs) ≡ drop (a + b) xs
drop_sum zero b xs = let same : 0 + b ≡ b = omega arith in rw same refl
drop_sum (suc a) b [] = let on : suc a + b ≡ suc (a + b) = omega arith in rw on (drop_nil b)
drop_sum (suc a) b (x ∷ xs) =
    let on : suc a + b ≡ suc (a + b) = omega arith in rw on (drop_sum a b xs)

drop-append {ℓ} : {A : Type ℓ} (a b : List A) → drop (length a) (a ++ b) ≡ b
drop-append [] b = refl
drop-append (x ∷ xs) b = drop-append xs b

take-append {ℓ} : {A : Type ℓ} (a b : List A) → take (length a) (a ++ b) ≡ a
take-append [] b = refl
take-append (x ∷ xs) b = ap (λ t. x ∷ t) (take-append xs b)

captured :
    (s left right : List ℕ) (i j : ℕ)
    → find_text left s ≡ some i
    → find_text right (drop (i + length left) s) ≡ some j
    → capture s left right ≡ take j (drop (i + length left) s)
unfolding capture capture_after up_to find_after
captured s left right i j f g =
    let gap : i + length left + j - (i + length left) ≡ j = omega arith in rw (f, g, gap) refl

missing_left : (s left right : List ℕ) → find_text left s ≡ none → capture s left right ≡ []
unfolding capture capture_after
missing_left s left right n = rw n refl

missing_right :
    (s left right : List ℕ) (i : ℕ)
    → find_text left s ≡ some i
    → find_text right (drop (i + length left) s) ≡ none
    → capture s left right ≡ []
unfolding capture capture_after find_after up_to
missing_right s left right i f n = rw (f, n) refl

-- When `capture` gives a text that is not empty, that text stands in the source between the left
-- mark and the right one.
pub capture_between :
    (s left right : List ℕ)
    → capture s left right ≢ []
    → (a b : List ℕ) × (s ≡ a ++ (left ++ (capture s left right ++ (right ++ b))))
capture_between s left right any = elim (Option-cases (find_text left s)) [
  | inl n ↦ absurd (any (missing_left s left right n))
  | inr (i, f) ↦ elim (Option-cases (find_text right (drop (i + length left) s))) [
    | inl n ↦ absurd (any (missing_right s left right i f n))
    | inr (j, g) ↦ (
      take i s,
      drop (j + length right) (drop (i + length left) s),
      find_text-StandsAt left s i f
          ∙ ap (λ t. take i s ++ (left ++ t))
              (find_text-StandsAt right (drop (i + length left) s) j g
                ∙ ap (λ t. t ++ (right ++ drop (j + length right) (drop (i + length left) s)))
                    (sym (captured s left right i j f g))),
    )
  ]
]

-- In a text that is `a`, the left mark, `m`, the right mark and `b`: if the left mark first stands
-- behind `a`, and the right one, from behind the left mark on, first stands behind `m`, then
-- `capture` gives `m`.
pub capture_first :
    (a left m right b : List ℕ)
    → find_text left (a ++ (left ++ (m ++ (right ++ b)))) ≡ some (length a)
    → find_text right (m ++ (right ++ b)) ≡ some (length m)
    → capture (a ++ (left ++ (m ++ (right ++ b)))) left right ≡ m
capture_first a left m right b f g =
    captured (a ++ (left ++ (m ++ (right ++ b)))) left right (length a) (length m) f
      (ap (find_text right) rest ∙ g)
    ∙ ap (take (length m)) rest
    ∙ take-append m (right ++ b)
  where
    rest : drop (length a + length left) (a ++ (left ++ (m ++ (right ++ b)))) ≡ m ++ (right ++ b)
    rest =
        sym (drop_sum (length a) (length left) (a ++ (left ++ (m ++ (right ++ b)))))
        ∙ ap (drop (length left)) (drop-append a (left ++ (m ++ (right ++ b))))
        ∙ drop-append left (m ++ (right ++ b))
