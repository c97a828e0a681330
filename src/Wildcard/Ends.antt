-- ===== src/Wildcard/Ends.antt =====
-- `match_exact` and `stripleft` of 44-2.cpp, and the last piece of a pattern.
use code_c.Base.{
  ℕ, zero, suc, ◌+◌, ◌-◌, ◌≡◌, ◌≤◌, refl, ap, ◌∙◌, subst, sym, ◌↔◌, Bool, true, false, Option, none,
  some, List, [], ◌∷◌, if◌then◌else◌, arith, length, take, drop, length-drop, Bool-cases, inl, inr,
}
use code_c.Wildcard.{agrees, match_exact, is_star, emptied, strip_left, only_if}
use code_c.Wildcard.Meaning.{Piece, Pieces, agrees-length}
use code_c.Wildcard.Shape.{Alt, Alt-step, Alt-cons, Alt-weaken}

pub match_exact_lem :
    (s : List ℕ) (i : ℕ) (p : List ℕ)
    → i ≤ length s
    → match_exact s i p ≡ (if agrees p (drop i s) then some (i + length p) else none)
unfolding match_exact
match_exact_lem s i p le = ground (arith, agrees-length p (drop i s), length-drop i s)

abbrev no_text : List ℕ
no_text = []

-- From what a piece is known to be, and back.
module _ (p s : List ℕ) (Rest : List ℕ → Type 0) {z : Bool} (e : is_star p ≡ z) where
  pub Piece-step : Piece (is_star p) p s Rest → Piece z p s Rest
  Piece-step h = subst (λ y. Piece y p s Rest) e h

  pub Piece-cons : Piece z p s Rest → Piece (is_star p) p s Rest
  Piece-cons h = subst (λ y. Piece y p s Rest) (sym e) h

-- What a strip function answers where `Before` is to be decided: that it fails, or what is left to
-- decide, with a star in front.
abbrev pub Stripped : Type 0 → Option (List ℕ × List (List ℕ)) → Type 0
Stripped Before none = Before → ⊥
Stripped Before (some (t, qs)) = (Pieces qs t ↔ Before) × Alt false qs × (qs ≡ [] → t ≡ [])

pub Stripped-map :
    {Before After : Type 0} (r : Option (List ℕ × List (List ℕ)))
    → (After → Before)
    → (Before → After)
    → Stripped Before r
    → Stripped After r
Stripped-map none f g h = λ a. h (f a)
Stripped-map (some (t, qs)) f g h = ((λ p. g (h.0.0 p), λ a. h.0.1 (f a)), h.1, h.2)

pub emptied_lem : (s : List ℕ) → Stripped (s ≡ []) (emptied s)
unfolding emptied
emptied_lem [] = ((λ e. e, λ e. e), tt, λ e. refl)
emptied_lem (x ∷ s) = λ e. absurd (ground (arith, ap length e))

strip_left_star :
    (s p : List ℕ) (ps : List (List ℕ))
    → is_star p ≡ true
    → strip_left s (p ∷ ps) ≡ some (s, p ∷ ps)
unfolding strip_left
strip_left_star s p ps e = rw e refl

strip_left_piece :
    (s p : List ℕ) (ps : List (List ℕ))
    → is_star p ≡ false
    → strip_left s (p ∷ ps) ≡ (if agrees p s then strip_left (drop (length p) s) ps else none)
unfolding strip_left only_if
strip_left_piece s p ps e = ground (arith, match_exact_lem s 0 p (omega arith), agrees-length p s)

-- For every text and pieces with a star between any two others, `stripleft` fails only where the
-- pieces do not match, and leaves a text and pieces that match if those did.
pub strip_left_lem :
    (s : List ℕ) (ps : List (List ℕ)) → Alt true ps → Stripped (Pieces ps s) (strip_left s ps)
unfolding strip_left
strip_left_lem s [] a = emptied_lem s
strip_left_lem s (p ∷ ps) a = elim (Bool-cases (is_star p)) [
  | inl e ↦ subst (Stripped (Pieces (p ∷ ps) s)) (sym (strip_left_star s p ps e)) (
    (λ h. h, λ h. h),
    Alt-cons false p ps e (Alt-step true p ps e a),
    λ z. absurd (ground (arith, ap length z)),
  )
  | inr e ↦
      subst (Stripped (Pieces (p ∷ ps) s)) (sym (strip_left_piece s p ps e))
        (elim (Bool-cases (agrees p s)) [
          | inl fits ↦ rw fits (
              Stripped-map (strip_left (drop (length p) s) ps)
                (λ h. (Piece-step p s (Pieces ps) e h).1)
                (λ h. Piece-cons p s (Pieces ps) e (fits, h))
                (strip_left_lem (drop (length p) s) ps
                  (Alt-weaken false ps (Alt-step true p ps e a).1)))
          | inr fails ↦
              rw fails (λ h. absurd (ground (arith, fails, (Piece-step p s (Pieces ps) e h).0)))
        ])
]

pub drop-nil : (n : ℕ) → drop n [] ≡ no_text
drop-nil zero = refl
drop-nil (suc n) = refl

take-nil : (n : ℕ) → take n [] ≡ no_text
take-nil zero = refl
take-nil (suc n) = refl

pub drop-drop : (a k : ℕ) (s : List ℕ) → drop a (drop k s) ≡ drop (k + a) s
drop-drop a zero s = ap (λ n. drop n s) (omega arith)
drop-drop a (suc k) [] = drop-nil a ∙ sym (drop-nil (suc k + a))
drop-drop a (suc k) (x ∷ s) =
    let e : suc (k + a) ≡ suc k + a = omega arith in drop-drop a k s ∙ ap (λ n. drop n (x ∷ s)) e

pub take-drop : (m k : ℕ) (s : List ℕ) → k ≤ m → take (m - k) (drop k s) ≡ drop k (take m s)
take-drop m zero s le = ap (λ n. take n s) (omega arith)
take-drop zero (suc k) s le = absurd (omega arith)
take-drop (suc m) (suc k) [] le = take-nil (suc m - suc k)
take-drop (suc m) (suc k) (x ∷ s) le =
    let e : suc m - suc k ≡ m - k = omega arith in
    ap (λ n. take n (drop k s)) e ∙ take-drop m k s (omega arith)

pub agrees-take : (q s : List ℕ) (m : ℕ) → length q ≤ m → agrees q (take m s) ≡ agrees q s
unfolding agrees
agrees-take [] s m le = refl
agrees-take (c ∷ q) s zero le = absurd (omega arith)
agrees-take (c ∷ q) [] (suc m) le = refl
agrees-take (c ∷ q) (x ∷ s) (suc m) le = ground (arith, agrees-take q s m)
