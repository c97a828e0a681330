-- ===== src/Wildcard/Last.antt =====
-- The last piece of a pattern, and `stripright` of 44-2.cpp.
use code_c.Base.{
  ℕ, zero, suc, ◌+◌, ◌-◌, ◌≡◌, ◌≤◌, ap, ◌∙◌, subst, sym, ◌↔◌, true, false, List, [], ◌∷◌, ◌++◌,
  arith, length, take, drop, length-drop, length-take, Bool-cases, inl, inr,
}
use code_c.Wildcard.{agrees, is_star}
use code_c.Wildcard.Meaning.{Pieces, agrees-length}
use code_c.Wildcard.Ends.{Piece-step, Piece-cons, drop-drop, take-drop, agrees-take, drop-nil}

-- The text ends with piece `p`, and what is before it goes on with `Rest`.
abbrev pub EndsWith : List ℕ → List ℕ → (List ℕ → Type 0) → Type 0
EndsWith p s Rest =
    (length p ≤ length s)
    × (agrees p (drop (length s - length p) s) ≡ true)
    × Rest (take (length s - length p) s)

-- The same text from place `k` on.
module _ (p s : List ℕ) (Rest : List ℕ → Type 0) (k : ℕ) (le : k ≤ length s) where
  later_end :
      length p ≤ length s - k
      → drop (length (drop k s) - length p) (drop k s) ≡ drop (length s - length p) s
  later_end fits =
      drop-drop (length (drop k s) - length p) k s
      ∙ ap (λ n. drop n s) (omega (arith, length-drop {0} k s))

  later_front :
      length p ≤ length s - k
      → take (length (drop k s) - length p) (drop k s) ≡ drop k (take (length s - length p) s)
  later_front fits =
      ap (λ n. take n (drop k s)) (omega (arith, length-drop {0} k s))
      ∙ take-drop (length s - length p) k s (omega arith)

  EndsWith-later : EndsWith p (drop k s) Rest ↔ (
      (length p + k ≤ length s)
      × (agrees p (drop (length s - length p) s) ≡ true)
      × Rest (drop k (take (length s - length p) s)))
  EndsWith-later = (
    λ (fits, a, r).
        let le2 : length p ≤ length s - k = omega (arith, length-drop {0} k s) in
        (omega arith, ap (agrees p) (sym (later_end le2)) ∙ a, subst Rest (later_front le2) r),
    λ (fits, a, r).
        let le2 : length p ≤ length s - k = omega arith in
        (
          omega (arith, length-drop {0} k s),
          ap (agrees p) (later_end le2) ∙ a,
          subst Rest (sym (later_front le2)) r,
        ),
  )

pub drop_all : (n : ℕ) (s : List ℕ) → length s ≤ n → drop n s ≡ []
drop_all n [] le = drop-nil n
drop_all zero (x ∷ s) le = absurd (omega arith)
drop_all (suc n) (x ∷ s) le = drop_all n s (omega arith)

pub last_piece :
    (p : List ℕ) (ps : List (List ℕ)) (s : List ℕ)
    → is_star p ≡ false
    → Pieces (ps ++ (p ∷ [])) s ↔ EndsWith p s (Pieces ps)
last_piece p [] s e = (
  λ h.
      let f = Piece-step p s (λ t. t ≡ []) e h in
      let zero_left : length s - length p ≡ 0 =
        omega (arith, ap length f.1, length-drop {0} (length p) s) in
      (
        agrees-length p s f.0,
        ap (λ n. agrees p (drop n s)) zero_left ∙ f.0,
        ap (λ n. take n s) zero_left,
      ),
  λ (fits, a, r).
      let zero_left : length s - length p ≡ 0 =
        omega (arith, ap length r, length-take {0} (length s - length p) s) in
      Piece-cons p s (λ t. t ≡ []) e
        (ap (λ n. agrees p (drop n s)) (sym zero_left) ∙ a, drop_all (length p) s (omega arith)),
)
last_piece p (q ∷ ps) s e = elim (Bool-cases (is_star q)) [
  | inl star_q ↦ rw star_q (
    λ (k, le, h).
        let (fits, a, r) =
          (EndsWith-later p s (Pieces ps) k le).0 ((last_piece p ps (drop k s) e).0 h) in
        (omega arith, a, (k, omega (arith, length-take {0} (length s - length p) s), r)),
    λ (fits, a, (k, le, r)).
        let short : k ≤ length s - length p =
          omega (arith, length-take {0} (length s - length p) s) in
        let long : k ≤ length s = omega arith in
        (
          k,
          long,
          (last_piece p ps (drop k s) e).1
              ((EndsWith-later p s (Pieces ps) k long).1 (omega arith, a, r)),
        ),
  )
  | inr plain ↦ rw plain (
    λ (aq, h).
        let (fits, a, r) =
          (EndsWith-later p s (Pieces ps) (length q) (agrees-length q s aq)).0
            ((last_piece p ps (drop (length q) s) e).0 h) in
        (omega arith, a, (agrees-take q s (length s - length p) (omega arith) ∙ aq, r)),
    λ (fits, a, (aq, r)).
        let short : length q ≤ length s - length p = omega (
          arith,
          agrees-length q (take (length s - length p) s) aq,
          length-take {0} (length s - length p) s,
        ) in
        let aq2 : agrees q s ≡ true = sym (agrees-take q s (length s - length p) short) ∙ aq in
        (
          aq2,
          (last_piece p ps (drop (length q) s) e).1 (
              (EndsWith-later p s (Pieces ps) (length q) (agrees-length q s aq2)).1
                (omega arith, a, r)),
        ),
  )
]
