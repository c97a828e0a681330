-- ===== src/Wildcard/Back.antt =====
-- `stripright` of 44-2.cpp.
use code_c.Base.{
  ℕ, ◌-◌, ◌≡◌, ◌≤◌, refl, ap, subst, sym, ◌↔◌, Bool, true, false, Option, none, some, List, [], ◌∷◌,
  ◌++◌, ltb, if◌then◌else◌, arith, length, take, drop, Bool-cases, inl, inr,
}
use code_c.Wildcard.{agrees, is_star, strip_right, only_if, reversed, emptied}
use code_c.Wildcard.Meaning.{Pieces}
use code_c.Wildcard.Shape.{
  Alt, Closed, Closed-step, Closed-cons, Closed-Alt, Alt-cons, reversed_append,
}
use code_c.Wildcard.Last.{EndsWith, last_piece}
use code_c.Wildcard.Ends.{match_exact_lem, agrees-take}

-- `stripright` decides the pieces in their own order; the last piece comes first in its list.
abbrev pub StrippedBack : Type 0 → Option (List ℕ × List (List ℕ)) → Type 0
StrippedBack Before none = Before → ⊥
StrippedBack Before (some (t, rev)) =
    (Pieces (reversed rev []) t ↔ Before) × Closed false rev × Alt false rev × (rev ≡ [] → t ≡ [])

StrippedBack-map :
    {Before After : Type 0} (r : Option (List ℕ × List (List ℕ)))
    → (After → Before)
    → (Before → After)
    → StrippedBack Before r
    → StrippedBack After r
StrippedBack-map none f g h = λ a. h (f a)
StrippedBack-map (some (t, qs)) f g h = ((λ p. g (h.0.0 p), λ a. h.0.1 (f a)), h.1, h.2, h.3)

reversed_cons :
    (p : List ℕ) (ps : List (List ℕ)) → reversed (p ∷ ps) [] ≡ reversed ps [] ++ (p ∷ [])
unfolding reversed
reversed_cons p ps = reversed_append ps (p ∷ [])

strip_right_star :
    (s p : List ℕ) (ps : List (List ℕ))
    → is_star p ≡ true
    → strip_right s (p ∷ ps) ≡ some (s, p ∷ ps)
unfolding strip_right
strip_right_star s p ps e = rw e refl

strip_right_piece :
    (s p : List ℕ) (ps : List (List ℕ))
    → is_star p ≡ false
    → length p ≤ length s
    → strip_right s (p ∷ ps) ≡ (
        if agrees p (drop (length s - length p) s)
        then strip_right (take (length s - length p) s) ps
        else none)
unfolding strip_right only_if
strip_right_piece s p ps e fits = ground (
  arith,
  e,
  match_exact_lem (take (length p) (drop (length s - length p) s)) 0 p (omega arith),
  agrees-take p (drop (length s - length p) s) (length p) (omega arith),
)

strip_right_short :
    (s p : List ℕ) (ps : List (List ℕ))
    → is_star p ≡ false
    → ltb (length s) (length p) ≡ true
    → strip_right s (p ∷ ps) ≡ none
unfolding strip_right
strip_right_short s p ps e short = rw (e, short) refl

back_iff :
    (s p : List ℕ) (rev : List (List ℕ))
    → is_star p ≡ false
    → Pieces (reversed (p ∷ rev) []) s ↔ EndsWith p s (Pieces (reversed rev []))
back_iff s p rev e =
    subst (λ ps. Pieces ps s ↔ EndsWith p s (Pieces (reversed rev []))) (sym (reversed_cons p rev))
      (last_piece p (reversed rev []) s e)

emptied_back : (s : List ℕ) → StrippedBack (Pieces (reversed [] []) s) (emptied s)
unfolding emptied reversed
emptied_back [] = ((λ e. e, λ e. e), refl, tt, λ e. refl)
emptied_back (x ∷ s) = λ e. absurd (ground (arith, ap length e))

strip_right_long :
    (pending : Bool) (s p : List ℕ) (rev : List (List ℕ))
    → is_star p ≡ false
    → length p ≤ length s
    → Closed true rev
    → StrippedBack
        (Pieces (reversed rev []) (take (length s - length p) s))
        (strip_right (take (length s - length p) s) rev)
    → StrippedBack (Pieces (reversed (p ∷ rev) []) s) (
        if agrees p (drop (length s - length p) s)
        then strip_right (take (length s - length p) s) rev
        else none)
strip_right_long pending s p rev e fits c ih =
    elim (Bool-cases (agrees p (drop (length s - length p) s))) [
      | inl same ↦ rw same (
          StrippedBack-map (strip_right (take (length s - length p) s) rev)
            (λ h. ((back_iff s p rev e).0 h).2) (λ h. (back_iff s p rev e).1 (fits, same, h)) ih)
      | inr other ↦ rw other (λ h. absurd (ground (arith, other, ((back_iff s p rev e).0 h).1)))
    ]

-- For every text and pieces in reverse, of which the last is a star and between any two others of
-- which there is one, `stripright` fails only where the pieces do not match, and leaves a text and
-- pieces that match if those did.
pub strip_right_lem :
    (pending : Bool) (s : List ℕ) (rev : List (List ℕ))
    → Closed pending rev
    → StrippedBack (Pieces (reversed rev []) s) (strip_right s rev)
unfolding strip_right
strip_right_lem pending s [] c = emptied_back s
strip_right_lem pending s (p ∷ rev) c = elim (Bool-cases (is_star p)) [
  | inl e ↦
      let c' = Closed-step pending p rev e c in
      subst (StrippedBack (Pieces (reversed (p ∷ rev) []) s)) (sym (strip_right_star s p rev e)) (
        (λ h. h, λ h. h),
        Closed-cons false p rev e c',
        Alt-cons false p rev e (Closed-Alt false rev c'),
        λ z. absurd (ground (arith, ap length z)),
      )
  | inr e ↦ elim (Bool-cases (ltb (length s) (length p))) [
    | inl short ↦
        subst (StrippedBack (Pieces (reversed (p ∷ rev) []) s))
          (sym (strip_right_short s p rev e short))
          (λ h. absurd (ground (arith, short, ((back_iff s p rev e).0 h).0)))
    | inr long ↦
        let fits : length p ≤ length s = ground (arith, long) in
        subst (StrippedBack (Pieces (reversed (p ∷ rev) []) s))
          (sym (strip_right_piece s p rev e fits))
          (strip_right_long pending s p rev e fits (Closed-step pending p rev e c).1 (
            strip_right_lem true (take (length s - length p) s) rev
              (Closed-step pending p rev e c).1))
  ]
]
