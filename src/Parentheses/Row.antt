-- ===== src/Parentheses/Row.antt =====
-- What the marks of 32.cpp say: balanced blocks, with unmatched parentheses between them.
use code_c.Base.{
  ℕ, ◌≡◌, refl, ap, sym, ◌∙◌, Bool, true, false, Option, none, some, List, [], ◌∷◌, ◌++◌, map,
  append_assoc, append-nil, ◌>>=◌, Bool-cases, inl, inr,
}
use code_c.Parentheses.{
  Mark, waiting, unmatched, matched, opens, close_last, closed, mark, mark_loop,
}
use code_c.Parentheses.Balanced.{Balanced, depth, Balanced-append, Balanced-nested}

-- A text up to some place: a block, or a parenthesis with a block behind it and the rest before it.
pub data Row : Type 0 where
  block : List ℕ → Row
  behind : ℕ → List ℕ → Row → Row

abbrev pub text : Row → List ℕ
text (block m) = m
text (behind c m r) = text r ++ (c ∷ m)

abbrev pub ones : List ℕ → List Mark
ones m = map (λ c. matched) m

abbrev pub open_mark : Bool → Mark
open_mark true = waiting
open_mark false = unmatched

abbrev pub marks : Row → List Mark
marks (block m) = ones m
marks (behind c m r) = ones m ++ (open_mark (opens c) ∷ marks r)

-- The last parenthesis outside a block is open.
abbrev pub ends_open : Row → Bool
ends_open (block m) = false
ends_open (behind c m r) = opens c

-- The blocks are balanced, and nothing closed stands behind something open.
abbrev pub Fine : Row → Type 0
Fine (block m) = Balanced m
Fine (behind c m r) = Balanced m × (opens c ≡ false → ends_open r ≡ false) × Fine r

pub ones_cons : (m : List ℕ) (v : List Mark) → ones m ++ (matched ∷ v) ≡ matched ∷ (ones m ++ v)
ones_cons [] v = refl
ones_cons (c ∷ m) v = ap (λ w. matched ∷ w) (ones_cons m v)

pub ones-append : (m n : List ℕ) → ones (m ++ n) ≡ ones n ++ ones m
ones-append [] n = sym (append-nil (ones n))
ones-append (c ∷ m) n = ap (λ w. matched ∷ w) (ones-append m n) ∙ sym (ones_cons n (ones m))

rebound : (o : Option (List Mark)) → o ≡ (o >>= λ w. some w)
rebound none = refl
rebound (some w) = refl

bound_twice :
    (o : Option (List Mark)) (f g : List Mark → List Mark)
    → ((o >>= λ w. some (f w)) >>= λ w. some (g w)) ≡ (o >>= λ w. some (g (f w)))
bound_twice none f g = refl
bound_twice (some w) f g = refl

close_last-ones :
    (m : List ℕ) (v : List Mark)
    → close_last (ones m ++ v) ≡ (close_last v >>= λ w. some (ones m ++ w))
unfolding close_last
close_last-ones [] v = rebound (close_last v)
close_last-ones (c ∷ m) v =
    rw (close_last-ones m v) (bound_twice (close_last v) (λ w. ones m ++ w) (λ w. matched ∷ w))

-- A closing parenthesis finds nothing when nothing waits.
nothing_found : (r : Row) → Fine r → ends_open r ≡ false → close_last (marks r) ≡ none
unfolding close_last
nothing_found (block m) f w = ap close_last (sym (append-nil (ones m))) ∙ close_last-ones m []
nothing_found (behind c m r) f w =
    close_last-ones m (open_mark (opens c) ∷ marks r) ∙ rw w (rw (nothing_found r f.2 (f.1 w)) refl)

-- A block at the end.
extend : Row → List ℕ → Row
extend (block m) b = block (m ++ b)
extend (behind c m r) b = behind c (m ++ b) r

module _ (b : List ℕ) where
  text-extend : (r : Row) → text (extend r b) ≡ text r ++ b
  unfolding extend
  text-extend (block m) = refl
  text-extend (behind c m r) = sym (append_assoc (text r) (c ∷ m) b)

  marks-extend : (r : Row) → marks (extend r b) ≡ ones b ++ marks r
  unfolding extend
  marks-extend (block m) = ones-append m b
  marks-extend (behind c m r) = rw (ones-append m b) (append_assoc (ones b) (ones m) _)

  Fine-extend : (r : Row) → Balanced b → Fine r → Fine (extend r b)
  unfolding extend
  Fine-extend (block m) h f = Balanced-append m b f h
  Fine-extend (behind c m r) h f = (Balanced-append m b f.0 h, f.1, f.2)

found :
    (d : ℕ) (m : List ℕ) (r : Row)
    → opens d ≡ true
    → close_last (marks (behind d m r)) ≡ some (ones m ++ (matched ∷ marks r))
unfolding close_last
found d m r o = close_last-ones m (open_mark (opens d) ∷ marks r) ∙ rw o refl

-- The row of a text with `s` behind that of `r`, marked `v`.
abbrev pub Marked : Row → List ℕ → List Mark → Type 0
Marked r s v = (r' : Row) × (text r' ≡ text r ++ s) × (marks r' ≡ v) × Fine r'

module _ (c : ℕ) where
  unmatched_one :
      (r : Row)
      → Fine r
      → opens c ≡ false
      → ends_open r ≡ false
      → Marked r (c ∷ []) (mark c (marks r))
  unfolding mark closed depth
  unmatched_one r f shut w =
      (behind c [] r, refl, rw (shut, nothing_found r f w) refl, (refl, λ e. w, f))

  around_marks :
      (m : List ℕ) (r : Row)
      → matched ∷ (ones (m ++ (c ∷ [])) ++ marks r) ≡ matched ∷ (ones m ++ (matched ∷ marks r))
  around_marks m r =
      ap (λ w. matched ∷ (w ++ marks r)) (ones-append m (c ∷ []))
      ∙ ap (λ w. matched ∷ w) (sym (ones_cons m (marks r)))

  matched_one :
      (d : ℕ) (m : List ℕ) (r : Row)
      → Fine (behind d m r)
      → opens c ≡ false
      → opens d ≡ true
      → Marked (behind d m r) (c ∷ []) (mark c (marks (behind d m r)))
  unfolding mark closed close_last
  matched_one d m r f shut o =
      let b = d ∷ (m ++ (c ∷ [])) in
      (
        extend r b,
        text-extend b r ∙ sym (append_assoc (text r) (d ∷ m) (c ∷ [])),
        marks-extend b r ∙ around_marks m r ∙ sym (rw (shut, found d m r o) refl),
        Fine-extend b r (Balanced-nested d c m o shut f.0) f.2,
      )

  shut_one : (r : Row) → Fine r → opens c ≡ false → Marked r (c ∷ []) (mark c (marks r))
  shut_one (block m) f shut = unmatched_one (block m) f shut refl
  shut_one (behind d m r) f shut = elim (Bool-cases (opens d)) [
    | inl o ↦ matched_one d m r f shut o
    | inr w ↦ unmatched_one (behind d m r) f shut w
  ]

  one_more : (r : Row) → Fine r → Marked r (c ∷ []) (mark c (marks r))
  unfolding mark depth
  one_more r f = elim (Bool-cases (opens c)) [
    | inl o ↦ (behind c [] r, refl, rw o refl, (refl, λ e. cc (e, o), f))
    | inr shut ↦ shut_one r f shut
  ]

pub whole_text : (s : List ℕ) (r : Row) → Fine r → Marked r s (mark_loop s (marks r))
unfolding mark_loop
whole_text [] r f = (r, sym (append-nil (text r)), refl, f)
whole_text (c ∷ s) r f =
    let (r1, t1, m1, f1) = one_more c r f in
    let (r2, t2, m2, f2) = whole_text s r1 f1 in
    (r2, t2 ∙ ap (λ t. t ++ s) t1 ∙ append_assoc (text r) (c ∷ []) s, m2 ∙ ap (mark_loop s) m1, f2)
