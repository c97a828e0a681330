-- ===== src/Wildcard/Greedy.antt =====
-- The loop of `isMatch` in 44-2.cpp takes the first place for each piece.
use code_c.Base.{
  ℕ, zero, suc, ◌+◌, ◌-◌, ◌≡◌, ◌≤◌, ◌<◌, refl, ap, ◌∙◌, subst, sym, ◌↔◌, true, false, Option, none,
  some, List, [], ◌∷◌, arith, length, drop, length-drop, Bool-cases, inl, inr, ℕ_discrete, dec_le,
}
use code_c.Wildcard.{agrees, first, match_loop, match, is_star, match_pieces}
use code_c.Wildcard.Meaning.{Pieces, agrees-length}
use code_c.Wildcard.Shape.{Closed, Closed-step}
use code_c.Wildcard.Ends.{match_exact_lem, Piece-step, Piece-cons, drop-drop}

-- The pieces match from some place on.
abbrev pub Somewhere : List (List ℕ) → List ℕ → ℕ → Type 0
Somewhere ps s i = (j : ℕ) × (i ≤ j) × (j ≤ length s) × Pieces ps (drop j s)

-- The first of the places from `i` to `stop` where the piece fits, and the place behind it.
abbrev pub First : List ℕ → List ℕ → ℕ → ℕ → Option ℕ → Type 0
First p s i stop none = (j : ℕ) → i ≤ j → j < stop → agrees p (drop j s) ≡ false
First p s i stop (some ret) =
    (j : ℕ) × (i ≤ j)
    × (j < stop)
    × (agrees p (drop j s) ≡ true)
    × (ret ≡ j + length p)
    × ((k : ℕ) → i ≤ k → k < j → agrees p (drop k s) ≡ false)

First-later :
    (p s : List ℕ) (i stop : ℕ) (r : Option ℕ)
    → agrees p (drop i s) ≡ false
    → First p s (i + 1) stop r
    → First p s i stop r
First-later p s i stop none fails h = λ j le lt. elim (ℕ_discrete i j) [
  | yes e ↦ ap (λ n. agrees p (drop n s)) (sym e) ∙ fails
  | no ne ↦ h j (omega arith) lt
]
First-later p s i stop (some ret) fails (j, le, lt, fits, e, before) = (
  j,
  omega arith,
  lt,
  fits,
  e,
  λ k le2 lt2. elim (ℕ_discrete i k) [
    | yes e2 ↦ ap (λ n. agrees p (drop n s)) (sym e2) ∙ fails
    | no ne ↦ before k (omega arith) lt2
  ],
)

match_loop-First :
    (n : ℕ) (s : List ℕ) (i : ℕ) (p : List ℕ)
    → i + n ≤ length s + 1
    → First p s i (i + n) (match_loop n s i p)
unfolding match_loop first
match_loop-First zero s i p le = λ j a b. absurd (omega arith)
match_loop-First (suc n) s i p le = elim (Bool-cases (agrees p (drop i s))) [
  | inl fits ↦
      rw (match_exact_lem s i p (omega arith), fits)
        (i, omega arith, omega arith, fits, refl, λ k a b. absurd (omega arith))
  | inr fails ↦
      let e : i + 1 + n ≡ i + suc n = omega arith in
      let ih = match_loop-First n s (i + 1) p (omega arith) in
      rw (match_exact_lem s i p (omega arith), fails)
        (First-later p s i (i + suc n) (match_loop n s (i + 1) p) fails
          (subst (λ stop. First p s (i + 1) stop (match_loop n s (i + 1) p)) e ih))
]

pub match-First :
    (s : List ℕ) (i : ℕ) (p : List ℕ)
    → i + length p ≤ length s
    → First p s i (length s - length p + 1) (match s i p)
unfolding match
match-First s i p le =
    let e : i + (length s - length p + 1 - i) ≡ length s - length p + 1 = omega arith in
    subst (λ stop. First p s i stop (match_loop (length s - length p + 1 - i) s i p)) e
      (match_loop-First (length s - length p + 1 - i) s i p (omega arith))

-- A star in front takes what comes before as well.
pub star_absorbs :
    (q : List ℕ) (ps : List (List ℕ)) (s : List ℕ) (i : ℕ)
    → is_star q ≡ true
    → Somewhere (q ∷ ps) s i
    → Pieces (q ∷ ps) (drop i s)
star_absorbs q ps s i e (j, le, within, h) =
    let (k, le2, r) = Piece-step q (drop j s) (Pieces ps) e h in
    Piece-cons q (drop i s) (Pieces ps) e (
      j - i + k,
      omega (arith, length-drop {0} j s, length-drop {0} i s),
      subst (Pieces ps)
          (drop-drop k j s ∙ ap (λ n. drop n s) (omega arith) ∙ sym (drop-drop (j - i + k) i s)) r,
    )

pub star_moves :
    (q : List ℕ) (ps : List (List ℕ)) (s : List ℕ) (i : ℕ)
    → is_star q ≡ true
    → Somewhere (q ∷ ps) s i ↔ Somewhere ps s i
star_moves q ps s i e = (
  λ (j, le, within, h).
      let (k, le2, r) = Piece-step q (drop j s) (Pieces ps) e h in
      (
        j + k,
        omega arith,
        omega (arith, length-drop {0} j s),
        subst (Pieces ps) (drop-drop k j s) r,
      ),
  λ (j, le, within, h). (j, le, within, Piece-cons q (drop j s) (Pieces ps) e (0, omega arith, h)),
)

starts_with_star :
    (ps : List (List ℕ)) (s : List ℕ) (i : ℕ)
    → Closed true ps
    → Somewhere ps s i
    → Pieces ps (drop i s)
starts_with_star [] s i c h = absurd (ground arith)
starts_with_star (q ∷ ps) s i c h = elim (Bool-cases (is_star q)) [
  | inl e ↦ star_absorbs q ps s i e h
  | inr e ↦ absurd (let f = Closed-step true q ps e c in ground (arith, f.0))
]

-- Where the piece fits first, the others match from some place behind it if they match at all.
pub piece_moves :
    (p : List ℕ) (ps : List (List ℕ)) (s : List ℕ) (i ret : ℕ)
    → is_star p ≡ false
    → Closed true ps
    → First p s i (length s - length p + 1) (some ret)
    → Somewhere (p ∷ ps) s i ↔ Somewhere ps s ret
piece_moves p ps s i ret e c (j, le, lt, fits, at_ret, before) = (
  λ (k, le2, within, h).
      let (fits_k, rest) = Piece-step p (drop k s) (Pieces ps) e h in
      let long : length p ≤ length s - k =
        omega (arith, agrees-length p (drop k s) fits_k, length-drop {0} k s) in
      let not_before : j ≤ k = elim (dec_le j k) [
        | yes h2 ↦ h2
        | no h2 ↦ absurd (ground (arith, before k le2 (omega arith), fits_k))
      ] in
      (
        k + length p,
        omega arith,
        omega (arith, agrees-length p (drop k s) fits_k, length-drop {0} k s),
        subst (Pieces ps) (drop-drop (length p) k s) rest,
      ),
  λ h.
      let long : length p ≤ length s - j =
        omega (arith, agrees-length p (drop j s) fits, length-drop {0} j s) in
      (
        j,
        le,
        omega arith,
        Piece-cons p (drop j s) (Pieces ps) e (
          fits,
          subst (Pieces ps) (ap (λ n. drop n s) at_ret ∙ sym (drop-drop (length p) j s))
              (starts_with_star ps s ret c h),
        ),
      ),
)

-- Where the piece fits nowhere, nothing matches.
pub piece_nowhere :
    (p : List ℕ) (ps : List (List ℕ)) (s : List ℕ) (i : ℕ)
    → is_star p ≡ false
    → ((j : ℕ) → i ≤ j → j + length p ≤ length s → agrees p (drop j s) ≡ false)
    → Somewhere (p ∷ ps) s i
    → ⊥
piece_nowhere p ps s i e never (k, le, within, h) =
    let fits = (Piece-step p (drop k s) (Pieces ps) e h).0 in
    let long : k + length p ≤ length s =
      omega (arith, agrees-length p (drop k s) fits, length-drop {0} k s) in
    ground (arith, never k le long, fits)

module _ (s : List ℕ) (i : ℕ) (p : List ℕ) (ps : List (List ℕ)) where
  pub pieces_star : is_star p ≡ true → match_pieces s i (p ∷ ps) ≡ match_pieces s i ps
  unfolding match_pieces
  pieces_star e = rw e refl

  pub pieces_short : is_star p ≡ false → length s < i + length p → match_pieces s i (p ∷ ps) ≡ false
  unfolding match_pieces
  pieces_short e lt = ground arith

  pub pieces_none : is_star p ≡ false → match s i p ≡ none → match_pieces s i (p ∷ ps) ≡ false
  unfolding match_pieces
  pieces_none e m = ground arith

  pub pieces_some :
      (ret : ℕ)
      → is_star p ≡ false
      → i + length p ≤ length s
      → match s i p ≡ some ret
      → match_pieces s i (p ∷ ps) ≡ match_pieces s ret ps
  unfolding match_pieces
  pieces_some ret e le m = ground arith
