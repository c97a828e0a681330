-- ===== src/Wildcard/Meaning.antt =====
-- What a pattern means, and what the pieces of a pattern mean, for 44-2.cpp.
use code_c.Base.{
  ℕ, ◌≡◌, ◌≤◌, refl, ◌↔◌, Bool, true, false, List, ◌⊎◌, [], ◌∷◌, ◌++◌, ◌==◌, arith, length, drop,
  All,
}
use code_c.Text.{text_eq}
use code_c.Wildcard.{star, accepts, agrees, is_star}

-- A star takes any number of characters, a question mark takes one, another character itself.
abbrev pub Takes : Bool → ℕ → List ℕ → (List ℕ → Type 0) → Type 0
Takes true c s Rest = (k : ℕ) × (k ≤ length s) × Rest (drop k s)
Takes false c [] Rest = ⊥
Takes false c (x ∷ s) Rest = ((c ≡ b'?') ⊎ (c ≡ x)) × Rest s

abbrev pub Wild : List ℕ → List ℕ → Type 0
Wild [] s = s ≡ []
Wild (c ∷ p) s = Takes (c == b'*') c s (Wild p)

-- The same for pieces.
abbrev pub Piece : Bool → List ℕ → List ℕ → (List ℕ → Type 0) → Type 0
Piece true p s Rest = (k : ℕ) × (k ≤ length s) × Rest (drop k s)
Piece false p s Rest = (agrees p s ≡ true) × Rest (drop (length p) s)

abbrev pub Pieces : List (List ℕ) → List ℕ → Type 0
Pieces [] s = s ≡ []
Pieces (p ∷ ps) s = Piece (is_star p) p s (Pieces ps)

abbrev pub StarFree : List ℕ → Type 0
StarFree p = All (λ c. (c == star) ≡ false) p

pub agrees-length : (p s : List ℕ) → agrees p s ≡ true → length p ≤ length s
unfolding agrees
agrees-length [] s h = omega arith
agrees-length (c ∷ p) [] h = absurd (ground arith)
agrees-length (c ∷ p) (x ∷ s) h = ground (arith, agrees-length p s)

pub is_star_of : (c : ℕ) → (c == star) ≡ true → is_star (c ∷ []) ≡ true
unfolding is_star text_eq
is_star_of c e = rw e refl

pub piece_not_star : (c : ℕ) (p : List ℕ) → StarFree (c ∷ p) → is_star (c ∷ p) ≡ false
unfolding is_star text_eq
piece_not_star c p h = rw h.0 refl

agrees_step :
    (c x : ℕ) (p s : List ℕ)
    → accepts c x ≡ true
    → agrees p s ≡ true
    → agrees (c ∷ p) (x ∷ s) ≡ true
unfolding agrees
agrees_step c x p s h k = rw h k

agrees_both :
    (c x : ℕ) (p s : List ℕ)
    → agrees (c ∷ p) (x ∷ s) ≡ true
    → (accepts c x ≡ true) × (agrees p s ≡ true)
unfolding agrees
agrees_both c x p s h = ground arith

accepts_lem : (c x : ℕ) → (accepts c x ≡ true) ↔ ((c ≡ b'?') ⊎ (c ≡ x))
unfolding accepts
accepts_lem c x = (λ e. ground arith, λ e. ground arith)

-- A piece without stars takes its own length.
pub piece_takes_length :
    (piece q s : List ℕ)
    → StarFree piece
    → Wild (piece ++ q) s ↔ ((agrees piece s ≡ true) × Wild q (drop (length piece) s))
unfolding agrees
piece_takes_length [] q s h = (λ w. (refl, w), λ f. f.1)
piece_takes_length (c ∷ piece) q [] h = rw h.0 (λ w. absurd w, λ f. absurd (ground arith))
piece_takes_length (c ∷ piece) q (x ∷ s) h =
    let ih = piece_takes_length piece q s h.1 in
    rw h.0 (
      λ w. let f = ih.0 w.1 in (agrees_step c x piece s ((accepts_lem c x).1 w.0) f.0, f.1),
      λ f.
          let (here, rest) = agrees_both c x piece s f.0 in
          ((accepts_lem c x).0 here, ih.1 (rest, f.1)),
    )
