-- ===== src/Wildcard/Shape.antt =====
-- The order of stars and other pieces that `stringSplit` of 44-2.cpp gives, and lists in reverse.
use code_c.Base.{
  ℕ, ◌≡◌, refl, ap, ◌∙◌, subst, sym, Bool, true, false, not, List, [], ◌∷◌, ◌++◌, ◌==◌, arith,
  Bool-cases, inl, inr, append_assoc,
}
use code_c.Wildcard.{star, is_star, flushed, split_from, string_split, reversed}
use code_c.Wildcard.Meaning.{StarFree, is_star_of, piece_not_star}
use code_c.Wildcard.Pieces.{StarFree-append}

-- Between two pieces that are no stars there is a star; the first may be no star if `free`.
abbrev pub AltStep : Bool → Bool → (Bool → Type 0) → Type 0
AltStep true free Rest = Rest true
AltStep false free Rest = (free ≡ true) × Rest false

abbrev pub Alt : Bool → List (List ℕ) → Type 0
Alt free [] = Unit
Alt free (p ∷ ps) = AltStep (is_star p) free (λ b. Alt b ps)

-- The same, and a star is the last; the first must be one if `pending`.
abbrev pub ClosedStep : Bool → Bool → (Bool → Type 0) → Type 0
ClosedStep true pending Rest = Rest false
ClosedStep false pending Rest = (pending ≡ false) × Rest true

abbrev pub Closed : Bool → List (List ℕ) → Type 0
Closed pending [] = pending ≡ false
Closed pending (p ∷ ps) = ClosedStep (is_star p) pending (λ b. Closed b ps)

-- The step that a piece makes, from what is known of it, and back.
module _ (b : Bool) (p : List ℕ) (ps : List (List ℕ)) {z : Bool} (e : is_star p ≡ z) where
  pub Alt-step : Alt b (p ∷ ps) → AltStep z b (λ c. Alt c ps)
  Alt-step h = subst (λ y. AltStep y b (λ c. Alt c ps)) e h

  pub Alt-cons : AltStep z b (λ c. Alt c ps) → Alt b (p ∷ ps)
  Alt-cons h = subst (λ y. AltStep y b (λ c. Alt c ps)) (sym e) h

  pub Closed-step : Closed b (p ∷ ps) → ClosedStep z b (λ c. Closed c ps)
  Closed-step h = subst (λ y. ClosedStep y b (λ c. Closed c ps)) e h

  pub Closed-cons : ClosedStep z b (λ c. Closed c ps) → Closed b (p ∷ ps)
  Closed-cons h = subst (λ y. ClosedStep y b (λ c. Closed c ps)) (sym e) h

pub Alt-weaken : (b : Bool) (ps : List (List ℕ)) → Alt b ps → Alt true ps
Alt-weaken b [] h = tt
Alt-weaken b (p ∷ ps) h = elim (Bool-cases (is_star p)) [
  | inl e ↦ Alt-cons true p ps e (Alt-step b p ps e h)
  | inr e ↦ Alt-cons true p ps e (refl, (Alt-step b p ps e h).1)
]

pub reversed-Alt :
    (pending : Bool) (rev done : List (List ℕ))
    → Closed pending rev
    → Alt true done
    → (pending ≡ false → Alt false done)
    → Alt false (reversed rev done)
unfolding reversed
reversed-Alt pending [] done c a f = f c
reversed-Alt pending (p ∷ rev) done c a f = elim (Bool-cases (is_star p)) [
  | inl e ↦
      reversed-Alt false rev (p ∷ done) (Closed-step pending p rev e c) (Alt-cons true p done e a)
        (λ _. Alt-cons false p done e a)
  | inr e ↦
      let h = Closed-step pending p rev e c in
      reversed-Alt true rev (p ∷ done) h.1 (Alt-cons true p done e (refl, f h.0))
        (λ z. absurd (ground arith))
]

pub reversed-Closed :
    (free : Bool) (ps done : List (List ℕ))
    → Alt free ps
    → Closed false done
    → (free ≡ true → Closed true done)
    → Closed false (reversed ps done)
unfolding reversed
reversed-Closed free [] done a c f = c
reversed-Closed free (p ∷ ps) done a c f = elim (Bool-cases (is_star p)) [
  | inl e ↦
      reversed-Closed true ps (p ∷ done) (Alt-step free p ps e a) (Closed-cons false p done e c)
        (λ _. Closed-cons true p done e c)
  | inr e ↦
      let h = Alt-step free p ps e a in
      reversed-Closed false ps (p ∷ done) h.1 (Closed-cons false p done e (refl, f h.0))
        (λ z. absurd (ground arith))
]

-- A closed list alternates.
pub Closed-Alt : (pending : Bool) (ps : List (List ℕ)) → Closed pending ps → Alt (not pending) ps
Closed-Alt pending [] c = tt
Closed-Alt pending (p ∷ ps) c = elim (Bool-cases (is_star p)) [
  | inl e ↦ Alt-cons (not pending) p ps e (Closed-Alt false ps (Closed-step pending p ps e c))
  | inr e ↦
      let h = Closed-step pending p ps e c in
      Alt-cons (not pending) p ps e (ap not h.0, Closed-Alt true ps h.1)
]

flushed-Alt :
    (piece : List ℕ) (elems : List (List ℕ))
    → StarFree piece
    → Alt false elems
    → Alt true (flushed piece elems)
unfolding flushed
flushed-Alt [] elems free a = Alt-weaken false elems a
flushed-Alt (c ∷ piece) elems free a =
    Alt-cons true (c ∷ piece) elems (piece_not_star c piece free) (refl, a)

split_from-Alt : (piece str : List ℕ) → StarFree piece → Alt true (split_from star piece str)
unfolding split_from
split_from-Alt piece [] free = flushed-Alt piece [] free tt
split_from-Alt piece (c ∷ str) free = elim (Bool-cases (c == star)) [
  | inl e ↦ rw e (
      flushed-Alt piece ((c ∷ []) ∷ split_from star [] str) free (
        Alt-cons false (c ∷ []) (split_from star [] str) (is_star_of c e)
          (split_from-Alt [] str tt)))
  | inr e ↦ rw e (split_from-Alt (piece ++ (c ∷ [])) str (StarFree-append piece c free e))
]

pub string_split-Alt : (p : List ℕ) → Alt true (string_split p star)
unfolding string_split
string_split-Alt p = split_from-Alt [] p tt

pub reversed_append : (ps done : List (List ℕ)) → reversed ps done ≡ reversed ps [] ++ done
unfolding reversed
reversed_append [] done = refl
reversed_append (p ∷ ps) done =
    reversed_append ps (p ∷ done)
    ∙ sym (append_assoc (reversed ps []) (p ∷ []) done)
    ∙ ap (λ t. t ++ done) (sym (reversed_append ps (p ∷ [])))

reversed-reversed : (ps done : List (List ℕ)) → reversed (reversed ps done) [] ≡ reversed done ps
unfolding reversed
reversed-reversed [] done = refl
reversed-reversed (p ∷ ps) done = reversed-reversed ps (p ∷ done)

pub reversed-twice : (ps : List (List ℕ)) → reversed (reversed ps []) [] ≡ ps
unfolding reversed
reversed-twice ps = reversed-reversed ps []

pub reversed_empty : (ps : List (List ℕ)) → reversed ps [] ≡ [] → ps ≡ []
unfolding reversed
reversed_empty ps e = sym (reversed-twice ps) ∙ ap (λ t. reversed t []) e
