-- ===== src/Wildcard/Correct.antt =====
-- `isMatch` of 44-2.cpp and the meaning of its pattern.
use code_c.Base.{
  ℕ, ◌+◌, ◌-◌, ◌≡◌, ◌≤◌, refl, ◌∙◌, subst, sym, ◌↔◌, Bool, true, false, Option, none, some, List,
  [], ◌∷◌, arith, length, drop, Bool-cases, Option-cases, inl, inr, dec_le, ◌>>=◌,
}
use code_c.Wildcard.{
  star, agrees, match, is_star, match_pieces, string_split, strip_left, strip_right, reversed,
  matched, is_match,
}
use code_c.Wildcard.Meaning.{Wild, Pieces}
use code_c.Wildcard.Pieces.{string_split_lem}
use code_c.Wildcard.Shape.{
  Alt, Alt-step, Closed, Closed-step, reversed-Alt, reversed-Closed, string_split-Alt,
  reversed-twice, reversed_empty,
}
use code_c.Wildcard.Ends.{Stripped, strip_left_lem}
use code_c.Wildcard.Back.{StrippedBack, strip_right_lem}
use code_c.Wildcard.Last.{drop_all}
use code_c.Wildcard.Greedy.{
  Somewhere, First, match-First, star_moves, piece_moves, piece_nowhere, pieces_star, pieces_short,
  pieces_none, pieces_some, star_absorbs,
}

-- Both decide the same: a Boolean that is equal to one that decides `M`, with `M` changed to `N`.
decides : {M N : Type 0} (a b : Bool) → a ≡ b → (b ≡ true) ↔ M → N ↔ M → (a ≡ true) ↔ N
decides a b e f g = (λ h. g.1 (f.0 (sym e ∙ h)), λ n. e ∙ f.1 (g.0 n))

refuses : {N : Type 0} (a : Bool) → a ≡ false → (N → ⊥) → (a ≡ true) ↔ N
refuses a e no_ = (λ h. absurd (ground (arith, e, h)), λ n. absurd (no_ n))

First-none :
    (p s : List ℕ) (i : ℕ)
    → First p s i (length s - length p + 1) none
    → (j : ℕ) → i ≤ j
    → j + length p ≤ length s
    → agrees p (drop j s) ≡ false
First-none p s i f j le within = f j le (omega arith)

First-within :
    (p s : List ℕ) (i ret : ℕ)
    → i + length p ≤ length s
    → First p s i (length s - length p + 1) (some ret)
    → ret ≤ length s
First-within p s i ret fits (j, le, lt, a, e, before) = omega arith

match_pieces_lem :
    (pending : Bool) (s : List ℕ) (i : ℕ) (ps : List (List ℕ))
    → i ≤ length s
    → Closed pending ps
    → (match_pieces s i ps ≡ true) ↔ Somewhere ps s i
unfolding match_pieces
match_pieces_lem pending s i [] le c =
    (λ _. (length s, le, omega arith, drop_all (length s) s (omega arith)), λ _. refl)
match_pieces_lem pending s i (p ∷ ps) le c = elim (Bool-cases (is_star p)) [
  | inl e ↦
      decides (match_pieces s i (p ∷ ps)) (match_pieces s i ps) (pieces_star s i p ps e)
        (match_pieces_lem false s i ps le (Closed-step pending p ps e c)) (star_moves p ps s i e)
  | inr e ↦
      let f = Closed-step pending p ps e c in
      elim (dec_le (i + length p) (length s)) [
        | no long ↦
            refuses (match_pieces s i (p ∷ ps)) (pieces_short s i p ps e (omega arith))
              (piece_nowhere p ps s i e (λ j a b. absurd (omega arith)))
        | yes fits ↦ elim (Option-cases (match s i p)) [
          | inl m ↦ refuses (match_pieces s i (p ∷ ps)) (pieces_none s i p ps e m) (
              piece_nowhere p ps s i e (
                First-none p s i
                  (subst (First p s i (length s - length p + 1)) m (match-First s i p fits))))
          | inr (ret, m) ↦
              let found =
                subst (First p s i (length s - length p + 1)) m (match-First s i p fits) in
              decides (match_pieces s i (p ∷ ps)) (match_pieces s ret ps)
                (pieces_some s i p ps ret e fits m)
                (match_pieces_lem true s ret ps (First-within p s i ret fits found) f.1)
                (piece_moves p ps s i ret e f.1 found)
        ]
      ]
]

-- Pieces with a star in front, or none and no text.
from_start :
    (ps : List (List ℕ)) (u : List ℕ)
    → Alt false ps
    → (ps ≡ [] → u ≡ [])
    → Pieces ps u ↔ Somewhere ps u 0
from_start [] u a empty = (λ h. (0, omega arith, omega arith, h), λ _. empty refl)
from_start (q ∷ ps) u a empty = elim (Bool-cases (is_star q)) [
  | inl e ↦ (λ h. (0, omega arith, omega arith, h), λ h. star_absorbs q ps u 0 e h)
  | inr e ↦ absurd (let f = Alt-step false q ps e a in ground (arith, f.0))
]

↔-trans : {A B C : Type 0} → A ↔ B → B ↔ C → A ↔ C
↔-trans f g = (λ a. g.0 (f.0 a), λ c. f.1 (g.1 c))

↔-sym : {A B : Type 0} → A ↔ B → B ↔ A
↔-sym f = (f.1, f.0)

-- What is left when both ends are stripped.
middle_lem :
    (u : List ℕ) (rev : List (List ℕ))
    → Closed false rev
    → Alt false rev
    → (rev ≡ [] → u ≡ [])
    → (match_pieces u 0 (reversed rev []) ≡ true) ↔ Pieces (reversed rev []) u
middle_lem u rev c a empty =
    ↔-trans
      (match_pieces_lem false u 0 (reversed rev []) (omega arith)
        (reversed-Closed false rev [] a refl (λ e. absurd (ground arith))))
      (↔-sym (
        from_start (reversed rev []) u (reversed-Alt false rev [] c tt (λ _. tt))
          (λ e. empty (reversed_empty rev e))))

right_lem :
    (t : List ℕ) (ps : List (List ℕ)) (r : Option (List ℕ × List (List ℕ)))
    → StrippedBack (Pieces ps t) r
    → (matched (do (u, rev) ← r; some (u, reversed rev [])) ≡ true) ↔ Pieces ps t
unfolding matched
right_lem t ps none h = (λ e. absurd (ground (arith, e)), λ m. absurd (h m))
right_lem t ps (some (u, rev)) h = ↔-trans (middle_lem u rev h.1 h.2 h.3) h.0

left_lem :
    (s : List ℕ) (ps : List (List ℕ)) (r : Option (List ℕ × List (List ℕ)))
    → Stripped (Pieces ps s) r
    → (matched
          (do (t, qs) ← r; (u, rev) ← strip_right t (reversed qs []); some (u, reversed rev []))
        ≡ true)
      ↔ Pieces ps s
unfolding matched
left_lem s ps none h = (λ e. absurd (ground (arith, e)), λ m. absurd (h m))
left_lem s ps (some (t, qs)) h =
    let back =
      strip_right_lem false t (reversed qs [])
        (reversed-Closed false qs [] h.1 refl (λ e. absurd (ground arith))) in
    ↔-trans
      (right_lem t qs (strip_right t (reversed qs [])) (
        subst (λ ps2. StrippedBack (Pieces ps2 t) (strip_right t (reversed qs [])))
          (reversed-twice qs) back))
      h.0

-- For every text and pattern, `isMatch` is true exactly when the pattern matches the whole text, where
-- `?` takes one character, `*` any number of them and every other character itself.
pub is_match-Wild : (s p : List ℕ) → (is_match s p ≡ true) ↔ Wild p s
unfolding is_match
is_match-Wild s p =
    ↔-trans
      (left_lem s (string_split p star) (strip_left s (string_split p star))
        (strip_left_lem s (string_split p star) (string_split-Alt p)))
      (string_split_lem p s)
