-- ===== src/Wildcard/Pieces.antt =====
-- `stringSplit` of 44-2.cpp keeps the meaning of the pattern.
use code_c.Base.{
  ℕ, ◌≡◌, subst, ◌↔◌, true, false, List, [], ◌∷◌, ◌++◌, ◌==◌, length, drop, Bool-cases, inl, inr,
  append_assoc,
}
use code_c.Wildcard.{star, flushed, split_from, string_split}
use code_c.Wildcard.Meaning.{Wild, Pieces, StarFree, is_star_of, piece_not_star, piece_takes_length}

pub StarFree-append :
    (piece : List ℕ) (c : ℕ) → StarFree piece → (c == star) ≡ false → StarFree (piece ++ (c ∷ []))
StarFree-append [] c h e = (e, tt)
StarFree-append (x ∷ piece) c h e = (h.0, StarFree-append piece c h.1 e)

flushed_lem :
    (piece q : List ℕ) (elems : List (List ℕ)) (s : List ℕ)
    → StarFree piece
    → ((t : List ℕ) → Pieces elems t ↔ Wild q t)
    → Pieces (flushed piece elems) s ↔ Wild (piece ++ q) s
unfolding flushed
flushed_lem [] q elems s free same = same s
flushed_lem (c ∷ piece) q elems s free same =
    let whole = piece_takes_length (c ∷ piece) q s free in
    let after = same (drop (length (c ∷ piece)) s) in
    rw (piece_not_star c piece free)
      (λ f. whole.1 (f.0, after.0 f.1), λ w. let f = whole.0 w in (f.0, after.1 f.1))

star_lem :
    (c : ℕ) (q : List ℕ) (elems : List (List ℕ))
    → (c == star) ≡ true
    → ((t : List ℕ) → Pieces elems t ↔ Wild q t)
    → (t : List ℕ) → Pieces ((c ∷ []) ∷ elems) t ↔ Wild (c ∷ q) t
star_lem c q elems e same t =
    rw (is_star_of c e, e)
      (λ (k, le, f). (k, le, (same (drop k t)).0 f), λ (k, le, w). (k, le, (same (drop k t)).1 w))

split_from_lem :
    (piece str s : List ℕ)
    → StarFree piece
    → Pieces (split_from star piece str) s ↔ Wild (piece ++ str) s
unfolding split_from
split_from_lem piece [] s free = flushed_lem piece [] [] s free (λ t. (λ e. e, λ e. e))
split_from_lem piece (c ∷ str) s free = elim (Bool-cases (c == star)) [
  | inl e ↦ rw e (
      flushed_lem piece (c ∷ str) ((c ∷ []) ∷ split_from star [] str) s free
        (star_lem c str (split_from star [] str) e (λ t. split_from_lem [] str t tt)))
  | inr e ↦ rw e (
      subst (λ q. Pieces (split_from star (piece ++ (c ∷ [])) str) s ↔ Wild q s)
        (append_assoc piece (c ∷ []) str)
        (split_from_lem (piece ++ (c ∷ [])) str s (StarFree-append piece c free e)))
]

pub string_split_lem : (p s : List ℕ) → Pieces (string_split p star) s ↔ Wild p s
unfolding string_split
string_split_lem p s = split_from_lem [] p s tt
