-- ===== src/Wildcard.antt =====
-- c++/leetcode/44-2.cpp: matching a text with a pattern in which `?` stands for one character and `*`
-- for any number of them. A string is the list of its characters; `string::npos` is `none`.
pub mod Meaning
pub mod Pieces
pub mod Shape
pub mod Ends
pub mod Last
pub mod Back
pub mod Greedy
pub mod Correct
mod Tests
use code_c.Base.{
  ℕ, zero, suc, ◌+◌, ◌-◌, Bool, true, false, ◌&&◌, ◌||◌, Option, none, some, List, [], ◌∷◌, ◌++◌,
  ◌==◌, ltb, if◌then◌else◌, length, take, drop, ◌>>=◌,
}
use code_c.Text.{text_eq}

abbrev pub star : ℕ
star = 42

abbrev pub any : ℕ
any = 63

-- `stringSplit`, with `str.substr(from, i - from)` as `piece` and `str.substr(i)` as the last argument.
pub flushed : List ℕ → List (List ℕ) → List (List ℕ)
flushed [] elems = elems
flushed (c ∷ piece) elems = (c ∷ piece) ∷ elems

pub split_from : ℕ → List ℕ → List ℕ → List (List ℕ)
split_from delim piece [] = flushed piece []
split_from delim piece (c ∷ str) =
    let after = (c ∷ []) ∷ split_from delim [] str in
    let inside = split_from delim (piece ++ (c ∷ [])) str in
    if c == delim then flushed piece after else inside

pub string_split : List ℕ → ℕ → List (List ℕ)
string_split str delim = split_from delim [] str

-- `p[j] == '?' || p[j] == s[i + j]`, for every `j` below `p.size()`; a text that is too short does not
-- match.
pub accepts : ℕ → ℕ → Bool
accepts c x = (c == any) || (c == x)

pub agrees : List ℕ → List ℕ → Bool
agrees [] s = true
agrees (c ∷ p) [] = false
agrees (c ∷ p) (x ∷ s) = let rest = agrees p s in if accepts c x then rest else false

-- `match_exact`
pub match_exact : List ℕ → ℕ → List ℕ → Option ℕ
match_exact s i p =
    if ltb (length s) (i + length p)
    then none
    else if agrees p (drop i s)
    then some (i + length p)
    else none

-- `if (ret != string::npos) return ret`
pub first : Option ℕ → Option ℕ → Option ℕ
first none later = later
first (some ret) later = some ret

-- `match`, for `n` more rounds; `p` is not longer than `s`.
pub match_loop : ℕ → List ℕ → ℕ → List ℕ → Option ℕ
match_loop zero s i p = none
match_loop (suc n) s i p = let later = match_loop n s (i + 1) p in first (match_exact s i p) later

pub match : List ℕ → ℕ → List ℕ → Option ℕ
match s i p = match_loop (length s - length p + 1 - i) s i p

pub is_star : List ℕ → Bool
is_star p = text_eq p (star ∷ [])

-- `if (ret == string::npos) return false`
pub only_if : Option ℕ → Option (List ℕ × List (List ℕ)) → Option (List ℕ × List (List ℕ))
only_if none rest = none
only_if (some ret) rest = rest

-- `return s.empty()` once there are no pieces
pub emptied : List ℕ → Option (List ℕ × List (List ℕ))
emptied [] = some ([], [])
emptied (x ∷ s) = none

-- `stripleft`: what is left of `s` and `ps`; `none` is false.
pub strip_left : List ℕ → List (List ℕ) → Option (List ℕ × List (List ℕ))
strip_left s [] = emptied s
strip_left s (front ∷ ps) =
    let rest = strip_left (drop (length front) s) ps in
    if is_star front
    then some (s, front ∷ ps)
    else if ltb (length s) (length front)
    then none
    else only_if (match_exact s 0 front) rest

-- `stripright`, with the last piece first.
pub strip_right : List ℕ → List (List ℕ) → Option (List ℕ × List (List ℕ))
strip_right s [] = emptied s
strip_right s (back ∷ ps) =
    let from = length s - length back in
    let rest = strip_right (take from s) ps in
    if is_star back
    then some (s, back ∷ ps)
    else if ltb (length s) (length back)
    then none
    else only_if (match_exact (take (length back) (drop from s)) 0 back) rest

pub reversed : List (List ℕ) → List (List ℕ) → List (List ℕ)
reversed [] done = done
reversed (p ∷ ps) done = reversed ps (p ∷ done)

-- The loop of `isMatch` over the pieces.
pub match_pieces : List ℕ → ℕ → List (List ℕ) → Bool
match_pieces s i [] = true
match_pieces s i (p ∷ ps) =
    let past_star = match_pieces s i ps in
    let past_piece = elim (match s i p) as (λ _. Bool) [
      | none ↦ false
      | some ret ↦ match_pieces s ret ps
    ] in
    if is_star p then past_star else if ltb (length s) (i + length p) then false else past_piece

-- `isMatch`
pub matched : Option (List ℕ × List (List ℕ)) → Bool
matched none = false
matched (some (s, ps)) = match_pieces s 0 ps

pub is_match : List ℕ → List ℕ → Bool
is_match s p = matched (do
  (t, ps) ← strip_left s (string_split p star)
  (u, rev) ← strip_right t (reversed ps [])
  some (u, reversed rev []))
