-- ===== src/Text.antt =====
-- util/string.hpp. A string is the list of its characters, each a number.
pub mod Find
pub mod Replace
pub mod Split
pub mod Capture
mod Tests
use mathlib.Core.Option
use code_c.Base.{
  ℕ, zero, suc, ◌+◌, ◌-◌, Bool, true, false, Option, none, some, List, [], ◌∷◌, ◌++◌, ◌==◌,
  if◌then◌else◌, length, take, drop,
}

-- `std::string`'s `==`
unfoldable pub text_eq : List ℕ → List ℕ → Bool
text_eq [] [] = true
text_eq [] (y ∷ ys) = false
text_eq (x ∷ xs) [] = false
text_eq (x ∷ xs) (y ∷ ys) = if x == y then text_eq xs ys else false

pub is_prefix : List ℕ → List ℕ → Bool
is_prefix [] s = true
is_prefix (p ∷ ps) [] = false
is_prefix (p ∷ ps) (x ∷ xs) = if p == x then is_prefix ps xs else false

-- `str.find(pattern)`: the first place where the pattern stands; `none` is `npos`.
pub find_text : List ℕ → List ℕ → Option ℕ
unfolding is_prefix
find_text p [] = if is_prefix p [] then some 0 else none
find_text p (x ∷ xs) =
    let later = Option.map suc (find_text p xs) in if is_prefix p (x ∷ xs) then some 0 else later

-- `str.find(pattern, from)`, for `from` inside the text.
pub find_after : List ℕ → List ℕ → ℕ → Option ℕ
find_after p s from = Option.map (λ i. from + i) (find_text p (drop from s))

-- `str.replace(pos, old_value.length(), new_value)`
pub replaced : ℕ → List ℕ → List ℕ → List ℕ → List ℕ
replaced pos old new s = take pos s ++ (new ++ drop (pos + length old) s)

-- The loop of `replace_all`, on fuel; `none` when the loop has not ended.
pub replace_loop : ℕ → List ℕ → List ℕ → List ℕ → Option (List ℕ)
unfolding find_text replaced
replace_loop zero old new s = none
replace_loop (suc fuel) old new s = elim (find_text old s) [
  | none ↦ some s
  | some pos ↦ replace_loop fuel old new (replaced pos old new s)
]

-- `replace_all`
pub replace_all : ℕ → List ℕ → List ℕ → List ℕ → Option (List ℕ)
unfolding replace_loop text_eq
replace_all fuel s old new = if text_eq old new then some s else replace_loop fuel old new s

-- `capture`, in two steps as there: after the left mark, and up to the right one.
pub up_to : List ℕ → ℕ → Option ℕ → List ℕ
up_to s lpos none = []
up_to s lpos (some rpos) = take (rpos - lpos) (drop lpos s)

pub capture_after : List ℕ → List ℕ → List ℕ → Option ℕ → List ℕ
unfolding up_to find_after
capture_after s left right none = []
capture_after s left right (some lpos) =
    up_to s (lpos + length left) (find_after right s (lpos + length left))

pub capture : List ℕ → List ℕ → List ℕ → List ℕ
unfolding capture_after find_text
capture s left right = capture_after s left right (find_text left s)

-- `std::getline(ss, item, delim)` until it fails, with the characters of the item read so far. At the
-- end of the text an item is read only if it has a character.
pub split_loop : List ℕ → List ℕ → ℕ → List (List ℕ)
split_loop [] [] delim = []
split_loop [] (c ∷ cs) delim = (c ∷ cs) ∷ []
split_loop (x ∷ xs) item delim =
    let ended = item ∷ split_loop xs [] delim in
    let longer = split_loop xs (item ++ (x ∷ [])) delim in if x == delim then ended else longer

-- `split`
pub split : List ℕ → ℕ → List (List ℕ)
unfolding split_loop
split s delim = split_loop s [] delim
