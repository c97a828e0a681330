-- ===== src/LongestPath/Forest.antt =====
-- File systems, their texts and the paths of their files, for 388.cpp.
use code_c.Base.{
  ℕ, suc, ◌≢◌, ◌≡◌, ◌||◌, ◌==◌, Bool, true, false, List, [], ◌∷◌, ◌++◌, All, length, replicate, max,
}

-- The files and directories of a directory, in their order: the first, what is in it, and the others.
pub data Forest : Type 0 where
  nothing : Forest
  file : List ℕ → Forest → Forest
  dir : List ℕ → Forest → Forest → Forest

-- A line with its level and its name.
abbrev pub Entry : Type 0
Entry = ℕ × List ℕ

unfoldable pub entries : ℕ → Forest → List Entry
entries level nothing = []
entries level (file name others) = (level, name) ∷ entries level others
entries level (dir name inside others) =
    (level, name) ∷ (entries (suc level) inside ++ entries level others)

unfoldable pub text : List Entry → List ℕ
text [] = []
text ((level, name) ∷ []) = replicate level 9 ++ name
text ((level, name) ∷ e ∷ es) = replicate level 9 ++ (name ++ (10 ∷ text (e ∷ es)))

-- The paths of the files, each behind the path of the directory with its slash.
unfoldable pub paths : List ℕ → Forest → List (List ℕ)
paths above nothing = []
paths above (file name others) = (above ++ name) ∷ paths above others
paths above (dir name inside others) =
    paths (above ++ (name ++ (b'/' ∷ []))) inside ++ paths above others

unfoldable pub longest_of : List (List ℕ) → ℕ
longest_of [] = 0
longest_of (p ∷ ps) = max (length p) (longest_of ps)

unfoldable pub has_dot : List ℕ → Bool
has_dot [] = false
has_dot (c ∷ s) = c == b'.' || has_dot s

-- A name without a tab and a newline in it.
abbrev pub Plain : List ℕ → Type 0
Plain name = All (λ c. (c ≢ 9) × (c ≢ 10)) name

-- The names of files have a dot in them, those of directories have none and are not empty.
abbrev pub Named : Forest → Type 0
Named nothing = Unit
Named (file name others) = Plain name × (has_dot name ≡ true) × Named others
Named (dir name inside others) =
    Plain name × (has_dot name ≡ false) × (name ≢ []) × Named inside × Named others
