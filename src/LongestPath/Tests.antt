-- ===== src/LongestPath/Tests.antt =====
-- Texts of file systems for 388.cpp.
use code_c.Base.{ℕ, ◌≡◌, ◌≢◌, ◌<◌, refl, some, [], ◌∷◌, arith, length}
use code_c.LongestPath.{scan, resize, last_or_0, add_line, path_loop, length_longest_path}
use code_c.LongestPath.Forest.{
  Forest, nothing, file, dir, entries, text, paths, longest_of, has_dot, Named,
}
use code_c.LongestPath.Longest.{cons_not_empty, length_longest_path-paths}

-- The directory "d" with the empty directory "e" and the file "f.c", and the file "g.h" beside it.
abbrev two_files : Forest
two_files =
    dir (b'd' ∷ []) (dir (b'e' ∷ []) nothing (file (b'f' ∷ b'.' ∷ b'c' ∷ []) nothing))
      (file (b'g' ∷ b'.' ∷ b'h' ∷ []) nothing)

text-two_files :
    text (entries 0 two_files)
    ≡ b'd' ∷ 10 ∷ 9 ∷ b'e' ∷ 10 ∷ 9 ∷ b'f' ∷ b'.' ∷ b'c' ∷ 10 ∷ b'g' ∷ b'.' ∷ b'h' ∷ []
unfolding text entries
text-two_files = refl

two_files_long : length_longest_path 9 (text (entries 0 two_files)) ≡ some 5
unfolding length_longest_path path_loop add_line last_or_0 resize scan text entries
two_files_long = refl

-- A text may end in a newline, and a line may stand deeper than its directory.
deep_long : length_longest_path 9 (9 ∷ 9 ∷ b'f' ∷ b'.' ∷ 10 ∷ []) ≡ some 2
unfolding length_longest_path path_loop add_line last_or_0 resize scan
deep_long = refl

printed : (c : ℕ) → 10 < c → (c ≢ 9) × (c ≢ 10)
printed c h = ground arith

two_files-Named : Named two_files
unfolding has_dot
two_files-Named = (
  (printed b'd' (omega arith), tt),
  refl,
  cons_not_empty b'd' [],
  (
    (printed b'e' (omega arith), tt),
    refl,
    cons_not_empty b'e' [],
    tt,
    (
      (printed b'f' (omega arith), (printed b'.' (omega arith), (printed b'c' (omega arith), tt))),
      refl,
      tt,
    ),
  ),
  (
    (printed b'g' (omega arith), (printed b'.' (omega arith), (printed b'h' (omega arith), tt))),
    refl,
    tt,
  ),
)

two_files_lines : length (entries 0 two_files) < 5
unfolding entries
two_files_lines = omega arith

length_longest_path-paths_example :
    length_longest_path 5 (text (entries 0 two_files)) ≡ some (longest_of (paths [] two_files))
length_longest_path-paths_example =
    length_longest_path-paths two_files 5 two_files-Named two_files_lines
