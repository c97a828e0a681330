-- ===== src/LongestPath/Longest.antt =====
-- 388.cpp finds the length of the longest path of a file.
use code_c.Base.{
  ℕ, suc, ◌+◌, ◌-◌, ◌<◌, ◌≢◌, ◌≡◌, refl, ap, sym, ◌∙◌, true, false, some, List, [], ◌∷◌, ◌++◌, All,
  length, arith, if◌then◌else◌, Bool-cases, inl, inr, ltb, length-append, append_assoc, max,
}
use code_c.LongestPath.{resize, last_or_0, add_line, length_longest_path}
use code_c.LongestPath.Forest.{
  Forest, nothing, file, dir, Entry, entries, text, paths, longest_of, has_dot, Named,
}
use code_c.LongestPath.Texts.{added, Line, path_loop-text}

-- `max` after the files of some paths; the code counts a slash before each.
peak : ℕ → List (List ℕ) → ℕ
peak m [] = m
peak m (p ∷ ps) = peak (if ltb m (suc (length p)) then suc (length p) else m) ps

peak-append : (m : ℕ) (ps qs : List (List ℕ)) → peak m (ps ++ qs) ≡ peak (peak m ps) qs
unfolding peak
peak-append m [] qs = refl
peak-append m (p ∷ ps) qs = peak-append (if ltb m (suc (length p)) then suc (length p) else m) ps qs

raised : (m k l : ℕ) → max ((if ltb m (suc k) then suc k else m) - 1) l ≡ max (m - 1) (max k l)
raised m k l = elim (Bool-cases (ltb m (suc k))) [
  | inl low ↦ rw low (ground arith)
  | inr high ↦ rw high (ground arith)
]

peak-longest_of : (m : ℕ) (ps : List (List ℕ)) → peak m ps - 1 ≡ max (m - 1) (longest_of ps)
unfolding peak longest_of
peak-longest_of m [] = omega arith
peak-longest_of m (p ∷ ps) =
    peak-longest_of (if ltb m (suc (length p)) then suc (length p) else m) ps
    ∙ raised m (length p) (longest_of ps)

not_less : (k : ℕ) → ltb k k ≡ false
not_less k = ground arith

none_left : (k : ℕ) → k - k ≡ 0
none_left k = omega arith

shorter : (w v : List ℕ) → ltb (length v) (suc (length (w ++ v))) ≡ true
shorter w v = let l = length-append w v in ground (arith, l)

resize_back : (w v : List ℕ) → resize (length v) (w ++ v) ≡ v
unfolding resize
resize_back [] [] = refl
resize_back [] (x ∷ v) = rw (not_less (suc (length v)), none_left (suc (length v))) refl
resize_back (y ∷ w) v = rw (shorter w v) (resize_back w v)

added-append :
    (es fs : List Entry) (v : List ℕ) (m : ℕ)
    → added (es ++ fs) v m ≡ added fs (added es v m).0 (added es v m).1
unfolding added
added-append [] fs v m = refl
added-append (e ∷ es) fs v m = added-append es fs _ _

-- The vector has entries behind those of the directory at most, and `max` is raised by the paths.
abbrev Walked : List ℕ → List (List ℕ) → ℕ → List ℕ × ℕ → Type 0
Walked v ps m r = ((w : List ℕ) × (r.0 ≡ w ++ v)) × (r.1 ≡ peak m ps)

added-file :
    (name : List ℕ) (es : List Entry) (v w : List ℕ) (m : ℕ)
    → has_dot name ≡ true
    → added ((length v, name) ∷ es) (w ++ v) m
      ≡ added es v
          (if ltb m (last_or_0 v + 1 + length name) then last_or_0 v + 1 + length name else m)
unfolding added add_line
added-file name es v w m h = rw (h, resize_back w v) refl

added-dir :
    (name : List ℕ) (es : List Entry) (v w : List ℕ) (m : ℕ)
    → has_dot name ≡ false
    → added ((length v, name) ∷ es) (w ++ v) m ≡ added es ((last_or_0 v + 1 + length name) ∷ v) m
unfolding added add_line
added-dir name es v w m h = rw (h, resize_back w v) refl

-- What a file and a directory add to the path of the directory that they are in.
length_path :
    (p name : List ℕ) (k : ℕ) → length p ≡ k → suc (length (p ++ name)) ≡ k + 1 + length name
length_path p name k e = omega (arith, e, length-append p name)

length_slash :
    (p name : List ℕ) (k : ℕ)
    → length p ≡ k
    → length (p ++ (name ++ (b'/' ∷ []))) ≡ k + 1 + length name
length_slash p name k e =
    omega (arith, e, length-append p (name ++ (b'/' ∷ [])), length-append name (b'/' ∷ []))

append-Walked :
    (es : List Entry) (v : List ℕ) (cur : ℕ) (ps qs : List (List ℕ)) (m : ℕ) (r : List ℕ × ℕ)
    → Walked (cur ∷ v) ps m r
    → ((w : List ℕ) (k : ℕ) → Walked v qs k (added es (w ++ v) k))
    → Walked v (ps ++ qs) m (added es r.0 r.1)
append-Walked es v cur ps qs m r ((w, f), g) others =
    rw (f, g, peak-append m ps qs, sym (append_assoc w (cur ∷ []) v))
      (others (w ++ (cur ∷ [])) (peak m ps))

added-Walked :
    (f : Forest) (v w p : List ℕ) (m : ℕ)
    → Named f
    → length p ≡ last_or_0 v
    → Walked v (paths p f) m (added (entries (length v) f) (w ++ v) m)
unfolding added entries paths peak last_or_0
added-Walked nothing v w p m h e = ((w, refl), refl)
added-Walked (file name others) v w p m h e =
    let cur = last_or_0 v + 1 + length name in
    let raise : ℕ → ℕ = λ k. if ltb m k then k else m in
    let rest = added-Walked others v [] p (raise cur) h.2 e in
    rw (added-file name (entries (length v) others) v w m h.1) (
      rest.0,
      rest.1 ∙ ap (λ k. peak (raise k) (paths p others)) (sym (length_path p name (last_or_0 v) e)),
    )
added-Walked (dir name inside others) v w p m h e =
    let cur = last_or_0 v + 1 + length name in
    let slash = p ++ (name ++ (b'/' ∷ [])) in
    rw
      (
        added-dir name (entries (suc (length v)) inside ++ entries (length v) others) v w m h.1,
        added-append (entries (suc (length v)) inside) (entries (length v) others) (cur ∷ v) m,
      )
      (append-Walked (entries (length v) others) v cur (paths slash inside) (paths p others) m _
        (added-Walked inside (cur ∷ v) [] slash m h.3 (length_slash p name (last_or_0 v) e))
        (λ u k. added-Walked others v u p k h.4 e))

-- The lines of a file system have names.
append-Line : (es fs : List Entry) → All Line es → All Line fs → All Line (es ++ fs)
append-Line [] fs h g = g
append-Line (e ∷ es) fs h g = (h.0, append-Line es fs h.1 g)

pub cons_not_empty : (c : ℕ) (s : List ℕ) → c ∷ s ≢ []
cons_not_empty c s e = let l : suc (length s) ≡ 0 = ap length e in omega (arith, l)

dot_not_empty : (name : List ℕ) → has_dot name ≡ true → name ≢ []
unfolding has_dot
dot_not_empty [] h = absurd (ground arith)
dot_not_empty (c ∷ name) h = cons_not_empty c name

Named-Line : (level : ℕ) (f : Forest) → Named f → All Line (entries level f)
unfolding entries
Named-Line level nothing h = tt
Named-Line level (file name others) h = ((h.0, dot_not_empty name h.1), Named-Line level others h.2)
Named-Line level (dir name inside others) h = (
  (h.0, h.2),
  append-Line (entries (suc level) inside) (entries level others)
      (Named-Line (suc level) inside h.3) (Named-Line level others h.4),
)

without_slash : (k : ℕ) → (if ltb 0 k then k - 1 else 0) ≡ k - 1
without_slash k = ground arith

above_0 : (k : ℕ) → max (0 - 1) k ≡ k
above_0 k = omega arith

-- For the text of a file system with names as `Named` has them, and more rounds than the text has
-- lines, `lengthLongestPath` returns the length of the longest of the paths of the files, and 0 when
-- there are none.
pub length_longest_path-paths :
    (f : Forest) (fuel : ℕ)
    → Named f
    → length (entries 0 f) < fuel
    → length_longest_path fuel (text (entries 0 f)) ≡ some (longest_of (paths [] f))
unfolding length_longest_path last_or_0
length_longest_path-paths f fuel h enough =
    let walked = (added-Walked f [] [] [] 0 h refl).1 in
    rw (path_loop-text fuel (entries 0 f) [] 0 (Named-Line 0 f h) enough, walked)
      (ap some (
        without_slash (peak 0 (paths [] f))
        ∙ peak-longest_of 0 (paths [] f)
        ∙ above_0 (longest_of (paths [] f))))
