-- ===== src/LongestPath/Texts.antt =====
-- The loop of 388.cpp reads the lines of a text one by one.
use code_c.Base.{
  ℕ, zero, suc, ◌+◌, ◌-◌, ◌<◌, ◌≢◌, ◌≡◌, refl, ap, ◌∙◌, ◌||◌, ◌==◌, Bool, true, false, some, List,
  [], ◌∷◌, ◌++◌, All, length, replicate, arith, if◌then◌else◌,
}
use code_c.LongestPath.{scan, add_line, path_loop}
use code_c.LongestPath.Forest.{Entry, text, has_dot, Plain}

same :
    {k k' level level' : ℕ} {b b' : Bool} {s : List ℕ}
    → k ≡ k'
    → level ≡ level'
    → b ≡ b'
    → ◌≡◌ {A = ℕ × ℕ × Bool × List ℕ} (k, level, b, s) (k', level', b', s)
same e f g = rw (e, f, g) refl

or_assoc : (a b c : Bool) → ((a || b) || c) ≡ (a || (b || c))
or_assoc true b c = refl
or_assoc false b c = refl

or_none : (a : Bool) → a ≡ (a || false)
or_none true = refl
or_none false = refl

if_or : (a b : Bool) → (if a then true else b) ≡ (b || a)
if_or true true = refl
if_or true false = refl
if_or false b = or_none b

plus_0 : (k : ℕ) → k + 0 ≡ k
plus_0 k = omega arith

plus_suc : (k t : ℕ) → suc k + t ≡ k + suc t
plus_suc k t = omega arith

length_name : (level : ℕ) (name : List ℕ) → level + length name - level ≡ length name
length_name level name = omega arith

not_empty : (name : List ℕ) → name ≢ [] → (length name == 0) ≡ false
not_empty [] h = absurd (h refl)
not_empty (c ∷ name) h = ground arith

scan_char :
    (c : ℕ) (s : List ℕ) (k level : ℕ) (b : Bool)
    → (c ≢ 9) × (c ≢ 10)
    → scan (c ∷ s) k level b ≡ scan s (suc k) level (b || c == b'.')
unfolding scan
scan_char c s k level b h =
    let no_tab : (c == 9) ≡ false = ground arith in
    let no_end : (c == 10) ≡ false = ground arith in
    rw (no_tab, no_end) (ap (scan s (suc k) level) (if_or (c == b'.') b))

scan_name :
    (name s : List ℕ) (k level : ℕ) (b : Bool)
    → Plain name
    → scan (name ++ (10 ∷ s)) k level b ≡ (k + length name, level, b || has_dot name, s)
unfolding scan has_dot
scan_name [] s k level b h = same (omega arith) refl (or_none b)
scan_name (c ∷ name) s k level b (h, hs) =
    scan_char c (name ++ (10 ∷ s)) k level b h
    ∙ scan_name name s (suc k) level (b || c == b'.') hs
    ∙ same (omega arith) refl (or_assoc b (c == b'.') (has_dot name))

scan_last :
    (name : List ℕ) (k level : ℕ) (b : Bool)
    → Plain name
    → scan name k level b ≡ (k + length name, level, b || has_dot name, [])
unfolding scan has_dot
scan_last [] k level b h = same (omega arith) refl (or_none b)
scan_last (c ∷ name) k level b (h, hs) =
    scan_char c name k level b h
    ∙ scan_last name (suc k) level (b || c == b'.') hs
    ∙ same (omega arith) refl (or_assoc b (c == b'.') (has_dot name))

scan_tabs :
    (t : ℕ) (s : List ℕ) (k level : ℕ) (b : Bool)
    → scan (replicate t 9 ++ s) k level b ≡ scan s (k + t) (level + t) b
unfolding scan
scan_tabs zero s k level b = rw (plus_0 k, plus_0 level) refl
scan_tabs (suc t) s k level b =
    scan_tabs t s (suc k) (suc level) b ∙ rw (plus_suc k t, plus_suc level t) refl

scan-text :
    (e : Entry) (es : List Entry)
    → Plain e.1
    → scan (text (e ∷ es)) 0 0 false ≡ (e.0 + length e.1, e.0, has_dot e.1, text es)
unfolding text
scan-text (level, name) [] h =
    scan_tabs level name 0 0 false
    ∙ scan_last name (0 + level) (0 + level) false h
    ∙ same (omega arith) (omega arith) refl
scan-text (level, name) (e ∷ es) h =
    scan_tabs level (name ++ (10 ∷ text (e ∷ es))) 0 0 false
    ∙ scan_name name (text (e ∷ es)) (0 + level) (0 + level) false h
    ∙ same (omega arith) (omega arith) refl

-- The loop without the text.
unfoldable pub added : List Entry → List ℕ → ℕ → List ℕ × ℕ
added [] v longest = (v, longest)
added (e ∷ es) v longest =
    let next = add_line (length e.1) e.0 (has_dot e.1) v longest in added es next.0 next.1

abbrev pub Line : Entry → Type 0
Line e = Plain e.1 × (e.1 ≢ [])

pub path_loop-text :
    (fuel : ℕ) (es : List Entry) (v : List ℕ) (longest : ℕ)
    → All Line es
    → length es < fuel
    → path_loop fuel (text es) v longest ≡ some (added es v longest).1
unfolding path_loop added text scan
path_loop-text zero es v longest h enough = absurd (omega (arith, enough))
path_loop-text (suc fuel) [] v longest h enough = refl
path_loop-text (suc fuel) (e ∷ es) v longest (h, hs) enough =
    rw (scan-text e es h.0, length_name e.0 e.1, not_empty e.1 h.1)
      (path_loop-text fuel es _ _ hs (omega (arith, enough)))
