-- ===== src/Hex/Digits.antt =====
-- One byte as two hexadecimal digits.
use code_c.Base.{
  ℕ, zero, suc, ◌+◌, ◌/◌, ◌%◌, ◌<◌, ◌≡◌, refl, Bool, true, false, ◌≤◌, sym, inl, inr, Bool-cases,
  ℕ_discrete, List, [], ◌∷◌, arith, ◌==◌, ==_iff, if◌then◌else◌, get_or,
}
use code_c.Hex.{dec_to_hex, hex_to_dec, join_digits}

-- Does a test hold of the `count` numbers from `start` on?
passes : (ℕ → Bool) → (start count : ℕ) → Bool
passes test start zero = true
passes test start (suc count) = if test start then passes test (suc start) count else false

passes-test :
    (test : ℕ → Bool) (count start c : ℕ)
    → passes test start count ≡ true
    → start ≤ c
    → c < start + count
    → test c ≡ true
unfolding passes
passes-test test zero start c all from to = absurd (omega arith)
passes-test test (suc count) start c all from to = elim (ℕ_discrete start c) [
  | yes same ↦ elim (Bool-cases (test start)) [
    | inl good ↦ rw (sym same) good
    | inr bad ↦ absurd (ground arith)
  ]
  | no other ↦ elim (Bool-cases (test start)) [
    | inl good ↦ passes-test test count (suc start) c (ground arith) (omega arith) (omega arith)
    | inr bad ↦ absurd (ground arith)
  ]
]

-- The two digits of a byte.
abbrev pub digits_of : ℕ → List ℕ
digits_of c = get_or dec_to_hex (c / 16) 0 ∷ get_or dec_to_hex (c % 16) 0 ∷ []

digits_table :
    passes
      (λ c.
        join_digits
          (hex_to_dec (get_or dec_to_hex (c / 16) 0))
          (hex_to_dec (get_or dec_to_hex (c % 16) 0))
        == c)
      0
      256
    ≡ true
unfolding passes hex_to_dec
digits_table = refl

-- Reading back the digits that a byte is written as.
pub join_digits_lem :
    (c : ℕ)
    → c < 256
    → join_digits
        (hex_to_dec (get_or dec_to_hex (c / 16) 0))
        (hex_to_dec (get_or dec_to_hex (c % 16) 0))
      ≡ c
join_digits_lem c h =
    (==_iff _ c).0 (passes-test _ 256 0 c digits_table (omega arith) (omega arith))
