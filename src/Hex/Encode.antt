-- ===== src/Hex/Encode.antt =====
-- What the encoders leave in the buffer, and the round trip.
use code_c.Base.{
  ℕ, zero, suc, ◌+◌, ◌*◌, ◌/◌, ◌≤◌, ◌<◌, ◌≡◌, ◌^◌, ◌>>=◌, some, lt→ltb, length-append, refl, ap,
  sym, ◌∙◌, List, [], ◌∷◌, ◌++◌, append-nil, append_assoc, arith, length, get_or, set, take, drop,
  length-set, take-set, take_all, drop_cons,
}
use code_c.Hex.{
  dec_to_hex, put_digits, encode_loop, hex_encode, write_digits, as_int, encode_vector,
  decode_vector, encode_vector_old, decode_vector_old,
}
use code_c.Hex.Digits.{digits_of, join_digits_lem}
use code_c.Hex.Decode.{pairs, length-resize, decode_vector-pairs, decode_vector_old-pairs}

-- The text of a list of bytes, two digits each.
unfoldable pub text_of : List ℕ → List ℕ
text_of [] = []
text_of (c ∷ cs) = digits_of c ++ text_of cs

length-text_of : (cs : List ℕ) → length (text_of cs) ≡ length cs * 2
unfolding text_of
length-text_of [] = refl
length-text_of (c ∷ cs) = omega (arith, length-text_of cs)

length-put_digits : (hex : List ℕ) (i c : ℕ) → length (put_digits hex i c) ≡ length hex
length-put_digits hex i c =
    length-set (set hex (i * 2) (get_or dec_to_hex (c / 16) 0)) (i * 2 + 1) _
    ∙ length-set hex (i * 2) _

length-encode_loop : (n i : ℕ) (bin hex : List ℕ) → length (encode_loop n i bin hex) ≡ length hex
unfolding encode_loop
length-encode_loop zero i bin hex = refl
length-encode_loop (suc n) i bin hex =
    length-encode_loop n (i + 1) bin (put_digits hex i (get_or bin i 0))
    ∙ length-put_digits hex i (get_or bin i 0)

take-set_two :
    (k : ℕ) (xs : List ℕ) (a b : ℕ)
    → suc k < length xs
    → take (suc (suc k)) (set (set xs k a) (suc k) b) ≡ take k xs ++ (a ∷ b ∷ [])
take-set_two k [] a b h = absurd (omega arith)
take-set_two zero (x ∷ []) a b h = absurd (omega arith)
take-set_two zero (x ∷ y ∷ xs) a b h = refl
take-set_two (suc k) (x ∷ xs) a b h = ap (λ t. x ∷ t) (take-set_two k xs a b (omega arith))

take-put_digits :
    (hex : List ℕ) (i c : ℕ)
    → i * 2 + 1 < length hex
    → take ((i + 1) * 2) (put_digits hex i c) ≡ take (i * 2) hex ++ digits_of c
take-put_digits hex i c h =
    let two_on : (i + 1) * 2 ≡ suc (suc (i * 2)) = omega arith in
    let one_on : i * 2 + 1 ≡ suc (i * 2) = omega arith in
    rw (two_on, one_on) (take-set_two (i * 2) hex _ _ (omega arith))

-- The loop has `i` bytes behind it and `n` to go, `m` in all.
encode_loop_lem :
    (n i m : ℕ) (bin hex : List ℕ)
    → i + n ≡ m
    → m ≤ length bin
    → m * 2 ≤ length hex
    → take (m * 2) (encode_loop n i bin hex) ≡ take (i * 2) hex ++ text_of (take n (drop i bin))
unfolding encode_loop text_of
encode_loop_lem zero i m bin hex e h room = let same : m ≡ i = omega arith in rw (same, append-nil)
encode_loop_lem (suc n) i m bin hex e h room =
    let one_on : i + 1 ≡ suc i = omega arith in
    encode_loop_lem n (i + 1) m bin (put_digits hex i c) (omega arith) h
      (omega (arith, length-put_digits hex i c))
    ∙ rw (take-put_digits hex i c (omega arith), one_on, drop_cons i bin 0 (omega arith))
        (append_assoc (take (i * 2) hex) (digits_of c) (text_of (take n (drop (suc i) bin))))
  where
    c : ℕ
    c = get_or bin i 0

-- The whole loop over a buffer with one place for the end mark, and the end mark.
filled :
    (src hex : List ℕ)
    → length hex ≡ length src * 2 + 1
    → set (encode_loop (length src) 0 src hex) (length src * 2) 0 ≡ text_of src ++ (0 ∷ [])
filled src hex size =
    sym (take_all (suc (length src * 2)) _ (omega (arith, same, whole)))
    ∙ take-set (length src * 2) (encode_loop (length src) 0 src hex) 0 (omega (arith, same))
    ∙ ap (λ t. t ++ (0 ∷ []))
        (encode_loop_lem (length src) 0 (length src) src hex (omega arith) (omega arith)
            (omega arith)
          ∙ ap text_of (take_all (length src) src (omega arith)))
  where
    same : length (encode_loop (length src) 0 src hex) ≡ length hex
    same = length-encode_loop (length src) 0 src hex

    whole :
        length (set (encode_loop (length src) 0 src hex) (length src * 2) 0)
        ≡ length (encode_loop (length src) 0 src hex)
    whole = length-set (encode_loop (length src) 0 src hex) (length src * 2) 0

hex_encode_room :
    (bin : List ℕ) (n : ℕ) (hex : List ℕ) (len : ℕ)
    → n * 2 < 2 ^ 31
    → n * 2 + 1 ≤ len
    → hex_encode bin n hex len ≡ some (set (encode_loop n 0 bin hex) (n * 2) 0)
unfolding hex_encode write_digits
hex_encode_room bin n hex len fits h = ground arith

as_int_fits : (n : ℕ) → n < 2 ^ 31 → as_int n ≡ some n
unfolding as_int
as_int_fits n h = rw (lt→ltb n (2 ^ 31) h) refl

-- `hexEncode` of at most 2^30 - 1 bytes makes the vector hold two digits for each byte, in order, and an
-- end mark, whatever it held before.
pub encode_vector-text :
    (src dst : List ℕ)
    → length src * 2 + 1 < 2 ^ 31
    → encode_vector src dst ≡ some (text_of src ++ (0 ∷ []))
unfolding encode_vector
encode_vector-text src dst fits =
    let size = length-resize dst (length src * 2 + 1) in
    rw (as_int_fits (length src) (omega (arith, fits)), size, as_int_fits (length src * 2 + 1) fits)
      (hex_encode_room src (length src) _ _ (omega (arith, fits)) (omega arith)
        ∙ ap some (filled src _ size))

-- `hexEncode` of hex_codec.cpp leaves the same text.
pub encode_vector_old-text :
    (src dst : List ℕ) → encode_vector_old src dst ≡ text_of src ++ (0 ∷ [])
unfolding encode_vector_old
encode_vector_old-text src dst = filled src _ (length-resize dst (length src * 2 + 1))

abbrev pub AllBytes : List ℕ → Type 0
AllBytes [] = Unit
AllBytes (c ∷ cs) = (c < 256) × AllBytes cs

pairs-text_of : (src rest : List ℕ) → AllBytes src → pairs (text_of src ++ rest) ≡ src ++ pairs rest
unfolding pairs text_of
pairs-text_of [] rest h = refl
pairs-text_of (c ∷ cs) rest h = cc (join_digits_lem c h.0, pairs-text_of cs rest h.1)

-- Decoding what was encoded gives the bytes back, whatever the two vectors held before, for every
-- source of at most 2^30 - 1 elements, each of which is a byte.
pub decode-encode :
    (src dst back : List ℕ)
    → AllBytes src
    → length src * 2 + 1 < 2 ^ 31
    → (encode_vector src dst >>= λ hex. decode_vector hex back) ≡ some src
unfolding pairs
decode-encode src dst back h fits =
    let text = text_of src ++ (0 ∷ []) in
    let size : length text ≡ length src * 2 + 1 =
      length-append (text_of src) (0 ∷ []) ∙ ap (λ n. n + 1) (length-text_of src) in
    rw (encode_vector-text src dst fits) (
      decode_vector-pairs text back (omega (arith, size, fits))
      ∙ ap some (pairs-text_of src (0 ∷ []) h ∙ append-nil src))

-- The two versions of `hexEncode` leave the same text for every source of at most 2^30 - 1 bytes,
-- whatever the vectors held.
pub encode_versions :
    (src dst old : List ℕ)
    → length src * 2 + 1 < 2 ^ 31
    → encode_vector src dst ≡ some (encode_vector_old src old)
encode_versions src dst old fits =
    encode_vector-text src dst fits ∙ ap some (sym (encode_vector_old-text src old))

-- The two versions of `hexDecode` leave the same bytes for every text of fewer than 2^31 characters,
-- whatever the vectors held.
pub decode_versions :
    (src dst old : List ℕ)
    → length src < 2 ^ 31
    → decode_vector src dst ≡ some (decode_vector_old src old)
decode_versions src dst old fits =
    decode_vector-pairs src dst fits ∙ ap some (sym (decode_vector_old-pairs src old))
