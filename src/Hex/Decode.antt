-- ===== src/Hex/Decode.antt =====
-- What the decoders leave in the buffer: the bytes of the pairs of digits, in order.
use code_c.Base.{
  ℕ, zero, suc, ◌+◌, ◌-◌, ◌*◌, ◌/◌, ◌≤◌, ◌<◌, ◌≡◌, refl, ◌^◌, some, ap, sym, ◌∙◌, List, [], ◌∷◌,
  ◌++◌, append-nil, append_assoc, arith, lt→ltb, length, get_or, set, take, length-set,
  length-append, length-take, length-replicate, replicate, take-set, take_all,
}
use code_c.Hex.{
  hex_to_dec, join_digits, resize, as_int, hex_decode, decode_loop, decode_vector,
  decode_vector_old,
}

-- The byte of two characters.
abbrev pub byte_of : ℕ → ℕ → ℕ
byte_of high low = join_digits (hex_to_dec high) (hex_to_dec low)

-- The bytes of a text, two characters each; an odd character at the end is left.
unfoldable pub pairs : List ℕ → List ℕ
pairs [] = []
pairs (a ∷ []) = []
pairs (a ∷ b ∷ rest) = byte_of a b ∷ pairs rest

-- `n` bytes from place `i` on.
bytes_from : List ℕ → ℕ → ℕ → List ℕ
bytes_from hex i zero = []
bytes_from hex i (suc n) =
    byte_of (get_or hex i 0) (get_or hex (i + 1) 0) ∷ bytes_from hex (i + 2) n

loop_ends :
    (fuel i bound : ℕ) (hex bin : List ℕ) → bound ≤ i + 1 → decode_loop fuel i bound hex bin ≡ bin
unfolding decode_loop
loop_ends zero i bound hex bin h = refl
loop_ends (suc fuel) i bound hex bin h = ground arith

loop_goes_on :
    (fuel i k bound : ℕ) (hex bin : List ℕ)
    → i + 1 < bound
    → i ≡ k * 2
    → decode_loop (suc fuel) i bound hex bin
      ≡ decode_loop fuel
          (i + 2)
          bound
          hex
          (set bin k (byte_of (get_or hex i 0) (get_or hex (i + 1) 0)))
unfolding decode_loop
loop_goes_on fuel i k bound hex bin h e =
    let half : i / 2 ≡ k = omega arith in rw (lt→ltb (i + 1) bound h, half)

-- The loop has `k` bytes behind it and `n` to go.
decode_loop_lem :
    (fuel i k n bound : ℕ) (hex bin : List ℕ)
    → i ≡ k * 2
    → n + k ≡ length bin
    → length bin * 2 ≤ bound
    → bound ≤ length bin * 2 + 1
    → n < fuel
    → decode_loop fuel i bound hex bin ≡ take k bin ++ bytes_from hex i n
unfolding bytes_from
decode_loop_lem zero i k n bound hex bin e size low high h = absurd (omega arith)
decode_loop_lem (suc fuel) i k zero bound hex bin e size low high h =
    rw (loop_ends (suc fuel) i bound hex bin (omega arith), append-nil)
      (sym (take_all k bin (omega arith)))
decode_loop_lem (suc fuel) i k (suc n) bound hex bin e size low high h =
    loop_goes_on fuel i k bound hex bin (omega arith) e
    ∙ decode_loop_lem fuel (i + 2) (suc k) n bound hex (set bin k v) (omega arith)
        (omega (arith, kept)) (omega (arith, kept)) (omega (arith, kept)) (omega arith)
    ∙ rw (take-set k bin v (omega arith))
        (append_assoc (take k bin) (v ∷ []) (bytes_from hex (i + 2) n))
  where
    v : ℕ
    v = byte_of (get_or hex i 0) (get_or hex (i + 1) 0)

    kept : length (set bin k v) ≡ length bin
    kept = length-set bin k v

bytes_from-shift :
    (x y : ℕ) (hex : List ℕ) (i n : ℕ)
    → bytes_from (x ∷ y ∷ hex) (suc (suc i)) n ≡ bytes_from hex i n
unfolding bytes_from
bytes_from-shift x y hex i zero = refl
bytes_from-shift x y hex i (suc n) =
    let one_on : suc (suc i) + 1 ≡ suc (suc (i + 1)) = omega arith in
    let two_on : suc (suc i) + 2 ≡ suc (suc (i + 2)) = omega arith in
    rw (one_on, two_on)
      (ap (λ t. byte_of (get_or hex i 0) (get_or hex (i + 1) 0) ∷ t)
        (bytes_from-shift x y hex (i + 2) n))

bytes_from-pairs : (hex : List ℕ) (n : ℕ) → n ≡ length hex / 2 → bytes_from hex 0 n ≡ pairs hex
unfolding bytes_from pairs
bytes_from-pairs [] zero h = refl
bytes_from-pairs [] (suc n) h = absurd (omega arith)
bytes_from-pairs (a ∷ []) zero h = refl
bytes_from-pairs (a ∷ []) (suc n) h = absurd (omega arith)
bytes_from-pairs (a ∷ b ∷ hex) zero h = absurd (omega arith)
bytes_from-pairs (a ∷ b ∷ hex) (suc n) h =
    ap (λ t. byte_of a b ∷ t) (bytes_from-shift a b hex 0 n ∙ bytes_from-pairs hex n (omega arith))

pub length-resize : (xs : List ℕ) (n : ℕ) → length (resize xs n) ≡ n
length-resize xs n = omega (
  arith,
  length-append {A = ℕ} (take n xs) (replicate (n - length xs) 0),
  length-take {A = ℕ} n xs,
  length-replicate {A = ℕ} (n - length xs) 0,
)

-- `hexDecode` of fewer than 2^31 characters makes the vector hold the bytes of the pairs of digits,
-- whatever it held before.
pub decode_vector-pairs :
    (src dst : List ℕ) → length src < 2 ^ 31 → decode_vector src dst ≡ some (pairs src)
unfolding decode_vector as_int hex_decode
decode_vector-pairs src dst fits =
    rw
      (
        lt→ltb (length sized) (2 ^ 31) (omega (arith, size, fits)),
        lt→ltb (length sized * 2 + 1) (2 ^ 31) (omega (arith, size, fits)),
      )
      (ap some (
        decode_loop_lem (length sized + 1) 0 0 (length sized) (length sized * 2 + 1) src sized refl
          (omega arith) (omega arith) (omega arith) (omega (arith, size))
        ∙ bytes_from-pairs src (length sized) size))
  where
    sized : List ℕ
    sized = resize dst (length src / 2)

    size : length sized ≡ length src / 2
    size = length-resize dst (length src / 2)

-- The decoder of hex_codec.cpp leaves the same bytes.
pub decode_vector_old-pairs : (src dst : List ℕ) → decode_vector_old src dst ≡ pairs src
unfolding decode_vector_old
decode_vector_old-pairs src dst =
    decode_loop_lem (length src / 2 + 1) 0 0 (length sized) (length src) src sized refl
      (omega arith) (omega (arith, size)) (omega (arith, size)) (omega (arith, size))
    ∙ bytes_from-pairs src (length sized) size
  where
    sized : List ℕ
    sized = resize dst (length src / 2)

    size : length sized ≡ length src / 2
    size = length-resize dst (length src / 2)
