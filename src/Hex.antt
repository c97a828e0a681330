-- ===== src/Hex.antt =====
-- util/hex.hpp, and the older c++/20190421_hex_codec/hex_codec.cpp. A byte or a character is a
-- number below 256; a buffer is a list, and writes into it are by index.
pub mod Digits
pub mod Encode
pub mod Decode
mod Tests
use Prim.Native.Nat.{bit_or}
use code_c.Base.{
  ℕ, zero, suc, ◌+◌, ◌-◌, ◌*◌, ◌/◌, ◌%◌, ◌^◌, Bool, ◌&&◌, Option, none, some, ◌>>=◌, List, [], ◌∷◌,
  ◌++◌, ltb, leb, if◌then◌else◌, length, get_or, set, take, replicate,
}

-- `const char dec2hex[]{"0123456789ABCDEF"}`
abbrev pub dec_to_hex : List ℕ
dec_to_hex =
    b'0' ∷ b'1' ∷ b'2' ∷ b'3' ∷ b'4' ∷ b'5' ∷ b'6' ∷ b'7' ∷ b'8' ∷ b'9' ∷ b'A' ∷ b'B' ∷ b'C' ∷ b'D'
    ∷ b'E' ∷ b'F' ∷ 0 ∷ []

-- `hex2dec`; the subtractions do not wrap on the branches where they stand.
pub hex_to_dec : ℕ → ℕ
hex_to_dec low =
    if leb b'0' low && leb low b'9'
    then low - b'0'
    else if leb b'A' low && leb low b'F'
    then low - b'A' + 10
    else if leb b'a' low && leb low b'f'
    then low - b'a' + 10
    else low

-- `vector::resize`
abbrev pub resize : List ℕ → ℕ → List ℕ
resize xs n = take n xs ++ replicate (n - length xs) 0

-- `hex[i * 2] = dec2hex[c >> 4]; hex[i * 2 + 1] = dec2hex[c & 0xf]`
abbrev pub put_digits : List ℕ → ℕ → ℕ → List ℕ
put_digits hex i c =
    set (set hex (i * 2) (get_or dec_to_hex (c / 16) 0)) (i * 2 + 1) (get_or dec_to_hex (c % 16) 0)

-- The loop of `hex_encode` from `i` on, with `rounds` bytes to go.
pub encode_loop : ℕ → ℕ → List ℕ → List ℕ → List ℕ
encode_loop zero i bin hex = hex
encode_loop (suc rounds) i bin hex =
    encode_loop rounds (i + 1) bin (put_digits hex i (get_or bin i 0))

-- A size as an `int` of 32 bits; `none` where it is none.
pub as_int : ℕ → Option ℕ
as_int n = if ltb n (2 ^ 31) then some n else none

-- `hex_encode`: the buffer `hex` afterwards. `none` is an overflow in `binLen * 2`; where that is an
-- `int`, `binLen * 2 + 1` is one.
pub write_digits : List ℕ → ℕ → List ℕ → ℕ → List ℕ
unfolding encode_loop
write_digits bin bin_len hex hex_len =
    if ltb hex_len (bin_len * 2)
    then hex
    else let written = encode_loop bin_len 0 bin hex in
      if leb (bin_len * 2 + 1) hex_len then set written (bin_len * 2) 0 else written

pub hex_encode : List ℕ → ℕ → List ℕ → ℕ → Option (List ℕ)
unfolding write_digits
hex_encode bin bin_len hex hex_len =
    if ltb (bin_len * 2) (2 ^ 31) then some (write_digits bin bin_len hex hex_len) else none

-- `bin[i / 2] = hex2dec(hex[i]) << 4 | hex2dec(hex[i + 1])`, cut to a byte.
abbrev pub join_digits : ℕ → ℕ → ℕ
join_digits high low = bit_or (high * 16) low % 256

-- The loop `for (size_t i = 0; i + 1 < bound; i += 2)` of both decoders, on fuel.
pub decode_loop : ℕ → ℕ → ℕ → List ℕ → List ℕ → List ℕ
decode_loop zero i bound hex bin = bin
decode_loop (suc fuel) i bound hex bin =
    let rest = decode_loop fuel (i + 2) bound hex (
      set bin (i / 2)
        (join_digits (hex_to_dec (get_or hex i 0)) (hex_to_dec (get_or hex (i + 1) 0)))) in
    if ltb (i + 1) bound then rest else bin

-- `hex_decode`: the buffer `bin` afterwards. `none` is an overflow in `binLen * 2 + 1`.
pub hex_decode : List ℕ → List ℕ → ℕ → Option (List ℕ)
unfolding decode_loop hex_to_dec
hex_decode hex bin bin_len =
    if ltb (bin_len * 2 + 1) (2 ^ 31)
    then some (decode_loop (bin_len + 1) 0 (bin_len * 2 + 1) hex bin)
    else none

-- `hexEncode(src, &dst)`: the vector `dst` afterwards. `none` is a size that is passed as an `int` and
-- is none, or an overflow.
pub encode_vector : List ℕ → List ℕ → Option (List ℕ)
unfolding hex_encode as_int
encode_vector src dst =
    let sized = resize dst (length src * 2 + 1) in
    do
      bin_len ← as_int (length src)
      hex_len ← as_int (length sized)
      hex_encode src bin_len sized hex_len

-- `hexDecode(src, &dst)`
pub decode_vector : List ℕ → List ℕ → Option (List ℕ)
unfolding hex_decode as_int
decode_vector src dst =
    let sized = resize dst (length src / 2) in
    do bin_len ← as_int (length sized); hex_decode src sized bin_len

-- `hexEncode` and `hexDecode` of hex_codec.cpp, which have the loops in them.
pub encode_vector_old : List ℕ → List ℕ → List ℕ
unfolding encode_loop
encode_vector_old src dst =
    set (encode_loop (length src) 0 src (resize dst (length src * 2 + 1))) (length src * 2) 0

pub decode_vector_old : List ℕ → List ℕ → List ℕ
unfolding decode_loop hex_to_dec
decode_vector_old src dst =
    decode_loop (length src / 2 + 1) 0 (length src) src (resize dst (length src / 2))
