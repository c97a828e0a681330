-- ===== src/Hex/Tests.antt =====
-- The vectors of the tests in hex_codec.cpp.
use code_c.Base.{ℕ, ◌≡◌, refl, ◌>>=◌, some, List, [], ◌∷◌, arith}
use code_c.Hex.{encode_vector, decode_vector}
use code_c.Hex.Encode.{decode-encode}

abbrev bytes : List ℕ
bytes = 1 ∷ 18 ∷ 10 ∷ 27 ∷ 255 ∷ []

abbrev text : List ℕ
text = b'0' ∷ b'1' ∷ b'1' ∷ b'2' ∷ b'0' ∷ b'A' ∷ b'1' ∷ b'B' ∷ b'F' ∷ b'F' ∷ 0 ∷ []

encode_run : encode_vector bytes [] ≡ some text
unfolding encode_vector
encode_run = refl

decode_run : decode_vector text (7 ∷ []) ≡ some bytes
unfolding decode_vector
decode_run = refl

decode-encode_example : (encode_vector bytes [] >>= λ hex. decode_vector hex (9 ∷ [])) ≡ some bytes
decode-encode_example = decode-encode bytes [] (9 ∷ []) (omega arith) (omega arith)
