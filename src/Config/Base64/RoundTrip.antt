-- ===== src/Config/Base64/RoundTrip.antt =====
-- That `base64.StdEncoding` decodes what it encodes.
use docker_cli.Prelude.{
  ℕ, ◌+◌, ◌*◌, ◌/◌, ◌%◌, ◌<◌, ◌≤◌, ◌==◌, ◌≡◌, refl, ◌∙◌, ap, false, ◌||◌, some, [], ◌∷◌, All, arith,
  length,
}
use docker_cli.Text.{Text}
use docker_cli.Config.Base64.{
  encode_char, decode_char, encode, skip_line_ends, decode_quads, decode, decoded_len, ◌>>=◌,
}

abbrev pub IsByte : ℕ → Type 0
IsByte b = b < 256

decode_char-encode_char : (i : ℕ) → i < 64 → decode_char (encode_char i) ≡ some i
decode_char-encode_char i h = ground arith

encode_char_plain :
    (i : ℕ)
    → i < 64
    → ((encode_char i == 10 || encode_char i == 13) ≡ false) × ((encode_char i == b'=') ≡ false)
encode_char_plain i h = ground arith

-- What a group of four characters gives where no character of it pads.
quad_lem :
    (i j k l : ℕ) (rest : Text)
    → i < 64
    → j < 64
    → k < 64
    → l < 64
    → decode_quads (encode_char i ∷ encode_char j ∷ encode_char k ∷ encode_char l ∷ rest) ≡ (
        decode_quads rest >>= λ bytes.
        some ((i * 4 + j / 16) ∷ (j % 16 * 16 + k / 4) ∷ (k % 4 * 64 + l) ∷ bytes))
unfolding decode_quads
quad_lem i j k l rest a b c d =
    rw
      (
        decode_char-encode_char i a,
        decode_char-encode_char j b,
        (encode_char_plain k c).1,
        decode_char-encode_char k c,
        (encode_char_plain l d).1,
        decode_char-encode_char l d,
      )
      refl

skip-quad :
    (i j k l : ℕ) (rest : Text)
    → i < 64
    → j < 64
    → k < 64
    → l < 64
    → skip_line_ends (encode_char i ∷ encode_char j ∷ encode_char k ∷ encode_char l ∷ rest)
      ≡ encode_char i ∷ encode_char j ∷ encode_char k ∷ encode_char l ∷ skip_line_ends rest
unfolding skip_line_ends
skip-quad i j k l rest a b c d =
    rw
      (
        (encode_char_plain i a).0,
        (encode_char_plain j b).0,
        (encode_char_plain k c).0,
        (encode_char_plain l d).0,
      )
      refl

one_lem :
    (i j : ℕ)
    → i < 64
    → j < 64
    → decode (encode_char i ∷ encode_char j ∷ b'=' ∷ b'=' ∷ []) ≡ some ((i * 4 + j / 16) ∷ [])
unfolding decode
one_lem i j a b =
    rw
      (
        (encode_char_plain i a).0,
        (encode_char_plain j b).0,
        decode_char-encode_char i a,
        decode_char-encode_char j b,
      )
      refl

two_lem :
    (i j k : ℕ)
    → i < 64
    → j < 64
    → k < 64
    → decode (encode_char i ∷ encode_char j ∷ encode_char k ∷ b'=' ∷ [])
      ≡ some ((i * 4 + j / 16) ∷ (j % 16 * 16 + k / 4) ∷ [])
unfolding decode
two_lem i j k a b c =
    rw
      (
        (encode_char_plain i a).0,
        (encode_char_plain j b).0,
        (encode_char_plain k c).0,
        decode_char-encode_char i a,
        decode_char-encode_char j b,
        (encode_char_plain k c).1,
        decode_char-encode_char k c,
      )
      refl

-- Bytes that are encoded are decoded again.
pub decode-encode : (bytes : Text) → All IsByte bytes → decode (encode bytes) ≡ some bytes
unfolding encode decode
decode-encode [] h = refl
decode-encode (a ∷ []) (p, h) =
    let e : a / 4 * 4 + a % 4 * 16 / 16 ≡ a = omega arith in
    one_lem (a / 4) (a % 4 * 16) (omega arith) (omega arith) ∙ ap (λ x. some (x ∷ [])) e
decode-encode (a ∷ b ∷ []) (p, (q, h)) =
    let j = a % 4 * 16 + b / 16 in
    let e : a / 4 * 4 + j / 16 ≡ a = omega arith in
    let f : j % 16 * 16 + b % 16 * 4 / 4 ≡ b = omega arith in
    two_lem (a / 4) j (b % 16 * 4) (omega arith) (omega arith) (omega arith)
    ∙ ap (λ x. some (x ∷ (j % 16 * 16 + b % 16 * 4 / 4) ∷ [])) e
    ∙ ap (λ x. some (a ∷ x ∷ [])) f
decode-encode (a ∷ b ∷ c ∷ rest) (p, (q, (r, h))) =
    let j = a % 4 * 16 + b / 16 in
    let k = b % 16 * 4 + c / 64 in
    let e : a / 4 * 4 + j / 16 ≡ a = omega arith in
    let f : j % 16 * 16 + k / 4 ≡ b = omega arith in
    let g : k % 4 * 64 + c % 64 ≡ c = omega arith in
    ap decode_quads (
      skip-quad (a / 4) j k (c % 64) (encode rest) (omega arith) (omega arith) (omega arith)
        (omega arith))
    ∙ quad_lem (a / 4) j k (c % 64) (skip_line_ends (encode rest)) (omega arith) (omega arith)
        (omega arith) (omega arith)
    ∙ ap
        (λ m. m >>= λ bytes.
          some ((a / 4 * 4 + j / 16) ∷ (j % 16 * 16 + k / 4) ∷ (k % 4 * 64 + c % 64) ∷ bytes))
        (decode-encode rest h)
    ∙ ap (λ x. some (x ∷ (j % 16 * 16 + k / 4) ∷ (k % 4 * 64 + c % 64) ∷ rest)) e
    ∙ ap (λ x. some (a ∷ x ∷ (k % 4 * 64 + c % 64) ∷ rest)) f
    ∙ ap (λ x. some (a ∷ b ∷ x ∷ rest)) g

-- The buffer that `DecodedLen` asks for holds the bytes.
quads_lem : (bytes : Text) → (k : ℕ) × (length (encode bytes) ≡ 4 * k) × (length bytes ≤ 3 * k)
unfolding encode
quads_lem [] = (0, refl, omega arith)
quads_lem (a ∷ []) = (1, refl, omega arith)
quads_lem (a ∷ b ∷ []) = (1, refl, omega arith)
quads_lem (a ∷ b ∷ c ∷ rest) = let (k, e, l) = quads_lem rest in (k + 1, omega arith, omega arith)

pub length-le-decoded_len : (bytes : Text) → length bytes ≤ decoded_len (length (encode bytes))
length-le-decoded_len bytes = let (k, e, l) = quads_lem bytes in omega arith
