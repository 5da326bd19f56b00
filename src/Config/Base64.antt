-- ===== src/Config/Base64.antt =====
-- `base64.StdEncoding` of Go's library, as cli/config/configfile/file.go uses it. A byte is a number
-- below 256.
pub mod RoundTrip
use docker_cli.Prelude.{
  ℕ, ◌+◌, ◌-◌, ◌*◌, ◌/◌, ◌%◌, ltb, leb, ◌==◌, Bool, true, false, not, ◌&&◌, ◌||◌, Option, none,
  some, List, [], ◌∷◌, ◌++◌, if◌then◌else◌,
}
use docker_cli.Text.{Text}

infixl 5 ◌>>=◌
abbrev pub ◌>>=◌ : {A B : Type 0} → Option A → (A → Option B) → Option B
none >>= f = none
some a >>= f = f a

-- The character for six bits.
abbrev pub encode_char : ℕ → ℕ
encode_char i =
    if ltb i 26
    then i + b'A'
    else if ltb i 52
    then i + 71
    else if ltb i 62
    then i - 4
    else if i == 62
    then b'+'
    else b'/'

abbrev pub decode_char : ℕ → Option ℕ
decode_char c =
    if leb b'A' c && leb c b'Z'
    then some (c - b'A')
    else if leb b'a' c && leb c b'z'
    then some (c - 71)
    else if leb b'0' c && leb c b'9'
    then some (c + 4)
    else if c == b'+'
    then some 62
    else if c == b'/'
    then some 63
    else none

-- `Encode`
unfoldable pub encode : Text → Text
encode [] = []
encode (a ∷ []) = encode_char (a / 4) ∷ encode_char (a % 4 * 16) ∷ b'=' ∷ b'=' ∷ []
encode (a ∷ b ∷ []) =
    encode_char (a / 4) ∷ encode_char (a % 4 * 16 + b / 16) ∷ encode_char (b % 16 * 4) ∷ b'=' ∷ []
encode (a ∷ b ∷ c ∷ rest) =
    encode_char (a / 4)
    ∷ encode_char (a % 4 * 16 + b / 16)
    ∷ encode_char (b % 16 * 4 + c / 64)
    ∷ encode_char (c % 64)
    ∷ encode rest

-- The reader passes over line ends.
unfoldable pub skip_line_ends : Text → Text
skip_line_ends [] = []
skip_line_ends (c ∷ s) =
    let rest = skip_line_ends s in if c == 10 || c == 13 then rest else c ∷ rest

abbrev pub last_quad : Text → Text → Option Text
last_quad [] bytes = some bytes
last_quad (c ∷ s) bytes = none

-- The groups of four characters; the bits that padding leaves over are not read.
unfoldable pub decode_quads : Text → Option Text
decode_quads [] = some []
decode_quads (w ∷ x ∷ y ∷ z ∷ rest) =
    let more = decode_quads rest in
    decode_char w >>= λ i. decode_char x >>= λ j.
    if y == b'='
    then if z == b'=' then last_quad rest ((i * 4 + j / 16) ∷ []) else none
    else (decode_char y >>= λ k.
        if z == b'='
        then last_quad rest ((i * 4 + j / 16) ∷ (j % 16 * 16 + k / 4) ∷ [])
        else (decode_char z >>= λ l. more >>= λ bytes.
            some ((i * 4 + j / 16) ∷ (j % 16 * 16 + k / 4) ∷ (k % 4 * 64 + l) ∷ bytes)))
decode_quads _ = none

-- `Decode`: the bytes, or none for an error.
unfoldable pub decode : Text → Option Text
unfolding skip_line_ends decode_quads
decode s = decode_quads (skip_line_ends s)

-- `DecodedLen`
abbrev pub decoded_len : ℕ → ℕ
decoded_len n = n / 4 * 3
