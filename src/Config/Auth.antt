-- ===== src/Config/Auth.antt =====
-- The credentials of cli/config/configfile/file.go, as they are read from and written to the file. A
-- text is here the sequence of its bytes.
pub mod RoundTrip
use docker_cli.Prelude.{
  ℕ, zero, suc, ◌+◌, ◌-◌, ltb, leb, ◌==◌, Bool, true, false, not, ◌&&◌, ◌||◌, Option, none, some,
  List, [], ◌∷◌, ◌++◌, length, if◌then◌else◌, Result, ok, err, ◌>>=◌,
}
use docker_cli.Text.{Text, codes, cut, trim_left, trim_right}
use docker_cli.Maps.{Map}
use docker_cli.Template.Functions.{is_empty}
use docker_cli.Config.Base64.{encode, decode, decoded_len}

-- `types.AuthConfig`
pub record AuthConfig : Type 0 where
  pub username : Text
  pub password : Text
  pub auth : Text
  pub email : Text
  pub server_address : Text
  pub identity_token : Text
  pub registry_token : Text

pub data AuthError : Type 0 where
  corrupt_input : AuthError
  something_went_wrong : AuthError
  invalid_configuration : AuthError

-- `encodeAuth`
unfoldable pub encode_auth : AuthConfig → Text
unfolding encode
encode_auth config =
    if is_empty config.username && is_empty config.password
    then []
    else encode (config.username ++ b':' ∷ config.password)

-- A buffer that was made with zeros.
abbrev pub zeros : ℕ → Text
zeros zero = []
zeros (suc n) = 0 ∷ zeros n

-- `strings.Trim(s, "\x00")`
unfoldable pub trim_zeros : Text → Text
unfolding trim_left trim_right
trim_zeros s = trim_left (λ c. c == 0) (trim_right (λ c. c == 0) s)

abbrev pub user_and_password : Option (Text × Text) → Result AuthError (Text × Text)
user_and_password none = err invalid_configuration
user_and_password (some (user_name, password)) =
    if is_empty user_name then err invalid_configuration else ok (user_name, trim_zeros password)

-- The part of `decodeAuth` behind the call of `Decode`, with the length of the buffer.
abbrev pub read_decoded : ℕ → Option Text → Result AuthError (Text × Text)
read_decoded dec_len none = err corrupt_input
read_decoded dec_len (some bytes) =
    if ltb dec_len (length bytes)
    then err something_went_wrong
    else user_and_password (cut (bytes ++ zeros (dec_len - length bytes)) (codes ":"))

-- `decodeAuth`
unfoldable pub decode_auth : Text → Result AuthError (Text × Text)
unfolding decode cut trim_zeros
decode_auth auth_str =
    if is_empty auth_str
    then ok ([], [])
    else read_decoded (decoded_len (length auth_str)) (decode auth_str)

-- The loop of `SaveToWriter`.
abbrev pub saved : AuthConfig → AuthConfig
saved config = record config {
  auth = encode_auth config;
  username = [];
  password = [];
  server_address = [];
}

unfoldable pub save_auths : Map AuthConfig → Map AuthConfig
unfolding encode_auth
save_auths [] = []
save_auths ((k, config) ∷ configs) = (k, saved config) ∷ save_auths configs

-- One round of the loop of `LoadFromReader`.
abbrev pub loaded : Text → AuthConfig → Result AuthError AuthConfig
loaded addr config =
    if is_empty config.auth
    then ok (record config { auth = []; server_address = addr })
    else (decode_auth config.auth >>= λ r.
        ok (record config { username = r.0; password = r.1; auth = []; server_address = addr }))

unfoldable pub load_auths : Map AuthConfig → Result AuthError (Map AuthConfig)
unfolding decode_auth
load_auths [] = ok []
load_auths ((addr, config) ∷ configs) =
    loaded addr config >>= λ c. load_auths configs >>= λ rest. ok ((addr, c) ∷ rest)
