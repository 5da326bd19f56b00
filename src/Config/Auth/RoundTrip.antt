-- ===== src/Config/Auth/RoundTrip.antt =====
-- What is left of the credentials of cli/config/configfile/file.go when they are saved and loaded.
use mathlib.Core.List.{reverse, reverse-append, reverse-cons}
use docker_cli.Prelude.{
  ℕ, zero, suc, ◌-◌, ◌≤◌, ◌==◌, ◌≡◌, ◌≢◌, refl, ◌∙◌, ap, false, some, [], ◌∷◌, ◌++◌, length, ok,
  err, arith, All, append_assoc, inl, inr, All-append, ◌⊎◌, map,
}
use docker_cli.Text.{Text, codes, cut, trim_left, trim_right}
use docker_cli.Text.Laws.{Lacks, cut-append}
use docker_cli.Maps.{Map}
use docker_cli.Template.Functions.{is_empty}
use docker_cli.Config.Base64.{encode, decoded_len}
use docker_cli.Config.Base64.RoundTrip.{IsByte, decode-encode, length-le-decoded_len}
use docker_cli.Config.Auth.{
  AuthConfig, invalid_configuration, encode_auth, zeros, trim_zeros, user_and_password,
  read_decoded, decode_auth, saved, save_auths, loaded, load_auths,
}

zeros_push : (n : ℕ) → zeros n ++ 0 ∷ [] ≡ 0 ∷ zeros n
zeros_push zero = refl
zeros_push (suc n) = ap (λ s. 0 ∷ s) (zeros_push n)

reverse-zeros : (n : ℕ) → reverse (zeros n) ≡ zeros n
reverse-zeros zero = refl
reverse-zeros (suc n) =
    reverse-cons 0 (zeros n) ∙ ap (λ s. s ++ 0 ∷ []) (reverse-zeros n) ∙ zeros_push n

trim_left-zeros :
    (n : ℕ) (s : Text) → trim_left (λ c. c == 0) (zeros n ++ s) ≡ trim_left (λ c. c == 0) s
unfolding trim_left
trim_left-zeros zero s = refl
trim_left-zeros (suc n) s = trim_left-zeros n s

-- Zeros behind a text are trimmed like those that it ends in.
pub trim_zeros-zeros : (s : Text) (n : ℕ) → trim_zeros (s ++ zeros n) ≡ trim_zeros s
unfolding trim_zeros trim_right
trim_zeros-zeros s n =
    ap (λ t. trim_left (λ c. c == 0) (reverse (trim_left (λ c. c == 0) t)))
      (reverse-append s (zeros n) ∙ ap (λ z. z ++ reverse s) (reverse-zeros n))
    ∙ ap (λ t. trim_left (λ c. c == 0) (reverse t)) (trim_left-zeros n (reverse s))

read_lem :
    (n : ℕ) (bytes : Text)
    → length bytes ≤ n
    → read_decoded n (some bytes)
      ≡ user_and_password (cut (bytes ++ zeros (n - length bytes)) (codes ":"))
unfolding cut
read_lem n bytes h = ground arith

encode-is_empty : (c : ℕ) (bytes : Text) → is_empty (encode (c ∷ bytes)) ≡ false
unfolding encode
encode-is_empty c [] = refl
encode-is_empty c (d ∷ []) = refl
encode-is_empty c (d ∷ e ∷ bytes) = refl

-- What `decodeAuth` makes of a name and a password with a colon between.
decode_encoded :
    (c : ℕ) (bytes : Text)
    → All IsByte (c ∷ bytes)
    → (n : ℕ) × (decode_auth (encode (c ∷ bytes))
        ≡ user_and_password (cut (c ∷ bytes ++ zeros n) (codes ":")))
unfolding decode_auth
decode_encoded c bytes h =
    let n = decoded_len (length (encode (c ∷ bytes))) in
    (
      n - length (c ∷ bytes),
      rw (encode-is_empty c bytes, decode-encode (c ∷ bytes) h)
          (read_lem n (c ∷ bytes) (length-le-decoded_len (c ∷ bytes))),
    )

decode_auth-named :
    (c : ℕ) (user password : Text)
    → All IsByte (c ∷ user)
    → All IsByte password
    → Lacks b':' (c ∷ user)
    → decode_auth (encode (c ∷ user ++ b':' ∷ password)) ≡ ok (c ∷ user, trim_zeros password)
decode_auth-named c user password h k l =
    let bytes = user ++ b':' ∷ password in
    let (n, e) =
      decode_encoded c bytes (All-append IsByte (c ∷ user) (b':' ∷ password) h (omega arith, k)) in
    e
    ∙ ap (λ s. user_and_password (cut s (codes ":")))
        (append_assoc (c ∷ user) (b':' ∷ password) (zeros n))
    ∙ ap user_and_password (cut-append (c ∷ user) [] (password ++ zeros n) b':' l)
    ∙ ap (λ p. ok (c ∷ user, p)) (trim_zeros-zeros password n)

decode_auth-unnamed :
    (password : Text)
    → All IsByte password
    → decode_auth (encode (b':' ∷ password)) ≡ err invalid_configuration
decode_auth-unnamed password k =
    let (n, e) = decode_encoded b':' password (omega arith, k) in
    e ∙ ap user_and_password (cut-append [] [] (password ++ zeros n) b':' tt)

-- Credentials that can be saved: bytes, a name without a colon, and a name if there is a password.
abbrev pub IsSavable : AuthConfig → Type 0
IsSavable config =
    All IsByte config.username
    × All IsByte config.password
    × Lacks b':' config.username
    × ((config.username ≢ []) ⊎ (config.password ≡ []))

-- The credentials without the zeros at the ends of the password, for the address that they stand at.
abbrev pub restored : Text → AuthConfig → AuthConfig
restored addr config = record config {
  password = trim_zeros config.password;
  auth = [];
  server_address = addr;
}

restored_lem :
    (addr user password auth email server identity registry : Text)
    → (let config : AuthConfig = record {
      username = user;
      password = password;
      auth = auth;
      email = email;
      server_address = server;
      identity_token = identity;
      registry_token = registry;
    } in
        IsSavable config → loaded addr (saved config) ≡ ok (restored addr config))
unfolding encode_auth trim_zeros
restored_lem addr [] [] auth email server identity registry h = refl
restored_lem addr [] (d ∷ p) auth email server identity registry (h, k, l, inl n) = absurd (n refl)
restored_lem addr [] (d ∷ p) auth email server identity registry (h, k, l, inr e) = cc
restored_lem addr (c ∷ user) password auth email server identity registry (h, k, l, m) =
    rw (encode-is_empty c (user ++ b':' ∷ password), decode_auth-named c user password h k l) refl

loaded-saved :
    (addr : Text) (config : AuthConfig)
    → IsSavable config
    → loaded addr (saved config) ≡ ok (restored addr config)
loaded-saved addr config h =
    restored_lem addr config.username config.password config.auth config.email config.server_address
      config.identity_token config.registry_token h

loaded-unnamed :
    (addr password auth email server identity registry : Text) (c : ℕ)
    → All IsByte (c ∷ password)
    → loaded addr (
        saved (record {
          username = [];
          password = c ∷ password;
          auth = auth;
          email = email;
          server_address = server;
          identity_token = identity;
          registry_token = registry;
        }))
      ≡ err invalid_configuration
unfolding encode_auth
loaded-unnamed addr password auth email server identity registry c k =
    rw (encode-is_empty b':' (c ∷ password), decode_auth-unnamed (c ∷ password) k) refl

saved_again :
    (addr : Text) (config : AuthConfig) (c : ℕ) (password : Text)
    → All IsByte (c ∷ password)
    → config.username ≡ []
    → config.password ≡ c ∷ password
    → loaded addr (saved config) ≡ err invalid_configuration
unfolding encode_auth
saved_again addr config c password k u p =
    rw (u, p)
      (loaded-unnamed addr password config.auth config.email config.server_address
        config.identity_token config.registry_token c k)

-- A file that is saved and loaded again has the same credentials where all can be saved, each for the
-- address that it stands at and without zeros at the ends of its password.
pub load_auths-save_auths :
    (auths : Map AuthConfig)
    → All (λ e. IsSavable e.1) auths
    → load_auths (save_auths auths) ≡ ok (map (λ e. (e.0, restored e.0 e.1)) auths)
unfolding load_auths save_auths
load_auths-save_auths [] h = refl
load_auths-save_auths ((addr, config) ∷ auths) (s, h) =
    rw (loaded-saved addr config s, load_auths-save_auths auths h) refl

-- Credentials with a password and no name are saved, and the file cannot be loaded again.
pub load_auths-unnamed :
    (auths more : Map AuthConfig) (addr : Text) (config : AuthConfig) (c : ℕ) (password : Text)
    → All (λ e. IsSavable e.1) auths
    → All IsByte (c ∷ password)
    → config.username ≡ []
    → config.password ≡ c ∷ password
    → load_auths (save_auths (auths ++ (addr, config) ∷ more)) ≡ err invalid_configuration
unfolding load_auths save_auths
load_auths-unnamed [] more addr config c password h k u p =
    rw (saved_again addr config c password k u p) refl
load_auths-unnamed ((a, d) ∷ auths) more addr config c password (s, h) k u p =
    rw (loaded-saved a d s, load_auths-unnamed auths more addr config c password h k u p) refl
