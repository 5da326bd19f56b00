-- ===== src/Opts/Devices/Lists.antt =====
-- What `Set` accepts and what `GetList` gives back, in opts/throttledevice.go and
-- opts/weightdevice.go.
use docker_cli.Prelude.{
  ℕ, ◌≤◌, ltb, ◌≡◌, refl, Bool, true, false, not, ◌&&◌, ◌||◌, Option, none, some, [], ◌∷◌, ◌++◌,
  ◌⊎◌, inl, inr, Result, ok, err, ◌>>=◌, arith, Bool-cases,
}
use docker_cli.Text.{Text, codes, cut3, has_prefix}
use docker_cli.Template.Functions.{is_empty}
use docker_cli.Opts.Devices.{
  invalid_limit, Device, DeviceError, valid_limit, validate_weight_device, DeviceOpt, set_device,
  throttle_list, weight_list,
}

-- A device that `Set` accepts is the last that the weights' `GetList` gives, while the `GetList` of
-- the throttles gives nothing at all, whatever was set.
pub set_device-lists :
    (opt : DeviceOpt) (validator : Text → Result DeviceError Device) (val : Text) (device : Device)
    → opt.validator ≡ some validator
    → validator val ≡ ok device
    → ((set_device opt val >>= λ o. ok (weight_list o)) ≡ ok (weight_list opt ++ some device ∷ []))
      × ((set_device opt val >>= λ o. ok (throttle_list o)) ≡ ok [])
unfolding set_device weight_list throttle_list
set_device-lists opt validator val device e h = (rw (e, h) refl, rw (e, h) refl)

-- What holds of a device whose limit is a weight.
abbrev pub IsWeight : Result DeviceError Device → Type 0
IsWeight (ok d) =
    (has_prefix d.path (codes "/dev/") ≡ true)
    × ((d.limit ≡ 0) ⊎ ((10 ≤ d.limit) × (d.limit ≤ 1000)))
IsWeight (err e) = Unit

abbrev is_weight : ℕ → Bool
is_weight w = not (ltb 0 w && (ltb w 10 || ltb 1000 w))

valid_limit-IsWeight :
    (k : Text) (n : ℕ) (b : Bool)
    → has_prefix k (codes "/dev/") ≡ true
    → is_weight n ≡ b
    → IsWeight (valid_limit k b n)
valid_limit-IsWeight k n true p h = (p, ground arith)
valid_limit-IsWeight k n false p h = tt

limit-IsWeight :
    (k : Text) (o : Option ℕ)
    → has_prefix k (codes "/dev/") ≡ true
    → IsWeight (elim o [ none ↦ err invalid_limit | some n ↦ valid_limit k (is_weight n) n ])
limit-IsWeight k none p = tt
limit-IsWeight k (some n) p = valid_limit-IsWeight k n (is_weight n) p refl

-- A device that `ValidateWeightDevice` accepts has a path under `/dev/`, and its weight is zero or
-- from 10 to 1000.
pub validate_weight_device-IsWeight :
    (parse_uint : ℕ → Text → Option ℕ) (val : Text)
    → IsWeight (validate_weight_device parse_uint val)
unfolding validate_weight_device
validate_weight_device-IsWeight parse_uint val =
    let (k, v, found) = cut3 val (codes ":") in
    elim (Bool-cases (not found || is_empty k)) [
      | inl e ↦ rw e tt
      | inr e ↦ elim (Bool-cases (has_prefix k (codes "/dev/"))) [
        | inl p ↦ rw (e, p) (limit-IsWeight k (parse_uint 16 v) p)
        | inr p ↦ rw (e, p) tt
      ]
    ]
