-- ===== src/Opts/Devices.antt =====
-- opts/throttledevice.go and opts/weightdevice.go: limits by device.
pub mod Lists
use docker_cli.Prelude.{
  ℕ, ltb, ◌==◌, Bool, true, false, not, ◌&&◌, ◌||◌, Option, none, some, List, [], ◌∷◌, ◌++◌,
  if◌then◌else◌, Result, ok, err,
}
use docker_cli.Text.{Text, codes, cut3, has_prefix}
use docker_cli.Template.Functions.{is_empty}

-- `blkiodev.ThrottleDevice` and `blkiodev.WeightDevice`, of the engine's API.
pub record Device : Type 0 where
  pub path : Text
  pub limit : ℕ

pub data DeviceError : Type 0 where
  bad_format : DeviceError
  bad_path : DeviceError
  invalid_limit : DeviceError

abbrev pub valid_limit : Text → Bool → ℕ → Result DeviceError Device
valid_limit k true n = ok (record { path = k; limit = n })
valid_limit k false n = err invalid_limit

-- The tests on the path, which the three validators share, and then the limit.
abbrev pub device_of : Text → (ℕ → Bool) → (Text → Option ℕ) → Result DeviceError Device
device_of val valid parse =
    let (k, v, found) = cut3 val (codes ":") in
    let limited : Result DeviceError Device = elim (parse v) [
      | none ↦ err invalid_limit
      | some n ↦ valid_limit k (valid n) n
    ] in
    if not found || is_empty k
    then err bad_format
    else if not (has_prefix k (codes "/dev/"))
    then err bad_path
    else limited

-- `ValidateThrottleBpsDevice`; `ram_in_bytes` is `units.RAMInBytes`, `none` for an error or a
-- negative result.
unfoldable pub validate_throttle_bps_device : (Text → Option ℕ) → Text → Result DeviceError Device
unfolding has_prefix
validate_throttle_bps_device ram_in_bytes val = device_of val (λ _. true) ram_in_bytes

-- `ValidateThrottleIOpsDevice`; `parse_uint` is `strconv.ParseUint(·, 10, ·)`, by the bits.
unfoldable pub validate_throttle_iops_device :
    (ℕ → Text → Option ℕ) → Text → Result DeviceError Device
unfolding has_prefix
validate_throttle_iops_device parse_uint val = device_of val (λ _. true) (parse_uint 64)

-- `ValidateWeightDevice`
unfoldable pub validate_weight_device : (ℕ → Text → Option ℕ) → Text → Result DeviceError Device
unfolding has_prefix
validate_weight_device parse_uint val =
    device_of val (λ weight. not (ltb 0 weight && (ltb weight 10 || ltb 1000 weight)))
      (parse_uint 16)

-- `ThrottledeviceOpt` and `WeightdeviceOpt`: a list of pointers, and a validator or nil.
pub record DeviceOpt : Type 0 where
  pub values : List (Option Device)
  pub validator : Option (Text → Result DeviceError Device)

abbrev pub add_value : Option Device → DeviceOpt → DeviceOpt
add_value value opt = record { values = opt.values ++ value ∷ []; validator = opt.validator }

abbrev pub add_valid : Result DeviceError Device → DeviceOpt → Result DeviceError DeviceOpt
add_valid (ok v) opt = ok (add_value (some v) opt)
add_valid (err e) opt = err e

-- `Set` of both types.
unfoldable pub set_device : DeviceOpt → Text → Result DeviceError DeviceOpt
set_device opt val = elim opt.validator [
  | none ↦ ok (add_value none opt)
  | some validator ↦ add_valid (validator val) opt
]

-- `copy(dst, src)`, which writes as many elements as `dst` has.
unfoldable pub copy {ℓ} : {A : Type ℓ} → List A → List A → List A
copy [] src = []
copy (d ∷ dst) [] = d ∷ dst
copy (d ∷ dst) (s ∷ src) = s ∷ copy dst src

-- `GetList` of `ThrottledeviceOpt`: `make` gives a slice of length 0, whose capacity `copy` does not
-- use.
unfoldable pub throttle_list : DeviceOpt → List (Option Device)
unfolding copy
throttle_list opt = let out : List (Option Device) = [] in copy out opt.values

-- `GetList` of `WeightdeviceOpt`.
unfoldable pub weight_list : DeviceOpt → List (Option Device)
weight_list opt = opt.values
