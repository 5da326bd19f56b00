-- ===== src/Tests/Opts.antt =====
-- The package opts on concrete values.
use docker_cli.Prelude.{◌≡◌, refl, [], ◌∷◌, ◌-◌, Option, some, none, ℕ, ok, ◌>>=◌}
use docker_cli.Text.{Text, codes, cut, eq, has_prefix}
use docker_cli.Maps.{elem}
use docker_cli.Opts.ListOpts.{ListOpts, set_list, delete_value, get_map}
use docker_cli.Opts.Devices.{
  Device, DeviceOpt, set_device, weight_list, throttle_list, validate_weight_device,
}
use docker_cli.Opts.Devices.Lists.{set_device-lists}
use docker_cli.Opts.Capabilities.{normalize_capability, effective_cap_add_cap_drop}
use docker_cli.Opts.Capabilities.Effective.{Effective, effective_cap_add_cap_drop-Effective}

normalize_test : normalize_capability (λ c. c) (codes " net_admin ") ≡ codes "CAP_NET_ADMIN"
unfolding normalize_capability eq has_prefix
normalize_test = refl

effective_test :
    effective_cap_add_cap_drop
      (λ c. c)
      (codes "b" ∷ codes "reset" ∷ codes "a" ∷ codes "CAP_A" ∷ [])
      (codes "a" ∷ codes "c" ∷ [])
    ≡ (codes "CAP_A" ∷ codes "CAP_B" ∷ [], codes "CAP_C" ∷ [])
unfolding effective_cap_add_cap_drop eq elem has_prefix
effective_test = refl

effective_cap_add_cap_drop-Effective_example :
    Effective
      (λ c. c)
      (codes "a" ∷ [])
      (codes "all" ∷ [])
      (effective_cap_add_cap_drop (λ c. c) (codes "a" ∷ []) (codes "all" ∷ []))
effective_cap_add_cap_drop-Effective_example =
    effective_cap_add_cap_drop-Effective (λ c. c) (codes "a" ∷ []) (codes "all" ∷ [])

-- The numbers of one digit.
abbrev parse_digit : ℕ → Text → Option ℕ
parse_digit bits [] = none
parse_digit bits (c ∷ []) = some (c - b'0')
parse_digit bits (c ∷ (d ∷ s)) = none

abbrev sda : Device
sda = record { path = codes "/dev/sda"; limit = 0 }

abbrev weights : DeviceOpt
weights = record { values = []; validator = some (validate_weight_device parse_digit) }

set_device-lists_example :
    ((set_device weights (codes "/dev/sda:0") >>= λ o. ok (weight_list o)) ≡ ok (some sda ∷ []))
    × ((set_device weights (codes "/dev/sda:0") >>= λ o. ok (throttle_list o)) ≡ ok [])
unfolding validate_weight_device has_prefix cut weight_list
set_device-lists_example =
    set_device-lists weights (validate_weight_device parse_digit) (codes "/dev/sda:0") sda refl refl

abbrev twice : ListOpts Text
twice = record { values = codes "a" ∷ codes "b" ∷ codes "a" ∷ []; validator = none }

delete_value_test : (delete_value twice (codes "a")).values ≡ codes "b" ∷ codes "a" ∷ []
unfolding delete_value eq
delete_value_test = refl

set_list_test :
    (set_list twice (codes "c") >>= λ o. ok (get_map o))
    ≡ ok (codes "c" ∷ codes "b" ∷ codes "a" ∷ [])
unfolding set_list get_map elem eq
set_list_test = refl
