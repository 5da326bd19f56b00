-- ===== src/Service/Capabilities.antt =====
-- `updateCapabilities` of cli/command/service/update.go.
pub mod Updated
use docker_cli.Prelude.{ℕ, Bool, not, List, [], ◌∷◌, if◌then◌else◌}
use docker_cli.Text.{Text, eq}
use docker_cli.Maps.{elem}
use docker_cli.Sort.{sort_strings}
use docker_cli.Sort.Unique.{add_member, drop_member}
use docker_cli.Opts.Capabilities.{
  all_capabilities, reset_capabilities, or_all, normalize_capability, capabilities_map,
}
use docker_cli.Service.Flags.{ListFlag}

-- `CapabilityAdd` and `CapabilityDrop`, as lists of the specification or as sets.
pub record Caps : Type 0 where
  pub cap_add : List Text
  pub cap_drop : List Text

-- `capsList`
unfoldable pub caps_list : List Text → List Text
unfolding sort_strings elem
caps_list caps = if elem all_capabilities caps then all_capabilities ∷ [] else sort_strings caps

-- The capabilities of a flag, less `RESET`. A nil map has no members.
abbrev pub requested : (ℕ → ℕ) → ListFlag → List Text
requested fold flag =
    if flag.changed
    then (if elem reset_capabilities (capabilities_map fold flag.values)
        then drop_member reset_capabilities (capabilities_map fold flag.values)
        else capabilities_map fold flag.values)
    else []

-- The set that a flag works on, which `RESET` makes empty.
abbrev pub reset_set : (ℕ → ℕ) → ListFlag → List Text → List Text
reset_set fold flag caps =
    if flag.changed
    then (if elem reset_capabilities (capabilities_map fold flag.values) then [] else caps)
    else caps

-- The loop over `toDrop`.
unfoldable pub drop_loop : List Text → List Text → Caps → Caps
unfolding elem add_member drop_member
drop_loop to_add [] caps = caps
drop_loop to_add (c ∷ to_drop) caps =
    let withdrawn : Caps = record {
      cap_add = drop_member c caps.cap_add;
      cap_drop = caps.cap_drop;
    } in
    let dropped : Caps = record { cap_add = caps.cap_add; cap_drop = add_member c caps.cap_drop } in
    let next = if elem c caps.cap_add then withdrawn else dropped in
    drop_loop to_add to_drop (if not (elem c to_add) then next else caps)

-- The loop over `toAdd`.
unfoldable pub add_loop : List Text → Caps → Caps
unfolding elem add_member drop_member
add_loop [] caps = caps
add_loop (c ∷ to_add) caps =
    let restored : Caps = record {
      cap_add = caps.cap_add;
      cap_drop = drop_member c caps.cap_drop;
    } in
    let added : Caps = record { cap_add = add_member c caps.cap_add; cap_drop = caps.cap_drop } in
    add_loop to_add (if elem c caps.cap_drop then restored else added)

-- `updateCapabilities`; `fold` is `unicode.ToUpper` outside ASCII.
unfoldable pub update_capabilities : (ℕ → ℕ) → ListFlag → ListFlag → Caps → Caps
unfolding capabilities_map drop_member elem drop_loop add_loop caps_list
update_capabilities fold add_flag drop_flag spec =
    let cap_drop = capabilities_map fold spec.cap_drop in
    let cap_add = capabilities_map fold spec.cap_add in
    let to_add = requested fold add_flag in
    let to_drop = requested fold drop_flag in
    let start : Caps = record {
      cap_add = reset_set fold add_flag cap_add;
      cap_drop = reset_set fold drop_flag cap_drop;
    } in
    let caps = add_loop to_add (drop_loop to_add to_drop start) in
    record { cap_add = caps_list caps.cap_add; cap_drop = caps_list caps.cap_drop }
