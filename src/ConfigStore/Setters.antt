-- ===== src/ConfigStore/Setters.antt =====
-- The functions of src/meshtastic_config_store.c that read and change one part of the store.
use meshtastic_zephyr.Prelude.{
  ℕ, ltb, leb, Bool, not, ◌||◌, false, List, [], Option, none, some, Result, ok, err, Errno, einval,
  if◌then◌else◌, set,
}
use meshtastic_zephyr.Messages.{Channel}
use meshtastic_zephyr.Channels.{max_channels, set_slot}
use meshtastic_zephyr.Configs.{
  Config, ModuleConfig, DeviceConfig, config_tag, module_tag, role_of, mode_of,
}
use meshtastic_zephyr.ConfigStore.{
  Store, channel_is_valid, config_is_valid, module_is_valid, index_for_config_tag,
  index_for_module_tag,
}
use meshtastic_zephyr.ConfigStore.Settings.{channel_at, config_at, module_at}
use meshtastic_zephyr.ConfigStore.Apply.{Node, Floats, apply_core, device_idx, device_of}
use meshtastic_zephyr.ConfigStore.Seed.{Options}

-- What a call leaves: its return value, `none` for 0, the store and the node, and whether it schedules
-- a save.
pub record Changed : Type 0 where
  pub ret : Option Errno
  pub store : Store
  pub node : Node
  pub scheduled : Bool

abbrev rejected : Errno → Store → Node → Changed
rejected e s n = record { ret = some e; store = s; node = n; scheduled = false }

abbrev accepted : Options → Store → Node → Changed
accepted o s n = record { ret = none; store = s; node = n; scheduled = o.with_settings }

-- `meshtastic_config_store_get_channel`, `..._get_config`, `..._get_module` and `..._get_device_ui`
unfoldable pub get_channel : Store → ℕ → Result Channel
get_channel s index = if leb max_channels index then err einval else ok (channel_at s index)

unfoldable pub get_config : Store → ℕ → Result Config
get_config s tag = elim (index_for_config_tag tag) [
  | err e ↦ err einval
  | ok idx ↦ ok (config_at s idx)
]

unfoldable pub get_module : Store → ℕ → Result ModuleConfig
get_module s tag = elim (index_for_module_tag tag) [
  | err e ↦ err einval
  | ok idx ↦ ok (module_at s idx)
]

unfoldable pub get_device_ui : Store → Result (List ℕ)
get_device_ui s = elim (get_config s 10) [
  | err e ↦ err e
  | ok (Config.device_ui content) ↦ ok content
  | ok _ ↦ ok []
]

-- `meshtastic_config_store_set_channel`, with `none` for a NULL channel
unfoldable pub set_channel : Options → ℕ → Option Channel → Store → Node → Option Changed
set_channel o index none s n = some (rejected einval s n)
set_channel o index (some channel) s n =
    let stored : Store = record s {
      channels = set s.channels index (record channel { index = index });
    } in
    if leb max_channels index || not (channel_is_valid channel)
    then some (rejected einval s n)
    else elim (set_slot n.channels index (some channel)) [
      | none ↦ none
      | some (err e) ↦ some (rejected e stored n)
      | some (ok t) ↦ some (accepted o stored (record n { channels = t }))
    ]

-- The end of `meshtastic_config_store_set_config`, on the stored configuration
unfoldable pub settle : Options → Floats → Node → Store → Option Changed
settle o f n stored = elim (apply_core f stored n) [
  | none ↦ none
  | some (some e, n') ↦ some (rejected e stored n')
  | some (none, n') ↦ some (accepted o stored n')
]

-- `meshtastic_config_store_set_config`
unfoldable pub set_config : Options → Floats → Config → Store → Node → Option Changed
set_config o f config s n =
    if not (config_is_valid config)
    then some (rejected einval s n)
    else elim (index_for_config_tag (config_tag config)) [
      | err e ↦ some (rejected e s n)
      | ok idx ↦ settle o f n (record s { configs = set s.configs idx config })
    ]

-- `meshtastic_config_store_set_module`
unfoldable pub set_module : Options → ModuleConfig → Store → Node → Changed
set_module o m s n =
    if not (module_is_valid m)
    then rejected einval s n
    else elim (index_for_module_tag (module_tag m)) [
      | err e ↦ rejected e s n
      | ok idx ↦ accepted o (record s { modules = set s.modules idx m }) n
    ]

-- A write of the device section's fields, which is in its place in the store's shape
abbrev pub set_device : Store → DeviceConfig → Store
set_device s device = record s { configs = set s.configs device_idx (Config.device device) }

-- `meshtastic_config_store_set_device_role` and `..._set_rebroadcast_mode`
unfoldable pub store_set_device_role : Options → ℕ → Store → Node → Changed
store_set_device_role o role s n =
    if ltb 12 role
    then rejected einval s n
    else accepted o (set_device s (record (device_of (config_at s device_idx)) { role = role }))
        (record n { channels = record (n.channels) { device_role = role_of role } })

unfoldable pub store_set_rebroadcast_mode : Options → ℕ → Store → Node → Changed
store_set_rebroadcast_mode o mode s n =
    if ltb 5 mode
    then rejected einval s n
    else accepted o
        (set_device s (record (device_of (config_at s device_idx)) { rebroadcast_mode = mode }))
        (record n { channels = record (n.channels) { rebroadcast_mode = mode_of mode } })
