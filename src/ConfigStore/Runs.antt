-- ===== src/ConfigStore/Runs.antt =====
-- Runs of the store: the calls of its setters and of the settings subsystem, in any order.
use meshtastic_zephyr.Prelude.{
  ℕ, ◌≡◌, refl, sym, inl, inr, true, not, ◌||◌, List, Option, none, some, arith, set, Bool-cases,
  Option-cases, Result-cases, ltb, leb,
}
use mathlib.Core.Path.{subst}
use meshtastic_zephyr.Messages.{Channel}
use meshtastic_zephyr.Channels.{max_channels, set_slot}
use meshtastic_zephyr.Configs.{Config, ModuleConfig, DeviceConfig, module_tag}
use meshtastic_zephyr.ConfigStore.{
  Store, Library, channel_is_valid, config_is_valid, module_is_valid, index_for_module_tag,
}
use meshtastic_zephyr.ConfigStore.Settings.{Setting, config_at, load}
use meshtastic_zephyr.ConfigStore.Restore.{IsStore}
use meshtastic_zephyr.ConfigStore.Kept.{
  set_channel-IsStore, set_config-IsStore, set_module-IsStore, load-IsStore,
}
use meshtastic_zephyr.ConfigStore.Seed.{Options}
use meshtastic_zephyr.ConfigStore.Apply.{Node, Floats, device_of, device_idx}
use meshtastic_zephyr.ConfigStore.Setters.{
  Changed, set_channel, set_config, set_module, store_set_device_role, store_set_rebroadcast_mode,
  set_device,
}
use meshtastic_zephyr.ConfigStore.Steps.{
  module_place-tag, device_valid, device_valid_iff, set_config-IsStore_call,
}

-- Calls on the store and the node, in any order, with any arguments: from `s` and `n` to what they leave.
pub data Runs (l : Library) (o : Options) (f : Floats) (s : Store) (n : Node)
    : Store → Node → Type 0 where
  start : Runs l o f s n s n
  loads :
      {s' : Store} {n' : Node} (settings : List Setting)
      → Runs l o f s n s' n'
      → Runs l o f s n (load l s' settings) n'
  sets_channel :
      {s' : Store} {n' : Node} {ch : Changed} (index : ℕ) (c : Option Channel)
      → Runs l o f s n s' n'
      → set_channel o index c s' n' ≡ some ch
      → Runs l o f s n ch.store ch.node
  sets_config :
      {s' : Store} {n' : Node} {ch : Changed} (c : Config)
      → Runs l o f s n s' n'
      → set_config o f c s' n' ≡ some ch
      → Runs l o f s n ch.store ch.node
  sets_module :
      {s' : Store} {n' : Node} (m : ModuleConfig)
      → Runs l o f s n s' n'
      → Runs l o f s n (set_module o m s' n').store (set_module o m s' n').node
  sets_role :
      {s' : Store} {n' : Node} (role : ℕ)
      → Runs l o f s n s' n'
      → Runs l o f s n
          (store_set_device_role o role s' n').store
          (store_set_device_role o role s' n').node
  sets_mode :
      {s' : Store} {n' : Node} (mode : ℕ)
      → Runs l o f s n s' n'
      → Runs l o f s n
          (store_set_rebroadcast_mode o mode s' n').store
          (store_set_rebroadcast_mode o mode s' n').node

set_channel-IsStore_call :
    (o : Options) (index : ℕ) (c : Option Channel) (s : Store) (n : Node) (ch : Changed)
    → IsStore s
    → set_channel o index c s n ≡ some ch
    → IsStore ch.store
unfolding set_channel
set_channel-IsStore_call o index none s n ch st e =
    let same : ch.store ≡ s = ground arith in subst IsStore (sym same) st
set_channel-IsStore_call o index (some c) s n ch st e =
    elim (Bool-cases (leb max_channels index || not (channel_is_valid c))) [
      | inl bad ↦ let same : ch.store ≡ s = ground (arith, bad) in subst IsStore (sym same) st
      | inr good ↦
          let valid : channel_is_valid c ≡ true = ground (arith, good) in
          let stored : Store = record s {
            channels = set s.channels index (record c { index = index });
          } in
          let kept : IsStore stored = set_channel-IsStore s index c st valid in
          elim (Option-cases (set_slot n.channels index (some c))) [
            | inl lost ↦ absurd (ground (arith, good, lost))
            | inr (r, back) ↦ elim (Result-cases r) [
              | inl (why, fails) ↦
                  let same : ch.store ≡ stored = ground (arith, good, back, fails) in
                  subst IsStore (sym same) kept
              | inr (t, done) ↦
                  let same : ch.store ≡ stored = ground (arith, good, back, done) in
                  subst IsStore (sym same) kept
            ]
          ]
    ]

set_module-IsStore_call :
    (o : Options) (m : ModuleConfig) (s : Store) (n : Node)
    → IsStore s
    → IsStore (set_module o m s n).store
unfolding set_module
set_module-IsStore_call o m s n st = elim (Bool-cases (module_is_valid m)) [
  | inr bad ↦ rw bad st
  | inl good ↦ elim (Result-cases (index_for_module_tag (module_tag m))) [
    | inl (why, lost) ↦ rw (good, lost) st
    | inr (i, found) ↦
        rw (good, found) (set_module-IsStore s i m st (module_place-tag m i found).0 good)
  ]
]

set_device-IsStore :
    (s : Store) (d : DeviceConfig)
    → IsStore s
    → config_is_valid (Config.device d) ≡ true
    → IsStore (set_device s d)
set_device-IsStore s d st valid = set_config-IsStore s 0 (Config.device d) st refl valid

role-IsStore_call :
    (o : Options) (role : ℕ) (s : Store) (n : Node)
    → IsStore s
    → IsStore (store_set_device_role o role s n).store
unfolding store_set_device_role
role-IsStore_call o role s n st = elim (Bool-cases (ltb 12 role)) [
  | inl bad ↦ rw bad st
  | inr good ↦
      let d : DeviceConfig = record (device_of (config_at s device_idx)) { role = role } in
      let old = device_valid s st in
      rw good (set_device-IsStore s d st ((device_valid_iff d).1 (ground (arith, good), old.1)))
]

mode-IsStore_call :
    (o : Options) (mode : ℕ) (s : Store) (n : Node)
    → IsStore s
    → IsStore (store_set_rebroadcast_mode o mode s n).store
unfolding store_set_rebroadcast_mode
mode-IsStore_call o mode s n st = elim (Bool-cases (ltb 5 mode)) [
  | inl bad ↦ rw bad st
  | inr good ↦
      let d : DeviceConfig = record (device_of (config_at s device_idx)) {
        rebroadcast_mode = mode;
      } in
      let old = device_valid s st in
      rw good (set_device-IsStore s d st ((device_valid_iff d).1 (old.0, ground (arith, good))))
]

-- Whatever is called, and whatever settings are loaded, the store keeps its shape: names with their
-- NUL, valid channels at their index, and in each place a valid configuration of its tag.
pub Runs-IsStore :
    (l : Library) (o : Options) (f : Floats) (s : Store) (n : Node) (t : Store) (m : Node)
    → IsStore s
    → Runs l o f s n t m
    → IsStore t
Runs-IsStore l o f s n t m st start = st
Runs-IsStore l o f s n t m st (loads {s' = s'} settings r) =
    load-IsStore l s' settings (Runs-IsStore l o f s n s' m st r)
Runs-IsStore l o f s n t m st (sets_channel {s' = s'} {n' = n'} {ch = ch} index c r e) =
    set_channel-IsStore_call o index c s' n' ch (Runs-IsStore l o f s n s' n' st r) e
Runs-IsStore l o f s n t m st (sets_config {s' = s'} {n' = n'} {ch = ch} c r e) =
    set_config-IsStore_call o f c s' n' ch (Runs-IsStore l o f s n s' n' st r) e
Runs-IsStore l o f s n t m st (sets_module {s' = s'} {n' = n'} c r) =
    set_module-IsStore_call o c s' n' (Runs-IsStore l o f s n s' n' st r)
Runs-IsStore l o f s n t m st (sets_role {s' = s'} {n' = n'} role r) =
    role-IsStore_call o role s' n' (Runs-IsStore l o f s n s' n' st r)
Runs-IsStore l o f s n t m st (sets_mode {s' = s'} {n' = n'} mode r) =
    mode-IsStore_call o mode s' n' (Runs-IsStore l o f s n s' n' st r)
