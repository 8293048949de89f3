-- ===== src/ConfigStore/Steps.antt =====
-- What the setters of src/meshtastic_config_store.c do to a store in its shape.
use meshtastic_zephyr.Prelude.{
  ℕ, suc, ◌+◌, ◌<◌, ◌==◌, ==_iff, ◌≡◌, refl, ap, sym, ◌∙◌, ◌↔◌, inl, inr, true, List, [], ◌∷◌, none,
  some, Result, ok, err, arith, set, Bool-cases, Option-cases, leb, length,
}
use mathlib.Core.Path.{subst}
use meshtastic_zephyr.Channels.{Channels}
use meshtastic_zephyr.Configs.{Config, ModuleConfig, DeviceConfig, config_tag, module_tag}
use meshtastic_zephyr.ConfigStore.{
  Store, config_names, module_names, NamedConfig, index_from, config_is_valid, index_for_config_tag,
  index_for_module_tag, is_found,
}
use meshtastic_zephyr.ConfigStore.Settings.{config_at, tag_at}
use meshtastic_zephyr.ConfigStore.Restore.{IsStore}
use meshtastic_zephyr.ConfigStore.Kept.{set_config-IsStore}
use meshtastic_zephyr.ConfigStore.Seed.{Options}
use meshtastic_zephyr.ConfigStore.Apply.{Node, Floats, apply_core, device_of, device_idx}
use meshtastic_zephyr.ConfigStore.Setters.{Changed, set_config, settle}

-- A tag that is found is the one at its place.
index_from-tag :
    (tag k : ℕ) (names : List NamedConfig) (i : ℕ)
    → index_from (λ entry. entry.tag == tag) k names ≡ ok i
    → (j : ℕ) × (i ≡ k + j) × (tag ≡ tag_at names j) × (j < length names)
index_from-tag tag k [] i e = absurd (cc e)
index_from-tag tag k (entry ∷ names) i e = elim (Bool-cases (entry.tag == tag)) [
  | inl here ↦ (0, ground (arith, here), sym ((==_iff entry.tag tag).0 here), omega arith)
  | inr other ↦
      let more : index_from (λ x. x.tag == tag) (k + 1) names ≡ ok i = ground (arith, other) in
      let (j, at, same, lt) = index_from-tag tag (k + 1) names i more in
      (suc j, omega (arith, at), same, omega arith)
]

pub config_place-tag :
    (c : Config) (i : ℕ)
    → index_for_config_tag (config_tag c) ≡ ok i
    → (config_tag c ≡ tag_at config_names i) × (i < 10)
unfolding index_for_config_tag
config_place-tag c i e =
    let (j, at, same, lt) = index_from-tag (config_tag c) 0 config_names i e in
    (same ∙ ap (tag_at config_names) (omega (arith, at)), omega (arith, at, lt))

pub module_place-tag :
    (m : ModuleConfig) (i : ℕ)
    → index_for_module_tag (module_tag m) ≡ ok i
    → (module_tag m ≡ tag_at module_names i) × (i < 16)
unfolding index_for_module_tag
module_place-tag m i e =
    let (j, at, same, lt) = index_from-tag (module_tag m) 0 module_names i e in
    (same ∙ ap (tag_at module_names) (omega (arith, at)), omega (arith, at, lt))

-- The device section is in its place.
pub device_in_place :
    (s : Store) → IsStore s → (d : DeviceConfig) × (config_at s device_idx ≡ Config.device d)
device_in_place s st = of_tag (config_at s device_idx) (st.config_place 0 (omega arith))
  where
    of_tag : (c : Config) → config_tag c ≡ 1 → (d : DeviceConfig) × (c ≡ Config.device d)
    of_tag (Config.device d) e = (d, refl)
    of_tag (Config.position c) e = absurd (omega arith)
    of_tag (Config.power c) e = absurd (omega arith)
    of_tag (Config.network c) e = absurd (omega arith)
    of_tag (Config.display c) e = absurd (omega arith)
    of_tag (Config.lora c) e = absurd (omega arith)
    of_tag (Config.bluetooth c) e = absurd (omega arith)
    of_tag (Config.security c) e = absurd (omega arith)
    of_tag (Config.sessionkey c) e = absurd (omega arith)
    of_tag (Config.device_ui c) e = absurd (omega arith)
    of_tag Config.unset e = absurd (omega arith)

is_found-ok : (r : Result ℕ) → is_found r ≡ true → (i : ℕ) × (r ≡ ok i)
is_found-ok (ok i) e = (i, refl)
is_found-ok (err why) e = absurd (cc e)

pub config_found :
    (c : Config) → config_is_valid c ≡ true → (i : ℕ) × (index_for_config_tag (config_tag c) ≡ ok i)
unfolding config_is_valid
config_found c e = is_found-ok _ (ground (arith, e))

pub set_config-IsStore_call :
    (o : Options) (f : Floats) (c : Config) (s : Store) (n : Node) (ch : Changed)
    → IsStore s
    → set_config o f c s n ≡ some ch
    → IsStore ch.store
unfolding set_config settle
set_config-IsStore_call o f c s n ch st e = elim (Bool-cases (config_is_valid c)) [
  | inr bad ↦ let same : ch.store ≡ s = ground (arith, bad) in subst IsStore (sym same) st
  | inl good ↦
      let (i, found) = config_found c good in
      let stored : Store = record s { configs = set s.configs i c } in
      let kept : IsStore stored = set_config-IsStore s i c st (config_place-tag c i found).0 good in
      elim (Option-cases (apply_core f stored n)) [
        | inl lost ↦ absurd (ground (arith, good, found, lost))
        | inr ((none, m), back) ↦
            let same : ch.store ≡ stored = ground (arith, good, found, back) in
            subst IsStore (sym same) kept
        | inr ((some why, m), back) ↦
            let same : ch.store ≡ stored = ground (arith, good, found, back) in
            subst IsStore (sym same) kept
      ]
]

-- A device section is valid by its two enums.
pub device_valid_iff :
    (d : DeviceConfig)
    → (config_is_valid (Config.device d) ≡ true)
      ↔ ((leb d.role 12 ≡ true) × (leb d.rebroadcast_mode 5 ≡ true))
unfolding config_is_valid index_for_config_tag
device_valid_iff d = ground arith

pub device_valid :
    (s : Store)
    → IsStore s
    → (leb (device_of (config_at s device_idx)).role 12 ≡ true)
      × (leb (device_of (config_at s device_idx)).rebroadcast_mode 5 ≡ true)
device_valid s st =
    let (d, at) = device_in_place s st in
    let first = st.config_valid 0 (omega arith) in
    let valid : config_is_valid (Config.device d) ≡ true = ap config_is_valid (sym at) ∙ first in
    rw at ((device_valid_iff d).0 valid)
