-- ===== src/ConfigStore/Settings.antt =====
-- The settings subsystem's view of the store: the get, set and export functions of
-- src/meshtastic_config_store.c, and the set callback of src/meshtastic_settings.c.
use meshtastic_zephyr.Prelude.{
  ℕ, zero, suc, ◌+◌, ◌==◌, ltb, Bool, ◌&&◌, List, [], ◌∷◌, ◌++◌, Option, none, some, Result, ok,
  err, Errno, einval, enoent, ◌>>=◌, if◌then◌else◌, length, get_or, set, take, map, codes,
  after_prefix,
}
use meshtastic_zephyr.Messages.{Channel, zero_channel}
use meshtastic_zephyr.Channels.{max_channels, str_eq}
use meshtastic_zephyr.Configs.{Config, config_tag, ModuleConfig, module_tag}
use meshtastic_zephyr.ConfigStore.{
  Store, Library, NamedConfig, config_names, module_names, encode_record, decode_record,
  parse_channel_index, channel_is_valid, config_is_valid, module_is_valid, index_for_config_name,
  index_for_module_name, setting_get_owner, setting_set_owner,
}

-- The entry of an array that C reads at an index in range.
abbrev pub channel_at : Store → ℕ → Channel
channel_at s index = get_or s.channels index zero_channel

abbrev pub config_at : Store → ℕ → Config
config_at s idx = get_or s.configs idx Config.unset

abbrev pub module_at : Store → ℕ → ModuleConfig
module_at s idx = get_or s.modules idx ModuleConfig.unset_module

abbrev pub tag_at : List NamedConfig → ℕ → ℕ
tag_at names idx = (get_or names idx (record { name = []; tag = 0 })).tag

-- The kinds of key, told apart as `meshtastic_config_store_setting_get` and `..._set` do, with the text
-- after the prefix.
pub data Key : Type 0 where
  of_owner : Key
  of_channel of_config of_module : (name : List ℕ) → Key
  of_nothing : Key

unfoldable pub classify : List ℕ → Key
classify key =
    if str_eq key (codes "owner") then of_owner else elim (after_prefix (codes "channel/") key) [
      | some name ↦ of_channel name
      | none ↦ elim (after_prefix (codes "config/") key) [
        | some name ↦ of_config name
        | none ↦ elim (after_prefix (codes "module/") key) [
          | some name ↦ of_module name
          | none ↦ of_nothing
        ]
      ]
    ]

-- The branches of `meshtastic_config_store_setting_get`
unfoldable pub get_by_key : Library → Key → ℕ → Store → Result (List ℕ)
get_by_key l of_owner buf_len s = setting_get_owner s buf_len
get_by_key l (of_channel name) buf_len s = parse_channel_index l.ulong_max name >>= λ index.
    encode_record (λ size. l.encode_channel size (channel_at s index)) buf_len
get_by_key l (of_config name) buf_len s = index_for_config_name name >>= λ idx.
    encode_record (λ size. l.encode_config size (config_at s idx)) buf_len
get_by_key l (of_module name) buf_len s = index_for_module_name name >>= λ idx.
    encode_record (λ size. l.encode_module size (module_at s idx)) buf_len
get_by_key l of_nothing buf_len s = err enoent

-- `meshtastic_config_store_setting_get` into a buffer of `buf_len` bytes
unfoldable pub setting_get : Library → List ℕ → ℕ → Store → Result (List ℕ)
setting_get l key buf_len s = get_by_key l (classify key) buf_len s

-- `err einval` where the message does not decode or does not pass.
abbrev pub checked : {A : Type 0} → Result A → (A → Bool) → Result A
checked (ok message) test = if test message then ok message else err einval
checked (err e) test = err einval

unfoldable pub set_by_key : Library → Key → List ℕ → Store → Result Store
set_by_key l of_owner buf s = setting_set_owner buf s
set_by_key l (of_channel name) buf s = parse_channel_index l.ulong_max name >>= λ index.
    checked (decode_record l.decode_channel buf) channel_is_valid >>= λ c.
    ok (record s { channels = set s.channels index (record c { index = index }) })
set_by_key l (of_config name) buf s = index_for_config_name name >>= λ idx.
    checked (decode_record l.decode_config buf)
      (λ c. (config_tag c == tag_at config_names idx) && config_is_valid c)
    >>= λ c. ok (record s { configs = set s.configs idx c })
set_by_key l (of_module name) buf s = index_for_module_name name >>= λ idx.
    checked (decode_record l.decode_module buf)
      (λ m. (module_tag m == tag_at module_names idx) && module_is_valid m)
    >>= λ m. ok (record s { modules = set s.modules idx m })
set_by_key l of_nothing buf s = err enoent

-- `meshtastic_config_store_setting_set`; an error leaves the store as it was.
unfoldable pub setting_set : Library → List ℕ → List ℕ → Store → Result Store
setting_set l key buf s = set_by_key l (classify key) buf s

abbrev pub store_value_max : ℕ
store_value_max = 256

-- `snprintk` into `name[40]`, of "channel/%u" with a digit and of the names
abbrev pub channel_key : ℕ → List ℕ
channel_key i = take 39 (codes "channel/" ++ (b'0' + i) ∷ [])

abbrev pub channel_keys : ℕ → ℕ → List (List ℕ)
channel_keys i zero = []
channel_keys i (suc n) = channel_key i ∷ channel_keys (i + 1) n

abbrev pub prefixed_keys : List ℕ → List NamedConfig → List (List ℕ)
prefixed_keys prefix names = map (λ entry. take 39 (prefix ++ entry.name)) names

-- The keys in the order in which `meshtastic_config_store_export` goes through them
abbrev pub export_keys : List (List ℕ)
export_keys =
    codes "owner" ∷ channel_keys 0 max_channels
    ++ prefixed_keys (codes "config/") config_names
    ++ prefixed_keys (codes "module/") module_names

-- A key with its value, as `export_func` and the set callback take them.
pub record Setting : Type 0 where
  pub key : List ℕ
  pub value : List ℕ

-- `export_one` for each key until one fails, with an `export_func` that answers `none` for 0: the
-- return value and the calls of `export_func`.
unfoldable pub export_each :
    Library → (Setting → Option Errno) → Store → List (List ℕ) → Option Errno × List Setting
export_each l export_func s [] = (none, [])
export_each l export_func s (key ∷ keys) =
    let rest = export_each l export_func s keys in
    elim (setting_get l key store_value_max s) [
      | err e ↦ (some e, [])
      | ok value ↦ elim (export_func (record { key = key; value = value })) [
        | some e ↦ (some e, record { key = key; value = value } ∷ [])
        | none ↦ (rest.0, record { key = key; value = value } ∷ rest.1)
      ]
    ]

-- `meshtastic_config_store_export`
unfoldable pub export : Library → (Setting → Option Errno) → Store → Option Errno × List Setting
export l export_func s = export_each l export_func s export_keys

-- `settings_set_cb`, where reading gives the whole value: what it cannot use it ignores.
unfoldable pub settings_set_cb : Library → Store → Setting → Store
settings_set_cb l s setting =
    if ltb store_value_max (length setting.value)
    then s
    else elim (setting_set l setting.key setting.value s) [ err e ↦ s | ok s' ↦ s' ]

-- `settings_load_subtree`, which calls it for each stored setting
unfoldable pub load : Library → Store → List Setting → Store
load l s [] = s
load l s (setting ∷ settings) = load l (settings_set_cb l s setting) settings
