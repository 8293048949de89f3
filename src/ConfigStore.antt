-- ===== src/ConfigStore.antt =====
-- src/meshtastic_config_store.c: the owner's names, the channels and the configurations, each kept
-- under a key of the settings subsystem as a record of bytes.
pub mod Keys
pub mod Records
pub mod Settings
pub mod Restore
pub mod Apply
pub mod Seed
pub mod Setters
pub mod Primary
pub mod InUse
pub mod Steps
pub mod Runs
pub mod Sample
mod Tests
pub mod Kept
pub mod Sizes
pub mod Parts
pub mod Reload
use meshtastic_zephyr.Prelude.{
  ℕ, ◌+◌, ◌-◌, ◌*◌, ◌/◌, ◌%◌, ◌==◌, ltb, leb, Bool, true, false, not, ◌&&◌, List, [], ◌∷◌, ◌++◌,
  Option, none, some, Result, ok, err, Errno, einval, enoent, enomem, ◌>>=◌, if◌then◌else◌, length,
  get_or, set, take, drop, replicate, map, codes, after_prefix, until_nul, strtoul,
}
use meshtastic_zephyr.Messages.{
  Channel, ChannelRole, disabled, primary, secondary, unnamed_role, zero_channel,
}
use meshtastic_zephyr.Channels.{max_channels, str_eq}
use meshtastic_zephyr.Configs.{Config, config_tag, ModuleConfig, module_tag}

-- `struct named_config`
pub record NamedConfig : Type 0 where
  pub name : List ℕ
  pub tag : ℕ

abbrev pub config_names : List NamedConfig
config_names =
    record { name = codes "device"; tag = 1 }
    ∷ record { name = codes "position"; tag = 2 }
    ∷ record { name = codes "power"; tag = 3 }
    ∷ record { name = codes "network"; tag = 4 }
    ∷ record { name = codes "display"; tag = 5 }
    ∷ record { name = codes "lora"; tag = 6 }
    ∷ record { name = codes "bluetooth"; tag = 7 }
    ∷ record { name = codes "security"; tag = 8 }
    ∷ record { name = codes "sessionkey"; tag = 9 }
    ∷ record { name = codes "device_ui"; tag = 10 }
    ∷ []

abbrev pub module_names : List NamedConfig
module_names =
    record { name = codes "mqtt"; tag = 1 }
    ∷ record { name = codes "serial"; tag = 2 }
    ∷ record { name = codes "external_notification"; tag = 3 }
    ∷ record { name = codes "store_forward"; tag = 4 }
    ∷ record { name = codes "range_test"; tag = 5 }
    ∷ record { name = codes "telemetry"; tag = 6 }
    ∷ record { name = codes "canned_message"; tag = 7 }
    ∷ record { name = codes "audio"; tag = 8 }
    ∷ record { name = codes "remote_hardware"; tag = 9 }
    ∷ record { name = codes "neighbor_info"; tag = 10 }
    ∷ record { name = codes "ambient_lighting"; tag = 11 }
    ∷ record { name = codes "detection_sensor"; tag = 12 }
    ∷ record { name = codes "paxcounter"; tag = 13 }
    ∷ record { name = codes "statusmessage"; tag = 14 }
    ∷ record { name = codes "traffic_management"; tag = 15 }
    ∷ record { name = codes "tak"; tag = 16 }
    ∷ []

-- `store`; a configuration is at its name's place in the table of names.
pub record Store : Type 0 where
  pub long_name : List ℕ
  pub short_name : List ℕ
  pub channels : List Channel
  pub configs : List Config
  pub modules : List ModuleConfig

-- nanopb on the three messages, which writes into a buffer of a size, and the largest `unsigned long`.
pub record Library : Type 0 where
  pub encode_channel : ℕ → Channel → Option (List ℕ)
  pub decode_channel : List ℕ → Option Channel
  pub encode_config : ℕ → Config → Option (List ℕ)
  pub decode_config : List ℕ → Option Config
  pub encode_module : ℕ → ModuleConfig → Option (List ℕ)
  pub decode_module : List ℕ → Option ModuleConfig
  pub ulong_max : ℕ

abbrev pub long_name_len : ℕ
long_name_len = 40

abbrev pub short_name_len : ℕ
short_name_len = 5

-- `copy_string` into a buffer of `size` bytes, and a whole buffer that it has written
abbrev pub copy_string : ℕ → List ℕ → List ℕ
copy_string size s = take (size - 1) s

abbrev pub string_buffer : ℕ → List ℕ → List ℕ
string_buffer size s = take size (copy_string size s ++ replicate size 0)

-- `copy_fixed_string` from a buffer to one of `size` bytes
abbrev pub copy_fixed_string : ℕ → List ℕ → List ℕ
copy_fixed_string size src = take (size - 1) (until_nul src)

-- The place of the first entry that passes the test.
abbrev pub index_from : (NamedConfig → Bool) → ℕ → List NamedConfig → Result ℕ
index_from test i [] = err enoent
index_from test i (entry ∷ names) = if test entry then ok i else index_from test (i + 1) names

unfoldable pub index_for_config_tag : ℕ → Result ℕ
index_for_config_tag tag = index_from (λ entry. entry.tag == tag) 0 config_names

unfoldable pub index_for_module_tag : ℕ → Result ℕ
index_for_module_tag tag = index_from (λ entry. entry.tag == tag) 0 module_names

unfoldable pub index_for_config_name : List ℕ → Result ℕ
index_for_config_name name = index_from (λ entry. str_eq entry.name name) 0 config_names

unfoldable pub index_for_module_name : List ℕ → Result ℕ
index_for_module_name name = index_from (λ entry. str_eq entry.name name) 0 module_names

abbrev pub record_version : ℕ
record_version = 1

abbrev pub record_header_len : ℕ
record_header_len = 4

-- `encode_record` into a buffer of `buf_len` bytes, with the message's encoder: the bytes that it
-- counts.
unfoldable pub encode_record : (ℕ → Option (List ℕ)) → ℕ → Result (List ℕ)
encode_record encode buf_len =
    if ltb buf_len record_header_len
    then err einval
    else elim (encode (buf_len - record_header_len)) [
      | none ↦ err enomem
      | some bytes ↦ ok (record_version ∷ 0 ∷ length bytes % 256 ∷ length bytes / 256 % 256 ∷ bytes)
    ]

-- `decode_record`, with the message's decoder
unfoldable pub decode_record : {A : Type 0} → (List ℕ → Option A) → List ℕ → Result A
decode_record decode (version ∷ zero_byte ∷ low ∷ high ∷ bytes) =
    if not (version == record_version)
    then err einval
    else if not (low + high * 256 == length bytes)
    then err einval
    else elim (decode bytes) [ none ↦ err einval | some message ↦ ok message ]
decode_record decode _ = err einval

abbrev pub is_empty_text : List ℕ → Bool
is_empty_text [] = true
is_empty_text _ = false

-- `parse_channel_index`
unfoldable pub parse_channel_index : ℕ → List ℕ → Result ℕ
parse_channel_index ulong_max [] = err einval
parse_channel_index ulong_max (c ∷ name) =
    let (parsed, end) = strtoul ulong_max (c ∷ name) in
    if is_empty_text end && ltb parsed max_channels then ok parsed else err einval

abbrev pub role_is_valid : ChannelRole → Bool
role_is_valid disabled = true
role_is_valid primary = true
role_is_valid secondary = true
role_is_valid (unnamed_role role) = leb role 2

abbrev pub psk_size : ℕ
psk_size = 32

unfoldable pub channel_is_valid : Channel → Bool
channel_is_valid channel = role_is_valid channel.role && leb (length channel.settings.psk) psk_size

-- The switch of `config_is_valid`
abbrev pub variant_is_valid : Config → Bool
variant_is_valid (Config.device c) = leb c.role 12 && leb c.rebroadcast_mode 5
variant_is_valid (Config.lora c) = leb c.hop_limit 7
variant_is_valid (Config.bluetooth c) = leb c.mode 2
variant_is_valid _ = true

abbrev pub is_found : Result ℕ → Bool
is_found (ok i) = true
is_found (err e) = false

unfoldable pub config_is_valid : Config → Bool
config_is_valid config =
    is_found (index_for_config_tag (config_tag config)) && variant_is_valid config

unfoldable pub module_is_valid : ModuleConfig → Bool
module_is_valid m = is_found (index_for_module_tag (module_tag m))

-- `setting_get_owner` and `setting_set_owner`: a packed record of a version and two buffers
unfoldable pub setting_get_owner : Store → ℕ → Result (List ℕ)
setting_get_owner s buf_len =
    if ltb buf_len (1 + long_name_len + short_name_len)
    then err enomem
    else ok (
        record_version ∷ string_buffer long_name_len s.long_name
        ++ string_buffer short_name_len s.short_name)

unfoldable pub setting_set_owner : List ℕ → Store → Result Store
setting_set_owner [] s = err einval
setting_set_owner (version ∷ names) s =
    if version == record_version && length names == long_name_len + short_name_len
    then ok (record s {
      long_name = copy_fixed_string long_name_len (take long_name_len names);
      short_name = copy_fixed_string short_name_len (drop long_name_len names);
    })
    else err einval
