-- ===== src/ConfigStore/Tests.antt =====
-- src/meshtastic_config_store.c on a seeded store, with slot 1 PRIMARY.
use meshtastic_zephyr.Prelude.{
  Bool, ◌&&◌, ◌≤◌, ◌==◌, ◌≡◌, refl, true, false, not, ◌||◌, List, [], ◌∷◌, Option, none, some, ok,
  Errno, einval, arith, codes, every, at-every, ==_iff, set,
}
use meshtastic_zephyr.Packet.{ℤ}
use meshtastic_zephyr.Messages.{Channel, primary, zero_channel, zero_settings}
use meshtastic_zephyr.Channels.{
  Channels, other_role, all, slot, is_primary, get_key, get_key_fuel, inherits, own_key,
  expand_short_psk, set_slot, store, store_and_demote, demote_other_primary, demote_from,
  demote_one, fixup, fixed_slot, generate_hash, hash_of, xor_hash_bytes, get_name, refresh,
}
use meshtastic_zephyr.Channels.Primary.{IsTable}
use meshtastic_zephyr.Configs.{Config, config_tag, module_tag, zero_bluetooth}
use meshtastic_zephyr.ConfigStore.{
  Store, encode_record, parse_channel_index, channel_is_valid, config_is_valid, module_is_valid,
  index_for_config_tag, index_for_module_tag, index_for_config_name, index_for_module_name,
  setting_get_owner, config_names, module_names,
}
use meshtastic_zephyr.ConfigStore.Restore.{IsStore, IsFull, IsFullChannel}
use meshtastic_zephyr.ConfigStore.Parts.{IsSized}
use meshtastic_zephyr.ConfigStore.Reload.{load-export}
use meshtastic_zephyr.ConfigStore.Sample.{
  plain_library, map_report_whole, plain_full, plain_library-IsLibrary,
}
use meshtastic_zephyr.ConfigStore.Sample.Modules.{texted}
use meshtastic_zephyr.ConfigStore.Settings.{
  Setting, classify, setting_get, get_by_key, export_each, export, load, channel_at, config_at,
  module_at, tag_at,
}
use meshtastic_zephyr.ConfigStore.Seed.{
  Options, InitConfig, seed, seed_channels, seed_config_defaults, seed_module_defaults, seed_mqtt,
  role_number, mode_number,
}
use meshtastic_zephyr.ConfigStore.Apply.{
  Node, Floats, elsewhere, apply_channels, apply_core, apply_radio, apply_power,
}
use meshtastic_zephyr.ConfigStore.Setters.{Changed, set_channel, set_config, settle}
use meshtastic_zephyr.ConfigStore.Runs.{start, loads, sets_config, Runs-IsStore}
use meshtastic_zephyr.ConfigStore.Primary.{set_config_moves_primary}

abbrev free_slot : Channel
free_slot = record zero_channel { has_settings = true }

-- A PRIMARY channel "a" with the default key
abbrev channel_a : Channel
channel_a = record {
  index = 1;
  has_settings = true;
  settings = record zero_settings { name = b'a' ∷ []; psk = 1 ∷ [] };
  role = primary;
}

abbrev demo_table : Channels
demo_table = record {
  slots =
      free_slot ∷ channel_a ∷ free_slot ∷ free_slot ∷ free_slot ∷ free_slot ∷ free_slot ∷ free_slot
      ∷ [];
  hashes = 0 ∷ 99 ∷ 0 ∷ 0 ∷ 0 ∷ 0 ∷ 0 ∷ 0 ∷ [];
  primary_index = 1;
  device_role = other_role 0;
  rebroadcast_mode = all;
  ch_hash = 99;
  channel_name = b'a' ∷ [];
}

abbrev demo_node : Node
demo_node = record {
  long_name = elsewhere [];
  short_name = elsewhere [];
  hop_limit = 3;
  tx_power = ℤ.pos 14;
  frequency = 869525000;
  channels = demo_table;
}

abbrev demo_options : Options
demo_options = record {
  node_long_name = codes "Zephyr node";
  node_short_name = codes "ZN";
  with_serial = true;
  with_gnss = false;
  with_ble = true;
  with_settings = true;
  fixed_passkey = some 123456;
  mqtt = some (record {
    broker_host = codes "mqtt.meshtastic.org";
    username = codes "meshdev";
    password = codes "large4cats";
    root = codes "msh";
    encryption_enabled = true;
    map_report = none;
  });
}

abbrev demo_config : InitConfig
demo_config = record { frequency = 869525000; long_name = none; short_name = some (codes "abcdef") }

abbrev demo_store : Store
demo_store = record {
  long_name = codes "Zephyr node";
  short_name = codes "abcd";
  channels = seed_channels demo_table 0 8;
  configs = seed_config_defaults demo_options demo_config demo_node;
  modules = seed_module_defaults demo_options;
}

demo_seed : seed demo_options (some demo_config) demo_node ≡ ok demo_store
unfolding seed
demo_seed = refl

demo_table_unique : every (λ j. not (is_primary (slot demo_table j).role) || j == 1) 8 ≡ true
unfolding every
demo_table_unique = refl

demo_table-IsTable : IsTable demo_table
demo_table-IsTable = record {
  eight = refl;
  index_in = omega arith;
  unique = λ j lt p.
      let row : (not (is_primary (slot demo_table j).role) || j == 1) ≡ true =
        at-every (λ k. not (is_primary (slot demo_table k).role) || k == 1) {byte = j} 8 lt
          demo_table_unique in
      (==_iff j 1).0 (rw p at row);
}

demo_channels : every (λ j. channel_is_valid (channel_at demo_store j)) 8 ≡ true
unfolding every channel_is_valid seed_channels
demo_channels = refl

demo_places : every (λ j. (channel_at demo_store j).index == j) 8 ≡ true
unfolding every seed_channels
demo_places = refl

demo_configs : every (λ j. config_is_valid (config_at demo_store j)) 10 ≡ true
unfolding every config_is_valid index_for_config_tag seed_config_defaults role_number mode_number
demo_configs = refl

demo_config_tags :
    every (λ j. config_tag (config_at demo_store j) == tag_at config_names j) 10 ≡ true
unfolding every seed_config_defaults
demo_config_tags = refl

demo_modules : every (λ j. module_is_valid (module_at demo_store j)) 16 ≡ true
unfolding every module_is_valid index_for_module_tag seed_module_defaults
demo_modules = refl

demo_module_tags :
    every (λ j. module_tag (module_at demo_store j) == tag_at module_names j) 16 ≡ true
unfolding every seed_module_defaults
demo_module_tags = refl

demo_store-IsSized : IsSized demo_store
unfolding seed_channels seed_config_defaults seed_module_defaults
demo_store-IsSized = record { channels_len = refl; configs_len = refl; modules_len = refl }

demo_store-IsStore : IsStore demo_store
demo_store-IsStore =
    let size = demo_store-IsSized in
    record {
      long_text = record { fits = omega arith; no_nul = refl };
      short_text = record { fits = omega arith; no_nul = refl };
      channels_len = size.channels_len;
      configs_len = size.configs_len;
      modules_len = size.modules_len;
      channel_valid = λ j lt. at-every _ {byte = j} 8 lt demo_channels;
      channel_index = λ j lt.
          (==_iff _ _).0
            (at-every (λ k. (channel_at demo_store k).index == k) {byte = j} 8 lt demo_places);
      config_valid = λ j lt. at-every _ {byte = j} 10 lt demo_configs;
      config_place = λ j lt. (==_iff _ _).0 (
          at-every (λ k. config_tag (config_at demo_store k) == tag_at config_names k) {byte = j} 10
            lt demo_config_tags);
      module_valid = λ j lt. at-every _ {byte = j} 16 lt demo_modules;
      module_place = λ j lt. (==_iff _ _).0 (
          at-every (λ k. module_tag (module_at demo_store k) == tag_at module_names k) {byte = j} 16
            lt demo_module_tags);
    }

abbrev accept : Setting → Option Errno
accept setting = none

abbrev written : List Setting
written = (export plain_library accept demo_store).1

demo_export : export plain_library accept demo_store ≡ (none, written)
unfolding export export_each setting_get get_by_key classify parse_channel_index
    index_for_config_name index_for_module_name encode_record setting_get_owner seed_channels
    seed_config_defaults seed_module_defaults seed_mqtt texted
demo_export = refl

-- Another store, whose owner, LoRa section and last channel differ
abbrev other_store : Store
other_store = record demo_store {
  long_name = [];
  channels = set (seed_channels demo_table 0 8) 7 zero_channel;
  configs = set (seed_config_defaults demo_options demo_config demo_node) 5 Config.unset;
}

other_store-IsSized : IsSized other_store
unfolding seed_channels seed_config_defaults seed_module_defaults
other_store-IsSized = record { channels_len = refl; configs_len = refl; modules_len = refl }

abbrev filled : Channel → Bool
filled c = c.has_settings && (c.settings.position_precision == 0)

demo_full_channels : every (λ j. filled (channel_at demo_store j)) 8 ≡ true
unfolding every seed_channels
demo_full_channels = refl

demo_full_modules : every (λ j. map_report_whole (module_at demo_store j)) 16 ≡ true
unfolding every seed_module_defaults seed_mqtt
demo_full_modules = refl

filled-IsFullChannel : (c : Channel) → filled c ≡ true → IsFullChannel c
filled-IsFullChannel c full = record {
  settings = λ unset. absurd (ground (arith, full));
  precision = λ unset. ground (arith, full);
}

demo_store-IsFull : IsFull plain_full demo_store
demo_store-IsFull = record {
  channels = λ j lt.
      filled-IsFullChannel _
        (at-every (λ k. filled (channel_at demo_store k)) {byte = j} 8 lt demo_full_channels);
  configs = λ j lt. omega arith;
  modules = λ j lt.
      at-every (λ k. map_report_whole (module_at demo_store k)) {byte = j} 16 lt demo_full_modules;
}

load-export_example : load plain_library other_store written ≡ demo_store
load-export_example =
    load-export plain_library plain_full demo_store other_store accept written written
      plain_library-IsLibrary demo_store-IsStore demo_store-IsFull other_store-IsSized demo_export
      (λ r m. m) (λ r m. m)

abbrev no_floats : Floats
no_floats = record { is_positive = λ bits. false; to_hz = λ bits. 0 }

abbrev bluetooth_off : Config
bluetooth_off = Config.bluetooth zero_bluetooth

abbrev bad_bluetooth : Config
bad_bluetooth = Config.bluetooth (record zero_bluetooth { mode = 3 })

-- A channel "b" set as PRIMARY at slot 0, and what a stored configuration then does
abbrev channel_b : Channel
channel_b = record channel_a { settings = record zero_settings { name = b'b' ∷ []; psk = 1 ∷ [] } }

abbrev outcome : Option Changed → Changed
outcome (some ch) = ch
outcome none = record { ret = none; store = demo_store; node = demo_node; scheduled = false }

abbrev after_channel : Changed
after_channel = outcome (set_channel demo_options 0 (some channel_b) demo_store demo_node)

abbrev after_config : Changed
after_config =
    outcome (set_config demo_options no_floats bluetooth_off after_channel.store after_channel.node)

channel_run : set_channel demo_options 0 (some channel_b) demo_store demo_node ≡ some after_channel
unfolding set_channel channel_is_valid set_slot store_and_demote store demote_other_primary
    demote_from demote_one fixup fixed_slot generate_hash hash_of xor_hash_bytes get_name get_key
    get_key_fuel own_key expand_short_psk inherits refresh
channel_run = refl

channel_ret : after_channel.ret ≡ none
unfolding set_channel channel_is_valid set_slot store_and_demote store demote_other_primary
    demote_from demote_one fixup fixed_slot generate_hash hash_of xor_hash_bytes get_name get_key
    get_key_fuel own_key expand_short_psk inherits refresh
channel_ret = refl

config_run :
    set_config demo_options no_floats bluetooth_off after_channel.store after_channel.node
    ≡ some after_config
unfolding set_config settle apply_core apply_channels apply_radio apply_power seed_channels
    config_is_valid index_for_config_tag set_channel channel_is_valid set_slot store_and_demote
    store demote_other_primary demote_from demote_one fixup fixed_slot generate_hash hash_of
    xor_hash_bytes get_name get_key get_key_fuel own_key expand_short_psk inherits refresh
config_run = refl

config_ret : after_config.ret ≡ none
unfolding set_config settle apply_core apply_channels apply_radio apply_power seed_channels
    config_is_valid index_for_config_tag set_channel channel_is_valid set_slot store_and_demote
    store demote_other_primary demote_from demote_one fixup fixed_slot generate_hash hash_of
    xor_hash_bytes get_name get_key get_key_fuel own_key expand_short_psk inherits refresh
config_ret = refl

slot_one_primary : is_primary (channel_at demo_store 1).role ≡ true
unfolding seed_channels
slot_one_primary = refl

set_config_moves_primary_example :
    (after_channel.node.channels.primary_index ≡ 0) × (1 ≤ after_config.node.channels.primary_index)
set_config_moves_primary_example =
    set_config_moves_primary demo_options no_floats 0 1 channel_b bluetooth_off demo_store demo_node
      after_channel after_config demo_table-IsTable (omega arith) refl slot_one_primary channel_run
      channel_ret config_run config_ret

abbrev refused : Changed
refused = record { ret = some einval; store = demo_store; node = demo_node; scheduled = false }

bad_run : set_config demo_options no_floats bad_bluetooth demo_store demo_node ≡ some refused
unfolding set_config config_is_valid index_for_config_tag
bad_run = refl

abbrev stored_off : Changed
stored_off = outcome (set_config demo_options no_floats bluetooth_off demo_store demo_node)

off_run : set_config demo_options no_floats bluetooth_off demo_store demo_node ≡ some stored_off
unfolding set_config settle apply_core apply_channels apply_radio apply_power seed_channels
    config_is_valid index_for_config_tag set_slot store_and_demote store demote_other_primary
    demote_from demote_one fixup fixed_slot generate_hash hash_of xor_hash_bytes get_name get_key
    get_key_fuel own_key expand_short_psk inherits refresh
off_run = refl

Runs-IsStore_example : IsStore (load plain_library stored_off.store written)
Runs-IsStore_example =
    Runs-IsStore plain_library demo_options no_floats demo_store demo_node
      (load plain_library stored_off.store written) stored_off.node demo_store-IsStore
      (loads written (sets_config bluetooth_off start off_run))
