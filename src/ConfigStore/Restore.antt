-- ===== src/ConfigStore/Restore.antt =====
-- What is exported, and loading it again.
use meshtastic_zephyr.Prelude.{
  ℕ, ◌<◌, ◌≤◌, ==_iff, ◌≡◌, refl, ap, sym, true, false, List, ok, arith, set, length,
}
use meshtastic_zephyr.Messages.{Channel, zero_settings}
use meshtastic_zephyr.Channels.{max_channels}
use meshtastic_zephyr.Configs.{Config, config_tag, ModuleConfig, MqttConfig, module_tag}
use meshtastic_zephyr.ConfigStore.{
  Store, Library, config_names, module_names, long_name_len, short_name_len, channel_is_valid,
  config_is_valid, module_is_valid,
}
use meshtastic_zephyr.ConfigStore.Records.{IsText, IsWithin, IsBack, decode-encode, set_owner-get}
use meshtastic_zephyr.ConfigStore.Keys.{
  Part, owner_part, channel_part, config_part, module_part, IsPart, key_of, owner_key,
  channel_key_lem, parse-channel_key, config_key, module_key,
}
use meshtastic_zephyr.ConfigStore.Settings.{
  channel_at, config_at, module_at, tag_at, setting_get, setting_set, get_by_key, set_by_key,
  store_value_max, classify,
}

-- The store's shape: names with their NUL, valid channels at their index, and in each place a valid
-- configuration of its tag.
pub record IsStore (s : Store) : Type 0 where
  pub long_text : IsText long_name_len s.long_name
  pub short_text : IsText short_name_len s.short_name
  pub channels_len : length s.channels ≡ max_channels
  pub configs_len : length s.configs ≡ 10
  pub modules_len : length s.modules ≡ 16
  pub channel_valid : (i : ℕ) → i < max_channels → channel_is_valid (channel_at s i) ≡ true
  pub channel_index : (i : ℕ) → i < max_channels → (channel_at s i).index ≡ i
  pub config_valid : (i : ℕ) → i < 10 → config_is_valid (config_at s i) ≡ true
  pub config_place : (i : ℕ) → i < 10 → config_tag (config_at s i) ≡ tag_at config_names i
  pub module_valid : (i : ℕ) → i < 16 → module_is_valid (module_at s i) ≡ true
  pub module_place : (i : ℕ) → i < 16 → module_tag (module_at s i) ≡ tag_at module_names i

-- A channel with nothing under a `has_` flag that is false, which nanopb leaves out.
pub record IsFullChannel (c : Channel) : Type 0 where
  pub settings : c.has_settings ≡ false → c.settings ≡ zero_settings
  pub precision : c.settings.has_module_settings ≡ false → c.settings.position_precision ≡ 0

-- The same for the other messages. As their members are in part kept together as bytes, which bytes have
-- nothing under such a flag is left open, but for the map report settings.
pub record Full : Type 1 where
  pub is_config : Config → Type 0
  pub is_module : ModuleConfig → Type 0
  pub map_report :
      (c : MqttConfig)
      → is_module (ModuleConfig.mqtt c)
      → c.has_map_report_settings ≡ false
      → (c.publish_interval_secs ≡ 0)
        × (c.position_precision ≡ 0)
        × (c.should_report_location ≡ false)

-- Every message of a store has nothing under such a flag.
pub record IsFull (w : Full) (s : Store) : Type 0 where
  pub channels : (i : ℕ) → i < max_channels → IsFullChannel (channel_at s i)
  pub configs : (i : ℕ) → i < 10 → w.is_config (config_at s i)
  pub modules : (i : ℕ) → i < 16 → w.is_module (module_at s i)

-- nanopb stays within its buffer, and gives back a message that has nothing under a false flag.
pub record IsLibrary (l : Library) (w : Full) : Type 0 where
  pub channel_within : (c : Channel) → IsWithin (λ size. l.encode_channel size c)
  pub config_within : (c : Config) → IsWithin (λ size. l.encode_config size c)
  pub module_within : (m : ModuleConfig) → IsWithin (λ size. l.encode_module size m)
  pub channel_back :
      (c : Channel) → IsFullChannel c → IsBack c (λ size. l.encode_channel size c) l.decode_channel
  pub config_back :
      (c : Config) → w.is_config c → IsBack c (λ size. l.encode_config size c) l.decode_config
  pub module_back :
      (m : ModuleConfig) → w.is_module m → IsBack m (λ size. l.encode_module size m) l.decode_module
  pub ulong_big : 255 ≤ l.ulong_max

-- What that comes to for the messages of one store.
pub record IsNanopb (l : Library) (s : Store) : Type 0 where
  pub channel_within : (c : Channel) → IsWithin (λ size. l.encode_channel size c)
  pub config_within : (c : Config) → IsWithin (λ size. l.encode_config size c)
  pub module_within : (m : ModuleConfig) → IsWithin (λ size. l.encode_module size m)
  pub channel_back :
      (i : ℕ)
      → i < max_channels
      → IsBack (channel_at s i) (λ size. l.encode_channel size (channel_at s i)) l.decode_channel
  pub config_back :
      (i : ℕ)
      → i < 10
      → IsBack (config_at s i) (λ size. l.encode_config size (config_at s i)) l.decode_config
  pub module_back :
      (i : ℕ)
      → i < 16
      → IsBack (module_at s i) (λ size. l.encode_module size (module_at s i)) l.decode_module
  pub ulong_big : 255 ≤ l.ulong_max

pub library-IsNanopb :
    (l : Library) (w : Full) (s : Store) → IsLibrary l w → IsFull w s → IsNanopb l s
library-IsNanopb l w s lib full = record {
  channel_within = lib.channel_within;
  config_within = lib.config_within;
  module_within = lib.module_within;
  channel_back = λ i lt. lib.channel_back (channel_at s i) (full.channels i lt);
  config_back = λ i lt. lib.config_back (config_at s i) (full.configs i lt);
  module_back = λ i lt. lib.module_back (module_at s i) (full.modules i lt);
  ulong_big = lib.ulong_big;
}

-- One part of `s` put in place in `t`
abbrev pub put : Part → Store → Store → Store
put owner_part s t = record t { long_name = s.long_name; short_name = s.short_name }
put (channel_part i) s t = record t { channels = set t.channels i (channel_at s i) }
put (config_part i) s t = record t { configs = set t.configs i (config_at s i) }
put (module_part i) s t = record t { modules = set t.modules i (module_at s i) }

index-same : (c : Channel) (i : ℕ) → c.index ≡ i → record c { index = i } ≡ c
index-same c i e = ap (λ k. record c { index = k }) (sym e)

-- One key: what get writes, set puts in its place.
KeyPuts : Library → Store → Part → Type 0
KeyPuts l s p =
    (t : Store) (buf : List ℕ)
    → get_by_key l (classify (key_of p)) store_value_max s ≡ ok buf
    → set_by_key l (classify (key_of p)) buf t ≡ ok (put p s t)

channel-KeyPuts :
    (l : Library) (i : ℕ) (s : Store)
    → IsNanopb l s
    → IsStore s
    → i < max_channels
    → KeyPuts l s (channel_part i)
unfolding KeyPuts get_by_key set_by_key
channel-KeyPuts l i s lib st lt t buf =
    let name = parse-channel_key l.ulong_max i lib.ulong_big lt in
    let c = channel_at s i in
    rw (channel_key_lem i, name)
      (λ e.
        rw
          (
            decode-encode c (λ size. l.encode_channel size c) l.decode_channel 256 (omega arith)
                (lib.channel_within c) (lib.channel_back i lt) e,
            st.channel_valid i lt,
          )
          (ap (λ d. ok (record t { channels = set t.channels i d }))
            (index-same c i (st.channel_index i lt))))

config-KeyPuts :
    (l : Library) (i : ℕ) (s : Store)
    → IsNanopb l s
    → IsStore s
    → i < 10
    → KeyPuts l s (config_part i)
unfolding KeyPuts get_by_key set_by_key
config-KeyPuts l i s lib st lt t buf =
    let (name, key, place) = config_key i lt in
    let c = config_at s i in
    rw (key, place)
      (λ e.
        rw
          (
            decode-encode c (λ size. l.encode_config size c) l.decode_config 256 (omega arith)
                (lib.config_within c) (lib.config_back i lt) e,
            (==_iff _ _).1 (st.config_place i lt),
            st.config_valid i lt,
          )
          refl)

module-KeyPuts :
    (l : Library) (i : ℕ) (s : Store)
    → IsNanopb l s
    → IsStore s
    → i < 16
    → KeyPuts l s (module_part i)
unfolding KeyPuts get_by_key set_by_key
module-KeyPuts l i s lib st lt t buf =
    let (name, key, place) = module_key i lt in
    let m = module_at s i in
    rw (key, place)
      (λ e.
        rw
          (
            decode-encode m (λ size. l.encode_module size m) l.decode_module 256 (omega arith)
                (lib.module_within m) (lib.module_back i lt) e,
            (==_iff _ _).1 (st.module_place i lt),
            st.module_valid i lt,
          )
          refl)

owner-KeyPuts : (l : Library) (s : Store) → IsStore s → KeyPuts l s owner_part
unfolding KeyPuts get_by_key set_by_key
owner-KeyPuts l s st t buf =
    rw owner_key (set_owner-get s t store_value_max st.long_text st.short_text)

pub set-get :
    (l : Library) (s : Store) (p : Part)
    → IsNanopb l s
    → IsStore s
    → IsPart p
    → (t : Store) (buf : List ℕ) → setting_get l (key_of p) store_value_max s ≡ ok buf
    → setting_set l (key_of p) buf t ≡ ok (put p s t)
unfolding setting_get setting_set KeyPuts IsPart
set-get l s owner_part lib st part = owner-KeyPuts l s st
set-get l s (channel_part i) lib st part = channel-KeyPuts l i s lib st part
set-get l s (config_part i) lib st part = config-KeyPuts l i s lib st part
set-get l s (module_part i) lib st part = module-KeyPuts l i s lib st part
