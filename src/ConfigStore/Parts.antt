-- ===== src/ConfigStore/Parts.antt =====
-- Two stores compared part by part, and the writes of one part.
use meshtastic_zephyr.Prelude.{
  ◌≡◌, refl, ◌∙◌, arith, length, length-set, get_or-set_self, get_or-set_keep, get_or-ext,
}
use meshtastic_zephyr.Channels.{max_channels}
use meshtastic_zephyr.ConfigStore.{Store}
use meshtastic_zephyr.ConfigStore.Keys.{
  Part, owner_part, channel_part, config_part, module_part, IsPart,
}
use meshtastic_zephyr.ConfigStore.Restore.{put}
use meshtastic_zephyr.ConfigStore.Settings.{channel_at, config_at, module_at}

-- The two stores have the same part.
unfoldable pub Agrees : Part → Store → Store → Type 0
Agrees owner_part s t = (t.long_name ≡ s.long_name) × (t.short_name ≡ s.short_name)
Agrees (channel_part i) s t = channel_at t i ≡ channel_at s i
Agrees (config_part i) s t = config_at t i ≡ config_at s i
Agrees (module_part i) s t = module_at t i ≡ module_at s i

-- The arrays have their size.
pub record IsSized (t : Store) : Type 0 where
  pub channels_len : length t.channels ≡ max_channels
  pub configs_len : length t.configs ≡ 10
  pub modules_len : length t.modules ≡ 16

pub put-IsSized : (p : Part) (s t : Store) → IsSized t → IsSized (put p s t)
put-IsSized owner_part s t h = record {
  channels_len = h.channels_len;
  configs_len = h.configs_len;
  modules_len = h.modules_len;
}
put-IsSized (channel_part i) s t h = record {
  channels_len = length-set t.channels i _ ∙ h.channels_len;
  configs_len = h.configs_len;
  modules_len = h.modules_len;
}
put-IsSized (config_part i) s t h = record {
  channels_len = h.channels_len;
  configs_len = length-set t.configs i _ ∙ h.configs_len;
  modules_len = h.modules_len;
}
put-IsSized (module_part i) s t h = record {
  channels_len = h.channels_len;
  configs_len = h.configs_len;
  modules_len = length-set t.modules i _ ∙ h.modules_len;
}

pub put-Agrees : (p : Part) (s t : Store) → IsPart p → IsSized t → Agrees p s (put p s t)
unfolding IsPart Agrees
put-Agrees owner_part s t part h = (refl, refl)
put-Agrees (channel_part i) s t part h =
    get_or-set_self _ t.channels i _ (omega (arith, part, h.channels_len))
put-Agrees (config_part i) s t part h =
    get_or-set_self _ t.configs i _ (omega (arith, part, h.configs_len))
put-Agrees (module_part i) s t part h =
    get_or-set_self _ t.modules i _ (omega (arith, part, h.modules_len))

pub put-keeps :
    (p q : Part) (s t : Store) → IsPart p → IsSized t → Agrees q s t → Agrees q s (put p s t)
unfolding IsPart Agrees
put-keeps owner_part owner_part s t part h a = (refl, refl)
put-keeps owner_part (channel_part j) s t part h a = a
put-keeps owner_part (config_part j) s t part h a = a
put-keeps owner_part (module_part j) s t part h a = a
put-keeps (channel_part i) (channel_part j) s t part h a =
    get_or-set_keep t.channels s.channels i j _ (omega (arith, part, h.channels_len)) a
put-keeps (channel_part i) owner_part s t part h a = a
put-keeps (channel_part i) (config_part j) s t part h a = a
put-keeps (channel_part i) (module_part j) s t part h a = a
put-keeps (config_part i) (config_part j) s t part h a =
    get_or-set_keep t.configs s.configs i j _ (omega (arith, part, h.configs_len)) a
put-keeps (config_part i) owner_part s t part h a = a
put-keeps (config_part i) (channel_part j) s t part h a = a
put-keeps (config_part i) (module_part j) s t part h a = a
put-keeps (module_part i) (module_part j) s t part h a =
    get_or-set_keep t.modules s.modules i j _ (omega (arith, part, h.modules_len)) a
put-keeps (module_part i) owner_part s t part h a = a
put-keeps (module_part i) (channel_part j) s t part h a = a
put-keeps (module_part i) (config_part j) s t part h a = a

pub all-Agrees :
    (s t : Store) → IsSized s → IsSized t → ((p : Part) → IsPart p → Agrees p s t) → t ≡ s
unfolding IsPart Agrees
all-Agrees s t hs ht all =
    let (long, short) = all owner_part (omega arith) in
    let channels =
      get_or-ext t.channels s.channels _ (omega (arith, hs.channels_len, ht.channels_len))
        (λ i lt. all (channel_part i) (omega (arith, hs.channels_len))) in
    let configs =
      get_or-ext t.configs s.configs _ (omega (arith, hs.configs_len, ht.configs_len))
        (λ i lt. all (config_part i) (omega (arith, hs.configs_len))) in
    let modules =
      get_or-ext t.modules s.modules _ (omega (arith, hs.modules_len, ht.modules_len))
        (λ i lt. all (module_part i) (omega (arith, hs.modules_len))) in
    cc (long, short, channels, configs, modules)
