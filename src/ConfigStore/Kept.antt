-- ===== src/ConfigStore/Kept.antt =====
-- What the settings subsystem loads, whatever its bytes, leaves the store's shape.
use meshtastic_zephyr.Prelude.{
  ℕ, zero, suc, ◌+◌, ◌-◌, ◌<◌, ◌==◌, ==_iff, ◌≡◌, refl, sym, ◌∙◌, inl, inr, Bool, true, ◌&&◌, List,
  [], ◌∷◌, Result, ok, err, arith, set, length, length-set, Result-cases, first_step, Bool-cases,
  ltb, take, drop, until_nul, length-take, get_or-set_each,
}
use mathlib.Core.Path.{subst}
use meshtastic_zephyr.Messages.{Channel}
use meshtastic_zephyr.Configs.{Config, config_tag, ModuleConfig, module_tag}
use meshtastic_zephyr.ConfigStore.{
  Store, Library, NamedConfig, config_names, module_names, long_name_len, short_name_len,
  copy_fixed_string, index_from, channel_is_valid, config_is_valid, module_is_valid,
  parse_channel_index, index_for_config_name, index_for_module_name, setting_set_owner,
  decode_record,
}
use meshtastic_zephyr.ConfigStore.Records.{IsText}
use meshtastic_zephyr.ConfigStore.Restore.{IsStore}
use meshtastic_zephyr.ConfigStore.Settings.{
  Key, of_owner, of_channel, of_config, of_module, of_nothing, classify, set_by_key, Setting,
  tag_at, setting_set, checked, settings_set_cb, load, store_value_max,
}

until_nul-take_until :
    (n : ℕ) (s : List ℕ) → until_nul (take n (until_nul s)) ≡ take n (until_nul s)
until_nul-take_until zero s = refl
until_nul-take_until (suc n) [] = refl
until_nul-take_until (suc n) (c ∷ s) = elim (Bool-cases (c == 0)) [
  | inl z ↦ rw z refl
  | inr nz ↦ rw (nz, nz, until_nul-take_until n s) refl
]

copy_fixed_string-IsText :
    (size : ℕ) (src : List ℕ) → 0 < size → IsText size (copy_fixed_string size src)
copy_fixed_string-IsText size src pos = record {
  fits = omega (arith, length-take (size - 1) (until_nul src));
  no_nul = until_nul-take_until (size - 1) src;
}

index_from-lt :
    (test : NamedConfig → Bool) (k : ℕ) (names : List NamedConfig) (i : ℕ)
    → index_from test k names ≡ ok i
    → i < k + length names
index_from-lt test k [] i e = absurd (cc e)
index_from-lt test k (entry ∷ names) i e = elim (Bool-cases (test entry)) [
  | inl passes ↦ let here : k ≡ i = ground (arith, passes) in omega arith
  | inr other ↦
      let later : index_from test (k + 1) names ≡ ok i = ground (arith, other) in
      omega (arith, index_from-lt test (k + 1) names i later)
]

pub set_channel-IsStore :
    (s : Store) (i : ℕ) (c : Channel)
    → IsStore s
    → channel_is_valid c ≡ true
    → IsStore (record s { channels = set s.channels i (record c { index = i }) })
unfolding channel_is_valid
set_channel-IsStore s i c st valid = record {
  long_text = st.long_text;
  short_text = st.short_text;
  channels_len = length-set s.channels i _ ∙ st.channels_len;
  configs_len = st.configs_len;
  modules_len = st.modules_len;
  channel_valid =
      get_or-set_each (λ j d. channel_is_valid d ≡ true) s.channels i _ _ 8 valid st.channel_valid;
  channel_index = get_or-set_each (λ j d. d.index ≡ j) s.channels i _ _ 8 refl st.channel_index;
  config_valid = st.config_valid;
  config_place = st.config_place;
  module_valid = st.module_valid;
  module_place = st.module_place;
}

pub set_config-IsStore :
    (s : Store) (i : ℕ) (c : Config)
    → IsStore s
    → config_tag c ≡ tag_at config_names i
    → config_is_valid c ≡ true
    → IsStore (record s { configs = set s.configs i c })
set_config-IsStore s i c st place valid = record {
  long_text = st.long_text;
  short_text = st.short_text;
  channels_len = st.channels_len;
  configs_len = length-set s.configs i _ ∙ st.configs_len;
  modules_len = st.modules_len;
  channel_valid = st.channel_valid;
  channel_index = st.channel_index;
  config_valid =
      get_or-set_each (λ j d. config_is_valid d ≡ true) s.configs i _ _ 10 valid st.config_valid;
  config_place =
      get_or-set_each (λ j d. config_tag d ≡ tag_at config_names j) s.configs i _ _ 10 place
        st.config_place;
  module_valid = st.module_valid;
  module_place = st.module_place;
}

pub set_module-IsStore :
    (s : Store) (i : ℕ) (m : ModuleConfig)
    → IsStore s
    → module_tag m ≡ tag_at module_names i
    → module_is_valid m ≡ true
    → IsStore (record s { modules = set s.modules i m })
set_module-IsStore s i m st place valid = record {
  long_text = st.long_text;
  short_text = st.short_text;
  channels_len = st.channels_len;
  configs_len = st.configs_len;
  modules_len = length-set s.modules i _ ∙ st.modules_len;
  channel_valid = st.channel_valid;
  channel_index = st.channel_index;
  config_valid = st.config_valid;
  config_place = st.config_place;
  module_valid =
      get_or-set_each (λ j d. module_is_valid d ≡ true) s.modules i _ _ 16 valid st.module_valid;
  module_place =
      get_or-set_each (λ j d. module_tag d ≡ tag_at module_names j) s.modules i _ _ 16 place
        st.module_place;
}

pub set_names-IsStore :
    (s : Store) (long short : List ℕ)
    → IsStore s
    → IsText long_name_len long
    → IsText short_name_len short
    → IsStore (record s { long_name = long; short_name = short })
set_names-IsStore s long short st long_ok short_ok = record {
  long_text = long_ok;
  short_text = short_ok;
  channels_len = st.channels_len;
  configs_len = st.configs_len;
  modules_len = st.modules_len;
  channel_valid = st.channel_valid;
  channel_index = st.channel_index;
  config_valid = st.config_valid;
  config_place = st.config_place;
  module_valid = st.module_valid;
  module_place = st.module_place;
}

-- A message that passes its check
checked-ok :
    {A : Type 0} (r : Result A) (test : A → Bool) (m : A) → checked r test ≡ ok m → test m ≡ true
checked-ok (err e) test m h = absurd (cc h)
checked-ok (ok x) test m h = elim (Bool-cases (test x)) [
  | inl passes ↦ let same : x ≡ m = ground (arith, passes) in rw (sym same) passes
  | inr fails ↦ absurd (ground (arith, fails))
]

ok-inj : {A : Type 0} {a b : A} → Result.ok a ≡ ok b → a ≡ b
ok-inj e = cc e

both : {a b : Bool} → (a && b) ≡ true → (a ≡ true) × (b ≡ true)
both {a} {b} e = ground (arith, e)

set_by_key-IsStore :
    (l : Library) (key : Key) (buf : List ℕ) (s : Store) {t : Store}
    → IsStore s
    → set_by_key l key buf s ≡ ok t
    → IsStore t
unfolding set_by_key setting_set_owner
set_by_key-IsStore l of_owner [] s st e = absurd (cc e)
set_by_key-IsStore l of_owner (version ∷ names) s {t} st e =
    let long = copy_fixed_string long_name_len (take long_name_len names) in
    let short = copy_fixed_string short_name_len (drop long_name_len names) in
    let is : t ≡ record s { long_name = long; short_name = short } = ground arith in
    subst IsStore (sym is) (
      set_names-IsStore s long short st
        (copy_fixed_string-IsText 40 (take long_name_len names) (omega arith))
        (copy_fixed_string-IsText 5 (drop long_name_len names) (omega arith)))
set_by_key-IsStore l (of_channel name) buf s {t} st e =
    let (i, found, e1) = first_step _ (parse_channel_index l.ulong_max name) e in
    let (c, passed, e2) =
      first_step _ (checked (decode_record l.decode_channel buf) channel_is_valid) e1 in
    let valid = checked-ok (decode_record l.decode_channel buf) channel_is_valid c passed in
    subst IsStore (ok-inj e2) (set_channel-IsStore s i c st valid)
set_by_key-IsStore l (of_config name) buf s {t} st e =
    let (i, found, e1) = first_step _ (index_for_config_name name) e in
    let test : Config → Bool =
      (λ c. (config_tag c == tag_at config_names i) && config_is_valid c) in
    let (c, passed, e2) = first_step _ (checked (decode_record l.decode_config buf) test) e1 in
    let (place, valid) = both (checked-ok (decode_record l.decode_config buf) test c passed) in
    subst IsStore (ok-inj e2) (set_config-IsStore s i c st ((==_iff _ _).0 place) valid)
set_by_key-IsStore l (of_module name) buf s {t} st e =
    let (i, found, e1) = first_step _ (index_for_module_name name) e in
    let test : ModuleConfig → Bool =
      (λ m. (module_tag m == tag_at module_names i) && module_is_valid m) in
    let (m, passed, e2) = first_step _ (checked (decode_record l.decode_module buf) test) e1 in
    let (place, valid) = both (checked-ok (decode_record l.decode_module buf) test m passed) in
    subst IsStore (ok-inj e2) (set_module-IsStore s i m st ((==_iff _ _).0 place) valid)
set_by_key-IsStore l of_nothing buf s st e = absurd (cc e)

setting_set-IsStore :
    (l : Library) (key buf : List ℕ) (s : Store) {t : Store}
    → IsStore s
    → setting_set l key buf s ≡ ok t
    → IsStore t
unfolding setting_set
setting_set-IsStore l key buf s st e = set_by_key-IsStore l (classify key) buf s st e

settings_set_cb-IsStore :
    (l : Library) (s : Store) (r : Setting) → IsStore s → IsStore (settings_set_cb l s r)
unfolding settings_set_cb
settings_set_cb-IsStore l s r st = elim (Bool-cases (ltb store_value_max (length r.value))) [
  | inl big ↦ rw big st
  | inr fits ↦ elim (Result-cases (setting_set l r.key r.value s)) [
    | inl (why, refused) ↦ rw (fits, refused) st
    | inr (t, taken) ↦ rw (fits, taken) (setting_set-IsStore l r.key r.value s st taken)
  ]
]

-- Loading any settings, whatever their keys and bytes, keeps the store's shape.
pub load-IsStore :
    (l : Library) (s : Store) (settings : List Setting) → IsStore s → IsStore (load l s settings)
unfolding load
load-IsStore l s [] st = st
load-IsStore l s (r ∷ rs) st =
    load-IsStore l (settings_set_cb l s r) rs (settings_set_cb-IsStore l s r st)
