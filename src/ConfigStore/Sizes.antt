-- ===== src/ConfigStore/Sizes.antt =====
-- What get writes fits the buffer that it is given.
use meshtastic_zephyr.Prelude.{
  ℕ, ◌-◌, ◌≤◌, ◌≡◌, inl, inr, List, ◌∷◌, ◌++◌, Option, ok, arith, length, Result-cases,
  Option-cases, length-append,
}
use meshtastic_zephyr.ConfigStore.{
  Store, Library, encode_record, parse_channel_index, setting_get_owner, string_buffer,
  index_for_config_name, index_for_module_name,
}
use meshtastic_zephyr.ConfigStore.Records.{IsWithin, length-string_buffer}
use meshtastic_zephyr.ConfigStore.Restore.{IsNanopb}
use meshtastic_zephyr.ConfigStore.Settings.{
  Key, of_owner, of_channel, of_config, of_module, of_nothing, get_by_key, channel_at, config_at,
  module_at, store_value_max,
}

encode_record-fits :
    (encode : ℕ → Option (List ℕ)) (buf_len : ℕ) {buf : List ℕ}
    → IsWithin encode
    → encode_record encode buf_len ≡ ok buf
    → length buf ≤ buf_len
unfolding encode_record IsWithin
encode_record-fits encode buf_len {buf} within e = elim (Option-cases (encode (buf_len - 4))) [
  | inl fails ↦ absurd (ground (arith, fails))
  | inr (bytes, writes) ↦
      let fits = within (buf_len - 4) bytes writes in ground (arith, writes, fits)
]

pub get_by_key-fits :
    (l : Library) (key : Key) (s : Store) (buf : List ℕ)
    → IsNanopb l s
    → get_by_key l key store_value_max s ≡ ok buf
    → length buf ≤ store_value_max
unfolding get_by_key setting_get_owner
get_by_key-fits l of_owner s buf lib e =
    let size = length-append (string_buffer 40 s.long_name) (string_buffer 5 s.short_name) in
    let long = length-string_buffer 40 s.long_name in
    let short = length-string_buffer 5 s.short_name in
    let is : buf ≡ 1 ∷ string_buffer 40 s.long_name ++ string_buffer 5 s.short_name =
      ground arith in
    rw is (omega (arith, size, long, short))
get_by_key-fits l (of_channel name) s buf lib e =
    elim (Result-cases (parse_channel_index l.ulong_max name)) [
      | inl (no_index, fails) ↦ absurd (ground (arith, fails))
      | inr (i, found) ↦
          encode_record-fits (λ size. l.encode_channel size (channel_at s i)) 256
            (lib.channel_within (channel_at s i)) (rw found at e)
    ]
get_by_key-fits l (of_config name) s buf lib e = elim (Result-cases (index_for_config_name name)) [
  | inl (no_index, fails) ↦ absurd (ground (arith, fails))
  | inr (i, found) ↦
      encode_record-fits (λ size. l.encode_config size (config_at s i)) 256
        (lib.config_within (config_at s i)) (rw found at e)
]
get_by_key-fits l (of_module name) s buf lib e = elim (Result-cases (index_for_module_name name)) [
  | inl (no_index, fails) ↦ absurd (ground (arith, fails))
  | inr (i, found) ↦
      encode_record-fits (λ size. l.encode_module size (module_at s i)) 256
        (lib.module_within (module_at s i)) (rw found at e)
]
get_by_key-fits l of_nothing s buf lib e = absurd (ground (arith, e))
