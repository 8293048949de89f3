-- ===== src/ConfigStore/Sample/Messages.antt =====
-- A plain encoding of `meshtastic_Channel` and `meshtastic_Config`.
use meshtastic_zephyr.Prelude.{
  ℕ, ◌+◌, ◌-◌, ◌≤◌, ◌==◌, leb, ◌≡◌, refl, inl, inr, Bool, true, false, List, [], ◌∷◌, ◌++◌, Option,
  none, some, arith, if◌then◌else◌, length, take, drop, Bool-cases, take-append_self,
  drop-append_self,
}
use meshtastic_zephyr.Packet.{ℤ}
use meshtastic_zephyr.Messages.{Channel, ChannelRole, disabled, primary, secondary, unnamed_role}
use meshtastic_zephyr.Configs.{Config}
use meshtastic_zephyr.ConfigStore.Records.{IsBack, IsWithin}

abbrev pub bit : Bool → ℕ
bit true = 1
bit false = 0

pub bit_back : (b : Bool) → (bit b == 1) ≡ b
bit_back true = refl
bit_back false = refl

abbrev pub fit : ℕ → List ℕ → Option (List ℕ)
fit size bytes = if leb (length bytes) size then some bytes else none

-- An encoding that gives its bytes where they fit is within its buffer, and read back if they are.
pub fit-IsWithin : (bytes : List ℕ) → IsWithin (λ size. fit size bytes)
unfolding IsWithin
fit-IsWithin bytes size out e = elim (Bool-cases (leb (length bytes) size)) [
  | inl small ↦
      let same : bytes ≡ out = ground (arith, small) in
      let le : length bytes ≤ size = ground (arith, small) in rw same at le
  | inr big ↦ absurd (ground (arith, big))
]

pub fit-IsBack :
    {A : Type 0} (m : A) (bytes : List ℕ) (decode : List ℕ → Option A)
    → decode bytes ≡ some m
    → IsBack m (λ size. fit size bytes) decode
unfolding IsBack
fit-IsBack m bytes decode back size out e = elim (Bool-cases (leb (length bytes) size)) [
  | inl small ↦ let same : bytes ≡ out = ground (arith, small) in rw same at back
  | inr big ↦ absurd (ground (arith, big))
]

abbrev role_code : ChannelRole → ℕ
role_code disabled = 0
role_code primary = 1
role_code secondary = 2
role_code (unnamed_role n) = 3 + n

abbrev role_from : ℕ → ChannelRole
role_from n =
    if n == 0
    then disabled
    else if n == 1
    then primary
    else if n == 2
    then secondary
    else unnamed_role (n - 3)

role_back : (r : ChannelRole) → role_from (role_code r) ≡ r
role_back disabled = refl
role_back primary = refl
role_back secondary = refl
role_back (unnamed_role n) = ground arith

abbrev pub channel_bytes : Channel → List ℕ
channel_bytes c =
    c.index
      ∷ bit c.has_settings
      ∷ role_code c.role
      ∷ bit c.settings.uplink_enabled
      ∷ bit c.settings.downlink_enabled
      ∷ bit c.settings.has_module_settings
      ∷ c.settings.position_precision
      ∷ length c.settings.name
      ∷ c.settings.name
    ++ c.settings.psk

abbrev pub channel_from : List ℕ → Option Channel
channel_from (index ∷ has ∷ role ∷ up ∷ down ∷ module_settings ∷ precision ∷ size ∷ texts) =
    some (record {
      index = index;
      has_settings = has == 1;
      settings = record {
        name = take size texts;
        psk = drop size texts;
        uplink_enabled = up == 1;
        downlink_enabled = down == 1;
        has_module_settings = module_settings == 1;
        position_precision = precision;
      };
      role = role_from role;
    })
channel_from _ = none

pub channel_back : (c : Channel) → channel_from (channel_bytes c) ≡ some c
channel_back c =
    let s = c.settings in
    rw
      (
        take-append_self s.name s.psk,
        drop-append_self s.name s.psk,
        bit_back c.has_settings,
        bit_back s.uplink_enabled,
        bit_back s.downlink_enabled,
        bit_back s.has_module_settings,
        role_back c.role,
      )
      refl

abbrev sign : ℤ → ℕ
sign (ℤ.pos n) = 0
sign (ℤ.negsuc n) = 1

abbrev size_of : ℤ → ℕ
size_of (ℤ.pos n) = n
size_of (ℤ.negsuc n) = n

abbrev signed : ℕ → ℕ → ℤ
signed s n = if s == 1 then ℤ.negsuc n else ℤ.pos n

signed_back : (z : ℤ) → signed (sign z) (size_of z) ≡ z
signed_back (ℤ.pos n) = refl
signed_back (ℤ.negsuc n) = refl

abbrev pub config_bytes : Config → List ℕ
config_bytes (Config.device c) = 1 ∷ c.role ∷ c.rebroadcast_mode ∷ bit c.serial_enabled ∷ c.content
config_bytes (Config.position c) = 2 ∷ c.gps_mode ∷ c.content
config_bytes (Config.power c) = 3 ∷ c
config_bytes (Config.network c) = 4 ∷ c
config_bytes (Config.display c) = 5 ∷ c
config_bytes (Config.lora c) =
    6
    ∷ bit c.use_preset
    ∷ c.modem_preset
    ∷ c.region
    ∷ c.hop_limit
    ∷ bit c.tx_enabled
    ∷ sign c.tx_power
    ∷ size_of c.tx_power
    ∷ c.override_frequency
    ∷ c.content
config_bytes (Config.bluetooth c) = 7 ∷ bit c.enabled ∷ c.mode ∷ c.fixed_pin ∷ c.content
config_bytes (Config.security c) = 8 ∷ c
config_bytes (Config.sessionkey c) = 9 ∷ c
config_bytes (Config.device_ui c) = 10 ∷ c
config_bytes Config.unset = 0 ∷ []

abbrev lora_from : List ℕ → Option Config
lora_from (preset ∷ modem ∷ region ∷ hop ∷ tx ∷ minus ∷ power ∷ hz ∷ content) = some (
    Config.lora (record {
      use_preset = preset == 1;
      modem_preset = modem;
      region = region;
      hop_limit = hop;
      tx_enabled = tx == 1;
      tx_power = signed minus power;
      override_frequency = hz;
      content = content;
    }))
lora_from _ = none

abbrev device_from : List ℕ → Option Config
device_from (role ∷ mode ∷ serial ∷ content) = some (
    Config.device (record {
      role = role;
      rebroadcast_mode = mode;
      serial_enabled = serial == 1;
      content = content;
    }))
device_from _ = none

abbrev position_from : List ℕ → Option Config
position_from (gps ∷ content) =
    some (Config.position (record { gps_mode = gps; content = content }))
position_from _ = none

abbrev bluetooth_from : List ℕ → Option Config
bluetooth_from (enabled ∷ mode ∷ pin ∷ content) = some (
    Config.bluetooth
      (record { enabled = enabled == 1; mode = mode; fixed_pin = pin; content = content }))
bluetooth_from _ = none

abbrev pub config_from : List ℕ → Option Config
config_from (t ∷ xs) =
    if t == 1
    then device_from xs
    else if t == 2
    then position_from xs
    else if t == 3
    then some (Config.power xs)
    else if t == 4
    then some (Config.network xs)
    else if t == 5
    then some (Config.display xs)
    else if t == 6
    then lora_from xs
    else if t == 7
    then bluetooth_from xs
    else if t == 8
    then some (Config.security xs)
    else if t == 9
    then some (Config.sessionkey xs)
    else if t == 10
    then some (Config.device_ui xs)
    else some Config.unset
config_from [] = none

pub config_back : (c : Config) → config_from (config_bytes c) ≡ some c
config_back (Config.device c) = rw (bit_back c.serial_enabled) refl
config_back (Config.position c) = refl
config_back (Config.power c) = refl
config_back (Config.network c) = refl
config_back (Config.display c) = refl
config_back (Config.lora c) =
    rw (bit_back c.use_preset, bit_back c.tx_enabled, signed_back c.tx_power) refl
config_back (Config.bluetooth c) = rw (bit_back c.enabled) refl
config_back (Config.security c) = refl
config_back (Config.sessionkey c) = refl
config_back (Config.device_ui c) = refl
config_back Config.unset = refl
