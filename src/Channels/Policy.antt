-- ===== src/Channels/Policy.antt =====
-- The rest of src/meshtastic_channels.c: the default table, hashes looked up, the slot that a packet
-- is sent on, and the device's role and rebroadcast mode.
use meshtastic_zephyr.Prelude.{
  ℕ, zero, suc, ◌+◌, ◌==◌, ltb, leb, Bool, true, false, not, ◌&&◌, ◌||◌, List, Option, none, some,
  if◌then◌else◌, get_or, set, take, replicate,
}
use meshtastic_zephyr.Packet.{node_broadcast}
use mathlib.Core.Option
use meshtastic_zephyr.Messages.{Channel, disabled, primary, zero_channel, zero_settings}
use meshtastic_zephyr.Channels.{
  Channels, DeviceRole, client_mute, RebroadcastMode, known_only, none_mode, slot, max_channels,
  is_disabled, default_psk, long_fast, str_eq, get_name, fixup,
}

-- The settings of slot 0 by default.
abbrev pub default_channel : Channel
default_channel = record {
  index = 0;
  has_settings = true;
  settings = record zero_settings {
    name = long_fast;
    psk = default_psk;
    uplink_enabled = true;
    downlink_enabled = true;
    has_module_settings = true;
    position_precision = 13;
  };
  role = primary;
}

-- `channel_fixup` of the slots from `i` on, `n` of them
pub fixup_from : ℕ → ℕ → Channels → Option Channels
fixup_from zero i t = some t
fixup_from (suc n) i t =
    let ch = record zero_channel { role = disabled; has_settings = true } in
    elim (fixup (record t { slots = set t.slots i ch }) i) [
      | none ↦ none
      | some t' ↦ fixup_from n (i + 1) t'
    ]

-- `meshtastic_channels_init_defaults`
pub init_defaults : Channels → Option Channels
init_defaults t =
    let cleared = record t {
      slots = set (replicate max_channels zero_channel) 0 default_channel;
      hashes = replicate max_channels 0;
      primary_index = 0;
    } in
    elim (fixup_from 7 1 cleared) [ none ↦ none | some t' ↦ fixup t' 0 ]

-- `struct meshtastic_config` as far as it is read here; the name may be NULL.
pub record Config : Type 0 where
  pub channel_name : Option (List ℕ)
  pub psk : List ℕ

-- `strncpy` into the eleven bytes before the last one of `settings.name`
abbrev pub configured : Config → Channel → Channel
configured cfg ch = record ch {
  settings = record (ch.settings) {
    name = elim cfg.channel_name [ none ↦ ch.settings.name | some name ↦ take 11 name ];
    psk = cfg.psk;
  };
}

-- `meshtastic_channels_init_from_config`
pub init_from_config : Option Config → Channels → Option Channels
init_from_config none t = init_defaults t
init_from_config (some cfg) t = elim (init_defaults t) [
  | none ↦ none
  | some d ↦
      Option.map
        (λ (u : Channels). record u {
          ch_hash = get_or u.hashes u.primary_index 0;
          channel_name = get_name u u.primary_index;
        })
        (fixup (record d { slots = set d.slots 0 (configured cfg (slot d 0)) }) 0)
]

-- `meshtastic_channels_get_hash`
unfoldable pub get_hash : Channels → ℕ → ℕ
get_hash t index = if leb max_channels index then 0 else get_or t.hashes index 0

-- `meshtastic_channels_decrypt_for_hash`
unfoldable pub decrypt_for_hash : Channels → ℕ → ℕ → Bool
decrypt_for_hash t index wire_hash =
    if leb max_channels index then false else get_or t.hashes index 0 == wire_hash

-- A slot of the table that is not DISABLED
abbrev pub is_enabled : Channels → ℕ → Bool
is_enabled t index = ltb index max_channels && not (is_disabled (slot t index).role)

-- The first slot with the hash, of the slots from `i` on, `n` of them
unfoldable pub first_match : Channels → ℕ → ℕ → ℕ → Option ℕ
first_match t wire_hash zero i = none
first_match t wire_hash (suc n) i =
    let rest = first_match t wire_hash n (i + 1) in
    if decrypt_for_hash t i wire_hash then some i else rest

-- The slot that a destination was last heard on, where NodeDB knows it: `peer_channel` gives the
-- channel of a node's snapshot.
unfoldable pub peer_slot : (ℕ → Option ℕ) → Channels → ℕ → Option ℕ
peer_slot peer_channel t dest =
    if (dest == 0) || (dest == node_broadcast) then none else elim (peer_channel dest) [
      | none ↦ none
      | some peer_ch ↦ if not (peer_ch == 0) && is_enabled t peer_ch then some peer_ch else none
    ]

-- `meshtastic_channels_resolve_send_index`, built with NodeDB
unfoldable pub resolve_send_index : (ℕ → Option ℕ) → Channels → ℕ → ℕ → ℕ → ℕ
resolve_send_index peer_channel t dest channel_index wire_hash =
    let by_peer : ℕ = elim (peer_slot peer_channel t dest) [
      | none ↦ t.primary_index
      | some i ↦ i
    ] in
    let by_hash : ℕ = elim (first_match t wire_hash max_channels 0) [
      | none ↦ by_peer
      | some i ↦ i
    ] in
    if is_enabled t channel_index
    then channel_index
    else if not (wire_hash == 0)
    then by_hash
    else by_peer

-- `meshtastic_channels_uplink_enabled` and `meshtastic_channels_downlink_enabled`
pub uplink_enabled : Channels → ℕ → Bool
uplink_enabled t index =
    let ch = slot t index in
    if leb max_channels index || is_disabled ch.role || not ch.has_settings
    then false
    else ch.settings.uplink_enabled

pub downlink_enabled : Channels → ℕ → Bool
downlink_enabled t index =
    let ch = slot t index in
    if leb max_channels index || is_disabled ch.role || not ch.has_settings
    then false
    else ch.settings.downlink_enabled

-- `meshtastic_channels_matches_mqtt_name` on the slots from `i` on, `n` of them
pub matches_from : Channels → List ℕ → ℕ → ℕ → Bool
matches_from t channel_id zero i = false
matches_from t channel_id (suc n) i =
    let rest = matches_from t channel_id n (i + 1) in
    if is_disabled (slot t i).role
    then rest
    else if str_eq channel_id (get_name t i)
    then true
    else rest

pub matches_mqtt_name : Channels → Option (List ℕ) → Bool
matches_mqtt_name t none = false
matches_mqtt_name t (some channel_id) = matches_from t channel_id max_channels 0

abbrev pub is_client_mute : DeviceRole → Bool
is_client_mute client_mute = true
is_client_mute _ = false

abbrev pub is_none_mode : RebroadcastMode → Bool
is_none_mode none_mode = true
is_none_mode _ = false

abbrev pub is_known_only : RebroadcastMode → Bool
is_known_only known_only = true
is_known_only _ = false

-- `meshtastic_is_rebroadcaster`
pub is_rebroadcaster : Channels → Bool
is_rebroadcaster t = not (is_client_mute t.device_role) && not (is_none_mode t.rebroadcast_mode)

-- `meshtastic_decode_known_only`, built with NodeDB; `known` is whether NodeDB has the node.
unfoldable pub decode_known_only : (ℕ → Bool) → Channels → ℕ → Bool
decode_known_only known t from = if not (is_known_only t.rebroadcast_mode) then true else known from
