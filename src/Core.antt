-- ===== src/Core.antt =====
-- src/meshtastic.c: identifiers, the path of a packet that is sent, and the status that is reported.
-- The parts below it are those of Codec and Reliable; the radio's answers are a parameter.
pub mod Ids
pub mod Send
pub mod MeshSend
pub mod Sample
mod Tests
use meshtastic_zephyr.Prelude.{
  ℕ, ◌+◌, ◌*◌, ◌/◌, ◌%◌, ◌^◌, ◌-◌, ◌==◌, ltb, leb, Bool, true, false, not, ◌&&◌, ◌||◌, List, [],
  ◌∷◌, ◌++◌, Option, none, some, Result, ok, err, Errno, einval, enodev, if◌then◌else◌, length,
  drop,
}
use meshtastic_zephyr.Packet.{
  Packet, zero_packet, Status, Event, EventType, tx_done, tx_failed, channel_index_invalid,
  port_text_message, inc32,
}
use meshtastic_zephyr.Messages.{User}
use meshtastic_zephyr.Channels.{Channels, DeviceRole}
use meshtastic_zephyr.Radio.{count_tx}
use meshtastic_zephyr.Reliable
use meshtastic_zephyr.Reliable.{Reliable, Kconfig, track}
use meshtastic_zephyr.Codec.{Platform, Peers, bad_payload, build_wire_packet}

-- `k_timeout_t`, as far as it is told apart
pub data Wait : Type 0 where
  no_wait forever : Wait
  within : ℕ → Wait

-- The fields of `mt` that this file reads and writes, with the tables of the parts that it calls.
pub record Core : Type 0 where
  pub initialized : Bool
  pub node_id : ℕ
  pub hop_limit : ℕ
  pub next_pkt_id : ℕ
  pub has_event_cb : Bool
  pub status : Status
  pub channels : Channels
  pub reliable : Reliable

-- Build options, the libraries, and what the rest of the stack answers in one call: NodeDB, the radio
-- (`none` for 0), the clock and the random number that a retry's delay is drawn with. `tx_outcome` is how
-- `meshtastic_radio_send_wire_now` ended for the frame before the wait did, and `none` where the frame was
-- not transmitted by then.
pub record Env : Type 0 where
  pub platform : Platform
  pub peers : Peers
  pub kconfig : Kconfig
  pub with_mqtt : Bool
  pub send_wire : Wait → List ℕ → Option Errno
  pub tx_outcome : Wait → List ℕ → Option (Option Errno)
  pub now : ℕ
  pub random : ℕ

-- A call of another component.
pub data Action : Type 0 where
  radio_send : Wait → List ℕ → Action
  event : Event → Action
  mqtt_on_tx : Packet → List ℕ → Action

-- `meshtastic_allocate_packet_id`: the identifier, and the counter's new value; 0 is skipped.
pub allocate_packet_id : ℕ → ℕ × ℕ
allocate_packet_id next = if next == 0 then (inc32 next, inc32 (inc32 next)) else (next, inc32 next)

-- `meshtastic_emit_event`
pub emit_event : Core → EventType → Option Errno → Option Packet → List Action
emit_event c type error packet =
    if c.has_event_cb
    then event (record { type = type; error = error; packet = packet }) ∷ []
    else []

-- The guard of `send_packet_prepare` on the packet.
pub bad_packet : Option Packet → Bool
bad_packet none = true
bad_packet (some p) = (p.to == 0) || bad_payload p

-- The local copy with its defaults; an identifier is allocated only where there is none.
pub new_id : Core → Packet → ℕ
new_id c p = if p.id == 0 then (allocate_packet_id c.next_pkt_id).0 else p.id

pub with_defaults : Core → Packet → Packet
with_defaults c p =
    let hop_limit = (if p.hop_limit == 0 then c.hop_limit else p.hop_limit) in
    record p {
      from = if p.from == 0 then c.node_id else p.from;
      id = new_id c p;
      hop_limit = hop_limit;
      hop_start = if p.hop_start == 0 then hop_limit else p.hop_start;
      channel_index =
          if p.channel_index == channel_index_invalid
          then c.channels.primary_index
          else p.channel_index;
    }

pub count_id : Core → Packet → Core
count_id c p = record c {
  next_pkt_id = if p.id == 0 then (allocate_packet_id c.next_pkt_id).1 else c.next_pkt_id;
}

-- `send_packet_prepare`: the local packet and its frame. The outer `none` is a key lookup that does not
-- return.
pub send_packet_prepare : Env → Option Packet → Core → Option (Result (Packet × List ℕ) × Core)
send_packet_prepare e none c = some (err einval, c)
send_packet_prepare e (some p) c =
    if not c.initialized || bad_packet (some p)
    then some (err einval, c)
    else elim (build_wire_packet e.platform e.peers c.channels (with_defaults c p)) [
      | none ↦ none
      | some (err error) ↦ some (err error, count_id c p)
      | some (ok wire) ↦ some (ok (with_defaults c p, wire), count_id c p)
    ]

-- What a call leaves: its return value, `none` for 0, the state and the calls that it makes.
pub record Sent : Type 0 where
  pub ret : Option Errno
  pub core : Core
  pub actions : List Action

abbrev pub is_forever : Wait → Bool
is_forever forever = true
is_forever _ = false

-- `send_packet_complete` where `tx_ret` is 0
pub send_packet_complete : Env → Core → Packet → List ℕ → Bool → List Action
send_packet_complete e c local wire emit_done =
    if emit_done
    then emit_event c tx_done none (some local)
      ++ (if e.with_mqtt then mqtt_on_tx local wire ∷ [] else [])
    else []

-- What the radio leaves of a transmission by its outcome: the status, and the event that it emits.
pub radio_status : Option (Option Errno) → Status → Status
radio_status none status = status
radio_status (some outcome) status = count_tx outcome status

pub radio_events : Core → Option (Option Errno) → List Action
radio_events c (some (some error)) = emit_event c tx_failed (some error) none
radio_events c _ = []

-- `meshtastic_send_packet` from the radio on; a frame that was taken is tracked.
pub transmit : Env → Wait → Packet → List ℕ → Core → Sent
transmit e wait local wire c =
    let after = record c { status = radio_status (e.tx_outcome wait wire) c.status } in
    let events = radio_events c (e.tx_outcome wait wire) in
    elim (e.send_wire wait wire) [
      | some error ↦ record {
        ret = some error;
        core = after;
        actions = radio_send wait wire ∷ events;
      }
      | none ↦ record {
        ret = none;
        core = record after {
          reliable =
              track e.kconfig c.node_id e.now e.random (some local) (some wire) (length wire)
                c.reliable;
        };
        actions =
            radio_send wait wire
            ∷ (events ++ send_packet_complete e c local wire (is_forever wait));
      }
    ]

-- `meshtastic_send_packet`
pub send_packet : Env → Option Packet → Wait → Core → Option Sent
send_packet e packet wait c = elim (send_packet_prepare e packet c) [
  | none ↦ none
  | some (err error, c') ↦ some (record { ret = some error; core = c'; actions = [] })
  | some (ok (local, wire), c') ↦ some (transmit e wait local wire c')
]

-- `meshtastic_send_data`
pub send_data : Env → ℕ → ℕ → Option (List ℕ) → ℕ → Wait → Core → Option Sent
send_data e dest portnum payload payload_len wait c =
    let packet : Packet = record zero_packet {
      to = dest;
      portnum = portnum;
      payload = payload;
      payload_len = payload_len;
    } in
    send_packet e (some packet) wait c

abbrev pub max_text_len : ℕ
max_text_len = 233

-- `meshtastic_send_text`, with the text without its NUL
pub send_text : Env → ℕ → Option (List ℕ) → Core → Option Sent
send_text e dest none c = some (record { ret = some einval; core = c; actions = [] })
send_text e dest (some text) c =
    if (length text == 0) || ltb max_text_len (length text)
    then some (record { ret = some einval; core = c; actions = [] })
    else send_data e dest port_text_message (some text) (length text) forever c

-- `sys_get_be32`
abbrev pub get_be32 : List ℕ → ℕ
get_be32 (a ∷ b ∷ c ∷ d ∷ _) = a * 16777216 + b * 65536 + c * 256 + d
get_be32 _ = 0

-- `node_id_from_bytes`: shorter identifiers are padded in front.
pub node_id_from_bytes : List ℕ → ℕ
node_id_from_bytes bytes =
    if leb 6 (length bytes)
    then get_be32 (drop 2 bytes)
    else if leb 4 (length bytes)
    then get_be32 (drop (length bytes - 4) bytes)
    else padded bytes
  where
    padded : List ℕ → ℕ
    padded [] = 0
    padded (a ∷ []) = get_be32 (0 ∷ 0 ∷ 0 ∷ a ∷ [])
    padded (a ∷ b ∷ []) = get_be32 (0 ∷ 0 ∷ a ∷ b ∷ [])
    padded (a ∷ b ∷ c ∷ _) = get_be32 (0 ∷ a ∷ b ∷ c ∷ [])

-- `node_id_from_hwinfo` on the bytes that the hardware reports, `none` where it reports an error
pub node_id_from_hwinfo : Option (List ℕ) → Result ℕ
node_id_from_hwinfo none = err enodev
node_id_from_hwinfo (some []) = err enodev
node_id_from_hwinfo (some (b ∷ bytes)) =
    let id = node_id_from_bytes (b ∷ bytes) in if id == 0 then err einval else ok id

-- A `uint32_t`'s bytes, most significant first
abbrev pub put_be32 : ℕ → List ℕ
put_be32 n = n / 16777216 % 256 ∷ n / 65536 % 256 ∷ n / 256 % 256 ∷ n % 256 ∷ []
