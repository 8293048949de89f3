-- ===== src/Router/Inject.antt =====
-- Messages that come in over MQTT: `meshtastic_inject_downlink_mesh_packet` of
-- src/meshtastic_router.c, on top of the core's sending and the codec's decoding.
pub mod Again
mod Tests
use meshtastic_zephyr.Prelude.{
  ℕ, ◌==◌, ltb, Bool, true, false, not, ◌&&◌, ◌||◌, List, [], ◌∷◌, ◌++◌, map, Option, none, some,
  Result, ok, err, Errno, einval, ealready, if◌then◌else◌, length,
}
use meshtastic_zephyr.Packet.{Packet, Status, inc32, node_broadcast, max_payload_len}
use meshtastic_zephyr.Messages.{MeshPacket, MeshPayload, decoded, encrypted, unset, transport_mqtt}
use meshtastic_zephyr.Wire.{header_bytes, build_header, payload_max}
use meshtastic_zephyr.DupCache.{DupCache, dup_check, dup_add}
use meshtastic_zephyr.Codec.Mesh.{mesh_pb_try_decode, mesh_pb_to_packet}
use meshtastic_zephyr.Core
use meshtastic_zephyr.Core.{Core, Env, no_wait, radio_send, Sent, allocate_packet_id}
use meshtastic_zephyr.Core.MeshSend.{encrypted_packet, send_mesh_pb}
use meshtastic_zephyr.Router
use meshtastic_zephyr.Router.{Mt, Deps, handle_inbound_packet}

-- The core's state with the duplicate cache, and the part of it that reception reads and writes.
pub record Bridge : Type 0 where
  pub core : Core
  pub dup : DupCache

abbrev pub reception : Bridge → Mt
reception b = record { node_id = b.core.node_id; dup = b.dup; status = b.core.status }

pub data Call : Type 0 where
  core_call : Core.Action → Call
  router_call : Router.Action → Call

-- What a call leaves: its return value, `none` for 0, the state and the calls that it makes.
pub record Injected : Type 0 where
  pub ret : Option Errno
  pub bridge : Bridge
  pub calls : List Call

-- `relay_injected_encrypted_mesh_packet` on an encrypted message: its hop counts go out as they are.
pub relay_encrypted : Env → MeshPacket → List ℕ → Core → Sent
relay_encrypted e mesh enc c =
    let packet : Packet = record (encrypted_packet c mesh) {
      hop_limit = mesh.hop_limit;
      hop_start = mesh.hop_start;
    } in
    let wire = header_bytes (build_header packet packet.channel) ++ enc in
    let counted : Core = record c {
      next_pkt_id = if mesh.id == 0 then (allocate_packet_id c.next_pkt_id).1 else c.next_pkt_id;
    } in
    if ltb payload_max (length enc)
    then record { ret = some einval; core = c; actions = [] }
    else record {
      ret = e.send_wire no_wait wire;
      core = counted;
      actions = radio_send no_wait wire ∷ [];
    }

abbrev pub is_encrypted : MeshPayload → Bool
is_encrypted (encrypted enc) = true
is_encrypted _ = false

-- Whether a message is delivered here, and whether it is sent on over LoRa.
pub is_local : ℕ → MeshPacket → Bool
is_local node_id work = (work.to == node_id) || (work.to == node_broadcast)

pub is_relayed : ℕ → MeshPacket → Bool
is_relayed node_id work =
    not (work.to == node_id) && (ltb 0 work.hop_limit || is_encrypted work.payload)

-- The sending: an encrypted message without hops left has its own way.
pub relay : Env → MeshPacket → Core → Option Sent
relay e work c = elim work.payload [
  | encrypted enc ↦
      if work.hop_limit == 0
      then some (relay_encrypted e work enc c)
      else send_mesh_pb e (some work) c
  | _ ↦ send_mesh_pb e (some work) c
]

-- The local delivery; a message that cannot be decrypted is dropped without an error.
pub deliver : Env → Deps → MeshPacket → Bridge → List Call → Option Injected
deliver e d work b calls = elim (mesh_pb_try_decode e.platform b.core.channels work) [
  | none ↦ none
  | some (err error) ↦ some (record { ret = none; bridge = b; calls = calls })
  | some (ok plain) ↦
      elim (mesh_pb_to_packet e.platform b.core.channels (some plain) max_payload_len) [
        | none ↦ none
        | some (err error) ↦ some (record { ret = some error; bridge = b; calls = calls })
        | some (ok packet) ↦
            let handled =
              handle_inbound_packet d (record packet { via_mqtt = true }) [] true (reception b) in
            some (record { ret = none; bridge = b; calls = calls ++ map router_call handled.1 })
      ]
]

-- The end: the local delivery, where the message is for this node
pub finish : Env → Deps → MeshPacket → Bool → Bridge → List Call → Option Injected
finish e d work here b calls =
    if here
    then deliver e d work b calls
    else some (record { ret = none; bridge = b; calls = calls })

-- The work after the duplicate check
pub inject_new : Env → Deps → MeshPacket → Bridge → Option Injected
inject_new e d work b =
    let here = is_local b.core.node_id work in
    if is_relayed b.core.node_id work
    then elim (relay e work b.core) [
      | none ↦ none
      | some sent ↦ elim sent.ret [
        | some error ↦ some (record {
          ret = some error;
          bridge = record b { core = sent.core };
          calls = map core_call sent.actions;
        })
        | none ↦ finish e d work here (record b { core = sent.core }) (map core_call sent.actions)
      ]
    ]
    else finish e d work here b []

-- The answer to a message that is in the duplicate cache: it is counted, and nothing is called.
abbrev pub known : Bridge → Injected
known b =
    let again : Status = record (b.core.status) {
      duplicate_packets = inc32 b.core.status.duplicate_packets;
    } in
    record {
      ret = some ealready;
      bridge = record b { core = record (b.core) { status = again } };
      calls = [];
    }

-- `meshtastic_inject_downlink_mesh_packet`
pub inject : Env → Deps → Option MeshPacket → Bridge → Option Injected
inject e d none b = some (record { ret = some einval; bridge = b; calls = [] })
inject e d (some mesh) b =
    let work : MeshPacket = record mesh { via_mqtt = true; transport_mechanism = transport_mqtt } in
    let added : Bridge = record b {
      dup = dup_add d.dup_cache_size (record { src = work.from; id = work.id }) b.dup;
    } in
    if not b.core.initialized
    then some (record { ret = some einval; bridge = b; calls = [] })
    else if dup_check b.dup work.from work.id
    then some (known b)
    else inject_new e d work added
