-- ===== src/Phone/ToRadio.antt =====
-- src/meshtastic_phoneapi.c: what a phone sends, the messages that are put into its ring for it, and the
-- transports that are registered.
pub mod Answers
mod Tests
use meshtastic_zephyr.Prelude.{
  ℕ, zero, suc, ◌+◌, ◌-◌, ◌==◌, ltb, leb, min, Bool, true, false, ◌&&◌, List, [], ◌∷◌, ◌++◌, Option,
  none, some, if◌then◌else◌, length, get_or, take, put_le32, Errno, Result, ok, err, enomem,
}
use meshtastic_zephyr.Packet.{ℤ, Packet}
use meshtastic_zephyr.Messages.{MeshPacket, FromRadio, Variant, QueueStatus}
use meshtastic_zephyr.Phone.{
  PhoneApi, Frame, Signal, data_ready, invalidate_delivery, disconnect, start_config,
  next_fromradio_id,
}
use meshtastic_zephyr.Phone.Queue.{enqueue_frame}
use meshtastic_zephyr.Phone.Handshake.{Source, Session, pending_count}

-- `meshtastic_ToRadio` by its payload variant, with any other tag
pub data ToRadio : Type 0 where
  packet : MeshPacket → ToRadio
  want_config_id : ℕ → ToRadio
  disconnects heartbeat : ToRadio
  unsupported : (tag : ℕ) → ToRadio

-- The session with the calls of the transport's callbacks, in their order, and the return code
pub record Handled : Type 0 where
  pub session : Session
  pub signals : List Signal

-- `meshtastic_phoneapi_enqueue_fromradio`: a message that does not fit a frame is left out.
unfoldable pub enqueue_fromradio : Source → FromRadio → Session → Handled
enqueue_fromradio src from s = elim (src.encode_fromradio from) [
  | none ↦ record { session = s; signals = [] }
  | some frame ↦ record {
    session = record s { api = enqueue_frame s.api frame };
    signals = data_ready ∷ [];
  }
]

-- `(int8_t)CLAMP(res, INT8_MIN, INT8_MAX)`
unfoldable pub clamp_int8 : ℤ → ℤ
clamp_int8 (ℤ.pos n) = ℤ.pos (min n 127)
clamp_int8 (ℤ.negsuc n) = ℤ.negsuc (min n 127)

-- The message of `meshtastic_phoneapi_enqueue_queue_status`
unfoldable pub queue_status : ℤ → ℕ → Session → FromRadio
queue_status res mesh_packet_id s =
    let pending = pending_count s.api in
    record {
      id = (next_fromradio_id s.next_id).0;
      variant = Variant.queue_status (record {
        res = clamp_int8 res;
        free = if leb s.api.queue_size pending then 0 else s.api.queue_size - pending;
        maxlen = s.api.queue_size;
        mesh_packet_id = mesh_packet_id;
      });
    }

abbrev pub counted : Session → Session
counted s = record s { next_id = (next_fromradio_id s.next_id).1 }

-- `meshtastic_phoneapi_enqueue_queue_status`
unfoldable pub enqueue_queue_status : Source → ℤ → ℕ → Session → Handled
enqueue_queue_status src res mesh_packet_id s =
    enqueue_fromradio src (queue_status res mesh_packet_id s) (counted s)

-- `meshtastic_phoneapi_enqueue_my_info`, whose message has the members of `Variant.my_info`
pub enqueue_my_info : Source → Session → Handled
enqueue_my_info src s =
    enqueue_fromradio src
      (record { id = (next_fromradio_id s.next_id).0; variant = Variant.my_info src.node_id })
      (counted s)

-- `meshtastic_phoneapi_enqueue_rebooted`
pub enqueue_rebooted : Source → Session → Handled
enqueue_rebooted src = enqueue_fromradio src (record { id = 0; variant = Variant.rebooted })

-- The two attempts of `meshtastic_phoneapi_handle_toradio` at decoding: the second leaves out a last
-- byte that is START1.
unfoldable pub decode_toradio : (List ℕ → Option ToRadio) → List ℕ → Option ToRadio
decode_toradio decode buf =
    let shorter = decode (take (length buf - 1) buf) in
    elim (decode buf) [
      | some to ↦ some to
      | none ↦
          if ltb 1 (length buf) && (get_or buf (length buf - 1) 0 == 0x94) then shorter else none
    ]

-- The switch of `meshtastic_phoneapi_handle_toradio`, with what `meshtastic_send_mesh_pb` answers. The
-- handshake's start calls back twice. The call is one step: the code takes the lock anew for each access to
-- the transport and waits for the radio before the queue status, and what other threads do to the ring in
-- between is not part of the step.
unfoldable pub handle_message : Source → (MeshPacket → ℤ) → Bool → ToRadio → Session → Handled
handle_message src send_mesh_pb has_disconnect (packet m) s =
    enqueue_queue_status src (send_mesh_pb m) m.id s
handle_message src send_mesh_pb has_disconnect (want_config_id id) s = record {
  session = record s { api = start_config s.api id };
  signals = invalidate_delivery ∷ data_ready ∷ [];
}
handle_message src send_mesh_pb has_disconnect disconnects s = record {
  session = s;
  signals = if has_disconnect then disconnect ∷ [] else [];
}
handle_message src send_mesh_pb has_disconnect heartbeat s = enqueue_queue_status src (ℤ.pos 0) 0 s
handle_message src send_mesh_pb has_disconnect (unsupported tag) s = record {
  session = s;
  signals = [];
}

-- `meshtastic_phoneapi_handle_toradio`, with nanopb's decoder of `ToRadio`
unfoldable pub handle_toradio :
    (List ℕ → Option ToRadio) → Source → (MeshPacket → ℤ) → Bool → List ℕ → Session → Handled
handle_toradio decode src send_mesh_pb has_disconnect buf s = elim (decode_toradio decode buf) [
  | none ↦ record { session = s; signals = [] }
  | some to ↦ handle_message src send_mesh_pb has_disconnect to s
]

-- `MESHTASTIC_PHONEAPI_MAX_TRANSPORTS`
abbrev pub max_transports : ℕ
max_transports = 2

-- Whether a transport, by its address, is registered
unfoldable pub is_registered : ℕ → List ℕ → Bool
is_registered api [] = false
is_registered api (t ∷ ts) = if t == api then true else is_registered api ts

-- `meshtastic_phoneapi_register` on the transports in use
unfoldable pub register : ℕ → List ℕ → List ℕ
register api transports =
    if is_registered api transports
    then transports
    else if ltb (length transports) max_transports
    then transports ++ (api ∷ [])
    else transports
