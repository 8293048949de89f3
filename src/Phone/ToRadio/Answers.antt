-- ===== src/Phone/ToRadio/Answers.antt =====
-- How a phone's message is answered.
use meshtastic_zephyr.Prelude.{
  ℕ, ◌+◌, ◌-◌, ltb, leb, if◌then◌else◌, ◌<◌, ◌≡◌, refl, ap, sym, ◌∙◌, length-append,
  take-append_self, lt→ltb, Bool, true, List, [], ◌∷◌, ◌++◌, Option, none, some, arith, length,
  get_or, take,
}
use meshtastic_zephyr.Packet.{ℤ}
use meshtastic_zephyr.Messages.{MeshPacket, FromRadio, Variant}
use meshtastic_zephyr.Phone.{Frame, data_ready, next_fromradio_id}
use meshtastic_zephyr.Phone.Queue.{enqueue_frame}
use meshtastic_zephyr.Phone.Queue.Refines.{IsValid, frames, push_back, enqueue_frame-Refines}
use meshtastic_zephyr.Phone.Handshake.{Source, Session, pending_count}
use meshtastic_zephyr.Phone.ToRadio.{
  ToRadio, packet, enqueue_fromradio, enqueue_queue_status, queue_status, counted, decode_toradio,
  handle_message, handle_toradio, clamp_int8,
}

decodes_whole :
    (decode : List ℕ → Option ToRadio) (buf : List ℕ) (to : ToRadio)
    → decode buf ≡ some to
    → decode_toradio decode buf ≡ some to
unfolding decode_toradio
decodes_whole decode buf to e = rw (decode_toradio, e) refl

module _ (decode : List ℕ → Option ToRadio) (src : Source) (send : MeshPacket → ℤ)
    (has_disconnect : Bool) where
  handles :
      (buf : List ℕ) (to : ToRadio) (s : Session)
      → decode_toradio decode buf ≡ some to
      → handle_toradio decode src send has_disconnect buf s
        ≡ handle_message src send has_disconnect to s
  unfolding handle_toradio
  handles buf to s e = rw (handle_toradio, e) refl

enqueues :
    (src : Source) (from : FromRadio) (s : Session) (frame : Frame)
    → src.encode_fromradio from ≡ some frame
    → enqueue_fromradio src from s
      ≡ record { session = record s { api = enqueue_frame s.api frame }; signals = data_ready ∷ [] }
unfolding enqueue_fromradio
enqueues src from s frame e = rw (enqueue_fromradio, e) refl

last_byte : (buf : List ℕ) (b : ℕ) → get_or (buf ++ b ∷ []) (length buf) 0 ≡ b
last_byte [] b = refl
last_byte (x ∷ buf) b = last_byte buf b

-- A message with START1 of the next frame behind it, which as a whole does not decode, is handled like
-- the message itself.
pub handle_toradio-trailing :
    (decode : List ℕ → Option ToRadio) (src : Source) (send : MeshPacket → ℤ)
    (has_disconnect : Bool) (buf : List ℕ) (to : ToRadio) (s : Session)
    → 0 < length buf
    → decode (buf ++ 0x94 ∷ []) ≡ none
    → decode buf ≡ some to
    → handle_toradio decode src send has_disconnect (buf ++ 0x94 ∷ []) s
      ≡ handle_toradio decode src send has_disconnect buf s
unfolding decode_toradio
handle_toradio-trailing decode src send has_disconnect buf to s pos fails good =
    handles decode src send has_disconnect (buf ++ 0x94 ∷ []) to s shorter
    ∙ sym (handles decode src send has_disconnect buf to s (decodes_whole decode buf to good))
  where
    size : length (buf ++ 0x94 ∷ []) ≡ length buf + 1
    size = omega (arith, length-append buf (0x94 ∷ []))

    less : length (buf ++ 0x94 ∷ []) - 1 ≡ length buf
    less = omega (arith, size)

    front : take (length (buf ++ 0x94 ∷ []) - 1) (buf ++ 0x94 ∷ []) ≡ buf
    front = ap (λ n. take n (buf ++ 0x94 ∷ [])) less ∙ take-append_self buf (0x94 ∷ [])

    last : get_or (buf ++ 0x94 ∷ []) (length (buf ++ 0x94 ∷ []) - 1) 0 ≡ 0x94
    last = ap (λ n. get_or (buf ++ 0x94 ∷ []) n 0) less ∙ last_byte buf 0x94

    long : ltb 1 (length (buf ++ 0x94 ∷ [])) ≡ true
    long = lt→ltb 1 (length (buf ++ 0x94 ∷ [])) (omega (arith, size))

    shorter : decode_toradio decode (buf ++ 0x94 ∷ []) ≡ some to
    shorter = rw (decode_toradio, fails, front, last, long) good

-- A number as near to another as an `int8_t` can be
pub record IsNearest (n r : ℤ) : Type 0 where
  pub above : (k : ℕ) → n ≡ ℤ.pos k → r ≡ ℤ.pos (if leb k 127 then k else 127)
  pub below : (k : ℕ) → n ≡ ℤ.negsuc k → r ≡ ℤ.negsuc (if leb k 127 then k else 127)

nearest-clamp_int8 : (n r : ℤ) → IsNearest n r → r ≡ clamp_int8 n
unfolding clamp_int8
nearest-clamp_int8 (ℤ.pos k) r near = near.above k refl ∙ ap ℤ.pos (ground arith)
nearest-clamp_int8 (ℤ.negsuc k) r near = near.below k refl ∙ ap ℤ.negsuc (ground arith)

-- The queue status that names a packet, with a result, and the room left in the ring.
abbrev pub status_for : MeshPacket → ℤ → Session → FromRadio
status_for m res s = record {
  id = (next_fromradio_id s.next_id).0;
  variant = Variant.queue_status (record {
    res = res;
    free = s.api.queue_size - pending_count s.api;
    maxlen = s.api.queue_size;
    mesh_packet_id = m.id;
  });
}

status_for-queue_status :
    (m : MeshPacket) (n res : ℤ) (s : Session)
    → IsNearest n res
    → status_for m res s ≡ queue_status n m.id s
unfolding queue_status
status_for-queue_status m n res s near =
    let room : s.api.queue_size - pending_count s.api ≡ (
        if leb s.api.queue_size (pending_count s.api)
        then 0
        else s.api.queue_size - pending_count s.api) =
      ground arith in
    let cut = nearest-clamp_int8 n res near in cc

-- A packet that a phone sends is answered by one queue status, which has the packet's identifier, what
-- sending it returned, cut to an `int8_t`, and the room left in the ring before it. The status is put into
-- the ring behind the frames that wait, if it fits a frame; a full ring loses its oldest frame for it.
pub handle_toradio_packet :
    (decode : List ℕ → Option ToRadio) (src : Source) (send : MeshPacket → ℤ)
    (has_disconnect : Bool) (buf : List ℕ) (s : Session) (m : MeshPacket) (res : ℤ) (frame : Frame)
    → IsValid s.api
    → decode buf ≡ some (packet m)
    → IsNearest (send m) res
    → src.encode_fromradio (status_for m res s) ≡ some frame
    → IsValid (handle_toradio decode src send has_disconnect buf s).session.api
      × (frames (handle_toradio decode src send has_disconnect buf s).session.api
          ≡ push_back s.api.queue_size (frames s.api) frame)
      × ((handle_toradio decode src send has_disconnect buf s).signals ≡ data_ready ∷ [])
unfolding handle_message enqueue_queue_status
handle_toradio_packet decode src send has_disconnect buf s m res frame v e near encodes =
    let handled =
      handles decode src send has_disconnect buf (packet m) s
        (decodes_whole decode buf (packet m) e) in
    let same = status_for-queue_status m (send m) res s near in
    let queued =
      enqueues src (queue_status (send m) m.id s) (counted s) frame
        (ap src.encode_fromradio (sym same) ∙ encodes) in
    let r = enqueue_frame-Refines {api = s.api} frame v in rw (handled, queued) (r.0, r.1, refl)
