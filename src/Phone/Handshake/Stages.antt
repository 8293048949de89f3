-- ===== src/Phone/Handshake/Stages.antt =====
-- The frames of one stage of the configuration handshake, and a client that asks until there is none.
use meshtastic_zephyr.Prelude.{
  ℕ, zero, suc, ◌+◌, ◌≤◌, ◌≡◌, refl, ap, List, [], ◌∷◌, ◌++◌, map, Option, none, some, arith,
  length, drop, Result, ok, err, Option-cases, inl, inr, drop-add_one,
}
use mathlib.Core.Option
use meshtastic_zephyr.Messages.{Variant, FromRadio}
use meshtastic_zephyr.Phone.{Frame, ConfigState, next_fromradio_id}
use meshtastic_zephyr.Phone.Handshake.{
  Source, Session, Answer, fill_channel, send, emit_frame, next_variant, frame_in,
  next_config_frame,
}

-- A frame, with those that follow it; an error ends the sequence.
abbrev pub then_frames : Result Frame → List Frame → List Frame
then_frames (ok frame) rest = frame ∷ rest
then_frames (err e) rest = []

-- Ask for frames until there is none, `n` times at most.
unfoldable pub drain : Source → ℕ → Session → List Frame
drain src zero s = []
drain src (suc n) s =
    let answer = next_config_frame src s in
    let rest = drain src n answer.1 in then_frames answer.0 rest

-- What the handshake tries to send, in order: `none` is a tag without a message.
unfoldable pub channel_attempts : Source → ℕ → ℕ → List (Option Variant)
channel_attempts src zero index = []
channel_attempts src (suc n) index =
    some (Variant.channel (fill_channel src index)) ∷ channel_attempts src n (index + 1)

unfoldable pub attempt : (ℕ → Option (List ℕ)) → (ℕ → List ℕ → Variant) → ℕ → Option Variant
attempt get variant tag = Option.map (variant tag) (get tag)

-- The frames for a list of attempts: each attempt takes an id, and each message becomes a frame.
unfoldable pub encode_all : (FromRadio → Frame) → ℕ → List (Option Variant) → List Frame
encode_all enc id [] = []
encode_all enc id (none ∷ rest) = encode_all enc (next_fromradio_id id).1 rest
encode_all enc id (some variant ∷ rest) =
    enc (record { id = (next_fromradio_id id).0; variant = variant })
    ∷ encode_all enc (next_fromradio_id id).1 rest

-- What the later stages read of the transport: its queue is empty, of a size, for a request.
abbrev pub Keeps : ℕ → ℕ → Session → Type 0
Keeps queue_size request_id s =
    (s.api.count ≡ 0) × (s.api.queue_size ≡ queue_size) × (s.api.config_request_id ≡ request_id)

module _ (src : Source) (enc : FromRadio → Frame)
    (total : (m : FromRadio) → src.encode_fromradio m ≡ some (enc m)) where
  unfoldable pub sent : Session → ConfigState → ℕ → Session
  sent s state index = record s {
    api = record (s.api) { config_state = state; config_index = index };
    next_id = (next_fromradio_id s.next_id).1;
  }

  abbrev pub message : Session → Variant → Frame
  message s v = enc (record { id = (next_fromradio_id s.next_id).0; variant = v })

  send_total :
      (s : Session) (v : Variant) (state : ConfigState) (index : ℕ)
      → send src s v state index ≡ (ok (message s v), sent s state index)
  unfolding send emit_frame sent
  send_total s v state index =
      ground (arith, total (record { id = (next_fromradio_id s.next_id).0; variant = v }))

  abbrev pub follow : ℕ → Answer → List Frame
  follow n a = then_frames a.0 (drain src n a.1)

  pub drain_sent :
      (m : ℕ) (s : Session) (state : ConfigState) (index : ℕ)
      → drain src (suc m) (sent s state index) ≡ follow m (frame_in state src (sent s state index))
  unfolding drain next_config_frame sent
  drain_sent m s state index = refl

  pub follow-send :
      (m : ℕ) (s : Session) (v : Variant) (state : ConfigState) (index : ℕ)
      → follow (suc m) (send src s v state index)
        ≡ message s v ∷ follow m (frame_in state src (sent s state index))
  follow-send m s v state index =
      rw (send_total s v state index) (ap (◌∷◌ (message s v)) (drain_sent m s state index))

  -- A stage that goes through tags: its messages, then what follows the stage.
  module _ (get : ℕ → Option (List ℕ)) (variant : ℕ → List ℕ → Variant)
      (this_state next_state : ConfigState) (finish : Session → Answer) (all : List ℕ)
      (rest : List (Option Variant)) (n : ℕ)
      (shape : (s : Session)
        → frame_in this_state src s
          ≡ next_variant src get variant this_state next_state finish
              (drop s.api.config_index all)
              s)
      (enter : (s : Session) → frame_in next_state src s ≡ finish s) (queue_size request_id : ℕ)
      (after : (m : ℕ) (s : Session)
        → n ≤ m
        → s.api.config_index ≡ 0
        → Keeps queue_size request_id s
        → follow m (finish s) ≡ encode_all enc s.next_id rest) where
    abbrev pub go : List ℕ → Session → Answer
    go = next_variant src get variant this_state next_state finish

    skipped : Session → Session
    skipped s = record s {
      api = record (s.api) { config_index = s.api.config_index + 1 };
      next_id = (next_fromradio_id s.next_id).1;
    }

    go-none :
        (tag : ℕ) (tags : List ℕ) (s : Session)
        → get tag ≡ none
        → go (tag ∷ tags) s ≡ go tags (skipped s)
    unfolding next_variant skipped
    go-none tag tags s e = rw (e, next_variant)

    go_last :
        (tag : ℕ) (content : List ℕ) (s : Session)
        → get tag ≡ some content
        → go (tag ∷ []) s ≡ send src s (variant tag content) next_state 0
    unfolding next_variant
    go_last tag content s e = rw (e, next_variant)

    go_more :
        (tag t : ℕ) (tags content : List ℕ) (s : Session)
        → get tag ≡ some content
        → go (tag ∷ t ∷ tags) s
          ≡ send src s (variant tag content) this_state (s.api.config_index + 1)
    unfolding next_variant
    go_more tag t tags content s e = rw (e, next_variant)

    index_skipped : (s : Session) → (skipped s).api.config_index ≡ s.api.config_index + 1
    unfolding skipped
    index_skipped s = refl

    id_skipped : (s : Session) → (skipped s).next_id ≡ (next_fromradio_id s.next_id).1
    unfolding skipped
    id_skipped s = refl

    pub variant_stage :
        (tags : List ℕ) (m : ℕ) (s : Session)
        → n + length tags ≤ m
        → drop s.api.config_index all ≡ tags
        → Keeps queue_size request_id s
        → follow m (go tags s) ≡ encode_all enc s.next_id (map (attempt get variant) tags ++ rest)
    unfolding next_variant attempt encode_all sent skipped
    variant_stage [] m s fuel at keeps = after m _ (omega arith) refl keeps
    variant_stage (tag ∷ tags) zero s fuel at keeps = absurd (omega arith)
    variant_stage (tag ∷ []) (suc m) s fuel at keeps = elim (Option-cases (get tag)) [
      | inl e ↦
          rw (e, go-none tag [] s e)
            (variant_stage [] (suc m) (skipped s) (omega arith)
              (drop-add_one s.api.config_index all at) keeps)
      | inr (content, e) ↦
          rw (e, go_last tag content s e, follow-send m s (variant tag content) next_state 0, enter)
            (ap (◌∷◌ (message s (variant tag content)))
              (after m (sent s next_state 0) (omega arith) refl keeps))
    ]
    variant_stage (tag ∷ t ∷ tags) (suc m) s fuel at keeps = elim (Option-cases (get tag)) [
      | inl e ↦
          rw (e, go-none tag (t ∷ tags) s e)
            (variant_stage (t ∷ tags) (suc m) (skipped s) (omega arith)
              (drop-add_one s.api.config_index all at) keeps)
      | inr (content, e) ↦
          let next = sent s this_state (s.api.config_index + 1) in
          let rest_at = drop-add_one s.api.config_index all at in
          rw
            (
              e,
              go_more tag t tags content s e,
              follow-send m s (variant tag content) this_state (s.api.config_index + 1),
              shape next,
              rest_at,
            )
            (ap (◌∷◌ (message s (variant tag content)))
              (variant_stage (t ∷ tags) m next (omega arith) rest_at keeps))
    ]
