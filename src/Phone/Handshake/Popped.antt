-- ===== src/Phone/Handshake/Popped.antt =====
-- `meshtastic_phoneapi_pop_frame` through a whole handshake.
use meshtastic_zephyr.Prelude.{
  ℕ, zero, suc, true, false, Bool-cases, ◌+◌, ◌≤◌, ◌≡◌, refl, ap, ◌∙◌, List, [], ◌∷◌, Option, none,
  some, arith, ok, err, Option-cases, inl, inr, drop,
}
use meshtastic_zephyr.Messages.{Variant, FromRadio}
use meshtastic_zephyr.Phone.{
  PhoneApi, Frame, ConfigState, idle, my_info, device_ui, node_info, metadata, configs, channels,
  modules, queue_status, complete, start_config, config_active, next_fromradio_id,
}
use meshtastic_zephyr.Phone.Queue.{pop_queued}
use meshtastic_zephyr.Phone.Handshake.{
  Source, Session, Answer, config_tags, module_tags, send, emit_frame, next_variant,
  queue_status_frame, modules_frame, configs_frame, channels_frame, frame_in, next_config_frame,
  handshake_frame, pop_frame, answer_frame,
}
use meshtastic_zephyr.Phone.Handshake.Stages.{drain, then_frames, encode_all}
use meshtastic_zephyr.Phone.Handshake.Sequence.{handshake_attempts, handshake_lem}

-- Pop frames until there is none, `n` times at most.
unfoldable pub pop_all : Source → ℕ → Session → List Frame
pop_all src zero s = []
pop_all src (suc n) s =
    let popped = pop_frame src s in
    let rest = pop_all src n popped.1 in elim popped.0 [ none ↦ [] | some frame ↦ frame ∷ rest ]

-- The handshake leaves the ring's count alone.
abbrev Counts : ℕ → Answer → Type 0
Counts n a = a.1.api.count ≡ n

send_count :
    (src : Source) (s : Session) (v : Variant) (state : ConfigState) (index : ℕ)
    → Counts s.api.count (send src s v state index)
unfolding send emit_frame
send_count src s v state index =
    let from : FromRadio = record { id = (next_fromradio_id s.next_id).0; variant = v } in
    elim (Option-cases (src.encode_fromradio from)) [
      | inl fails ↦ ground (arith, fails)
      | inr (frame, fits) ↦ ground (arith, fits)
    ]

next_variant_count :
    (src : Source) (get : ℕ → Option (List ℕ)) (variant : ℕ → List ℕ → Variant)
    (this_state next_state : ConfigState) (finish : Session → Answer) (tags : List ℕ) (s : Session)
    → ((s' : Session) → Counts s'.api.count (finish s'))
    → Counts s.api.count (next_variant src get variant this_state next_state finish tags s)
unfolding next_variant
next_variant_count src get variant this_state next_state finish [] s f = f _
next_variant_count src get variant this_state next_state finish (tag ∷ tags) s f =
    elim (Option-cases (get tag)) [
      | inl no_message ↦
          rw (next_variant, no_message)
            (next_variant_count src get variant this_state next_state finish tags _ f)
      | inr (content, there) ↦ rw (next_variant, there) (by_rest tags content)
    ]
  where
    by_rest :
        (rest : List ℕ) (content : List ℕ)
        → Counts s.api.count (elim rest [
          | [] ↦ send src s (variant tag content) next_state 0
          | _ ∷ _ ↦ send src s (variant tag content) this_state (s.api.config_index + 1)
        ])
    by_rest [] content = send_count src s _ _ _
    by_rest (t ∷ ts) content = send_count src s _ _ _

status_count : (src : Source) (s : Session) → Counts s.api.count (queue_status_frame src s)
unfolding queue_status_frame
status_count src s = send_count src s _ _ _

modules_count : (src : Source) (s : Session) → Counts s.api.count (modules_frame src s)
unfolding modules_frame
modules_count src s =
    next_variant_count src _ _ _ _ _ (drop s.api.config_index module_tags) s (status_count src)

frame_in_count :
    (state : ConfigState) (src : Source) (s : Session) → Counts s.api.count (frame_in state src s)
unfolding frame_in channels_frame configs_frame
frame_in_count idle src s = refl
frame_in_count my_info src s = send_count src s _ _ _
frame_in_count device_ui src s = send_count src s _ _ _
frame_in_count node_info src s = send_count src s _ _ _
frame_in_count metadata src s = send_count src s _ _ _
frame_in_count channels src s = send_count src s _ _ _
frame_in_count configs src s =
    next_variant_count src _ _ _ _ _ (drop s.api.config_index config_tags) s (modules_count src)
frame_in_count modules src s = modules_count src s
frame_in_count queue_status src s = status_count src s
frame_in_count complete src s = send_count src s _ _ _

idle_of : (api : PhoneApi) → config_active api ≡ false → api.config_state ≡ idle
unfolding config_active
idle_of api h = of_state api.config_state h
  where
    of_state : (state : ConfigState) → elim state [ idle ↦ false | _ ↦ true ] ≡ false → state ≡ idle
    of_state idle h = refl
    of_state my_info h = cc
    of_state device_ui h = cc
    of_state node_info h = cc
    of_state metadata h = cc
    of_state channels h = cc
    of_state configs h = cc
    of_state modules h = cc
    of_state queue_status h = cc
    of_state complete h = cc

pop_frame-answer :
    (src : Source) (s : Session)
    → s.api.count ≡ 0
    → pop_frame src s ≡ answer_frame (next_config_frame src s)
unfolding pop_frame pop_queued handshake_frame next_config_frame config_active frame_in
pop_frame-answer src s empty = elim (Bool-cases (config_active s.api)) [
  | inl active ↦ rw (empty, active) refl
  | inr over ↦ rw (empty, over, idle_of s.api over) refl
]

next_config_frame_count :
    (src : Source) (s : Session) → Counts s.api.count (next_config_frame src s)
unfolding next_config_frame
next_config_frame_count src s = frame_in_count s.api.config_state src s

-- With an empty ring, popping frames is asking the handshake for them.
pop_all-drain :
    (src : Source) (n : ℕ) (s : Session) → s.api.count ≡ 0 → pop_all src n s ≡ drain src n s
unfolding pop_all drain
pop_all-drain src zero s empty = refl
pop_all-drain src (suc n) s empty =
    ap
      (λ (popped : Option Frame × Session). elim popped.0 [
        | none ↦ []
        | some frame ↦ frame ∷ pop_all src n popped.1
      ])
      (pop_frame-answer src s empty)
    ∙ (by_answer (next_config_frame src s) (next_config_frame_count src s ∙ empty)
        (pop_all-drain src n))
  where
    by_answer :
        (a : Answer)
        → a.1.api.count ≡ 0
        → ((s' : Session) → s'.api.count ≡ 0 → pop_all src n s' ≡ drain src n s')
        → elim (answer_frame a).0 [
          | none ↦ []
          | some frame ↦ frame ∷ pop_all src n (answer_frame a).1
        ]
          ≡ then_frames a.0 (drain src n a.1)
    by_answer (ok frame, s') e more = ap (◌∷◌ frame) (more s' e)
    by_answer (err why, s') e more = refl

-- If the encoder accepts every message, a phone that asks for the configuration and then pops frames
-- until there is none gets exactly the messages of `handshake_attempts`, in that order and with ids
-- counted up from the next one, whatever was queued before and however often beyond 40 times it pops.
pub pop_frame_sequence :
    (src : Source) (enc : FromRadio → Frame)
    → ((m : FromRadio) → src.encode_fromradio m ≡ some (enc m))
    → (api : PhoneApi) (request_id next_id n : ℕ) → 41 ≤ n
    → pop_all src n (record { api = start_config api request_id; next_id = next_id })
      ≡ encode_all enc next_id (handshake_attempts src api.queue_size request_id)
unfolding start_config
pop_frame_sequence src enc total api request_id next_id n fuel =
    pop_all-drain src n _ refl ∙ handshake_lem src enc total api request_id next_id n fuel
