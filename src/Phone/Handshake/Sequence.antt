-- ===== src/Phone/Handshake/Sequence.antt =====
-- The configuration handshake as a whole: which messages a phone gets, in which order, and that the
-- handshake ends.
use meshtastic_zephyr.Prelude.{
  ℕ, zero, suc, ◌+◌, ◌≤◌, ◌≡◌, refl, ap, ◌∙◌, List, [], ◌∷◌, ◌++◌, ◌-◌, map, Option, some, arith,
  length-drop, drop, true, false, leb, if◌then◌else◌,
}
use meshtastic_zephyr.Packet.{ℤ}
use meshtastic_zephyr.Messages.{Variant, FromRadio}
use meshtastic_zephyr.Phone.{
  PhoneApi, Frame, ConfigState, idle, my_info, device_ui, node_info, metadata, configs, channels,
  modules, queue_status, complete, start_config,
}
use meshtastic_zephyr.Phone.Handshake.{
  Source, Session, config_tags, module_tags, fill_channel, queue_status_frame, modules_frame,
  configs_frame, channels_frame, frame_in, next_config_frame,
}
use meshtastic_zephyr.Phone.Handshake.Stages.{
  drain, channel_attempts, attempt, encode_all, Keeps, message, follow, sent, follow-send,
  variant_stage,
}

-- The queue status of an empty queue.
abbrev pub empty_status : ℕ → Variant
empty_status queue_size = Variant.queue_status (record {
  res = ℤ.pos 0;
  free = if leb queue_size 0 then 0 else queue_size;
  maxlen = queue_size;
  mesh_packet_id = 0;
})

abbrev tail_attempts : ℕ → ℕ → List (Option Variant)
tail_attempts queue_size request_id =
    some (empty_status queue_size) ∷ some (Variant.config_complete_id request_id) ∷ []

abbrev module_attempts : Source → List (Option Variant)
module_attempts src = map (attempt src.get_module Variant.module_config) module_tags

abbrev config_attempts : Source → List (Option Variant)
config_attempts src = map (attempt src.get_config Variant.config) config_tags

-- The whole sequence, for a queue of a size and a request.
pub handshake_attempts : Source → ℕ → ℕ → List (Option Variant)
handshake_attempts src queue_size request_id =
    some (Variant.my_info src.node_id)
    ∷ some (Variant.device_ui_config src.device_ui_content)
    ∷ some (Variant.node_info src.node_id src.user)
    ∷ some (Variant.metadata src.device_role src.hw_model)
    ∷ (channel_attempts src 8 0
        ++ (config_attempts src ++ (module_attempts src ++ tail_attempts queue_size request_id)))

module _ (src : Source) (enc : FromRadio → Frame)
    (total : (m : FromRadio) → src.encode_fromradio m ≡ some (enc m))
    (queue_size request_id : ℕ) where
  abbrev Ends : (ℕ → Session → List Frame) → ℕ → List (Option Variant) → Type 0
  Ends run fuel attempts =
      (m : ℕ) (s : Session)
      → fuel ≤ m
      → s.api.config_index ≡ 0
      → Keeps queue_size request_id s
      → run m s ≡ encode_all enc s.next_id attempts

  abbrev run_in : ConfigState → ℕ → Session → List Frame
  run_in state m s = follow src enc total m (frame_in state src s)

  complete_stage : Ends (run_in complete) 1 (some (Variant.config_complete_id request_id) ∷ [])
  unfolding frame_in encode_all
  complete_stage zero s fuel at keeps = absurd (omega arith)
  complete_stage (suc m) s fuel at keeps =
      rw (follow-send src enc total m s (Variant.config_complete_id s.api.config_request_id) idle 0)
        (ap (λ r. message src enc total s (Variant.config_complete_id r) ∷ []) keeps.2)

  status_variant :
      (s : Session)
      → Keeps queue_size request_id s
      → Variant.queue_status (record {
        res = ℤ.pos 0;
        free = if leb (s.api.queue_size) (s.api.count) then 0 else s.api.queue_size - s.api.count;
        maxlen = s.api.queue_size;
        mesh_packet_id = 0;
      })
        ≡ empty_status queue_size
  status_variant s keeps = ground arith

  status_stage : Ends (run_in queue_status) 2 (tail_attempts queue_size request_id)
  unfolding frame_in queue_status_frame encode_all sent
  status_stage zero s fuel at keeps = absurd (omega arith)
  status_stage (suc m) s fuel at keeps =
      rw
        (status_variant s keeps, follow-send src enc total m s (empty_status queue_size) complete 0)
        (ap (◌∷◌ (message src enc total s (empty_status queue_size)))
          (complete_stage m (sent src enc total s complete 0) (omega arith) refl keeps))

  -- A stage that goes through tags, begun at its first tag.
  tags_at :
      (get : ℕ → Option (List ℕ)) (variant : ℕ → List ℕ → Variant) (all : List ℕ)
      (rest : List (Option Variant)) (id : ℕ) {i : ℕ}
      → i ≡ 0
      → encode_all enc id (map (attempt get variant) (drop i all) ++ rest)
        ≡ encode_all enc id (map (attempt get variant) all ++ rest)
  tags_at get variant all rest id e =
      ap (λ k. encode_all enc id (map (attempt get variant) (drop k all) ++ rest)) e

  modules_stage :
      Ends (run_in modules) 18 (module_attempts src ++ tail_attempts queue_size request_id)
  unfolding frame_in modules_frame
  modules_stage m s fuel at keeps =
      variant_stage src enc total src.get_module Variant.module_config modules queue_status
        (queue_status_frame src) module_tags (tail_attempts queue_size request_id) 2 (λ s'. refl)
        (λ s'. refl) queue_size request_id status_stage (drop s.api.config_index module_tags) m s
        (omega (arith, length-drop s.api.config_index module_tags)) refl keeps
      ∙ tags_at src.get_module Variant.module_config module_tags
          (tail_attempts queue_size request_id) s.next_id at

  abbrev late_attempts : List (Option Variant)
  late_attempts =
      config_attempts src ++ (module_attempts src ++ tail_attempts queue_size request_id)

  configs_stage : Ends (run_in configs) 28 late_attempts
  unfolding frame_in configs_frame
  configs_stage m s fuel at keeps =
      variant_stage src enc total src.get_config Variant.config configs modules (modules_frame src)
        config_tags (module_attempts src ++ tail_attempts queue_size request_id) 18 (λ s'. refl)
        (λ s'. refl) queue_size request_id modules_stage (drop s.api.config_index config_tags) m s
        (omega (arith, length-drop s.api.config_index config_tags)) refl keeps
      ∙ tags_at src.get_config Variant.config config_tags
          (module_attempts src ++ tail_attempts queue_size request_id) s.next_id at

  -- The channels from an index on, `k` of them after the first.
  channels_from :
      (k m : ℕ) (s : Session)
      → 29 + k ≤ m
      → s.api.config_index + k ≡ 7
      → Keeps queue_size request_id s
      → run_in channels m s
        ≡ encode_all enc s.next_id
            (channel_attempts src (suc k) s.api.config_index ++ late_attempts)
  unfolding frame_in channels_frame channel_attempts encode_all sent
  channels_from k zero s fuel at keeps = absurd (omega arith)
  channels_from zero (suc m) s fuel at keeps =
      let last : leb 8 (s.api.config_index + 1) ≡ true = ground arith in
      rw
        (
          last,
          follow-send src enc total m s (Variant.channel (fill_channel src s.api.config_index))
              configs 0,
        )
        (ap (◌∷◌ (message src enc total s (Variant.channel (fill_channel src s.api.config_index))))
          (configs_stage m (sent src enc total s configs 0) (omega arith) refl keeps))
  channels_from (suc k) (suc m) s fuel at keeps =
      let more : leb 8 (s.api.config_index + 1) ≡ false = ground arith in
      let next : ℕ = s.api.config_index + 1 in
      rw
        (
          more,
          follow-send src enc total m s (Variant.channel (fill_channel src s.api.config_index))
              channels next,
        )
        (ap (◌∷◌ (message src enc total s (Variant.channel (fill_channel src s.api.config_index))))
          (channels_from k m (sent src enc total s channels next) (omega arith) (omega arith)
            keeps))

  -- The four messages before the channels, and the rest.
  handshake_from :
      (m : ℕ) (s : Session)
      → 40 ≤ m
      → s.api.config_index ≡ 0
      → Keeps queue_size request_id s
      → run_in my_info m s ≡ encode_all enc s.next_id (handshake_attempts src queue_size request_id)
  unfolding frame_in handshake_attempts encode_all sent
  handshake_from m s fuel at keeps =
      let s1 = sent src enc total s device_ui 0 in
      let s2 = sent src enc total s1 node_info 0 in
      let s3 = sent src enc total s2 metadata 0 in
      let s4 = sent src enc total s3 channels 0 in
      let k = m - 4 in
      let e : m ≡ suc (suc (suc (suc k))) = omega arith in
      rw
        (
          e,
          follow-send src enc total (suc (suc (suc k))) s (Variant.my_info src.node_id) device_ui 0,
          follow-send src enc total (suc (suc k)) s1
              (Variant.device_ui_config src.device_ui_content) node_info 0,
          follow-send src enc total (suc k) s2 (Variant.node_info src.node_id src.user) metadata 0,
          follow-send src enc total k s3 (Variant.metadata src.device_role src.hw_model) channels 0,
        )
        (ap
          (λ r.
            message src enc total s (Variant.my_info src.node_id)
            ∷ message src enc total s1 (Variant.device_ui_config src.device_ui_content)
            ∷ message src enc total s2 (Variant.node_info src.node_id src.user)
            ∷ message src enc total s3 (Variant.metadata src.device_role src.hw_model)
            ∷ r)
          (channels_from 7 k s4 (omega arith) refl keeps))

-- If the encoder accepts every message, a phone that asks for the configuration and then takes
-- frames until there is none gets exactly the messages of `handshake_attempts`, in that order and
-- with ids counted up from the next one, whatever was queued before and however often beyond 40
-- times it goes on asking.
pub handshake_lem :
    (src : Source) (enc : FromRadio → Frame)
    → ((m : FromRadio) → src.encode_fromradio m ≡ some (enc m))
    → (api : PhoneApi) (request_id next_id n : ℕ) → 41 ≤ n
    → drain src n (record { api = start_config api request_id; next_id = next_id })
      ≡ encode_all enc next_id (handshake_attempts src api.queue_size request_id)
unfolding drain next_config_frame start_config
handshake_lem src enc total api request_id next_id zero fuel = absurd (omega arith)
handshake_lem src enc total api request_id next_id (suc m) fuel =
    handshake_from src enc total api.queue_size request_id m _ (omega arith) refl (refl, refl, refl)
