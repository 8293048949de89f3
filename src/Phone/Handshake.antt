-- ===== src/Phone/Handshake.antt =====
-- `meshtastic_phoneapi_next_config_frame` of src/meshtastic_phoneapi_config.c: the frame that the
-- configuration handshake produces next, and the calls of src/meshtastic_phoneapi.c that ask for it.
pub mod Stages
pub mod Sequence
pub mod Rest
pub mod Popped
mod Tests
use meshtastic_zephyr.Prelude.{
  ℕ, ◌+◌, ◌-◌, leb, Bool, true, false, List, [], ◌∷◌, Option, none, some, if◌then◌else◌, drop,
  Result, ok, err, enomem, enoent,
}
use meshtastic_zephyr.Packet.{ℤ}
use meshtastic_zephyr.Messages.{
  Variant, FromRadio, User, Channel, ChannelRole, zero_channel, QueueStatus,
}
use meshtastic_zephyr.Phone.{
  PhoneApi, Frame, ConfigState, idle, my_info, device_ui, node_info, metadata, channels, configs,
  modules, queue_status, complete, config_active, next_fromradio_id,
}
use meshtastic_zephyr.Phone.Queue.{pop_queued}

-- What the handshake reads of the rest of the stack, and nanopb's encoder. `get_config` and
-- `get_module` are `none` where the configuration store has no message for the tag, and
-- `encode_fromradio` where the message does not fit a frame.
pub record Source : Type 0 where
  pub node_id : ℕ
  pub user : User
  pub device_role : ℕ
  pub hw_model : ℕ
  pub device_ui_content : List ℕ
  pub get_channel : ℕ → Option Channel
  pub get_config : ℕ → Option (List ℕ)
  pub get_module : ℕ → Option (List ℕ)
  pub encode_fromradio : FromRadio → Option Frame

abbrev pub max_channels : ℕ
max_channels = 8

-- `config_tags` and `module_tags`
abbrev pub config_tags : List ℕ
config_tags = 1 ∷ 2 ∷ 3 ∷ 4 ∷ 5 ∷ 6 ∷ 7 ∷ 8 ∷ 9 ∷ 10 ∷ []

abbrev pub module_tags : List ℕ
module_tags = 1 ∷ 2 ∷ 3 ∷ 4 ∷ 5 ∷ 6 ∷ 7 ∷ 8 ∷ 9 ∷ 10 ∷ 11 ∷ 12 ∷ 13 ∷ 14 ∷ 15 ∷ 16 ∷ []

-- The transport with `mt.next_fromradio_id`, which each message that is begun counts up.
pub record Session : Type 0 where
  pub api : PhoneApi
  pub next_id : ℕ

-- `fill_channel`
pub fill_channel : Source → ℕ → Channel
fill_channel src index = elim (src.get_channel index) [
  | none ↦ record zero_channel { index = index; has_settings = true }
  | some slot ↦ elim slot.role [
    | ChannelRole.disabled ↦ record zero_channel { index = index; has_settings = true }
    | _ ↦ record slot { index = index }
  ]
]

abbrev pub Answer : Type 0
Answer = Result Frame × Session

-- `emit_frame`: the state moves on only if the message could be encoded.
pub emit_frame : Source → Session → FromRadio → ConfigState → ℕ → Answer
emit_frame src s from next_state next_index = elim (src.encode_fromradio from) [
  | none ↦ (err enomem, s)
  | some frame ↦ (
    ok frame,
    record s { api = record (s.api) { config_state = next_state; config_index = next_index } },
  )
]

-- Begin a message, which takes an id, and emit it.
pub send : Source → Session → Variant → ConfigState → ℕ → Answer
send src s variant next_state next_index =
    let (id, after) = next_fromradio_id s.next_id in
    emit_frame src (record s { next_id = after }) (record { id = id; variant = variant }) next_state
      next_index

-- The loop over the tags from `config_index` on. A tag without a message is skipped, which takes an
-- id and counts `config_index` up; where no tag is left, `finish` goes on in the next state.
pub next_variant :
    Source
    → (ℕ → Option (List ℕ))
    → (ℕ → List ℕ → Variant)
    → ConfigState
    → ConfigState
    → (Session → Answer)
    → List ℕ
    → Session
    → Answer
next_variant src get variant this_state next_state finish [] s =
    finish (record s { api = record (s.api) { config_state = next_state; config_index = 0 } })
next_variant src get variant this_state next_state finish (tag ∷ tags) s =
    let index = s.api.config_index + 1 in
    let skipped = next_variant src get variant this_state next_state finish tags (record s {
      api = record (s.api) { config_index = index };
      next_id = (next_fromradio_id s.next_id).1;
    }) in
    elim (get tag) [
      | none ↦ skipped
      | some content ↦ elim tags [
        | [] ↦ send src s (variant tag content) next_state 0
        | _ ∷ _ ↦ send src s (variant tag content) this_state index
      ]
    ]

pub queue_status_frame : Source → Session → Answer
queue_status_frame src s =
    send src s
      (Variant.queue_status (record {
        res = ℤ.pos 0;
        free = if leb queue_size count then 0 else queue_size - count;
        maxlen = queue_size;
        mesh_packet_id = 0;
      }))
      complete 0
  where
    open s.api use {count, queue_size}

pub modules_frame : Source → Session → Answer
modules_frame src s =
    next_variant src src.get_module Variant.module_config modules queue_status
      (queue_status_frame src) (drop s.api.config_index module_tags) s

pub configs_frame : Source → Session → Answer
configs_frame src s =
    next_variant src src.get_config Variant.config configs modules (modules_frame src)
      (drop s.api.config_index config_tags) s

pub channels_frame : Source → Session → Answer
channels_frame src s =
    let next : ℕ = s.api.config_index + 1 in
    let last = leb max_channels next in
    send src s (Variant.channel (fill_channel src s.api.config_index))
      (if last then configs else channels) (if last then 0 else next)

-- The `switch` on the state.
pub frame_in : ConfigState → Source → Session → Answer
frame_in idle src s = (err enoent, s)
frame_in my_info src s = send src s (Variant.my_info src.node_id) device_ui 0
frame_in device_ui src s = send src s (Variant.device_ui_config src.device_ui_content) node_info 0
frame_in node_info src s = send src s (Variant.node_info src.node_id src.user) metadata 0
frame_in metadata src s = send src s (Variant.metadata src.device_role src.hw_model) channels 0
frame_in channels src s = channels_frame src s
frame_in configs src s = configs_frame src s
frame_in modules src s = modules_frame src s
frame_in queue_status src s = queue_status_frame src s
frame_in complete src s = send src s (Variant.config_complete_id s.api.config_request_id) idle 0

-- `meshtastic_phoneapi_next_config_frame`
pub next_config_frame : Source → Session → Answer
next_config_frame src s = frame_in s.api.config_state src s

-- The frame of an answer
abbrev pub answer_frame : Answer → Option Frame × Session
answer_frame (ok frame, s) = (some frame, s)
answer_frame (err e, s) = (none, s)

-- The handshake part of `pop_frame` and `current_frame`: `none` if it gives no frame.
pub handshake_frame : Source → Session → Option Frame × Session
handshake_frame src s =
    if config_active s.api then answer_frame (next_config_frame src s) else (none, s)

-- `meshtastic_phoneapi_pop_frame`
pub pop_frame : Source → Session → Option Frame × Session
pop_frame src s = elim (pop_queued s.api) [
  | some (frame, api) ↦ (some frame, record s { api = api })
  | none ↦ handshake_frame src s
]

-- `meshtastic_phoneapi_current_frame`. What a failed encoding leaves in `current`, which nothing reads
-- while `current_valid` is false, is left out.
pub current_frame : Source → Session → Option Frame × Session
current_frame src s =
    if s.api.current_valid then (some s.api.current, s) else elim (pop_queued s.api) [
      | some (frame, api) ↦ hold frame (record s { api = api })
      | none ↦ from_handshake (handshake_frame src s)
    ]
  where
    hold : Frame → Session → Option Frame × Session
    hold frame s' =
        (some frame, record s' { api = record (s'.api) { current = frame; current_valid = true } })

    from_handshake : Option Frame × Session → Option Frame × Session
    from_handshake (none, s') = (none, s')
    from_handshake (some frame, s') = hold frame s'

-- `meshtastic_phoneapi_pending_count`
pub pending_count : PhoneApi → ℕ
pending_count api =
    api.count + (if api.current_valid then 1 else 0) + (if config_active api then 1 else 0)
