-- ===== src/Phone.antt =====
-- src/meshtastic_phoneapi.c and src/meshtastic_phoneapi_config.c: the frame queue of one phone
-- transport, and the configuration handshake. Every function takes the transport's lock for its
-- whole length, so a call is one step.
pub mod Queue
pub mod Handshake
pub mod ToRadio
use meshtastic_zephyr.Prelude.{ℕ, ◌+◌, ◌%◌, ◌^◌, ◌==◌, Bool, true, false, List, [], if◌then◌else◌}

-- `struct meshtastic_phoneapi_frame`: the `len` bytes of `data` that are in use.
abbrev pub Frame : Type 0
Frame = List ℕ

-- `enum meshtastic_phoneapi_config_state`
pub data ConfigState : Type 0 where
  idle my_info device_ui node_info metadata channels configs modules : ConfigState
  queue_status complete : ConfigState

-- `struct meshtastic_phoneapi`, without the name and the callbacks, which are signals here.
pub record PhoneApi : Type 0 where
  pub queue : List Frame
  pub current : Frame
  pub queue_size : ℕ
  pub head : ℕ
  pub tail : ℕ
  pub count : ℕ
  pub current_valid : Bool
  pub from_num : ℕ
  pub config_state : ConfigState
  pub config_index : ℕ
  pub config_request_id : ℕ

-- The calls of a transport's callbacks.
pub data Signal : Type 0 where
  data_ready invalidate_delivery disconnect : Signal

-- `config_active`
pub config_active : PhoneApi → Bool
config_active api = elim api.config_state [ idle ↦ false | _ ↦ true ]

-- `meshtastic_phoneapi_init`, given the caller's array of frames
pub init : List Frame → ℕ → PhoneApi
init queue queue_size = record {
  queue = queue;
  current = [];
  queue_size = queue_size;
  head = 0;
  tail = 0;
  count = 0;
  current_valid = false;
  from_num = 0;
  config_state = idle;
  config_index = 0;
  config_request_id = 0;
}

-- `meshtastic_phoneapi_reset`
pub reset : PhoneApi → PhoneApi
reset api = record api {
  head = 0;
  tail = 0;
  count = 0;
  current_valid = false;
  config_state = idle;
  config_index = 0;
  config_request_id = 0;
  from_num = 0;
}

-- The state that `meshtastic_phoneapi_enqueue_phone_config` leaves. It then calls back
-- `invalidate_delivery` and `data_ready`.
unfoldable pub start_config : PhoneApi → ℕ → PhoneApi
start_config api request_id = record api {
  head = 0;
  tail = 0;
  count = 0;
  current_valid = false;
  config_state = my_info;
  config_index = 0;
  config_request_id = request_id;
}

-- `meshtastic_next_fromradio_id`: the id, and the counter's new value; 0 is skipped.
pub next_fromradio_id : ℕ → ℕ × ℕ
next_fromradio_id n =
    let after : ℕ = (n + 1) % 2 ^ 32 in if n == 0 then (after, (after + 1) % 2 ^ 32) else (n, after)
