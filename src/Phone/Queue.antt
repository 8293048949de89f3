-- ===== src/Phone/Queue.antt =====
-- The ring of frames: `meshtastic_phoneapi_pop_frame` and the functions beside it, up to the point
-- where they ask the handshake for a frame.
pub mod Refines
pub mod Kept
use meshtastic_zephyr.Prelude.{
  ℕ, ◌+◌, ◌-◌, ◌%◌, ◌==◌, Bool, true, false, List, [], Option, none, some, if◌then◌else◌, get_or,
  set,
}
use meshtastic_zephyr.Phone.{PhoneApi, Frame}

-- Take the frame at the tail: the branch of `pop_frame` for a queue that is not empty.
pub take_tail : PhoneApi → Frame × PhoneApi
take_tail api = (
  get_or api.queue api.tail [],
  record api { tail = (api.tail + 1) % api.queue_size; count = api.count - 1 },
)

-- `pop_frame` without the handshake: `none` where it goes on to the handshake.
unfoldable pub pop_queued : PhoneApi → Option (Frame × PhoneApi)
pop_queued api = if api.count == 0 then none else some (take_tail api)

-- `head + size - 1` is computed in `unsigned int` from two bytes, and does not wrap.
pub drop_newest : PhoneApi → PhoneApi
drop_newest api = record api {
  head = (api.head + api.queue_size - 1) % api.queue_size;
  count = api.count - 1;
}

pub store_front : PhoneApi → Frame → PhoneApi
store_front api frame =
    let tail : ℕ = (api.tail + api.queue_size - 1) % api.queue_size in
    record api { queue = set api.queue tail frame; tail = tail; count = api.count + 1 }

-- `meshtastic_phoneapi_push_frame_front`: a full ring loses its newest frame.
pub push_frame_front : PhoneApi → Frame → PhoneApi
push_frame_front api frame =
    store_front (if api.count == api.queue_size then drop_newest api else api) frame

pub drop_oldest : PhoneApi → PhoneApi
drop_oldest api = record api { tail = (api.tail + 1) % api.queue_size; count = api.count - 1 }

pub store_back : PhoneApi → Frame → PhoneApi
store_back api frame = record api {
  queue = set api.queue api.head frame;
  head = (api.head + 1) % api.queue_size;
  count = api.count + 1;
}

-- The locked part of `meshtastic_phoneapi_enqueue_fromradio`: a full ring loses its oldest frame.
pub enqueue_frame : PhoneApi → Frame → PhoneApi
enqueue_frame api frame =
    store_back (if api.count == api.queue_size then drop_oldest api else api) frame

-- `meshtastic_phoneapi_release_current_frame`, `_current_frame_complete` and `_current_frame_reset`
pub release_current_frame : PhoneApi → PhoneApi
release_current_frame api = record api { current_valid = false }
