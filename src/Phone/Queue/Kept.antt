-- ===== src/Phone/Queue/Kept.antt =====
-- What the operations on the ring of frames leave alone.
use meshtastic_zephyr.Prelude.{◌≡◌, some, arith}
use meshtastic_zephyr.Phone.{PhoneApi, Frame}
use meshtastic_zephyr.Phone.Queue.{
  pop_queued, take_tail, push_frame_front, drop_newest, store_front,
}

pub pop_queued-config_state :
    (api : PhoneApi) {f : Frame} {next : PhoneApi}
    → pop_queued api ≡ some (f, next)
    → next.config_state ≡ api.config_state
unfolding pop_queued take_tail
pop_queued-config_state api e = ground arith

pub push_frame_front-config_state :
    (api : PhoneApi) (f : Frame) → (push_frame_front api f).config_state ≡ api.config_state
unfolding push_frame_front drop_newest store_front
push_frame_front-config_state api f = ground arith
