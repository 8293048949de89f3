-- ===== src/Phone/Handshake/Rest.antt =====
-- `meshtastic_phoneapi_pop_frame` and `meshtastic_phoneapi_push_frame_front` outside the handshake.
use meshtastic_zephyr.Prelude.{◌<◌, ◌≡◌, refl, ◌∙◌, [], ◌∷◌, Option, none, some, arith}
use meshtastic_zephyr.Phone.{PhoneApi, Frame, idle, config_active}
use meshtastic_zephyr.Phone.Queue.{pop_queued, push_frame_front}
use meshtastic_zephyr.Phone.Queue.Refines.{
  IsValid, frames, length-frames, Popped, pop_queued_refines, push_frame_front-Refines, push_front,
}
use meshtastic_zephyr.Phone.Queue.Kept.{pop_queued-config_state, push_frame_front-config_state}
use meshtastic_zephyr.Phone.Handshake.{Source, Session, pop_frame, handshake_frame}

-- A valid queue outside the configuration handshake.
pub record IsReady (s : Session) : Type 0 where
  pub valid : IsValid s.api
  pub at_rest : s.api.config_state ≡ idle

-- Without a handshake, `pop_frame` takes the oldest frame of the queue, if there is one.
pub data Taken (s : Session) : Option Frame × Session → Type 0 where
  nothing : frames s.api ≡ [] → Taken s (none, s)
  oldest :
      (f : Frame) (next : Session)
      → IsReady next
      → frames s.api ≡ f ∷ frames next.api
      → next.api.queue_size ≡ s.api.queue_size
      → Taken s (some f, next)

pop_frame-queued :
    (src : Source) (s : Session) (f : Frame) (next : PhoneApi)
    → pop_queued s.api ≡ some (f, next)
    → pop_frame src s ≡ (some f, record s { api = next })
unfolding pop_frame
pop_frame-queued src s f next e = ground (arith, e)

pop_frame-none :
    (src : Source) (s : Session)
    → s.api.config_state ≡ idle
    → pop_queued s.api ≡ none
    → pop_frame src s ≡ (none, s)
unfolding pop_frame handshake_frame config_active
pop_frame-none src s i e = ground (arith, e, i)

pub pop_frame-Taken : (src : Source) (s : Session) → IsReady s → Taken s (pop_frame src s)
pop_frame-Taken src s r = by_pop (pop_queued s.api) refl (pop_queued_refines r.valid)
  where
    by_pop :
        (q : Option (Frame × PhoneApi))
        → pop_queued s.api ≡ q
        → Popped s.api q
        → Taken s (pop_frame src s)
    by_pop none e p = rw (pop_frame-none src s r.at_rest e) (nothing p)
    by_pop (some (f, next)) e (v, order, same) = rw (pop_frame-queued src s f next e) (
        oldest f (record s { api = next })
          (record { valid = v; at_rest = pop_queued-config_state s.api e ∙ r.at_rest }) order same)

-- A frame that was taken goes back to its place.
pub push_frame_front-IsReady :
    (s : Session) (f : Frame)
    → IsReady s
    → s.api.count < s.api.queue_size
    → IsReady (record s { api = push_frame_front s.api f })
      × (frames (push_frame_front s.api f) ≡ f ∷ frames s.api)
unfolding push_front
push_frame_front-IsReady s f r room =
    let p = push_frame_front-Refines f r.valid in
    ground (arith, length-frames s.api, push_frame_front-config_state s.api f, p)
