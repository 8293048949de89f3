-- ===== src/Phone/Queue/Refines.antt =====
-- A transport's ring of frames against a bounded double-ended queue, oldest frame first.
use meshtastic_zephyr.Prelude.{
  ℕ, zero, suc, ◌+◌, ◌-◌, ◌%◌, ◌≤◌, ◌<◌, ◌==◌, ◌≡◌, refl, ap, inl, inr, List, [], ◌∷◌, ◌++◌, Option,
  none, some, if◌then◌else◌, arith, length, length-set, length-take, drop, take, set, Bool-cases,
  window, length-window, window-set, window-snoc, window-drop, window-take, get_or-set_self,
  step-mod, step_back-mod, ahead_back-mod,
}
use native.Mathlib.Nat.{mod-add-mod, add_assoc}
use native.Mathlib.Numerals.{add-one}
use meshtastic_zephyr.Phone.{PhoneApi, Frame}
use meshtastic_zephyr.Phone.Queue.{
  take_tail, pop_queued, push_frame_front, enqueue_frame, drop_oldest, drop_newest, store_back,
  store_front,
}

pub record IsValid (api : PhoneApi) : Type 0 where
  pub storage : api.queue_size ≤ length api.queue
  pub has_room : 0 < api.queue_size
  pub tail_in : api.tail < api.queue_size
  pub count_in : api.count ≤ api.queue_size
  pub head_at : api.head ≡ (api.tail + api.count) % api.queue_size

-- The frames that wait, oldest first.
abbrev pub frames : PhoneApi → List Frame
frames api = window [] api.queue api.queue_size api.tail api.count

pub length-frames : (api : PhoneApi) → length (frames api) ≡ api.count
length-frames api = length-window [] api.queue api.queue_size api.tail api.count

-- What the frame queue promises: at most `cap` frames, and room for a new one is made at the end
-- that the new frame does not join.
unfoldable pub push_back : ℕ → List Frame → Frame → List Frame
push_back cap xs f = (if length xs == cap then drop 1 xs else xs) ++ (f ∷ [])

unfoldable pub push_front : ℕ → List Frame → Frame → List Frame
push_front cap xs f = f ∷ (if length xs == cap then take (cap - 1) xs else xs)

-- A write at the head, with room, appends.
append_at_head :
    (api : PhoneApi) (f : Frame) (head tail count : ℕ)
    → api.queue_size ≤ length api.queue
    → tail < api.queue_size
    → count < api.queue_size
    → head ≡ (tail + count) % api.queue_size
    → window [] (set api.queue head f) api.queue_size tail (suc count)
      ≡ window [] api.queue api.queue_size tail count ++ (f ∷ [])
append_at_head api f head tail count hs ht hc e = ground (
  arith,
  window-snoc [] (set api.queue head f) api.queue_size tail count head ht e,
  window-set [] api.queue api.queue_size tail count count head f ht,
  get_or-set_self [] api.queue head f,
)

abbrev pub Refines : PhoneApi → PhoneApi → List Frame → Type 0
Refines before after xs =
    IsValid after × (frames after ≡ xs) × (after.queue_size ≡ before.queue_size)

store_back_lem :
    {api : PhoneApi} (f : Frame)
    → IsValid api
    → api.count < api.queue_size
    → Refines api (store_back api f) (frames api ++ (f ∷ []))
unfolding store_back
store_back_lem {api} f v room = ground (
  arith,
  length-set api.queue api.head f,
  append_at_head api f api.head api.tail api.count v.storage v.tail_in room v.head_at,
  mod-add-mod (api.tail + api.count) api.queue_size 1,
  add-one api.count,
  add_assoc api.tail api.count 1,
)

drop_oldest_lem :
    {api : PhoneApi}
    → IsValid api
    → 0 < api.count
    → Refines api (drop_oldest api) (drop 1 (frames api))
unfolding drop_oldest
drop_oldest_lem {api} v some_there = ground (
  arith,
  window-drop [] api.queue api.queue_size api.tail api.count,
  step-mod api.tail (api.count - 1) api.queue_size,
)

drop_newest_lem :
    {api : PhoneApi}
    → IsValid api
    → 0 < api.count
    → Refines api (drop_newest api) (take (api.count - 1) (frames api))
unfolding drop_newest
drop_newest_lem {api} v some_there = ground (
  arith,
  window-take [] api.queue api.queue_size api.tail api.count (api.count - 1),
  ahead_back-mod api.tail api.count api.queue_size,
)

store_front_lem :
    {api : PhoneApi} (f : Frame)
    → IsValid api
    → api.count < api.queue_size
    → Refines api (store_front api f) (f ∷ frames api)
unfolding store_front
store_front_lem {api} f v room =
    let tail : ℕ = (api.tail + api.queue_size - 1) % api.queue_size in
    ground (
      arith,
      length-set api.queue tail f,
      step_back-mod api.tail api.queue_size,
      step-mod tail api.count api.queue_size,
      window-set [] api.queue api.queue_size api.tail api.count (api.queue_size - 1) tail f,
      get_or-set_self [] api.queue tail f,
      last_index,
      add-one api.count,
    )
  where
    last_index :
        (api.tail + api.queue_size - 1) % api.queue_size
        ≡ (api.tail + (api.queue_size - 1)) % api.queue_size
    last_index = ap (λ t. t % api.queue_size) (omega arith)

-- Enqueueing appends the frame, dropping the oldest one of a full queue, and keeps the ring valid.
pub enqueue_frame-Refines :
    {api : PhoneApi} (f : Frame)
    → IsValid api
    → Refines api (enqueue_frame api f) (push_back api.queue_size (frames api) f)
unfolding enqueue_frame push_back
enqueue_frame-Refines {api} f v = elim (Bool-cases (api.count == api.queue_size)) [
  | inl full ↦ rw full (
      ground (
        arith,
        drop_oldest_lem v,
        store_back_lem {api = drop_oldest api} f,
        length-frames api,
        length-frames (drop_oldest api),
      ))
  | inr room ↦ rw room (ground (arith, store_back_lem f v, length-frames api))
]

-- Pushing a frame to the front puts it before all others, dropping the newest one of a full queue,
-- and keeps the ring valid.
pub push_frame_front-Refines :
    {api : PhoneApi} (f : Frame)
    → IsValid api
    → Refines api (push_frame_front api f) (push_front api.queue_size (frames api) f)
unfolding push_frame_front push_front
push_frame_front-Refines {api} f v = elim (Bool-cases (api.count == api.queue_size)) [
  | inl full ↦ rw full (
      ground (
        arith,
        drop_newest_lem v,
        store_front_lem {api = drop_newest api} f,
        length-frames api,
        length-take (api.count - 1) (frames api),
        length-frames (drop_newest api),
      ))
  | inr room ↦ rw room (ground (arith, store_front_lem f v, length-frames api))
]

abbrev pub Popped : PhoneApi → Option (Frame × PhoneApi) → Type 0
Popped api none = frames api ≡ []
Popped api (some (f, next)) =
    IsValid next × (frames api ≡ f ∷ frames next) × (next.queue_size ≡ api.queue_size)

pop_some :
    (api : PhoneApi) (n : ℕ) → IsValid api → api.count ≡ suc n → Popped api (some (take_tail api))
unfolding take_tail
pop_some api n v e = ground (arith, step-mod api.tail n api.queue_size)

-- Popping returns nothing exactly if no frame waits, and otherwise the oldest frame; the ring stays
-- valid and keeps the other frames in their order.
pub pop_queued_refines : {api : PhoneApi} → IsValid api → Popped api (pop_queued api)
unfolding pop_queued
pop_queued_refines {api} v = by_count api.count refl
  where
    by_count : (n : ℕ) → api.count ≡ n → Popped api (pop_queued api)
    by_count zero e = ground arith
    by_count (suc n) e = ground (arith, pop_some api n v e)
