-- ===== src/Outbound.antt =====
-- src/meshtastic_outbound.c: the queue of frames to send, its thread, and the callers that wait for
-- the outcome. A waiting caller's semaphore and result are on its stack: they are gone once it returns.
pub mod Waiters
mod Tests
use meshtastic_zephyr.Prelude.{
  ℕ, ◌+◌, ◌==◌, ltb, Bool, ◌||◌, List, [], ◌∷◌, ◌++◌, Option, none, some, Errno, einval, enomsg,
  eagain, if◌then◌else◌, length,
}
use meshtastic_zephyr.Wire.{pkt_max}

-- `struct mt_outbound_item`; `done` names the caller whose semaphore and result it points to, and is
-- `none` where both pointers are NULL.
pub record Item : Type 0 where
  pub wire : List ℕ
  pub done : Option ℕ

-- The message queue, the callers in their wait and, for each one that was woken, its result.
pub record Outbound : Type 0 where
  pub queue : List Item
  pub waiting : List ℕ
  pub results : List (ℕ × Option Errno)

-- The first guard of `outbound_enqueue`
pub bad_frame : Option (List ℕ) → Bool
bad_frame none = Bool.true
bad_frame (some pkt) = (length pkt == 0) || ltb pkt_max (length pkt)

-- `outbound_enqueue` with `K_NO_WAIT`, the call of `meshtastic_radio_send_wire`: the return value,
-- `none` for 0, and the queue of `depth` items
pub enqueue_no_wait : ℕ → Option (List ℕ) → Outbound → Option Errno × Outbound
enqueue_no_wait depth none o = (some einval, o)
enqueue_no_wait depth (some pkt) o =
    if bad_frame (some pkt)
    then (some einval, o)
    else if ltb (length o.queue) depth
    then (none, record o { queue = o.queue ++ (record { wire = pkt; done = none } ∷ []) })
    else (some enomsg, o)

-- `outbound_enqueue` with a time-out up to its wait, by the caller `me`: `k_msgq_put` waits for room,
-- so that the step is one that is taken when there is room.
pub enqueue_wait : ℕ → List ℕ → Outbound → Outbound
enqueue_wait me pkt o = record o {
  queue = o.queue ++ (record { wire = pkt; done = some me } ∷ []);
  waiting = me ∷ o.waiting;
}

-- A list without a caller
pub leave : ℕ → List ℕ → List ℕ
leave me [] = []
leave me (w ∷ ws) = let rest = leave me ws in if w == me then rest else w ∷ rest

-- A turn of `mt_outbound_thread_fn`: the frame sent, and what it writes through the item's pointers.
-- The outcome `ret` is `meshtastic_radio_send_wire_now`'s.
pub thread_turn : Option Errno → Item → List Item → Outbound → Outbound
thread_turn ret item rest o = elim item.done [
  | none ↦ record o { queue = rest }
  | some me ↦ record o { queue = rest; results = (me, ret) ∷ o.results }
]

-- A caller's `result`, which is 0 before the thread writes it
pub result_of : ℕ → List (ℕ × Option Errno) → Option Errno
result_of me [] = none
result_of me ((w, ret) ∷ rs) = let rest = result_of me rs in if w == me then ret else rest

-- The end of `outbound_enqueue`, from `k_sem_take` on: the return value, and the queue once the caller's
-- stack is gone. `timed_out` is whether the wait ended without the semaphore.
pub wait_over : Bool → ℕ → Outbound → Option Errno × Outbound
wait_over timed_out me o = (
  if timed_out then some eagain else result_of me o.results,
  record o { waiting = leave me o.waiting },
)
