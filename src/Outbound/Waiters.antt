-- ===== src/Outbound/Waiters.antt =====
-- A caller of src/meshtastic_outbound.c whose wait times out leaves its semaphore in the queue.
use meshtastic_zephyr.Prelude.{
  ℕ, ◌==◌, ◌≡◌, refl, Bool, true, false, List, [], ◌∷◌, ◌++◌, Option, some, Errno, eagain,
  if◌then◌else◌, arith, length, Option-cases, inl, inr,
}
use meshtastic_zephyr.Outbound.{Item, Outbound, enqueue_wait, leave, thread_turn, wait_over}

-- The caller is in its wait.
unfoldable pub is_waiting : ℕ → List ℕ → Bool
is_waiting me [] = false
is_waiting me (w ∷ ws) = let rest = is_waiting me ws in if w == me then true else rest

-- Turns of the thread, one for each outcome, while there are items
unfoldable pub turns : List (Option Errno) → Outbound → Outbound
turns [] o = o
turns (ret ∷ rets) o = elim o.queue [
  | [] ↦ o
  | item ∷ rest ↦ turns rets (thread_turn ret item rest o)
]

leave_gone : (me : ℕ) (ws : List ℕ) → is_waiting me (leave me ws) ≡ false
unfolding is_waiting leave
leave_gone me [] = refl
leave_gone me (w ∷ ws) = ground (arith, leave_gone me ws)

thread_turn_keeps :
    (ret : Option Errno) (item : Item) (rest : List Item) (o : Outbound)
    → ((thread_turn ret item rest o).queue ≡ rest)
      × ((thread_turn ret item rest o).waiting ≡ o.waiting)
unfolding thread_turn
thread_turn_keeps ret item rest o = elim (Option-cases item.done) [
  | inl nobody ↦ rw nobody (refl, refl)
  | inr (me, there) ↦ rw there (refl, refl)
]

-- As many turns as there are items before the last one leave that one, and the callers in their wait.
turns_last :
    (rets : List (Option Errno)) (items : List Item) (last : Item) (o : Outbound)
    → length rets ≡ length items
    → o.queue ≡ items ++ (last ∷ [])
    → ((turns rets o).queue ≡ last ∷ []) × ((turns rets o).waiting ≡ o.waiting)
unfolding turns thread_turn
turns_last [] [] last o same queue = (queue, refl)
turns_last [] (item ∷ items) last o same queue = absurd (omega arith)
turns_last (ret ∷ rets) [] last o same queue = absurd (omega arith)
turns_last (ret ∷ rets) (item ∷ items) last o same queue =
    let next = thread_turn ret item (items ++ (last ∷ [])) o in
    let (left, kept) = thread_turn_keeps ret item (items ++ (last ∷ [])) o in
    let (only, waiting) = turns_last rets items last next (omega arith) left in
    rw queue (only, rw kept at waiting)

-- The queue after a caller has entered with a frame and its wait has timed out, and the thread has then
-- sent the frames before it
abbrev pub timed_out : ℕ → List ℕ → List (Option Errno) → Outbound → Outbound
timed_out me pkt rets o = turns rets (wait_over true me (enqueue_wait me pkt o)).1

-- A caller whose wait times out before the thread takes its item returns EAGAIN and waits no longer, but
-- its item stays in the queue. Once the thread has sent the frames before it, whatever their outcomes,
-- its next turn takes that item and writes the outcome to the caller, whose stack is gone.
pub time_out_dangles :
    (me : ℕ) (pkt : List ℕ) (o : Outbound) (rets : List (Option Errno)) (ret : Option Errno)
    → length rets ≡ length o.queue
    → ((wait_over true me (enqueue_wait me pkt o)).0 ≡ some eagain)
      × (is_waiting me (timed_out me pkt rets o).waiting ≡ false)
      × ((timed_out me pkt rets o).queue ≡ record { wire = pkt; done = some me } ∷ [])
      × ((thread_turn ret
            (record { wire = pkt; done = some me })
            []
            (timed_out me pkt rets o)).results
          ≡ (me, ret) ∷ (timed_out me pkt rets o).results)
unfolding enqueue_wait wait_over thread_turn
time_out_dangles me pkt o rets ret same =
    let item : Item = record { wire = pkt; done = some me } in
    let left = (wait_over true me (enqueue_wait me pkt o)).1 in
    let (only, kept) = turns_last rets o.queue item left same refl in
    (refl, rw kept (leave_gone me (me ∷ o.waiting)), only, refl)
