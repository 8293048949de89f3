-- ===== src/Outbound/Tests.antt =====
-- A caller of src/meshtastic_outbound.c whose wait times out behind one other frame.
use meshtastic_zephyr.Prelude.{
  ◌≡◌, refl, true, false, List, [], ◌∷◌, Option, none, some, Errno, eagain, ebusy,
}
use meshtastic_zephyr.Outbound.{Outbound, enqueue_wait, thread_turn, wait_over, leave, result_of}
use meshtastic_zephyr.Outbound.Waiters.{is_waiting, timed_out, time_out_dangles}

abbrev one_queued : Outbound
one_queued = record {
  queue = record { wire = 9 ∷ []; done = none } ∷ [];
  waiting = [];
  results = [];
}

abbrev sent_first : List (Option Errno)
sent_first = none ∷ []

time_out_dangles_example :
    ((wait_over true 1 (enqueue_wait 1 (5 ∷ 6 ∷ []) one_queued)).0 ≡ some eagain)
    × (is_waiting 1 (timed_out 1 (5 ∷ 6 ∷ []) sent_first one_queued).waiting ≡ false)
    × ((timed_out 1 (5 ∷ 6 ∷ []) sent_first one_queued).queue
        ≡ record { wire = 5 ∷ 6 ∷ []; done = some 1 } ∷ [])
    × ((thread_turn
          (some ebusy)
          (record { wire = 5 ∷ 6 ∷ []; done = some 1 })
          []
          (timed_out 1 (5 ∷ 6 ∷ []) sent_first one_queued)).results
        ≡ (1, some ebusy) ∷ (timed_out 1 (5 ∷ 6 ∷ []) sent_first one_queued).results)
time_out_dangles_example = time_out_dangles 1 (5 ∷ 6 ∷ []) one_queued sent_first (some ebusy) refl

-- A caller that the thread has woken returns its result.
woken : (wait_over false 1 (record one_queued { results = (1, some ebusy) ∷ [] })).0 ≡ some ebusy
unfolding wait_over result_of leave
woken = refl
