-- ===== src/Reliable/Drain.antt =====
-- The retries of src/meshtastic_reliable.c end: due entries run out of attempts and are reported.
use meshtastic_zephyr.Prelude.{ℕ, suc, ◌≤◌, ◌≢◌, List, [], ◌∷◌, ◌++◌, map, some, etimedout}
use mathlib.Core.List.{Memᴰ}
use meshtastic_zephyr.Packet.{Event, tx_no_ack}
use meshtastic_zephyr.Reliable.{Kconfig, Entry, Outcome, Reliable, work_fn, emit, outcome_of}

-- Every slot in use is due at `now` and has at most `n` attempts left.
unfoldable pub AllDue : ℕ → List Entry → Type 0
AllDue now [] = 0 ≤ now
AllDue now (e ∷ es) = (e.id ≢ 0 → e.due_ms ≤ now) × AllDue now es

unfoldable pub AttemptsWithin : ℕ → List Entry → Type 0
AttemptsWithin n [] = 0 ≤ n
AttemptsWithin n (e ∷ es) = (e.id ≢ 0 → e.attempts_left ≤ n) × AttemptsWithin n es

-- The work handler runs `n` more times, each time when every slot in use is due, and expires the rest.
pub data Rounds (k : Kconfig) (node_id : ℕ) : ℕ → Reliable → Reliable → List Event → Type 0 where
  last : {r : Reliable} → Rounds k node_id 0 r r []
  more :
      {n : ℕ} {r u : Reliable} {events : List Event} (now : ℕ) (random : ℕ → ℕ)
      → AllDue now r.entries
      → Rounds k node_id n (work_fn k node_id now random r).state u events
      → Rounds k node_id (suc n) r u ((work_fn k node_id now random r).events ++ events)

-- Each slot in use has its `TX_NO_ACK` event, with ETIMEDOUT and the entry's packet, among the events.
unfoldable pub AllReported : ℕ → List Entry → List Event → Type 0
AllReported node_id [] events = 0 ≤ node_id
AllReported node_id (e ∷ es) events =
    (e.id ≢ 0 → Memᴰ (emit node_id tx_no_ack (some etimedout) (outcome_of e)) events)
    × AllReported node_id es events

-- The slots in use are reported by `out`, or wait on in `later` as the same packets.
Leaves : ℕ → List Entry → List Outcome → List Entry → Type 0
Leaves node_id es out later =
    (events : List Event)
    → AllReported node_id later events
    → AllReported node_id es (map (emit node_id tx_no_ack (some etimedout)) out ++ events)
