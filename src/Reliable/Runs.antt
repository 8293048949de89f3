-- ===== src/Reliable/Runs.antt =====
-- Every order of the operations of src/meshtastic_reliable.c, from the reset table on.
use meshtastic_zephyr.Prelude.{
  ℕ, zero, suc, ◌+◌, ◌*◌, ◌%◌, ◌≤◌, ◌≡◌, ◌≢◌, refl, List, [], ◌∷◌, ◌++◌, Option, arith, length,
  replicate, length-append,
}
use native.Mathlib.Nat.{add-mul}
use meshtastic_zephyr.Packet.{Event}
use meshtastic_zephyr.Reliable.{Kconfig, zero_entry, Reliable, Routing, Effect, still, reset}
use meshtastic_zephyr.Reliable.Counts.{held, settled, budget}
use meshtastic_zephyr.Reliable.Outcomes.{Op, run_op, taken, taken_for, op_lem}

-- The operations one after the other, with all their events and frames.
unfoldable pub run : Kconfig → (List ℕ → Option Routing) → ℕ → List Op → Reliable → Effect
run k decode node_id [] r = still r
run k decode node_id (op ∷ ops) r =
    let first = run_op k decode node_id op r in
    let rest = run k decode node_id ops first.state in
    record {
      state = rest.state;
      events = first.events ++ rest.events;
      sent = first.sent ++ rest.sent;
    }

-- The packets that a run takes, and those with the identifier `id`.
unfoldable pub takes : Kconfig → (List ℕ → Option Routing) → ℕ → List Op → Reliable → ℕ
takes k decode node_id [] r = 0
takes k decode node_id (op ∷ ops) r =
    taken node_id op r + takes k decode node_id ops (run_op k decode node_id op r).state

unfoldable pub takes_for : Kconfig → (List ℕ → Option Routing) → ℕ → ℕ → List Op → Reliable → ℕ
takes_for k decode node_id id [] r = 0
takes_for k decode node_id id (op ∷ ops) r =
    taken_for id node_id op r
    + takes_for k decode node_id id ops (run_op k decode node_id op r).state

settled-append :
    (id : ℕ) (as' bs : List Event) → settled id (as' ++ bs) ≡ settled id as' + settled id bs
unfolding settled
settled-append id [] bs = omega arith
settled-append id (a ∷ as') bs = ground (arith, settled-append id as' bs)

held-run :
    (k : Kconfig) (decode : List ℕ → Option Routing) (node_id id : ℕ) (ops : List Op) (r : Reliable)
    → id ≢ 0
    → held id (run k decode node_id ops r).state.entries
        + settled id (run k decode node_id ops r).events
      ≡ held id r.entries + takes_for k decode node_id id ops r
unfolding run takes_for settled
held-run k decode node_id id [] r h = omega arith
held-run k decode node_id id (op ∷ ops) r h =
    let first = run_op k decode node_id op r in
    omega (
      arith,
      settled-append id first.events (run k decode node_id ops first.state).events,
      (op_lem k decode node_id op r).0 id h,
      held-run k decode node_id id ops first.state h,
    )

budget-run :
    (k : Kconfig) (decode : List ℕ → Option Routing) (node_id : ℕ) (ops : List Op) (r : Reliable)
    → budget (run k decode node_id ops r).state.entries + length (run k decode node_id ops r).sent
      ≤ budget r.entries + takes k decode node_id ops r * (k.retransmissions % 256)
unfolding run takes
budget-run k decode node_id [] r = omega arith
budget-run k decode node_id (op ∷ ops) r =
    let first = run_op k decode node_id op r in
    let n = takes k decode node_id ops first.state in
    omega (
      arith,
      length-append first.sent (run k decode node_id ops first.state).sent,
      (op_lem k decode node_id op r).1,
      budget-run k decode node_id ops first.state,
      add-mul (taken node_id op r) n (k.retransmissions % 256),
    )

free_held : (n id : ℕ) → id ≢ 0 → held id (replicate n zero_entry) ≡ 0
unfolding held
free_held zero id h = refl
free_held (suc n) id h = ground (arith, free_held n id h)

free_budget : (n : ℕ) → budget (replicate n zero_entry) ≡ 0
unfolding budget
free_budget zero = refl
free_budget (suc n) = ground (arith, free_budget n)

-- In any order of `track`, `on_routing` and `work_fn` calls after a reset, the outcomes reported for
-- a packet identifier, and the entries still waiting under it, are together as many as the packets
-- with that identifier that were taken: each packet taken gets one outcome, and gets it once.
pub run_outcomes :
    (k : Kconfig) (decode : List ℕ → Option Routing) (node_id id : ℕ) (ops : List Op)
    → id ≢ 0
    → held id (run k decode node_id ops (reset k)).state.entries
        + settled id (run k decode node_id ops (reset k)).events
      ≡ takes_for k decode node_id id ops (reset k)
unfolding reset
run_outcomes k decode node_id id ops h =
    omega (arith, free_held k.max_pending id h, held-run k decode node_id id ops (reset k) h)

-- In any order of calls after a reset, the frames sent again are at most `RETRANSMISSIONS` for each
-- packet taken, less the attempts that the waiting entries have left.
pub run_retries :
    (k : Kconfig) (decode : List ℕ → Option Routing) (node_id : ℕ) (ops : List Op)
    → budget (run k decode node_id ops (reset k)).state.entries
        + length (run k decode node_id ops (reset k)).sent
      ≤ takes k decode node_id ops (reset k) * (k.retransmissions % 256)
unfolding reset
run_retries k decode node_id ops =
    omega (arith, free_budget k.max_pending, budget-run k decode node_id ops (reset k))
