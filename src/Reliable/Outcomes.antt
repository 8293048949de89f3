-- ===== src/Reliable/Outcomes.antt =====
-- Each packet that src/meshtastic_reliable.c tracks gets one outcome and a bounded number of retries.
use meshtastic_zephyr.Prelude.{
  ℕ, ◌+◌, ◌*◌, ◌%◌, ◌≤◌, ◌==◌, ◌≡◌, ◌≢◌, refl, sym, ◌∙◌, true, false, not, ◌||◌, ◌⊎◌, inl, inr,
  List, [], ◌∷◌, map, Option, none, some, Errno, etimedout, if◌then◌else◌, arith, length,
  Bool-cases, Option-cases,
}
use meshtastic_zephyr.Packet.{Packet, EventType, tx_acked, tx_no_ack, port_routing}
use meshtastic_zephyr.Reliable.{
  Kconfig, Entry, Outcome, Reliable, Routing, Effect, still, emit, reschedule, routing_error, place,
  bad_wire, untracked, new_entry, track, release, on_routing, work_from, work_fn,
}
use meshtastic_zephyr.Reliable.Counts.{
  held, settled, budget, has_room, work_held, work_budget, held_emitted, place-held, place-budget,
  place_room, place_some, release-held, release-budget, reschedule_entries,
}

-- An operation of the table.
pub data Op : Type 0 where
  track_op : ℕ → ℕ → Option Packet → Option (List ℕ) → ℕ → Op
  routing_op : Option Packet → Op
  work_op : ℕ → (ℕ → ℕ) → Op

unfoldable pub run_op : Kconfig → (List ℕ → Option Routing) → ℕ → Op → Reliable → Effect
run_op k decode node_id (track_op now random packet wire wire_len) r =
    still (track k node_id now random packet wire wire_len r)
run_op k decode node_id (routing_op packet) r = (on_routing decode node_id packet r).0
run_op k decode node_id (work_op now random) r = work_fn k node_id now random r

-- `meshtastic_reliable_track` takes a packet if it passes both guards and a slot is free.
unfoldable pub accepted : ℕ → Op → Reliable → Option Packet
accepted node_id (track_op now random (some packet) wire wire_len) r =
    if bad_wire wire wire_len || untracked node_id packet || not (has_room r.entries)
    then none
    else some packet
accepted node_id (track_op now random none wire wire_len) r = none
accepted node_id (routing_op packet) r = none
accepted node_id (work_op now random) r = none

-- One for each packet taken, and for each one with the identifier `id`.
unfoldable pub taken : ℕ → Op → Reliable → ℕ
taken node_id op r = elim (accepted node_id op r) [ none ↦ 0 | some packet ↦ 1 ]

unfoldable pub taken_for : ℕ → ℕ → Op → Reliable → ℕ
taken_for id node_id op r = elim (accepted node_id op r) [
  | none ↦ 0
  | some packet ↦ if packet.id == id then 1 else 0
]

tracked_id : (node_id : ℕ) (packet : Packet) → untracked node_id packet ≡ false → packet.id ≢ 0
unfolding untracked
tracked_id node_id packet h = ground arith

-- A free slot is what `place` needs.
room_placed :
    (entry : Entry) (es : List Entry)
    → ((has_room es ≡ false) × (place entry es ≡ none))
      ⊎ ((has_room es ≡ true) × ((es' : List Entry) × (place entry es ≡ some es')))
room_placed entry es = elim (Bool-cases (has_room es)) [
  | inl room ↦ elim (Option-cases (place entry es)) [
    | inl full ↦ absurd (place_some entry es room full)
    | inr placed ↦ inr (room, placed)
  ]
  | inr full ↦ inl (full, place_room entry es full)
]

-- What a call of `track` that takes the packet does.
record Takes (k : Kconfig) (node_id now random : ℕ) (packet : Option Packet)
    (wire : Option (List ℕ)) (wire_len : ℕ) (r : Reliable) : Type 0 where
  pub taken_packet : Packet
  pub entry : Entry
  pub entries : List Entry
  pub accepts : accepted node_id (track_op now random packet wire wire_len) r ≡ some taken_packet
  pub named : entry.id ≡ taken_packet.id
  pub id_ne : taken_packet.id ≢ 0
  pub attempts : entry.attempts_left ≡ k.retransmissions % 256
  pub placed : place entry r.entries ≡ some entries
  pub result :
      track k node_id now random packet wire wire_len r
      ≡ reschedule now (record r { entries = entries })

track_cases :
    (k : Kconfig) (node_id now random : ℕ) (packet : Option Packet) (wire : Option (List ℕ))
    (wire_len : ℕ) (r : Reliable)
    → ((accepted node_id (track_op now random packet wire wire_len) r ≡ none)
        × (track k node_id now random packet wire wire_len r ≡ r))
      ⊎ Takes k node_id now random packet wire wire_len r
unfolding track accepted new_entry bad_wire
track_cases k node_id now random none wire wire_len r = inl (refl, refl)
track_cases k node_id now random (some p) none wire_len r = inl (refl, refl)
track_cases k node_id now random (some p) (some wire) wire_len r =
    let entry = new_entry k now random p wire wire_len in
    elim (Bool-cases (bad_wire (some wire) wire_len || untracked node_id p)) [
      | inl bad ↦ inl (ground arith, rw bad)
      | inr good ↦ elim (room_placed entry r.entries) [
        | inl (full, lost) ↦ inl (ground arith, rw (good, lost))
        | inr (room, (es, fits)) ↦ inr (record {
          taken_packet = p;
          entry = entry;
          entries = es;
          accepts = ground arith;
          named = refl;
          id_ne = tracked_id node_id p (ground arith);
          attempts = refl;
          placed = fits;
          result = rw (good, fits);
        })
      ]
    ]

held-track :
    (k : Kconfig) (node_id id now random : ℕ) (packet : Option Packet) (wire : Option (List ℕ))
    (wire_len : ℕ) (r : Reliable)
    → id ≢ 0
    → held id (track k node_id now random packet wire wire_len r).entries
      ≡ held id r.entries + taken_for id node_id (track_op now random packet wire wire_len) r
unfolding taken_for held
held-track k node_id id now random packet wire wire_len r h =
    elim (track_cases k node_id now random packet wire wire_len r) [
      | inl (none_taken, same) ↦ rw (same, none_taken, taken_for) (omega arith)
      | inr t ↦
          rw
            (
              t.result,
              t.accepts,
              taken_for,
              reschedule_entries now (record r { entries = t.entries }),
            )
            (ground (arith, t.named, place-held t.entry r.entries t.entries id h t.placed))
    ]

budget-track :
    (k : Kconfig) (node_id now random : ℕ) (packet : Option Packet) (wire : Option (List ℕ))
    (wire_len : ℕ) (r : Reliable)
    → budget (track k node_id now random packet wire wire_len r).entries
      ≡ budget r.entries
        + taken node_id (track_op now random packet wire wire_len) r * (k.retransmissions % 256)
unfolding taken
budget-track k node_id now random packet wire wire_len r =
    elim (track_cases k node_id now random packet wire wire_len r) [
      | inl (none_taken, same) ↦ rw (same, none_taken, taken) (omega arith)
      | inr t ↦
          let ne : t.entry.id ≢ 0 = λ z. t.id_ne (sym t.named ∙ z) in
          rw (t.result, t.accepts, taken, reschedule_entries now (record r { entries = t.entries }))
            (omega (arith, t.attempts, place-budget t.entry r.entries t.entries ne t.placed))
    ]

on_routing_cases :
    (decode : List ℕ → Option Routing) (node_id : ℕ) (packet : Option Packet) (r : Reliable)
    → ((on_routing decode node_id packet r).0 ≡ still r)
      ⊎ ((request_id : ℕ) × (o : Outcome) × (es : List Entry) × (type : EventType) × (error : Option
            Errno)
          × (release request_id r.entries ≡ some (o, es))
          × ((on_routing decode node_id packet r).0 ≡ record {
            state = record r { entries = es };
            events = map (emit node_id type error) (o ∷ []);
            sent = [];
          }))
unfolding on_routing
on_routing_cases decode node_id none r = inl refl
on_routing_cases decode node_id (some p) r =
    elim (Bool-cases
      (not (p.portnum == port_routing) || not (p.to == node_id) || (p.request_id == 0))) [
        | inl other ↦ inl (rw other)
        | inr ours ↦ elim (Option-cases (release p.request_id r.entries)) [
          | inl unknown ↦ inl (rw (ours, unknown))
          | inr ((o, es), freed) ↦
              let error = routing_error decode p.payload p.payload_len in
              inr (
                p.request_id,
                o,
                es,
                elim error [ none ↦ tx_acked | some e ↦ tx_no_ack ],
                error,
                freed,
                rw (ours, freed),
              )
        ]
      ]

-- One operation: for every identifier, the entries held after it and the outcomes that it reports
-- are together the entries held before and the packet that it took; and the attempts left after it
-- and the frames that it sent are at most the attempts left before and those of the packet taken.
pub op_lem :
    (k : Kconfig) (decode : List ℕ → Option Routing) (node_id : ℕ) (op : Op) (r : Reliable)
    → ((id : ℕ)
        → id ≢ 0
        → held id (run_op k decode node_id op r).state.entries
            + settled id (run_op k decode node_id op r).events
          ≡ held id r.entries + taken_for id node_id op r)
      × (budget (run_op k decode node_id op r).state.entries
            + length (run_op k decode node_id op r).sent
          ≤ budget r.entries + taken node_id op r * (k.retransmissions % 256))
unfolding run_op settled taken taken_for accepted work_fn
op_lem k decode node_id (track_op now random packet wire wire_len) r = (
  λ id h. omega (arith, held-track k node_id id now random packet wire wire_len r h),
  omega (arith, budget-track k node_id now random packet wire wire_len r),
)
op_lem k decode node_id (routing_op packet) r = elim (on_routing_cases decode node_id packet r) [
  | inl same ↦ rw same (λ id h. omega arith, omega arith)
  | inr (request_id, o, es, type, error, freed, result) ↦ rw result (
    λ id h. omega (
      arith,
      held_emitted node_id id type error (o ∷ []),
      release-held request_id id r.entries es o h freed,
    ),
    omega (arith, release-budget request_id r.entries es o freed),
  )
]
op_lem k decode node_id (work_op now random) r =
    let round = work_from k now random 0 r.entries in
    rw (reschedule_entries now (record r { entries = round.entries })) (
      λ id h. omega (
        arith,
        held_emitted node_id id tx_no_ack (some etimedout) round.expired,
        work_held k now random 0 id r.entries h,
      ),
      omega (arith, work_budget k now random 0 r.entries),
    )
