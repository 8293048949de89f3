-- ===== src/Reliable.antt =====
-- src/meshtastic_reliable.c: the table of packets sent with `want_ack`, their retries and outcomes.
pub mod Counts
pub mod Outcomes
pub mod Runs
pub mod Drain
pub mod Timer
mod Tests
use meshtastic_zephyr.Prelude.{
  ℕ, zero, suc, ◌+◌, ◌-◌, ◌%◌, ◌==◌, ltb, leb, min, Bool, true, false, not, ◌&&◌, ◌||◌, List, [],
  ◌∷◌, map, Option, none, some, Errno, ehostunreach, etimedout, if◌then◌else◌, length, take,
  replicate,
}
use meshtastic_zephyr.Packet.{
  Packet, zero_packet, Event, EventType, tx_acked, tx_no_ack, node_broadcast, port_routing,
  channel_index_invalid,
}
use meshtastic_zephyr.Wire.{pkt_max}

-- The four build options that this file reads.
pub record Kconfig : Type 0 where
  pub max_pending : ℕ
  pub retransmissions : ℕ
  pub retry_interval_ms : ℕ
  pub retry_jitter_ms : ℕ

-- `struct reliable_entry`; an `id` of 0 marks a free slot. `wire` holds `wire_len` bytes.
pub record Entry : Type 0 where
  pub id : ℕ
  pub dest : ℕ
  pub portnum : ℕ
  pub due_ms : ℕ
  pub wire_len : ℕ
  pub attempts_left : ℕ
  pub wire : List ℕ

abbrev pub zero_entry : Entry
zero_entry = record {
  id = 0;
  dest = 0;
  portnum = 0;
  due_ms = 0;
  wire_len = 0;
  attempts_left = 0;
  wire = [];
}

-- `struct reliable_outcome`
pub record Outcome : Type 0 where
  pub id : ℕ
  pub dest : ℕ
  pub portnum : ℕ

-- The table, and the delay that the retry timer was last armed with.
pub record Reliable : Type 0 where
  pub entries : List Entry
  pub timer : Option ℕ

-- `meshtastic_Routing` as far as it is read: its `error_reason`, where that is its variant.
pub record Routing : Type 0 where
  pub error_reason : Option ℕ

-- `reliable_retry_delay_ms`, on the random number that it draws
pub retry_delay_ms : Kconfig → ℕ → ℕ
retry_delay_ms k random =
    if ltb 0 k.retry_jitter_ms
    then k.retry_interval_ms + random % (k.retry_jitter_ms + 1)
    else k.retry_interval_ms

-- `reliable_emit`
pub emit : ℕ → EventType → Option Errno → Outcome → Event
emit node_id type error outcome = record {
  type = type;
  error = error;
  packet = some (record zero_packet {
    from = node_id;
    to = outcome.dest;
    id = outcome.id;
    portnum = outcome.portnum;
    channel_index = channel_index_invalid;
    want_ack = true;
  });
}

-- The earliest `due_ms` of the slots in use; `none` stands for `INT64_MAX`.
pub next_due : List Entry → Option ℕ
next_due [] = none
next_due (e ∷ es) =
    let rest = next_due es in
    if e.id == 0 then rest else elim rest [ none ↦ some e.due_ms | some d ↦ some (min e.due_ms d) ]

-- `reliable_reschedule`
pub reschedule : ℕ → Reliable → Reliable
reschedule now r = elim (next_due r.entries) [
  | none ↦ r
  | some next ↦ record r { timer = some (next - now) }
]

-- `reliable_routing_is_ack`: `none` is an acknowledgement, and an error the one written to `*err`.
pub routing_error : (List ℕ → Option Routing) → Option (List ℕ) → ℕ → Option Errno
routing_error decode none payload_len = none
routing_error decode (some payload) payload_len =
    if payload_len == 0 then none else elim (decode (take payload_len payload)) [
      | none ↦ none
      | some routing ↦ elim routing.error_reason [
        | none ↦ none
        | some reason ↦ if reason == 0 then none else some ehostunreach
      ]
    ]

-- `meshtastic_reliable_reset`
pub reset : Kconfig → Reliable
reset k = record { entries = replicate k.max_pending zero_entry; timer = none }

-- The first free slot takes the entry; `none` if there is no free slot.
pub place : Entry → List Entry → Option (List Entry)
place entry [] = none
place entry (e ∷ es) =
    let rest = place entry es in
    if e.id == 0 then some (entry ∷ es) else elim rest [ none ↦ none | some es' ↦ some (e ∷ es') ]

-- The first guard of `meshtastic_reliable_track`, and the second.
pub bad_wire : Option (List ℕ) → ℕ → Bool
bad_wire none wire_len = true
bad_wire (some wire) wire_len = (wire_len == 0) || ltb pkt_max wire_len

pub untracked : ℕ → Packet → Bool
untracked node_id packet =
    not packet.want_ack
    || (packet.id == 0)
    || (packet.to == node_broadcast)
    || (packet.to == node_id)
    || (packet.portnum == port_routing)

-- The entry that `meshtastic_reliable_track` fills in.
pub new_entry : Kconfig → ℕ → ℕ → Packet → List ℕ → ℕ → Entry
new_entry k now random packet wire wire_len = record {
  id = packet.id;
  dest = packet.to;
  portnum = packet.portnum;
  attempts_left = k.retransmissions % 256;
  due_ms = now + retry_delay_ms k random;
  wire_len = wire_len;
  wire = take wire_len wire;
}

-- `meshtastic_reliable_track`
pub track : Kconfig → ℕ → ℕ → ℕ → Option Packet → Option (List ℕ) → ℕ → Reliable → Reliable
track k node_id now random none wire wire_len r = r
track k node_id now random (some packet) none wire_len r = r
track k node_id now random (some packet) (some wire) wire_len r =
    if bad_wire (some wire) wire_len || untracked node_id packet
    then r
    else elim (place (new_entry k now random packet wire wire_len) r.entries) [
      | none ↦ r
      | some entries ↦ reschedule now (record r { entries = entries })
    ]

abbrev pub outcome_of : Entry → Outcome
outcome_of e = record { id = e.id; dest = e.dest; portnum = e.portnum }

-- The loop of `meshtastic_reliable_on_routing`: the first entry with the identifier is freed.
pub release : ℕ → List Entry → Option (Outcome × List Entry)
release request_id [] = none
release request_id (e ∷ es) =
    let rest = release request_id es in
    if e.id == request_id
    then some (outcome_of e, record e { id = 0 } ∷ es)
    else elim rest [ none ↦ none | some (outcome, es') ↦ some (outcome, e ∷ es') ]

-- What a call leaves: the table, the events that it emits and the frames that it sends.
pub record Effect : Type 0 where
  pub state : Reliable
  pub events : List Event
  pub sent : List (List ℕ)

abbrev pub still : Reliable → Effect
still r = record { state = r; events = []; sent = [] }

-- `meshtastic_reliable_on_routing`, with its return value
pub on_routing : (List ℕ → Option Routing) → ℕ → Option Packet → Reliable → Effect × Bool
on_routing decode node_id none r = (still r, false)
on_routing decode node_id (some packet) r =
    if not (packet.portnum == port_routing)
      || not (packet.to == node_id)
      || (packet.request_id == 0)
    then (still r, false)
    else elim (release packet.request_id r.entries) [
      | none ↦ (still r, false)
      | some (outcome, entries) ↦
          let error = routing_error decode packet.payload packet.payload_len in
          let type : EventType = elim error [ none ↦ tx_acked | some e ↦ tx_no_ack ] in
          (
            record {
              state = record r { entries = entries };
              events = emit node_id type error outcome ∷ [];
              sent = [];
            },
            true,
          )
    ]

-- `meshtastic_reliable_pending`
pub pending : List Entry → ℕ
pending [] = 0
pending (e ∷ es) = let rest = pending es in if e.id == 0 then rest else rest + 1

-- The loop of `reliable_work_fn`: the table, the outcomes and the frames queued on the radio.
pub record Round : Type 0 where
  pub entries : List Entry
  pub expired : List Outcome
  pub sent : List (List ℕ)

-- The slots from `i` on; `random i` is the number drawn for slot `i`.
pub work_from : Kconfig → ℕ → (ℕ → ℕ) → ℕ → List Entry → Round
work_from k now random i [] = record { entries = []; expired = []; sent = [] }
work_from k now random i (e ∷ es) =
    let rest = work_from k now random (i + 1) es in
    if (e.id == 0) || ltb now e.due_ms
    then record rest { entries = e ∷ rest.entries }
    else if e.attempts_left == 0
    then record rest {
      entries = record e { id = 0 } ∷ rest.entries;
      expired = outcome_of e ∷ rest.expired;
    }
    else record rest {
      entries =
          record e {
            attempts_left = e.attempts_left - 1;
            due_ms = now + retry_delay_ms k (random i);
          }
          ∷ rest.entries;
      sent = e.wire ∷ rest.sent;
    }

-- `reliable_work_fn`
pub work_fn : Kconfig → ℕ → ℕ → (ℕ → ℕ) → Reliable → Effect
work_fn k node_id now random r =
    let round = work_from k now random 0 r.entries in
    record {
      state = reschedule now (record r { entries = round.entries });
      events = map (emit node_id tx_no_ack (some etimedout)) round.expired;
      sent = round.sent;
    }
