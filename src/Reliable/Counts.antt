-- ===== src/Reliable/Counts.antt =====
-- How the loops of src/meshtastic_reliable.c change the number of entries, outcomes and attempts.
use meshtastic_zephyr.Prelude.{
  ℕ, ◌+◌, ◌≤◌, ◌==◌, ltb, ◌≡◌, ◌≢◌, refl, Bool, true, false, inl, inr, List, [], ◌∷◌, map, Option,
  none, some, Errno, if◌then◌else◌, arith, length, Bool-cases, Option-cases,
}
use meshtastic_zephyr.Packet.{Event, EventType}
use meshtastic_zephyr.Reliable.{
  Kconfig, Entry, Outcome, Reliable, emit, reschedule, place, release, pending, work_from,
}

-- The entries, outcomes and events for one packet identifier.
unfoldable pub held : ℕ → List Entry → ℕ
held id [] = 0
held id (e ∷ es) = let rest = held id es in if e.id == id then rest + 1 else rest

unfoldable pub expired_for : ℕ → List Outcome → ℕ
expired_for id [] = 0
expired_for id (o ∷ os) = let rest = expired_for id os in if o.id == id then rest + 1 else rest

abbrev pub event_id : Event → ℕ
event_id event = elim event.packet [ none ↦ 0 | some packet ↦ packet.id ]

unfoldable pub settled : ℕ → List Event → ℕ
settled id [] = 0
settled id (e ∷ es) = let rest = settled id es in if event_id e == id then rest + 1 else rest

-- The attempts left to the slots in use.
unfoldable pub budget : List Entry → ℕ
budget [] = 0
budget (e ∷ es) = let rest = budget es in if e.id == 0 then rest else rest + e.attempts_left

pub work_held :
    (k : Kconfig) (now : ℕ) (random : ℕ → ℕ) (i id : ℕ) (es : List Entry)
    → id ≢ 0
    → held id (work_from k now random i es).entries
        + expired_for id (work_from k now random i es).expired
      ≡ held id es
unfolding work_from held expired_for
work_held k now random i id [] h = refl
work_held k now random i id (e ∷ es) h = ground (arith, work_held k now random (i + 1) id es h)

pub work_budget :
    (k : Kconfig) (now : ℕ) (random : ℕ → ℕ) (i : ℕ) (es : List Entry)
    → budget (work_from k now random i es).entries + length (work_from k now random i es).sent
      ≡ budget es
unfolding work_from budget
work_budget k now random i [] = refl
work_budget k now random i (e ∷ es) = ground (arith, work_budget k now random (i + 1) es)

pub held_emitted :
    (node_id id : ℕ) (type : EventType) (error : Option Errno) (os : List Outcome)
    → settled id (map (emit node_id type error) os) ≡ expired_for id os
unfolding settled expired_for emit
held_emitted node_id id type error [] = refl
held_emitted node_id id type error (o ∷ os) = ground (arith, held_emitted node_id id type error os)

pub place-held :
    (entry : Entry) (es es' : List Entry) (id : ℕ)
    → id ≢ 0
    → place entry es ≡ some es'
    → held id es' ≡ held id es + held id (entry ∷ [])
unfolding place held
place-held entry [] es' id h p = ground arith
place-held entry (e ∷ es) es' id h p = elim (Option-cases (place entry es)) [
  | inl full ↦ ground arith
  | inr (tail, q) ↦ ground (arith, place-held entry es tail id h q)
]

pub place-budget :
    (entry : Entry) (es es' : List Entry)
    → entry.id ≢ 0
    → place entry es ≡ some es'
    → budget es' ≡ budget es + entry.attempts_left
unfolding place budget
place-budget entry [] es' h p = ground arith
place-budget entry (e ∷ es) es' h p = elim (Option-cases (place entry es)) [
  | inl full ↦ ground arith
  | inr (tail, q) ↦ ground (arith, place-budget entry es tail h q)
]

-- There is a free slot.
unfoldable pub has_room : List Entry → Bool
has_room es = ltb (pending es) (length es)

pending_le : (es : List Entry) → pending es ≤ length es
unfolding pending
pending_le [] = omega arith
pending_le (e ∷ es) = ground (arith, pending_le es)

pub place_room : (entry : Entry) (es : List Entry) → has_room es ≡ false → place entry es ≡ none
unfolding place pending has_room
place_room entry [] h = refl
place_room entry (e ∷ es) h = elim (Bool-cases (e.id == 0)) [
  | inl free ↦ absurd (ground (arith, pending_le es))
  | inr used ↦
      let full : ltb (pending es) (length es) ≡ false = ground arith in
      rw (used, place_room entry es full)
]

pub place_some : (entry : Entry) (es : List Entry) → has_room es ≡ true → place entry es ≢ none
unfolding place pending has_room
place_some entry [] h = ground arith
place_some entry (e ∷ es) h = elim (Bool-cases (e.id == 0)) [
  | inl free ↦ ground arith
  | inr used ↦
      let room : ltb (pending es) (length es) ≡ true = ground arith in
      ground (arith, place_some entry es room)
]

pub release-held :
    (request_id id : ℕ) (es es' : List Entry) (o : Outcome)
    → id ≢ 0
    → release request_id es ≡ some (o, es')
    → held id es' + expired_for id (o ∷ []) ≡ held id es
unfolding release held expired_for
release-held request_id id [] es' o h p = ground arith
release-held request_id id (e ∷ es) es' o h p = elim (Option-cases (release request_id es)) [
  | inl lost ↦ ground arith
  | inr ((o', tail), q) ↦ ground (arith, release-held request_id id es tail o' h q)
]

pub release-budget :
    (request_id : ℕ) (es es' : List Entry) (o : Outcome)
    → release request_id es ≡ some (o, es')
    → budget es' ≤ budget es
unfolding release budget
release-budget request_id [] es' o p = ground arith
release-budget request_id (e ∷ es) es' o p = elim (Option-cases (release request_id es)) [
  | inl lost ↦ ground arith
  | inr ((o', tail), q) ↦ ground (arith, release-budget request_id es tail o' q)
]

pub reschedule_entries : (now : ℕ) (r : Reliable) → (reschedule now r).entries ≡ r.entries
unfolding reschedule
reschedule_entries now r = ground arith
