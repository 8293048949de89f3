-- ===== src/Reliable/Timer.antt =====
-- The retry timer of src/meshtastic_reliable.c is armed for the earliest entry.
use meshtastic_zephyr.Prelude.{
  ℕ, ◌-◌, ◌≤◌, ◌<◌, ◌≡◌, ◌≢◌, refl, List, [], ◌∷◌, none, some, arith, Option-cases, ◌⊎◌, inl, inr,
}
use meshtastic_zephyr.Reliable.{
  Kconfig, Entry, Reliable, pending, next_due, reschedule, work_fn, work_from,
}
use meshtastic_zephyr.Reliable.Counts.{reschedule_entries}

-- No slot in use is due before `next`, and some slot in use is due then.
unfoldable pub NoneBefore : ℕ → List Entry → Type 0
NoneBefore next [] = 0 ≤ next
NoneBefore next (e ∷ es) = (e.id ≢ 0 → next ≤ e.due_ms) × NoneBefore next es

unfoldable pub SomeAt : ℕ → List Entry → Type 0
SomeAt next [] = next < 0
SomeAt next (e ∷ es) = ((e.id ≢ 0) × (e.due_ms ≡ next)) ⊎ SomeAt next es

NoneBefore-le : (m n : ℕ) (es : List Entry) → m ≤ n → NoneBefore n es → NoneBefore m es
unfolding NoneBefore
NoneBefore-le m n [] h b = ground arith
NoneBefore-le m n (e ∷ es) h b = ground (arith, NoneBefore-le m n es h b.1)

next_due-none : (n : ℕ) (es : List Entry) → next_due es ≡ none → (pending es ≡ 0) × NoneBefore n es
unfolding next_due pending NoneBefore
next_due-none n [] h = (refl, omega arith)
next_due-none n (e ∷ es) h = elim (Option-cases (next_due es)) [
  | inl nothing ↦ ground (arith, next_due-none n es nothing)
  | inr (d, found) ↦ absurd (ground arith)
]

next_due-some :
    (es : List Entry) {next : ℕ} → next_due es ≡ some next → NoneBefore next es × SomeAt next es
unfolding next_due NoneBefore SomeAt
next_due-some [] h = ground arith
next_due-some (e ∷ es) {next} h = elim (Option-cases (next_due es)) [
  | inl nothing ↦ ground (arith, next_due-none next es nothing)
  | inr (d, found) ↦ ground (arith, next_due-some es found, NoneBefore-le next d es)
]

reschedule_timer :
    (now : ℕ) (r : Reliable)
    → pending r.entries ≢ 0
    → (next : ℕ) × ((reschedule now r).timer ≡ some (next - now))
      × (NoneBefore next r.entries × SomeAt next r.entries)
unfolding reschedule
reschedule_timer now r h = elim (Option-cases (next_due r.entries)) [
  | inl nothing ↦ absurd (h (next_due-none 0 r.entries nothing).0)
  | inr (next, found) ↦ (next, rw (found, reschedule), next_due-some r.entries found)
]

-- While an entry waits, `reliable_work_fn` leaves the timer armed with the delay up to the earliest
-- `due_ms` of the entries, or with no delay where that has passed.
pub work_fn_timer :
    (k : Kconfig) (node_id now : ℕ) (random : ℕ → ℕ) (r : Reliable)
    → pending (work_fn k node_id now random r).state.entries ≢ 0
    → (next : ℕ) × ((work_fn k node_id now random r).state.timer ≡ some (next - now))
      × NoneBefore next (work_fn k node_id now random r).state.entries
      × SomeAt next (work_fn k node_id now random r).state.entries
unfolding work_fn
work_fn_timer k node_id now random r h =
    let state = record r { entries = (work_from k now random 0 r.entries).entries } in
    let kept = reschedule_entries now state in
    let (next, armed, earliest) = reschedule_timer now state (λ z. h (rw kept z)) in
    (next, armed, rw kept earliest.0, rw kept earliest.1)
