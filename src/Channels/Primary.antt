-- ===== src/Channels/Primary.antt =====
-- The PRIMARY slot: `set_slot` keeps it unique and at `primary_index`.
use meshtastic_zephyr.Prelude.{
  ℕ, ◌<◌, ◌==◌, ◌≡◌, ◌≢◌, refl, sym, ap, ◌∙◌, true, false, inl, inr, some, ok, arith, length, set,
  Bool-cases, Option-cases, Result-cases, Result, ℕ_discrete, if◌then◌else◌,
}
use meshtastic_zephyr.Messages.{Channel}
use meshtastic_zephyr.Channels.{
  Channels, slot, max_channels, is_primary, fixed_slot, fixup, demote_other_primary, demote_from,
  store, store_and_demote, refresh, set_slot,
}
use meshtastic_zephyr.Channels.Demote.{
  fixup_slots, fixed_role, read_self, read_other, length_written, demote_from-Loop,
}

-- Eight slots, of which at most the one at `primary_index` is PRIMARY.
pub record IsTable (t : Channels) : Type 0 where
  pub eight : length t.slots ≡ max_channels
  pub index_in : t.primary_index < max_channels
  pub unique : (j : ℕ) → j < max_channels → is_primary (slot t j).role ≡ true → j ≡ t.primary_index

abbrev stored_channel : ℕ → Channel → Channel
stored_channel index channel = record channel { index = index }

-- After the channel is stored and the others are demoted, only slot `primary_index` may be PRIMARY.
stored_primary :
    (t u : Channels) (index : ℕ) (channel : Channel)
    → IsTable t
    → index < max_channels
    → is_primary channel.role ≡ true
    → store_and_demote t index channel ≡ some u
    → IsTable u × (slot u index ≡ stored_channel index channel) × (u.primary_index ≡ index)
unfolding store_and_demote store demote_other_primary
stored_primary t u index channel v h p e =
    let c = stored_channel index channel in
    let s = record t { slots = set t.slots index c; primary_index = index } in
    let run : demote_from index 8 0 s ≡ some u = rw p at e in
    let size = length_written t.slots s.slots index c refl ∙ v.eight in
    let l = demote_from-Loop index 8 0 s u (omega arith) run in
    let table : IsTable u = record {
      eight = l.size ∙ size;
      index_in = rw l.index_kept h;
      unique = λ j lt q. elim (ℕ_discrete j index) [
        | yes same ↦ same ∙ sym l.index_kept
        | no other ↦ cc (l.past j (omega arith) lt other)
      ];
    } in
    (table, l.own ∙ read_self t.slots s.slots index c refl (omega (arith, v.eight)), l.index_kept)

stored_other :
    (t u : Channels) (index : ℕ) (channel : Channel)
    → IsTable t
    → index < max_channels
    → is_primary channel.role ≡ false
    → store_and_demote t index channel ≡ some u
    → IsTable u
      × (slot u index ≡ stored_channel index channel)
      × (u.primary_index ≡ t.primary_index)
      × ((j : ℕ) → j ≢ index → slot u j ≡ slot t j)
unfolding store_and_demote store
stored_other t u index channel v h p e =
    let c = stored_channel index channel in
    let s = record t { slots = set t.slots index c } in
    let same : u ≡ s = ground arith in
    let own = read_self t.slots s.slots index c refl (omega (arith, v.eight)) in
    let others = read_other t.slots s.slots index c refl in
    let table : IsTable s = record {
      eight = length_written t.slots s.slots index c refl ∙ v.eight;
      index_in = v.index_in;
      unique = λ j lt q. elim (ℕ_discrete j index) [
        | yes here ↦ cc (ap (λ k. is_primary (slot s k).role) here, own)
        | no other ↦ v.unique j lt (rw (others j other) at q)
      ];
    } in
    (rw same table, rw same own, rw same, λ j ne. rw same (others j ne))

fixup-IsTable :
    (t u : Channels) (index : ℕ)
    → IsTable t
    → index < max_channels
    → fixup t index ≡ some u
    → IsTable u
fixup-IsTable t u index v h e =
    let f = fixup_slots t u index e in
    let c = fixed_slot index (slot t index) in
    record {
      eight = length_written t.slots u.slots index c f.0 ∙ v.eight;
      index_in = rw f.1 v.index_in;
      unique = λ j lt q. elim (ℕ_discrete j index) [
        | yes here ↦
            let at_index : is_primary (slot u index).role ≡ true = rw here at q in
            let own = read_self t.slots u.slots index c f.0 (omega (arith, v.eight)) in
            here ∙ v.unique index h (fixed_role index (slot t index) (rw own at at_index)) ∙ sym f.1
        | no other ↦
            v.unique j lt (rw (read_other t.slots u.slots index c f.0 j other) at q) ∙ sym f.1
      ];
    }

-- The steps of a call of `set_slot` that succeeds.
pub record Steps (t u : Channels) (index : ℕ) (channel : Channel) : Type 0 where
  pub in_range : index < max_channels
  pub stored : Channels
  pub fixed : Channels
  pub stores : store_and_demote t index channel ≡ some stored
  pub fixes : fixup stored index ≡ some fixed
  pub result : u ≡ refresh index fixed

pub set_slot-Steps :
    (t u : Channels) (index : ℕ) (channel : Channel)
    → set_slot t index (some channel) ≡ some (ok u)
    → Steps t u index channel
unfolding set_slot
set_slot-Steps t u index channel e = elim (Option-cases (store_and_demote t index channel)) [
  | inl lost ↦ absurd (ground arith)
  | inr (m, stores) ↦ elim (Option-cases (fixup m index)) [
    | inl lost ↦ absurd (ground arith)
    | inr (w, fixes) ↦ record {
      in_range = ground arith;
      stored = m;
      fixed = w;
      stores = stores;
      fixes = fixes;
      result = ground arith;
    }
  ]
]

-- A call of `set_slot` in range never fails.
pub set_slot-ok :
    (t : Channels) (index : ℕ) (channel : Channel) (r : Result Channels)
    → index < max_channels
    → set_slot t index (some channel) ≡ some r
    → (u : Channels) × (r ≡ ok u)
unfolding set_slot
set_slot-ok t index channel r lt e = elim (Result-cases r) [
  | inr done ↦ done
  | inl (why, fails) ↦ elim (Option-cases (store_and_demote t index channel)) [
    | inl lost ↦ absurd (ground (arith, lost))
    | inr (m, stores) ↦ elim (Option-cases (fixup m index)) [
      | inl lost ↦ absurd (ground (arith, stores, lost))
      | inr (w, fixes) ↦ absurd (ground (arith, stores, fixes))
    ]
  ]
]

refresh_slots : (index : ℕ) (t : Channels) → (refresh index t).slots ≡ t.slots
unfolding refresh
refresh_slots index t = ground arith

refresh_primary : (index : ℕ) (t : Channels) → (refresh index t).primary_index ≡ t.primary_index
unfolding refresh
refresh_primary index t = ground arith

refresh-IsTable : (index : ℕ) (t : Channels) → IsTable t → IsTable (refresh index t)
unfolding refresh
refresh-IsTable index t v = elim (Bool-cases (index == t.primary_index)) [
  | inl e ↦ rw e (record { eight = v.eight; index_in = v.index_in; unique = v.unique })
  | inr e ↦ rw e v
]

stored-IsTable :
    (t u : Channels) (index : ℕ) (channel : Channel)
    → IsTable t
    → index < max_channels
    → store_and_demote t index channel ≡ some u
    → IsTable u
stored-IsTable t u index channel v h e = elim (Bool-cases (is_primary channel.role)) [
  | inl p ↦ (stored_primary t u index channel v h p e).0
  | inr np ↦ (stored_other t u index channel v h np e).0
]

-- A call of `set_slot` that succeeds keeps the table at eight slots with at most one PRIMARY slot,
-- the one at `primary_index`.
pub set_slot-IsTable :
    (t u : Channels) (index : ℕ) (channel : Channel)
    → IsTable t
    → set_slot t index (some channel) ≡ some (ok u)
    → IsTable u
set_slot-IsTable t u index channel v e =
    let s = set_slot-Steps t u index channel e in
    let stored = stored-IsTable t s.stored index channel v s.in_range s.stores in
    rw s.result (
      refresh-IsTable index s.fixed
        (fixup-IsTable s.stored s.fixed index stored s.in_range s.fixes))

fixed_slot_role : (i : ℕ) (ch : Channel) → ch.has_settings ≡ true → (fixed_slot i ch).role ≡ ch.role
unfolding fixed_slot
fixed_slot_role i ch h = ground arith

-- Where the primary slot is after a call of `set_slot` that succeeds
pub set_slot_index :
    (t u : Channels) (index : ℕ) (channel : Channel)
    → IsTable t
    → set_slot t index (some channel) ≡ some (ok u)
    → u.primary_index ≡ (if is_primary channel.role then index else t.primary_index)
set_slot_index t u index channel v e =
    let s = set_slot-Steps t u index channel e in
    let f = fixup_slots s.stored s.fixed index s.fixes in
    let last : u.primary_index ≡ s.stored.primary_index =
      (ap (λ (c : Channels). c.primary_index) s.result ∙ refresh_primary index s.fixed ∙ f.1) in
    elim (Bool-cases (is_primary channel.role)) [
      | inl p ↦ rw p (last ∙ (stored_primary t s.stored index channel v s.in_range p s.stores).2)
      | inr np ↦ rw np (last ∙ (stored_other t s.stored index channel v s.in_range np s.stores).2)
    ]

-- A PRIMARY channel with settings becomes the primary slot. Any other channel, set elsewhere than at
-- `primary_index`, leaves the primary slot what and where it was.
pub set_slot_primary :
    (t u : Channels) (index : ℕ) (channel : Channel)
    → IsTable t
    → set_slot t index (some channel) ≡ some (ok u)
    → (is_primary channel.role ≡ true
        → channel.has_settings ≡ true
        → (u.primary_index ≡ index) × (is_primary (slot u index).role ≡ true))
      × (is_primary channel.role ≡ false
          → index ≢ t.primary_index
          → (u.primary_index ≡ t.primary_index) × (slot u t.primary_index ≡ slot t t.primary_index))
set_slot_primary t u index channel v e = (becomes, stays)
  where
    s : Steps t u index channel
    s = set_slot-Steps t u index channel e

    f :
        (s.fixed.slots ≡ set s.stored.slots index (fixed_slot index (slot s.stored index)))
        × (s.fixed.primary_index ≡ s.stored.primary_index)
    f = fixup_slots s.stored s.fixed index s.fixes

    last_index : u.primary_index ≡ s.stored.primary_index
    last_index =
        ap (λ (c : Channels). c.primary_index) s.result ∙ refresh_primary index s.fixed ∙ f.1

    last_slots : u.slots ≡ s.fixed.slots
    last_slots = ap (λ (c : Channels). c.slots) s.result ∙ refresh_slots index s.fixed

    becomes :
        is_primary channel.role ≡ true
        → channel.has_settings ≡ true
        → (u.primary_index ≡ index) × (is_primary (slot u index).role ≡ true)
    becomes p has =
        let d = stored_primary t s.stored index channel v s.in_range p s.stores in
        let c = slot s.stored index in
        let own =
          read_self s.stored.slots s.fixed.slots index (fixed_slot index c) f.0
            (omega (arith, d.0.eight, s.in_range)) in
        let role_kept = fixed_slot_role index c (rw d.1 has) in
        (last_index ∙ d.2, rw (last_slots, own, role_kept, d.1) p)

    stays :
        is_primary channel.role ≡ false
        → index ≢ t.primary_index
        → (u.primary_index ≡ t.primary_index) × (slot u t.primary_index ≡ slot t t.primary_index)
    stays p ne =
        let d = stored_other t s.stored index channel v s.in_range p s.stores in
        let c = slot s.stored index in
        let other =
          read_other s.stored.slots s.fixed.slots index (fixed_slot index c) f.0 t.primary_index
            (λ q. ne (sym q)) in
        (last_index ∙ d.2, rw last_slots (other ∙ d.3 t.primary_index (λ q. ne (sym q))))
