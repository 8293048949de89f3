-- ===== src/Channels/Hash.antt =====
-- The cached wire hashes that `channel_fixup` and `set_slot` keep in src/meshtastic_channels.c.
use meshtastic_zephyr.Prelude.{
  ℕ, zero, suc, ◌+◌, ◌≤◌, ◌<◌, ◌==◌, ◌≡◌, ◌≢◌, ◌⊎◌, inl, inr, refl, sym, ap, ◌∙◌, false, List, some,
  ok, arith, length, length-set, set, get_or, get_or-set_self, get_or-set, Bool-cases, Option-cases,
}
use meshtastic_zephyr.Messages.{Channel}
use meshtastic_zephyr.Channels.{
  Channels, slot, max_channels, is_primary, fixed_slot, fixup, store, store_and_demote, set_slot,
  demote_from, demote_one, demote_other_primary, get_name, refresh, get_key, get_key_fuel,
  generate_hash,
}
use meshtastic_zephyr.Channels.Demote.{demote_cases, demoted_table, read_other}
use meshtastic_zephyr.Channels.Primary.{IsTable, set_slot-Steps}

-- The cached hash of a slot is the one that `channel_generate_hash` gives now.
abbrev pub IsCoherent : Channels → ℕ → Type 0
IsCoherent t j = generate_hash t j ≡ some (get_or t.hashes j 0)

abbrev pub fixed_table : Channels → ℕ → Channels
fixed_table t i = record t { slots = set t.slots i (fixed_slot i (slot t i)) }

generate_hash-hashes :
    (t : Channels) (hs : List ℕ) (i : ℕ)
    → generate_hash (record t { hashes = hs }) i ≡ generate_hash t i
unfolding generate_hash get_key get_key_fuel get_name
generate_hash-hashes t hs i = refl

fixup_result :
    (t u : Channels) (i : ℕ)
    → fixup t i ≡ some u
    → (h : ℕ) × (generate_hash (fixed_table t i) i ≡ some h)
      × (u ≡ record (fixed_table t i) { hashes = set t.hashes i h })
unfolding fixup
fixup_result t u i e = elim (Option-cases (generate_hash (fixed_table t i) i)) [
  | inl lost ↦ absurd (ground arith)
  | inr (h, g) ↦ (h, g, ground arith)
]

-- After `channel_fixup` the hash of the slot is up to date, and no other hash has changed.
fixup_hashes :
    (t u : Channels) (i : ℕ)
    → i < length t.hashes
    → fixup t i ≡ some u
    → IsCoherent u i × ((j : ℕ) → j ≢ i → get_or u.hashes j 0 ≡ get_or t.hashes j 0)
fixup_hashes t u i h e =
    let (code, g, r) = fixup_result t u i e in
    let hs = set t.hashes i code in
    (
      rw (r, generate_hash-hashes (fixed_table t i) hs i, g)
          (ap some (sym (get_or-set_self 0 t.hashes i code h))),
      λ j ne. rw r (get_or-set 0 t.hashes i j code (λ q. ne (sym q))),
    )

demote_one_none :
    (index i : ℕ) (t : Channels)
    → (i ≢ index → is_primary (slot t i).role ≡ false)
    → demote_one index i t ≡ some t
unfolding demote_one
demote_one_none index i t h = elim (Bool-cases (i == index)) [
  | inl own ↦ rw own
  | inr other ↦ let ne : i ≢ index = ground arith in rw (other, h ne)
]

fixup_size : (t u : Channels) (i : ℕ) → fixup t i ≡ some u → length u.hashes ≡ length t.hashes
fixup_size t u i e = let (code, g, r) = fixup_result t u i e in rw r (length-set t.hashes i code)

demote_one_size :
    (index i : ℕ) (t u : Channels)
    → demote_one index i t ≡ some u
    → length u.hashes ≡ length t.hashes
demote_one_size index i t u e = elim (demote_cases index i t u e) [
  | inl (same, _) ↦ rw same
  | inr (_, fixed) ↦ fixup_size (demoted_table i t) u i fixed
]

demote_from_size :
    (index n i : ℕ) (t u : Channels)
    → demote_from index n i t ≡ some u
    → length u.hashes ≡ length t.hashes
unfolding demote_from
demote_from_size index zero i t u e = let same : u ≡ t = ground arith in rw same
demote_from_size index (suc n) i t u e = elim (Option-cases (demote_one index i t)) [
  | inl lost ↦ absurd (ground arith)
  | inr (m, step) ↦
      let rest : demote_from index n (i + 1) m ≡ some u = ground arith in
      demote_from_size index n (i + 1) m u rest ∙ demote_one_size index i t m step
]

store_size :
    (t u : Channels) (index : ℕ) (channel : Channel)
    → store_and_demote t index channel ≡ some u
    → length u.hashes ≡ length t.hashes
unfolding store_and_demote store demote_other_primary
store_size t u index channel e = elim (Bool-cases (is_primary channel.role)) [
  | inl p ↦
      let s = record t {
        slots = set t.slots index (record channel { index = index });
        primary_index = index;
      } in
      demote_from_size index 8 0 s u (rw p at e)
  | inr np ↦ let same = rw np at e in cc same
]

-- With no other PRIMARY slot the demotion changes nothing.
demote_from_none :
    (index n i : ℕ) (t : Channels)
    → ((j : ℕ) → i ≤ j → j < i + n → j ≢ index → is_primary (slot t j).role ≡ false)
    → demote_from index n i t ≡ some t
unfolding demote_from
demote_from_none index zero i t h = refl
demote_from_none index (suc n) i t h =
    rw (demote_one_none index i t (h i (omega arith) (omega arith)), demote_from)
      (demote_from_none index n (i + 1) t (λ j ge lt. h j (omega arith) (omega arith)))

not_primary :
    (t : Channels)
    → IsTable t
    → (j index : ℕ) {ch : Channel} → index ≡ t.primary_index
    → j < max_channels
    → ch ≡ slot t j
    → j ≢ index
    → is_primary ch.role ≡ false
not_primary t v j index here lt same ne = elim (Bool-cases (is_primary (slot t j).role)) [
  | inl p ↦ absurd (ne (v.unique j lt p ∙ sym here))
  | inr np ↦ rw same np
]

-- Where the channel stored is not PRIMARY, or replaces the primary slot, nothing is demoted.
pub store_only :
    (t : Channels) (index : ℕ) (channel : Channel)
    → IsTable t
    → (is_primary channel.role ≡ false) ⊎ (index ≡ t.primary_index)
    → store_and_demote t index channel ≡ some (store t index channel)
unfolding store_and_demote store demote_other_primary
store_only t index channel v which = elim (Bool-cases (is_primary channel.role)) [
  | inl p ↦
      let c = record channel { index = index } in
      let s = record t { slots = set t.slots index c; primary_index = index } in
      let here : index ≡ t.primary_index = ground arith in
      rw p (
        demote_from_none index 8 0 s (λ j _ lt ne.
          not_primary t v j index here lt (read_other t.slots s.slots index c refl j ne) ne))
  | inr np ↦ rw np
]

refresh_hashes :
    (index : ℕ) (t : Channels)
    → ((refresh index t).hashes ≡ t.hashes)
      × ((j : ℕ) → generate_hash (refresh index t) j ≡ generate_hash t j)
unfolding refresh generate_hash get_key get_key_fuel get_name
refresh_hashes index t = elim (Bool-cases (index == t.primary_index)) [
  | inl e ↦ (rw e, λ j. rw e)
  | inr e ↦ (rw e, λ j. rw e)
]

store_hashes :
    (t : Channels) (index : ℕ) (channel : Channel) → (store t index channel).hashes ≡ t.hashes
unfolding store
store_hashes t index channel = ground arith

-- A call of `set_slot` that succeeds leaves the cached hash of its slot up to date. The other cached
-- hashes keep their values if it demotes no slot: if the channel is not PRIMARY, or the slot is the
-- primary one.
pub set_slot_hashes :
    (t u : Channels) (index : ℕ) (channel : Channel)
    → IsTable t
    → length t.hashes ≡ max_channels
    → set_slot t index (some channel) ≡ some (ok u)
    → IsCoherent u index
      × ((is_primary channel.role ≡ false) ⊎ (index ≡ t.primary_index)
          → (j : ℕ) → j ≢ index
          → get_or u.hashes j 0 ≡ get_or t.hashes j 0)
set_slot_hashes t u index channel v size e =
    let s = set_slot-Steps t u index channel e in
    let r = refresh_hashes index s.fixed in
    let f =
      fixup_hashes s.stored s.fixed index
        (omega (arith, store_size t s.stored index channel s.stores, s.in_range)) s.fixes in
    (
      rw s.result (r.1 index ∙ f.0 ∙ ap (λ hs. some (get_or hs index 0)) (sym r.0)),
      λ which j ne.
          let stored : s.stored ≡ store t index channel =
            cc (s.stores, store_only t index channel v which) in
          ap (λ (c : Channels). get_or c.hashes j 0) s.result
          ∙ ap (λ hs. get_or hs j 0) r.0
          ∙ f.1 j ne
          ∙ ap (λ (c : Channels). get_or c.hashes j 0) stored
          ∙ ap (λ hs. get_or hs j 0) (store_hashes t index channel),
    )
