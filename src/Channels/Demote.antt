-- ===== src/Channels/Demote.antt =====
-- What `channel_fixup` and `demote_other_primary` change.
use meshtastic_zephyr.Prelude.{
  ℕ, zero, suc, ◌+◌, ◌≤◌, ◌<◌, ◌==◌, ◌≡◌, ◌≢◌, refl, sym, ap, ◌∙◌, true, false, ◌⊎◌, inl, inr, List,
  some, arith, length, length-set, get_or, set, get_or-set, get_or-set_self, Bool-cases,
  Option-cases, ℕ_discrete,
}
use meshtastic_zephyr.Messages.{Channel, secondary, zero_channel}
use meshtastic_zephyr.Channels.{
  Channels, slot, is_primary, fixed_slot, fixup, demote_one, demote_from,
}

pub fixup_slots :
    (t u : Channels) (i : ℕ)
    → fixup t i ≡ some u
    → (u.slots ≡ set t.slots i (fixed_slot i (slot t i))) × (u.primary_index ≡ t.primary_index)
unfolding fixup
fixup_slots t u i e = ground arith

pub fixed_role :
    (i : ℕ) (ch : Channel) → is_primary (fixed_slot i ch).role ≡ true → is_primary ch.role ≡ true
unfolding fixed_slot
fixed_role i ch h = ground arith

pub fixed_secondary :
    (i : ℕ) (ch : Channel) → ch.role ≡ secondary → is_primary (fixed_slot i ch).role ≡ false
unfolding fixed_slot
fixed_secondary i ch h = ground arith

-- A list in which one index was written, read there and elsewhere.
module _ (xs ys : List Channel) (i : ℕ) (b : Channel) (written : ys ≡ set xs i b) where
  pub read_self : i < length xs → get_or ys i zero_channel ≡ b
  read_self h = rw written (get_or-set_self zero_channel xs i b h)

  pub read_other : (j : ℕ) → j ≢ i → get_or ys j zero_channel ≡ get_or xs j zero_channel
  read_other j ne = rw written (get_or-set zero_channel xs i j b (λ e. ne (sym e)))

  pub length_written : length ys ≡ length xs
  length_written = rw written (length-set xs i b)

-- What a turn of the demotion leaves: slot `i` is not PRIMARY, and the others are untouched.
record Demoted (index i : ℕ) (t u : Channels) : Type 0 where
  size : length u.slots ≡ length t.slots
  index_kept : u.primary_index ≡ t.primary_index
  others : (j : ℕ) → j ≢ i → slot u j ≡ slot t j
  kept : i ≡ index → slot u i ≡ slot t i
  demoted : i ≢ index → is_primary (slot u i).role ≡ false

abbrev pub demoted_table : ℕ → Channels → Channels
demoted_table i t = record t { slots = set t.slots i (record (slot t i) { role = secondary }) }

pub demote_cases :
    (index i : ℕ) (t u : Channels)
    → demote_one index i t ≡ some u
    → ((u ≡ t) × ((i ≡ index) ⊎ (is_primary (slot t i).role ≡ false)))
      ⊎ ((i ≢ index) × (fixup (demoted_table i t) i ≡ some u))
unfolding demote_one
demote_cases index i t u e = elim (Bool-cases (i == index)) [
  | inl own ↦ inl (ground arith, inl (ground arith))
  | inr other ↦ elim (Bool-cases (is_primary (slot t i).role)) [
    | inl p ↦ inr (ground arith, ground arith)
    | inr np ↦ inl (ground arith, inr np)
  ]
]

demote_one-Demoted :
    (index i : ℕ) (t u : Channels)
    → i < length t.slots
    → demote_one index i t ≡ some u
    → Demoted index i t u
demote_one-Demoted index i t u h e = elim (demote_cases index i t u e) [
  | inl (same, inl own) ↦ record {
    size = rw same;
    index_kept = rw same;
    others = λ j _. rw same;
    kept = λ _. rw same;
    demoted = λ ne. absurd (ne own);
  }
  | inl (same, inr np) ↦ record {
    size = rw same;
    index_kept = rw same;
    others = λ j _. rw same;
    kept = λ _. rw same;
    demoted = λ _. rw same np;
  }
  | inr (other, fixed) ↦
      let t1 = demoted_table i t in
      let b = record (slot t i) { role = secondary } in
      let f = fixup_slots t1 u i fixed in
      let b' = fixed_slot i (slot t1 i) in
      let l = length-set t.slots i b in
      let now = read_self t1.slots u.slots i b' f.0 (rw l h) in
      let before = read_self t.slots t1.slots i b refl h in
      record {
        size = length_written t1.slots u.slots i b' f.0 ∙ l;
        index_kept = f.1;
        others = λ j ne.
            read_other t1.slots u.slots i b' f.0 j ne ∙ read_other t.slots t1.slots i b refl j ne;
        kept = λ own. absurd (other own);
        demoted = λ _. rw now (fixed_secondary i (slot t1 i) (ap (λ (c : Channel). c.role) before));
      }
]

-- The turns from `i` on: no slot but `index` among the `n` gone through is PRIMARY, and the slot at
-- `index` and every slot before `i` are untouched.
pub record Loop (index n i : ℕ) (t u : Channels) : Type 0 where
  pub size : length u.slots ≡ length t.slots
  pub index_kept : u.primary_index ≡ t.primary_index
  pub own : slot u index ≡ slot t index
  pub past : (j : ℕ) → i ≤ j → j < i + n → j ≢ index → is_primary (slot u j).role ≡ false
  pub before : (j : ℕ) → j < i → slot u j ≡ slot t j

Loop-step :
    (index n i : ℕ) {t m u : Channels}
    → Demoted index i t m
    → Loop index n (i + 1) m u
    → Loop index (suc n) i t u
Loop-step index n i {t} {m} {u} d l = record {
  size = l.size ∙ d.size;
  index_kept = l.index_kept ∙ d.index_kept;
  own = l.own ∙ kept_own;
  past = λ j ge lt ne. elim (ℕ_discrete j i) [
    | yes e ↦ rw (e, l.before i (omega arith)) (d.demoted (λ q. ne (e ∙ q)))
    | no other ↦ l.past j (omega arith) (omega arith) ne
  ];
  before = λ j lt. l.before j (omega arith) ∙ d.others j (omega arith);
}
  where
    kept_own : slot m index ≡ slot t index
    kept_own = elim (ℕ_discrete i index) [
      | yes e ↦ rw (← e) (d.kept e)
      | no other ↦ d.others index (λ q. other (sym q))
    ]

pub demote_from-Loop :
    (index n i : ℕ) (t u : Channels)
    → i + n ≤ length t.slots
    → demote_from index n i t ≡ some u
    → Loop index n i t u
unfolding demote_from
demote_from-Loop index zero i t u h e =
    let same : u ≡ t = ground arith in
    record {
      size = rw same;
      index_kept = rw same;
      own = rw same;
      past = λ j ge lt ne. absurd (omega arith);
      before = λ j lt. rw same;
    }
demote_from-Loop index (suc n) i t u h e = elim (Option-cases (demote_one index i t)) [
  | inl none_left ↦ absurd (ground arith)
  | inr (m, step) ↦
      let d = demote_one-Demoted index i t m (omega arith) step in
      let rest : demote_from index n (i + 1) m ≡ some u = ground arith in
      Loop-step index n i d (demote_from-Loop index n (i + 1) m u (omega (arith, d.size)) rest)
]
