-- ===== src/ConfigStore/Primary.antt =====
-- Where the primary channel is once the store is put into use.
use meshtastic_zephyr.Prelude.{
  ℕ, zero, suc, ◌+◌, ◌<◌, ◌≤◌, ◌≡◌, refl, ap, sym, ◌∙◌, inl, inr, true, List, [], ◌∷◌, none, some,
  ok, arith, get_or, set, Bool-cases, Option-cases, Result-cases, if◌then◌else◌, leb, not, ◌||◌,
  get_or-set,
}
use mathlib.Core.Path.{subst}
use meshtastic_zephyr.Messages.{Channel, zero_channel}
use meshtastic_zephyr.Configs.{Config, config_tag}
use meshtastic_zephyr.Channels.{Channels, max_channels, is_primary, set_slot}
use meshtastic_zephyr.Channels.Primary.{IsTable, set_slot-IsTable, set_slot_index}
use meshtastic_zephyr.ConfigStore.{Store, config_is_valid, channel_is_valid, index_for_config_tag}
use meshtastic_zephyr.ConfigStore.Settings.{channel_at, config_at}
use meshtastic_zephyr.ConfigStore.Seed.{Options}
use meshtastic_zephyr.ConfigStore.Apply.{
  Node, Floats, apply_channels, apply_radio, apply_core, of_store, device_of, lora_of, device_idx,
  lora_idx,
}
use meshtastic_zephyr.ConfigStore.Setters.{Changed, set_channel, set_config, settle}

-- The last of the channels from place `i` on that is PRIMARY, or `place`
abbrev pub last_primary : ℕ → List Channel → ℕ → ℕ
last_primary i [] place = place
last_primary i (c ∷ cs) place = last_primary (i + 1) cs (if is_primary c.role then i else place)

-- A call of the loop that returns without an error
apply_channels_step :
    (i : ℕ) (c : Channel) (cs : List Channel) (t u : Channels)
    → apply_channels i (c ∷ cs) t ≡ some (none, u)
    → (t' : Channels) × (set_slot t i (some c) ≡ some (ok t'))
      × (apply_channels (i + 1) cs t' ≡ some (none, u))
unfolding apply_channels
apply_channels_step i c cs t u e = elim (Option-cases (set_slot t i (some c))) [
  | inl lost ↦ absurd (ground (arith, lost))
  | inr (r, back) ↦ elim (Result-cases r) [
    | inl (why, fails) ↦ absurd (ground (arith, back, fails))
    | inr (t', done) ↦ (t', rw (back, done) refl, ground (arith, back, done))
  ]
]

pub apply_channels_primary :
    (i : ℕ) (cs : List Channel) (t u : Channels)
    → IsTable t
    → apply_channels i cs t ≡ some (none, u)
    → IsTable u × (u.primary_index ≡ last_primary i cs t.primary_index)
unfolding apply_channels
apply_channels_primary i [] t u v e =
    let same : t ≡ u = ground arith in
    (subst IsTable same v, ap (λ (c : Channels). c.primary_index) (sym same))
apply_channels_primary i (c ∷ cs) t u v e =
    let (t', sets, more) = apply_channels_step i c cs t u e in
    let (table, last) =
      apply_channels_primary (i + 1) cs t' u (set_slot-IsTable t t' i c v sets) more in
    (table, last ∙ ap (last_primary (i + 1) cs) (set_slot_index t t' i c v sets))

pub le-last_primary :
    (i : ℕ) (cs : List Channel) (place k : ℕ) → (k ≤ place) → k ≤ i → k ≤ last_primary i cs place
le-last_primary i [] place k a b = a
le-last_primary i (c ∷ cs) place k a b = elim (Bool-cases (is_primary c.role)) [
  | inl p ↦ rw p (le-last_primary (i + 1) cs i k b (omega arith))
  | inr np ↦ rw np (le-last_primary (i + 1) cs place k a (omega arith))
]

pub at-last_primary :
    (i : ℕ) (cs : List Channel) (place j : ℕ)
    → is_primary (get_or cs j zero_channel).role ≡ true
    → i + j ≤ last_primary i cs place
at-last_primary i [] place j p = absurd (cc p)
at-last_primary i (c ∷ cs) place zero p =
    rw p (le-last_primary (i + 1) cs i (i + 0) (omega arith) (omega arith))
at-last_primary i (c ∷ cs) place (suc j) p =
    omega (arith, at-last_primary (i + 1) cs (if is_primary c.role then i else place) j p)

-- If putting the store into use succeeds, the primary slot is the last one that is stored as PRIMARY, or
-- stays where it was if there is none.
pub apply_core_primary :
    (f : Floats) (s : Store) (n m : Node)
    → IsTable n.channels
    → apply_core f s n ≡ some (none, m)
    → m.channels.primary_index ≡ last_primary 0 s.channels n.channels.primary_index
unfolding apply_core apply_radio
apply_core_primary f s n m v e = elim (Option-cases (apply_channels 0 s.channels n.channels)) [
  | inl lost ↦ absurd (ground (arith, lost))
  | inr ((some why, t), back) ↦ absurd (ground (arith, back))
  | inr ((none, t), back) ↦
      let (table, last) = apply_channels_primary 0 s.channels n.channels t v back in
      let result : apply_radio f (device_of (config_at s device_idx))
            (lora_of (config_at s lora_idx))
            (record n { long_name = of_store; short_name = of_store; channels = t })
          ≡ m =
        ground (arith, back) in
      rw (sym result) last
]

set_channel-done :
    (o : Options) (i : ℕ) (c : Channel) (s : Store) (n : Node) (ch : Changed)
    → set_channel o i (some c) s n ≡ some ch
    → ch.ret ≡ none
    → (ch.store.channels ≡ set s.channels i (record c { index = i }))
      × (set_slot n.channels i (some c) ≡ some (ok ch.node.channels))
unfolding set_channel
set_channel-done o i c s n ch e done =
    elim (Bool-cases (leb max_channels i || not (channel_is_valid c))) [
      | inl bad ↦ absurd (ground (arith, bad))
      | inr good ↦ elim (Option-cases (set_slot n.channels i (some c))) [
        | inl lost ↦ absurd (ground (arith, good, lost))
        | inr (r, back) ↦ elim (Result-cases r) [
          | inl (why, fails) ↦ absurd (ground (arith, good, back, fails))
          | inr (t, sets) ↦
              let stored : Store = record s {
                channels = set s.channels i (record c { index = i });
              } in
              let is : record {
                ret = none;
                store = stored;
                node = record n { channels = t };
                scheduled = o.with_settings;
              }
                  ≡ ch =
                ground (arith, good, back, sets) in
              (
                ap (λ (x : Changed). x.store.channels) (sym is),
                rw (back, sets) (ap (λ (x : Changed). some (ok (x.node.channels))) is),
              )
        ]
      ]
    ]

set_config-done :
    (o : Options) (f : Floats) (c : Config) (s : Store) (n : Node) (ch : Changed)
    → set_config o f c s n ≡ some ch
    → ch.ret ≡ none
    → (ch.store.channels ≡ s.channels) × (apply_core f ch.store n ≡ some (none, ch.node))
unfolding set_config settle
set_config-done o f c s n ch e done = elim (Bool-cases (config_is_valid c)) [
  | inr bad ↦ absurd (ground (arith, bad))
  | inl good ↦ elim (Result-cases (index_for_config_tag (config_tag c))) [
    | inl (why, lost) ↦ absurd (ground (arith, good, lost))
    | inr (i, found) ↦
        let stored : Store = record s { configs = set s.configs i c } in
        elim (Option-cases (apply_core f stored n)) [
          | inl lost ↦ absurd (ground (arith, good, found, lost))
          | inr ((some why, m), back) ↦ absurd (ground (arith, good, found, back))
          | inr ((none, m), back) ↦
              let is : record { ret = none; store = stored; node = m; scheduled = o.with_settings }
                  ≡ ch =
                ground (arith, good, found, back) in
              (
                ap (λ (x : Changed). x.store.channels) (sym is),
                ap (λ (x : Changed). apply_core f x.store n) (sym is)
                    ∙ back
                    ∙ ap (λ (x : Changed). some (none, x.node)) is,
              )
        ]
  ]
]

-- A channel set as PRIMARY below another slot that is stored as PRIMARY becomes the primary slot at
-- once, but the next configuration that is stored, whichever it is, gives the place to that slot or one
-- above it.
pub set_config_moves_primary :
    (o : Options) (f : Floats) (i j : ℕ) (c : Channel) (cfg : Config) (s : Store) (n : Node)
    (a b : Changed)
    → IsTable n.channels
    → i < j
    → is_primary c.role ≡ true
    → is_primary (channel_at s j).role ≡ true
    → set_channel o i (some c) s n ≡ some a
    → a.ret ≡ none
    → set_config o f cfg a.store a.node ≡ some b
    → b.ret ≡ none
    → (a.node.channels.primary_index ≡ i) × (j ≤ b.node.channels.primary_index)
set_config_moves_primary o f i j c cfg s n a b v lt p q ea da eb db =
    let (stored, sets) = set_channel-done o i c s n a ea da in
    let (same, applied) = set_config-done o f cfg a.store a.node b eb db in
    let now = set_slot_index n.channels a.node.channels i c v sets in
    let table = set_slot-IsTable n.channels a.node.channels i c v sets in
    let later = apply_core_primary f b.store a.node b.node table applied in
    let other : get_or (set s.channels i (record c { index = i })) j zero_channel ≡ channel_at s j =
      get_or-set zero_channel s.channels i j _ (λ e. omega (arith, e)) in
    let still : is_primary (get_or b.store.channels j zero_channel).role ≡ true =
      rw (same, stored, other) q in
    (
      rw p at now,
      omega
          (arith, later, at-last_primary 0 b.store.channels a.node.channels.primary_index j still),
    )
