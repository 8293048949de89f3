-- ===== src/Channels/Key.antt =====
-- `channel_get_key`: when it returns, and what keys it gives.
use meshtastic_zephyr.Prelude.{
  ℕ, zero, suc, ◌+◌, ◌≤◌, leb, ◌≡◌, refl, true, false, not, ◌||◌, ◌⊎◌, inl, inr, ◌∙◌, einval,
  enoent, List, [], ◌∷◌, none, some, Result, ok, err, if◌then◌else◌, arith, length, Bool-cases,
}
use native.Mathlib.Numerals.{add-two}
use meshtastic_zephyr.Channels.{
  Channels, ChannelKey, slot, max_channels, is_disabled, inherits, own_key, expand_short_psk,
  get_key_fuel, get_key,
}

-- The answer for a slot that does not inherit: its own key, or why it has none.
unfoldable pub own_answer : Channels → ℕ → Result ChannelKey
own_answer t i =
    if leb max_channels i
    then err einval
    else if not (slot t i).has_settings || is_disabled (slot t i).role
    then err enoent
    else ok (own_key (slot t i).settings.psk)

pub get_key-own :
    (t : Channels) (i f : ℕ)
    → inherits t i ≡ false
    → get_key_fuel (suc f) t i ≡ some (own_answer t i)
unfolding get_key_fuel inherits own_answer
get_key-own t i f h = ground arith

pub get_key-inherited :
    (t : Channels) (i f : ℕ)
    → inherits t i ≡ true
    → get_key_fuel (suc f) t i ≡ get_key_fuel f t t.primary_index
unfolding get_key_fuel inherits
get_key-inherited t i f h = ground arith

-- The slot whose key a slot uses.
unfoldable pub key_slot : Channels → ℕ → ℕ
key_slot t i = if inherits t i then t.primary_index else i

-- `channel_get_key` returns unless both the slot and the primary slot inherit their key, at every
-- depth of at least two calls alike, and then gives the primary slot's own answer for a slot that
-- inherits, and the slot's own answer for any other.
pub get_key-returns :
    (t : Channels) (i f : ℕ)
    → inherits t (key_slot t i) ≡ false
    → (get_key_fuel (f + 2) t i ≡ some (own_answer t (key_slot t i)))
      × (get_key t i ≡ some (own_answer t (key_slot t i)))
unfolding get_key key_slot
get_key-returns t i f h = elim (Bool-cases (inherits t i)) [
  | inl e ↦
      let p : inherits t t.primary_index ≡ false = rw e at h in
      rw (add-two, e, get_key-inherited t i (suc f) e, get_key-inherited t i 1 e)
        (get_key-own t t.primary_index f p, get_key-own t t.primary_index 0 p)
  | inr e ↦ rw (add-two, e) (get_key-own t i (suc f) e, get_key-own t i 1 e)
]

-- Where the primary slot itself inherits, `channel_get_key` on it, and on every slot that inherits,
-- calls itself without end: at no depth has it returned.
pub get_key-diverges :
    (t : Channels) (i f : ℕ)
    → inherits t t.primary_index ≡ true
    → inherits t i ≡ true
    → get_key_fuel f t i ≡ none
unfolding get_key_fuel
get_key-diverges t i zero p h = refl
get_key-diverges t i (suc f) p h =
    get_key-inherited t i f h ∙ get_key-diverges t t.primary_index f p p

-- Where `get_key` gives `none`, the call has not returned at any depth.
pub get_key-none : (t : Channels) (i f : ℕ) → get_key t i ≡ none → get_key_fuel f t i ≡ none
unfolding key_slot
get_key-none t i f lost = elim (Bool-cases (inherits t (key_slot t i))) [
  | inr own ↦ absurd (ground (arith, lost, (get_key-returns t i 0 own).1))
  | inl chain ↦ elim (Bool-cases (inherits t i)) [
    | inl e ↦
        let p : inherits t t.primary_index ≡ true = rw e at chain in get_key-diverges t i f p e
    | inr e ↦ absurd (ground (arith, e, chain))
  ]
]

abbrev pub IsKeyLen : ℕ → Type 0
IsKeyLen n = (n ≡ 0) ⊎ ((n ≡ 16) ⊎ (n ≡ 32))

own_key_len : (psk : List ℕ) → length psk ≤ 32 → IsKeyLen (own_key psk).len
unfolding own_key expand_short_psk
own_key_len [] h = inl refl
own_key_len (b ∷ []) h = ground arith
own_key_len (b ∷ c ∷ psk) h = ground arith

-- Every key that `channel_get_key` gives has no bytes, or those of AES-128 or AES-256, if the PSKs
-- of the slots fit their 32 bytes.
pub get_key_len :
    (t : Channels) (i : ℕ) {key : ChannelKey}
    → ((j : ℕ) → length (slot t j).settings.psk ≤ 32)
    → inherits t (key_slot t i) ≡ false
    → get_key t i ≡ some (ok key)
    → IsKeyLen key.len
unfolding own_answer
get_key_len t i {key} fits h e = ground (
  arith,
  get_key-returns t i 0 h,
  own_key_len (slot t (key_slot t i)).settings.psk (fits (key_slot t i)),
)
