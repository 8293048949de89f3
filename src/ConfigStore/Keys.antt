-- ===== src/ConfigStore/Keys.antt =====
-- The keys under which the parts of the store are exported, and how they are read back.
use meshtastic_zephyr.Prelude.{
  ℕ, zero, suc, ◌+◌, ◌<◌, ◌≤◌, ◌==◌, ==_iff, ◌≡◌, refl, ap, sym, Bool-cases, inl, inr, Bool, true,
  false, List, [], ◌∷◌, ◌++◌, map, Result, ok, err, arith, get_or, take, codes, every, at-every,
}
use mathlib.Core.Path.{subst}
use mathlib.Core.List.{Memᴰ}
use mathlib.Core.List.Memᴰ
use meshtastic_zephyr.Channels.{max_channels}
use meshtastic_zephyr.ConfigStore.{
  NamedConfig, config_names, module_names, parse_channel_index, index_for_config_name,
  index_for_module_name,
}
use meshtastic_zephyr.ConfigStore.Settings.{
  Key, of_owner, of_channel, of_config, of_module, classify, channel_key, export_keys,
}

-- The parts of the store that have a key
pub data Part : Type 0 where
  owner_part : Part
  channel_part config_part module_part : ℕ → Part

unfoldable pub IsPart : Part → Type 0
IsPart owner_part = 0 < 1
IsPart (channel_part i) = i < max_channels
IsPart (config_part i) = i < 10
IsPart (module_part i) = i < 16

abbrev pub name_at : List NamedConfig → ℕ → List ℕ
name_at names idx = (get_or names idx (record { name = []; tag = 0 })).name

abbrev pub key_of : Part → List ℕ
key_of owner_part = codes "owner"
key_of (channel_part i) = channel_key i
key_of (config_part i) = take 39 (codes "config/" ++ name_at config_names i)
key_of (module_part i) = take 39 (codes "module/" ++ name_at module_names i)

abbrev parts_from : (ℕ → Part) → ℕ → ℕ → List Part
parts_from f i zero = []
parts_from f i (suc n) = f i ∷ parts_from f (i + 1) n

abbrev pub all_parts : List Part
all_parts =
    owner_part ∷ parts_from channel_part 0 max_channels
    ++ parts_from config_part 0 10
    ++ parts_from module_part 0 16

pub export_keys-eq : export_keys ≡ map key_of all_parts
export_keys-eq = refl

parts_from-Mem : (f : ℕ → Part) (i n j : ℕ) → i ≤ j → j < i + n → Memᴰ (f j) (parts_from f i n)
parts_from-Mem f i zero j le lt = absurd (omega arith)
parts_from-Mem f i (suc n) j le lt = elim (Bool-cases (i == j)) [
  | inl same ↦ Memᴰ.head (ap f (sym ((==_iff i j).0 same)))
  | inr other ↦ Memᴰ.tail (parts_from-Mem f (i + 1) n j (ground (arith, other)) (omega arith))
]

pub all_parts-Mem : (p : Part) → IsPart p → Memᴰ p all_parts
unfolding IsPart
all_parts-Mem owner_part h = Memᴰ.head refl
all_parts-Mem (channel_part i) h =
    Memᴰ.tail (Memᴰ.append_left _ (parts_from-Mem channel_part 0 8 i (omega arith) (omega arith)))
all_parts-Mem (config_part i) h = Memᴰ.tail (
    Memᴰ.append_right (parts_from channel_part 0 8)
      (Memᴰ.append_left _ (parts_from-Mem config_part 0 10 i (omega arith) (omega arith))))
all_parts-Mem (module_part i) h = Memᴰ.tail (
    Memᴰ.append_right (parts_from channel_part 0 8) (
      Memᴰ.append_right (parts_from config_part 0 10)
        (parts_from-Mem module_part 0 16 i (omega arith) (omega arith))))

parts_from-inv :
    (f : ℕ → Part) (i n : ℕ) {p : Part}
    → Memᴰ p (parts_from f i n)
    → (j : ℕ) × (p ≡ f j) × (j < i + n)
parts_from-inv f i zero m = elim m [ ]
parts_from-inv f i (suc n) (Memᴰ.head e) = (i, e, omega arith)
parts_from-inv f i (suc n) (Memᴰ.tail m) =
    let (j, e, lt) = parts_from-inv f (i + 1) n m in (j, e, omega (arith, lt))

pub all_parts-IsPart : (p : Part) → Memᴰ p all_parts → IsPart p
unfolding IsPart
all_parts-IsPart p (Memᴰ.head e) = subst IsPart (sym e) (omega arith)
all_parts-IsPart p (Memᴰ.tail m) = elim (Memᴰ.append_cases (parts_from channel_part 0 8) m) [
  | inl a ↦ let (j, e, lt) = parts_from-inv channel_part 0 8 a in subst IsPart (sym e) (omega arith)
  | inr b ↦ elim (Memᴰ.append_cases (parts_from config_part 0 10) b) [
    | inl c ↦
        let (j, e, lt) = parts_from-inv config_part 0 10 c in subst IsPart (sym e) (omega arith)
    | inr d ↦
        let (j, e, lt) = parts_from-inv module_part 0 16 d in subst IsPart (sym e) (omega arith)
  ]
]

-- A key is read as that of its part, at the part's place.
pub owner_key : classify (key_of owner_part) ≡ of_owner
unfolding classify
owner_key = refl

pub channel_key_lem : (i : ℕ) → classify (key_of (channel_part i)) ≡ of_channel ((b'0' + i) ∷ [])
unfolding classify
channel_key_lem i = refl

pub parse-channel_key :
    (ulong_max i : ℕ)
    → 255 ≤ ulong_max
    → i < max_channels
    → parse_channel_index ulong_max ((b'0' + i) ∷ []) ≡ ok i
unfolding parse_channel_index
parse-channel_key ulong_max i big lt = ground arith

abbrev is_at : Result ℕ → ℕ → Bool
is_at (ok j) i = j == i
is_at (err e) i = false

is_at_lem : (r : Result ℕ) (i : ℕ) → is_at r i ≡ true → r ≡ ok i
is_at_lem (ok j) i e = ap ok ((==_iff j i).0 e)
is_at_lem (err e) i h = absurd (cc h)

abbrev is_config_at : Key → ℕ → Bool
is_config_at (of_config name) i = is_at (index_for_config_name name) i
is_config_at _ i = false

abbrev is_module_at : Key → ℕ → Bool
is_module_at (of_module name) i = is_at (index_for_module_name name) i
is_module_at _ i = false

config_key_table : every (λ i. is_config_at (classify (key_of (config_part i))) i) 10 ≡ true
unfolding every classify index_for_config_name
config_key_table = refl

module_key_table : every (λ i. is_module_at (classify (key_of (module_part i))) i) 16 ≡ true
unfolding every classify index_for_module_name
module_key_table = refl

config_key_at :
    (key : Key) (i : ℕ)
    → is_config_at key i ≡ true
    → (name : List ℕ) × (key ≡ of_config name) × (index_for_config_name name ≡ ok i)
config_key_at (of_config name) i e = (name, refl, is_at_lem _ i e)
config_key_at _ i e = absurd (cc e)

module_key_at :
    (key : Key) (i : ℕ)
    → is_module_at key i ≡ true
    → (name : List ℕ) × (key ≡ of_module name) × (index_for_module_name name ≡ ok i)
module_key_at (of_module name) i e = (name, refl, is_at_lem _ i e)
module_key_at _ i e = absurd (cc e)

pub config_key :
    (i : ℕ)
    → i < 10
    → (name : List ℕ) × (classify (key_of (config_part i)) ≡ of_config name)
      × (index_for_config_name name ≡ ok i)
config_key i lt =
    config_key_at (classify (key_of (config_part i))) i
      (at-every _ {byte = i} 10 lt config_key_table)

pub module_key :
    (i : ℕ)
    → i < 16
    → (name : List ℕ) × (classify (key_of (module_part i)) ≡ of_module name)
      × (index_for_module_name name ≡ ok i)
module_key i lt =
    module_key_at (classify (key_of (module_part i))) i
      (at-every _ {byte = i} 16 lt module_key_table)
