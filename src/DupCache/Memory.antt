-- ===== src/DupCache/Memory.antt =====
-- What the duplicate cache of src/meshtastic_router.c remembers: the packets added last.
use meshtastic_zephyr.Prelude.{
  ℕ, zero, suc, ◌+◌, ◌%◌, ◌≤◌, ◌<◌, ◌≡◌, refl, ◌⊎◌, inl, inr, sym, ap, ◌∙◌, true, ◌||◌, List, [],
  ◌∷◌, ◌++◌, append_assoc, append-nil, arith, length, length-set, length-append, length-drop,
  drop-append, length-replicate, length-take, set, take, drop, take-append-drop, dec_lt,
}
use native.Mathlib.Nat.{mod-eq_of_lt, mod-lt, mod_self}
use meshtastic_zephyr.DupCache.{DupEntry, DupCache, zero_dup, init, found, dup_check, dup_add}

-- The entries, the oldest first.
unfoldable pub remembered : DupCache → List DupEntry
remembered c = drop c.head c.entries ++ take c.head c.entries

found-append :
    (src id : ℕ) (xs ys : List DupEntry)
    → found src id (xs ++ ys) ≡ (found src id ys || found src id xs)
unfolding found
found-append src id [] ys = ground arith
found-append src id (x ∷ xs) ys = ground (arith, found-append src id xs ys)

found-remembered : (src id : ℕ) (c : DupCache) → found src id (remembered c) ≡ dup_check c src id
unfolding remembered dup_check
found-remembered src id c = ground (
  arith,
  found-append src id (drop c.head c.entries) (take c.head c.entries),
  found-append src id (take c.head c.entries) (drop c.head c.entries),
  take-append-drop c.head c.entries,
)

take-set :
    (i : ℕ) (xs : List DupEntry) (e : DupEntry)
    → i < length xs
    → take (suc i) (set xs i e) ≡ take i xs ++ (e ∷ [])
take-set i [] e h = absurd (omega arith)
take-set zero (x ∷ xs) e h = refl
take-set (suc i) (x ∷ xs) e h = ap (◌∷◌ x) (take-set i xs e (omega arith))

drop-set : (i : ℕ) (xs : List DupEntry) (e : DupEntry) → drop (suc i) (set xs i e) ≡ drop (suc i) xs
drop-set i [] e = refl
drop-set zero (x ∷ xs) e = refl
drop-set (suc i) (x ∷ xs) e = drop-set i xs e

drop-one : (i : ℕ) (xs : List DupEntry) → drop 1 (drop i xs) ≡ drop (suc i) xs
drop-one zero xs = refl
drop-one (suc i) [] = refl
drop-one (suc i) (x ∷ xs) = drop-one i xs

drop-one_append : (xs ys : List DupEntry) → 0 < length xs → drop 1 (xs ++ ys) ≡ drop 1 xs ++ ys
drop-one_append [] ys h = absurd (omega arith)
drop-one_append (x ∷ xs) ys h = refl

drop-all : (n : ℕ) (xs : List DupEntry) → length xs ≤ n → drop n xs ≡ []
drop-all zero [] h = refl
drop-all zero (x ∷ xs) h = absurd (omega arith)
drop-all (suc n) [] h = refl
drop-all (suc n) (x ∷ xs) h = drop-all n xs (omega arith)

-- The ring has as many entries as it was given, and its head points into it.
pub record IsRing (size : ℕ) (c : DupCache) : Type 0 where
  pub small : size < 256
  pub full : length c.entries ≡ size
  pub head_in : c.head < size

next_in : (size head : ℕ) → head < size → size < 256 → (head + 1) % size % 256 < size
next_in size head h small = omega (
  arith,
  mod-lt (head + 1) {m = size} (omega arith),
  mod-eq_of_lt {n = (head + 1) % size} {m = 256}
      (next_small (mod-lt (head + 1) {m = size} (omega arith))),
)
  where
    next_small : (head + 1) % size < size → (head + 1) % size < 256
    next_small lt = omega arith

-- The head after one more entry.
next_head :
    (size head : ℕ)
    → head < size
    → size < 256
    → ((head + 1 < size) × ((head + 1) % size % 256 ≡ suc head))
      ⊎ ((size ≡ suc head) × ((head + 1) % size % 256 ≡ 0))
next_head size head h small = elim (dec_lt (head + 1) size) [
  | yes inside ↦ inl (
    inside,
    rw
        (
          mod-eq_of_lt {n = head + 1} {m = size} inside,
          mod-eq_of_lt {n = head + 1} {m = 256} (omega arith),
        )
        (omega arith),
  )
  | no outside ↦
      let end : head + 1 ≡ size = omega arith in inr (omega arith, rw (end, mod_self size) refl)
]

take-all : (n : ℕ) (xs : List DupEntry) → length xs ≤ n → take n xs ≡ xs
take-all zero [] h = refl
take-all zero (x ∷ xs) h = absurd (omega arith)
take-all (suc n) [] h = refl
take-all (suc n) (x ∷ xs) h = ap (◌∷◌ x) (take-all n xs (omega arith))

pub dup_add-IsRing :
    (size : ℕ) (e : DupEntry) (c : DupCache) → IsRing size c → IsRing size (dup_add size e c)
unfolding dup_add
dup_add-IsRing size e c r = record {
  small = r.small;
  full = length-set c.entries c.head e ∙ r.full;
  head_in = next_in size c.head r.head_in r.small;
}

shifted :
    (i : ℕ) (xs : List DupEntry) (e : DupEntry)
    → i < length xs
    → drop 1 (drop i xs ++ take i xs) ++ (e ∷ [])
      ≡ drop (suc i) (set xs i e) ++ take (suc i) (set xs i e)
shifted i xs e h =
    let some_left : 0 < length (drop i xs) = omega (arith, length-drop i xs) in
    rw
      (
        drop-one_append (drop i xs) (take i xs) some_left,
        drop-one i xs,
        drop-set i xs e,
        take-set i xs e h,
      )
      (append_assoc (drop (suc i) xs) (take i xs) (e ∷ []))

-- `dup_add` forgets the oldest entry.
dup_add-remembered :
    (size : ℕ) (e : DupEntry) (c : DupCache)
    → IsRing size c
    → remembered (dup_add size e c) ≡ drop 1 (remembered c) ++ (e ∷ [])
unfolding dup_add remembered
dup_add-remembered size e c r =
    let h : c.head < length c.entries = omega (arith, r.full, r.head_in) in
    let ring = set c.entries c.head e in
    elim (next_head size c.head r.head_in r.small) [
      | inl (inside, next) ↦ rw next (sym (shifted c.head c.entries e h))
      | inr (last, next) ↦
          let end : length ring ≤ suc c.head =
            omega (arith, length-set c.entries c.head e, r.full) in
          rw (
            next,
            append-nil,
            shifted c.head c.entries e h,
            drop-all (suc c.head) ring end,
            take-all (suc c.head) ring end,
          )
    ]

-- The entries added one after the other.
unfoldable pub add_all : ℕ → List DupEntry → DupCache → DupCache
add_all size [] c = c
add_all size (e ∷ es) c = add_all size es (dup_add size e c)

remembered_size : (size : ℕ) (c : DupCache) → IsRing size c → length (remembered c) ≡ size
unfolding remembered
remembered_size size c r = omega (
  arith,
  length-append (drop c.head c.entries) (take c.head c.entries),
  length-drop c.head c.entries,
  length-take c.head c.entries,
  r.full,
  r.head_in,
)

drop-snoc :
    (n : ℕ) (xs ys : List DupEntry) (e : DupEntry)
    → 0 < length xs
    → drop n ((drop 1 xs ++ (e ∷ [])) ++ ys) ≡ drop (suc n) (xs ++ (e ∷ ys))
drop-snoc n [] ys e h = absurd (omega arith)
drop-snoc n (x ∷ xs) ys e h = ap (drop n) (append_assoc xs (e ∷ []) ys)

add_all-remembered :
    (size : ℕ) (es : List DupEntry) (c : DupCache)
    → IsRing size c
    → remembered (add_all size es c) ≡ drop (length es) (remembered c ++ es)
unfolding add_all
add_all-remembered size [] c r = sym (append-nil (remembered c))
add_all-remembered size (e ∷ es) c r =
    let some_left : 0 < length (remembered c) =
      omega (arith, remembered_size size c r, r.head_in) in
    add_all-remembered size es (dup_add size e c) (dup_add-IsRing size e c r)
    ∙ rw (dup_add-remembered size e c r) (drop-snoc (length es) (remembered c) es e some_left)

pub init-IsRing : (size : ℕ) → 0 < size → size < 256 → IsRing size (init size)
unfolding init
init-IsRing size some_slot small = record {
  small = small;
  full = length-replicate size zero_dup;
  head_in = some_slot;
}

found_middle :
    (e : DupEntry) (xs ys : List DupEntry) → found e.src e.id ((xs ++ (e ∷ [])) ++ ys) ≡ true
unfolding found
found_middle e xs ys =
    ground (arith, found-append e.src e.id (xs ++ (e ∷ [])) ys, found-append e.src e.id xs (e ∷ []))

-- A packet is found while fewer packets than the ring has entries were added after it.
pub dup_check-recent :
    (size : ℕ) (e : DupEntry) (es : List DupEntry) (c : DupCache)
    → IsRing size c
    → length es < size
    → dup_check (add_all size es (dup_add size e c)) e.src e.id ≡ true
dup_check-recent size e es c r fewer =
    let q = remembered c in
    let added = dup_add size e c in
    let room : length es ≤ length (drop 1 q ++ (e ∷ [])) =
      omega (arith, length-append (drop 1 q) (e ∷ []), length-drop 1 q, remembered_size size c r) in
    let before : length es ≤ length (drop 1 q) =
      omega (arith, length-drop 1 q, remembered_size size c r) in
    sym (found-remembered e.src e.id (add_all size es added))
    ∙ ap (found e.src e.id) (add_all-remembered size es added (dup_add-IsRing size e c r))
    ∙ rw
        (
          dup_add-remembered size e c r,
          drop-append (length es) (drop 1 q ++ (e ∷ [])) es room,
          drop-append (length es) (drop 1 q) (e ∷ []) before,
        )
        (found_middle e (drop (length es) (drop 1 q)) es)
