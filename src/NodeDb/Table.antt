-- ===== src/NodeDb/Table.antt =====
-- The node table of src/meshtastic_nodedb.c: `get_or_create_entry_locked` keeps it well formed, and
-- evicts the node that was silent for longest.
use meshtastic_zephyr.Prelude.{
  ℕ, zero, suc, ◌≤◌, ◌<◌, ◌≡◌, ◌≢◌, refl, sym, true, List, [], ◌∷◌, ◌++◌, none, some, arith, length,
  length-append, length-set, set, Option-cases, ◌⊎◌, inl, inr,
}
use meshtastic_zephyr.NodeDb.{Entry, new_entry, find_entry, oldest_evictable, get_or_create}

-- No entry of the table is for the node.
unfoldable pub IsAbsent : ℕ → List Entry → Type 0
IsAbsent n [] = 0 ≤ n
IsAbsent n (e ∷ es) = (e.node.num ≢ n) × IsAbsent n es

-- Every entry is in use, for a node number that is not 0, and no two are for the same node.
unfoldable pub IsTable : List Entry → Type 0
IsTable [] = 0 ≤ 0
IsTable (e ∷ es) = (e.used ≡ true) × (e.node.num ≢ 0) × IsAbsent e.node.num es × IsTable es

find_none : (n : ℕ) (es : List Entry) → IsTable es → find_entry n es ≡ none → IsAbsent n es
unfolding IsTable IsAbsent find_entry
find_none n [] v h = omega arith
find_none n (e ∷ es) v h = elim (Option-cases (find_entry n es)) [
  | inl lost ↦ ground (arith, find_none n es v.3 lost)
  | inr (i, there) ↦ absurd (ground arith)
]

IsAbsent-append :
    (n m : ℕ) (es : List Entry) → IsAbsent n es → m ≢ n → IsAbsent n (es ++ (new_entry m ∷ []))
unfolding IsAbsent
IsAbsent-append n m [] a ne = ground arith
IsAbsent-append n m (e ∷ es) a ne = (a.0, IsAbsent-append n m es a.1 ne)

IsAbsent-set :
    (n m i : ℕ) (es : List Entry) → IsAbsent n es → m ≢ n → IsAbsent n (set es i (new_entry m))
unfolding IsAbsent
IsAbsent-set n m i [] a ne = a
IsAbsent-set n m zero (e ∷ es) a ne = (ne, a.1)
IsAbsent-set n m (suc i) (e ∷ es) a ne = (a.0, IsAbsent-set n m i es a.1 ne)

append-IsTable :
    (n : ℕ) (es : List Entry)
    → IsTable es
    → IsAbsent n es
    → n ≢ 0
    → IsTable (es ++ (new_entry n ∷ []))
unfolding IsTable IsAbsent
append-IsTable n [] v a h = ground arith
append-IsTable n (e ∷ es) v a h = (
  v.0,
  v.1,
  IsAbsent-append e.node.num n es v.2 (λ q. a.0 (sym q)),
  append-IsTable n es v.3 a.1 h,
)

set-IsTable :
    (n i : ℕ) (es : List Entry)
    → IsTable es
    → IsAbsent n es
    → n ≢ 0
    → IsTable (set es i (new_entry n))
unfolding IsTable IsAbsent
set-IsTable n i [] v a h = v
set-IsTable n zero (e ∷ es) v a h = (refl, h, a.1, v.3)
set-IsTable n (suc i) (e ∷ es) v a h =
    (v.0, v.1, IsAbsent-set e.node.num n i es v.2 (λ q. a.0 (sym q)), set-IsTable n i es v.3 a.1 h)

-- What `get_or_create` did: it found the entry, added one, or replaced an evictable one.
pub record Placed (max_nodes local n : ℕ) (es es' : List Entry) (i : ℕ) : Type 0 where
  pub some_node : n ≢ 0
  pub way :
      ((find_entry n es ≡ some i) × (es' ≡ es))
      ⊎ ((find_entry n es ≡ none)
          × (((length es < max_nodes) × (es' ≡ es ++ (new_entry n ∷ [])) × (i ≡ length es))
              ⊎ ((max_nodes ≤ length es)
                  × (oldest_evictable local es ≡ some i)
                  × (es' ≡ set es i (new_entry n)))))

pub get_or_create-Placed :
    (max_nodes local n : ℕ) (es es' : List Entry) (i : ℕ)
    → get_or_create max_nodes local n es ≡ some (es', i)
    → Placed max_nodes local n es es' i
unfolding get_or_create
get_or_create-Placed max_nodes local n es es' i e = elim (Option-cases (find_entry n es)) [
  | inl lost ↦ elim (Option-cases (oldest_evictable local es)) [
    | inl all_kept ↦ record { some_node = ground arith; way = inr (lost, ground arith) }
    | inr (j, oldest) ↦ record { some_node = ground arith; way = inr (lost, ground arith) }
  ]
  | inr (j, there) ↦ record { some_node = ground arith; way = inl (ground arith) }
]

-- The table stays well formed and within its size, whatever node is asked for.
pub get_or_create-IsTable :
    (max_nodes local n : ℕ) (es es' : List Entry) (i : ℕ)
    → IsTable es
    → length es ≤ max_nodes
    → get_or_create max_nodes local n es ≡ some (es', i)
    → IsTable es' × (length es' ≤ max_nodes)
get_or_create-IsTable max_nodes local n es es' i v fits e =
    let p = get_or_create-Placed max_nodes local n es es' i e in
    elim p.way [
      | inl (there, same) ↦ rw same (v, fits)
      | inr (lost, inl (room, added, last)) ↦ rw added (
        append-IsTable n es v (find_none n es v lost) p.some_node,
        omega (arith, length-append es (new_entry n ∷ [])),
      )
      | inr (lost, inr (full, oldest, replaced)) ↦ rw replaced (
        set-IsTable n i es v (find_none n es v lost) p.some_node,
        omega (arith, length-set es i (new_entry n)),
      )
    ]
