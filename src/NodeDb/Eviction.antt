-- ===== src/NodeDb/Eviction.antt =====
-- `oldest_evictable_index_locked` of src/meshtastic_nodedb.c.
use meshtastic_zephyr.Prelude.{
  ℕ, suc, ◌+◌, ◌-◌, ◌≤◌, ◌<◌, ◌^◌, ◌==◌, ltb, ◌≡◌, ◌≢◌, refl, true, not, ◌||◌, List, [], ◌∷◌,
  Option, none, some, arith, get_elem?, Bool-cases, Option-cases, ◌⊎◌, inl, inr, length,
}
use meshtastic_zephyr.NodeDb.{Entry, find_entry, oldest_from, oldest_evictable, get_or_create}
use meshtastic_zephyr.NodeDb.Table.{get_or_create-Placed}

-- No entry of another node than `local` was last heard before `heard`.
unfoldable pub NoneOlder : ℕ → ℕ → List Entry → Type 0
NoneOlder local heard [] = 0 ≤ heard
NoneOlder local heard (e ∷ es) =
    (e.used ≡ true → e.node.num ≢ local → heard ≤ e.node.last_heard) × NoneOlder local heard es

NoneOlder-le :
    (local m n : ℕ) (es : List Entry) → m ≤ n → NoneOlder local n es → NoneOlder local m es
unfolding NoneOlder
NoneOlder-le local m n [] h o = omega arith
NoneOlder-le local m n (e ∷ es) h o = ground (arith, NoneOlder-le local m n es h o.1)

-- The entry of `es` that the scan from index `i` on ended at.
record Oldest (local i oldest k : ℕ) (es : List Entry) : Type 0 where
  offset : ℕ
  entry : Entry
  index : k ≡ i + offset
  there : get_elem? es offset ≡ some entry
  used : entry.used ≡ true
  foreign : entry.node.num ≢ local
  before : entry.node.last_heard < oldest
  least : NoneOlder local entry.node.last_heard es

oldest_from_lem :
    (local i oldest k : ℕ) (best : Option ℕ) (es : List Entry)
    → oldest_from local i oldest best es ≡ some k
    → ((best ≡ some k) × NoneOlder local oldest es) ⊎ Oldest local i oldest k es
unfolding oldest_from NoneOlder
oldest_from_lem local i oldest k best [] h = inl (h, omega arith)
oldest_from_lem local i oldest k best (e ∷ es) h =
    elim (Bool-cases (not e.used || (e.node.num == local))) [
      | inl kept ↦ elim (oldest_from_lem local (i + 1) oldest k best es (ground arith)) [
        | inl (same, older) ↦ inl (same, ground arith)
        | inr o ↦ inr (record {
          offset = suc o.offset;
          entry = o.entry;
          index = omega (arith, o.index);
          there = o.there;
          used = o.used;
          foreign = o.foreign;
          before = o.before;
          least = ground (arith, o.least);
        })
      ]
      | inr evictable ↦ elim (Bool-cases (ltb e.node.last_heard oldest)) [
        | inl older ↦
            elim (oldest_from_lem local (i + 1) e.node.last_heard k (some i) es (ground arith)) [
              | inl (same, least) ↦ inr (record {
                offset = 0;
                entry = e;
                index = ground arith;
                there = refl;
                used = ground arith;
                foreign = ground arith;
                before = ground arith;
                least = ground (arith, least);
              })
              | inr o ↦ inr (record {
                offset = suc o.offset;
                entry = o.entry;
                index = omega (arith, o.index);
                there = o.there;
                used = o.used;
                foreign = o.foreign;
                before = ground (arith, o.before);
                least = ground (arith, o.least, o.before);
              })
            ]
        | inr newer ↦ elim (oldest_from_lem local (i + 1) oldest k best es (ground arith)) [
          | inl (same, least) ↦ inl (same, ground (arith, least))
          | inr o ↦ inr (record {
            offset = suc o.offset;
            entry = o.entry;
            index = omega (arith, o.index);
            there = o.there;
            used = o.used;
            foreign = o.foreign;
            before = o.before;
            least = ground (arith, o.least, o.before);
          })
        ]
      ]
    ]

pub oldest_evictable_lem :
    (local k : ℕ) (es : List Entry)
    → oldest_evictable local es ≡ some k
    → (e : Entry) × (get_elem? es k ≡ some e)
      × (e.node.num ≢ local)
      × NoneOlder local e.node.last_heard es
unfolding oldest_evictable
oldest_evictable_lem local k es h = elim (oldest_from_lem local 0 (2 ^ 32 - 1) k none es h) [
  | inl (nowhere, _) ↦ absurd (ground arith)
  | inr o ↦
      let same : k ≡ o.offset = omega (arith, o.index) in
      (o.entry, rw same o.there, o.foreign, o.least)
]

-- A scan that has found an entry ends with one.
oldest_from-some :
    (local i oldest k : ℕ) (es : List Entry) → oldest_from local i oldest (some k) es ≢ none
unfolding oldest_from
oldest_from-some local i oldest k [] h = cc
oldest_from-some local i oldest k (e ∷ es) h =
    elim (Bool-cases (not e.used || (e.node.num == local))) [
      | inl kept ↦ oldest_from-some local (i + 1) oldest k es (ground arith)
      | inr evictable ↦ elim (Bool-cases (ltb e.node.last_heard oldest)) [
        | inl older ↦ oldest_from-some local (i + 1) e.node.last_heard i es (ground arith)
        | inr newer ↦ oldest_from-some local (i + 1) oldest k es (ground arith)
      ]
    ]

oldest_from-none :
    (local i oldest : ℕ) (es : List Entry)
    → oldest_from local i oldest none es ≡ none
    → NoneOlder local oldest es
unfolding oldest_from NoneOlder
oldest_from-none local i oldest [] h = omega arith
oldest_from-none local i oldest (e ∷ es) h =
    elim (Bool-cases (not e.used || (e.node.num == local))) [
      | inl kept ↦ ground (arith, oldest_from-none local (i + 1) oldest es (ground arith))
      | inr evictable ↦ elim (Bool-cases (ltb e.node.last_heard oldest)) [
        | inl older ↦ absurd (oldest_from-some local (i + 1) e.node.last_heard i es (ground arith))
        | inr newer ↦ ground (arith, oldest_from-none local (i + 1) oldest es (ground arith))
      ]
    ]

-- The table has no room for a node: it is full of others, and each of them but the local one was
-- heard at the last second that a counter of 32 bits has, or later.
pub record IsStuck (max_nodes local n : ℕ) (es : List Entry) : Type 0 where
  pub unknown : find_entry n es ≡ none
  pub full : max_nodes ≤ length es
  pub recent : NoneOlder local (2 ^ 32 - 1) es

pub get_or_create-IsStuck :
    (max_nodes local n : ℕ) (es : List Entry)
    → n ≢ 0
    → get_or_create max_nodes local n es ≡ none
    → IsStuck max_nodes local n es
unfolding get_or_create oldest_evictable
get_or_create-IsStuck max_nodes local n es ne h = elim (Option-cases (find_entry n es)) [
  | inr (i, there) ↦ absurd (ground (arith, there))
  | inl lost ↦ elim (Bool-cases (ltb (length es) max_nodes)) [
    | inl room ↦ absurd (ground (arith, lost))
    | inr full ↦ elim (Option-cases (oldest_from local 0 (2 ^ 32 - 1) none es)) [
      | inr (i, oldest) ↦ absurd (ground (arith, lost, oldest))
      | inl nobody ↦ record {
        unknown = lost;
        full = ground arith;
        recent = oldest_from-none local 0 (2 ^ 32 - 1) es nobody;
      }
    ]
  ]
]

-- A node that is not in the table takes the place of another only if the table is full, and then of
-- an entry that is not the local node's and was heard no later than any other such entry.
pub get_or_create_evicts :
    (max_nodes local n : ℕ) (es es' : List Entry) (i : ℕ)
    → find_entry n es ≡ none
    → get_or_create max_nodes local n es ≡ some (es', i)
    → ((length es < max_nodes) × (i ≡ length es))
      ⊎ ((max_nodes ≤ length es)
          × ((e : Entry) × (get_elem? es i ≡ some e)
              × (e.node.num ≢ local)
              × NoneOlder local e.node.last_heard es))
get_or_create_evicts max_nodes local n es es' i lost h =
    elim ((get_or_create-Placed max_nodes local n es es' i h).way) [
      | inl (there, _) ↦ absurd (ground arith)
      | inr (_, inl (room, added, last)) ↦ inl (room, last)
      | inr (_, inr (full, oldest, replaced)) ↦ inr (full, oldest_evictable_lem local i es oldest)
    ]
