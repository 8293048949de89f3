-- ===== src/NodeInfo/Peers.antt =====
-- What a call on one node's entry leaves of the entries.
use meshtastic_zephyr.Prelude.{
  ℕ, zero, suc, ◌+◌, ◌<◌, ◌==◌, ==_iff, ltb, ◌≡◌, ◌≢◌, refl, sym, ap, ◌∙◌, ◌⊎◌, inl, inr, true,
  false, Bool-cases, List, [], ◌∷◌, Option, none, some, arith, if◌then◌else◌, length, get_or, set,
}
use mathlib.Core.Path.{subst}
use meshtastic_zephyr.NodeInfo.{
  Peer, Place, at, free, full, scan, find, no_peer, fresh, peer_get, peer_at, written_at, update,
  got,
}

-- A node's entry, as the loop finds it: before any free one
unfoldable pub lookup : ℕ → List Peer → Option Peer
lookup node [] = none
lookup node (p ∷ ps) =
    let rest = lookup node ps in
    if p.node == node then some p else if p.node == 0 then none else rest

-- A call for `node` that gives it the place of the entry of `other`
pub record Evicts (node other : ℕ) (peers : List Peer) : Type 0 where
  pub place : ℕ
  pub is_full : find node peers ≡ full place
  pub taken : (get_or peers place no_peer).node ≡ other

-- The entry that `lookup` finds is the one at which the loop ends, and a write there is found.
pub scan-lookup :
    (node : ℕ) (ps : List Peer) (i oldest seen : ℕ) (p : Peer)
    → lookup node ps ≡ some p
    → (k : ℕ) × (scan node ps i oldest seen ≡ at (i + k))
      × (get_or ps k no_peer ≡ p)
      × ((q : Peer) → (q.node == node) ≡ true → lookup node (set ps k q) ≡ some q)
unfolding scan lookup
scan-lookup node [] i oldest seen p e = absurd (cc e)
scan-lookup node (x ∷ ps) i oldest seen p e = elim (Bool-cases (x.node == node)) [
  | inl here ↦ (0, rw here (ap at (omega arith)), ground (arith, here), λ q same. rw same refl)
  | inr other ↦ elim (Bool-cases (x.node == 0)) [
    | inl nothing ↦ absurd (ground (arith, other, nothing))
    | inr used ↦
        let rest : lookup node ps ≡ some p = ground (arith, other, used) in
        let older = ltb x.last_seen_ms seen in
        let (k, ends, entry, written) =
          scan-lookup node ps (i + 1) (if older then i else oldest)
            (if older then x.last_seen_ms else seen) p rest in
        (
          suc k,
          rw (other, used, ends) (ap at (omega arith)),
          entry,
          λ q same. rw (other, used) (written q same),
        )
  ]
]

-- All entries are in use by other nodes.
data Passed (node : ℕ) : List Peer → Type 0 where
  none_passed : Passed node []
  passed :
      {p : Peer} {ps : List Peer}
      → (p.node == node) ≡ false
      → (p.node == 0) ≡ false
      → Passed node ps
      → Passed node (p ∷ ps)

Passed-set :
    (node k : ℕ) (ps : List Peer) (q : Peer)
    → Passed node ps
    → k < length ps
    → (q.node == node) ≡ true
    → lookup node (set ps k q) ≡ some q
unfolding lookup
Passed-set node k [] q none_passed lt same = absurd (omega arith)
Passed-set node zero (p ∷ ps) q (passed other used rest) lt same = rw same refl
Passed-set node (suc k) (p ∷ ps) q (passed other used rest) lt same =
    rw (other, used) (Passed-set node k ps q rest (omega arith) same)

-- A write at place `k` is found.
Written : ℕ → List Peer → ℕ → Type 0
Written node ps k = (q : Peer) → (q.node == node) ≡ true → lookup node (set ps k q) ≡ some q

-- Wherever the loop ends, a write there is found, and whose the entry was is known.
data Ends (node : ℕ) (ps : List Peer) (i oldest : ℕ) (place : Place) : Type 0 where
  ends_at :
      (k : ℕ)
      → place ≡ at (i + k)
      → Written node ps k
      → (get_or ps k no_peer).node ≡ node
      → Ends node ps i oldest place
  ends_free :
      (k : ℕ)
      → place ≡ free (i + k)
      → Written node ps k
      → (get_or ps k no_peer).node ≡ 0
      → Ends node ps i oldest place
  ends_full :
      (j : ℕ)
      → place ≡ full j
      → Passed node ps
      → (j ≡ oldest) ⊎ (j < i + length ps)
      → Ends node ps i oldest place

Written-cons :
    (node : ℕ) (x : Peer) (ps : List Peer) (k : ℕ)
    → (x.node == node) ≡ false
    → (x.node == 0) ≡ false
    → Written node ps k
    → Written node (x ∷ ps) (suc k)
unfolding lookup Written
Written-cons node x ps k other used w q same = rw (other, used) (w q same)

Written-here : (node : ℕ) (x : Peer) (ps : List Peer) → Written node (x ∷ ps) 0
unfolding lookup Written
Written-here node x ps q same = rw same refl

Ends-cons :
    (node : ℕ) (x : Peer) (ps : List Peer) (i oldest o : ℕ) (place : Place)
    → (x.node == node) ≡ false
    → (x.node == 0) ≡ false
    → (o ≡ i) ⊎ (o ≡ oldest)
    → Ends node ps (i + 1) o place
    → Ends node (x ∷ ps) i oldest place
Ends-cons node x ps i oldest o place other used old (ends_at k e w n) =
    ends_at (suc k) (e ∙ ap at (omega arith)) (Written-cons node x ps k other used w) n
Ends-cons node x ps i oldest o place other used old (ends_free k e w n) =
    ends_free (suc k) (e ∙ ap free (omega arith)) (Written-cons node x ps k other used w) n
Ends-cons node x ps i oldest o place other used old (ends_full j e p b) =
    ends_full j e (passed other used p) (ground (arith, old, b))

scan-Ends :
    (node : ℕ) (ps : List Peer) (i oldest seen : ℕ)
    → Ends node ps i oldest (scan node ps i oldest seen)
unfolding scan
scan-Ends node [] i oldest seen = ends_full oldest refl none_passed (inl refl)
scan-Ends node (x ∷ ps) i oldest seen = elim (Bool-cases (x.node == node)) [
  | inl here ↦
      ends_at 0 (rw here (ap at (omega arith))) (Written-here node x ps)
        ((==_iff x.node node).0 here)
  | inr other ↦ elim (Bool-cases (x.node == 0)) [
    | inl nothing ↦
        ends_free 0 (rw (other, nothing) (ap free (omega arith))) (Written-here node x ps)
          ((==_iff x.node 0).0 nothing)
    | inr used ↦
        let older = ltb x.last_seen_ms seen in
        let o = (if older then i else oldest) in
        let rest = scan-Ends node ps (i + 1) o (if older then x.last_seen_ms else seen) in
        let old : (o ≡ i) ⊎ (o ≡ oldest) = ground arith in
        rw (other, used) (Ends-cons node x ps i oldest o _ other used old rest)
  ]
]

zero-add : (k : ℕ) → 0 + k ≡ k
zero-add k = omega arith

-- A node's own entry is what a call for it gets, with the time of the call.
pub got-lookup :
    (node now_ms : ℕ) (ps : List Peer) (p : Peer)
    → lookup node ps ≡ some p
    → got node now_ms ps ≡ record p { last_seen_ms = now_ms }
unfolding peer_get
got-lookup node now_ms ps p e =
    let (k, ends, entry, written) =
      scan-lookup node ps 0 0 (get_or ps 0 no_peer).last_seen_ms p e in
    ap (λ x. (peer_at node now_ms ps x).1) (ends ∙ ap at (zero-add k))
    ∙ ap (λ (x : Peer). record x { last_seen_ms = now_ms }) entry

-- After a call for a node its entry is found as the call left it.
pub lookup-update_self :
    (node now_ms : ℕ) (f : Peer → Peer) (ps : List Peer)
    → 0 < length ps
    → ((p : Peer) → (f p).node ≡ p.node)
    → lookup node (update node now_ms f ps) ≡ some (f (got node now_ms ps))
unfolding update peer_get Written
lookup-update_self node now_ms f ps pos keeps =
    elim (scan-Ends node ps 0 0 (get_or ps 0 no_peer).last_seen_ms) [
      | ends_at k e w n ↦
          let x = record (get_or ps k no_peer) { last_seen_ms = now_ms } in
          along (e ∙ ap at (zero-add k)) (w (f x) (ground (arith, keeps x, n)))
      | ends_free k e w n ↦
          let x = fresh node now_ms in
          along (e ∙ ap free (zero-add k)) (w (f x) (ground (arith, keeps x)))
      | ends_full j e p b ↦
          let x = fresh node now_ms in
          along e (Passed-set node j ps (f x) p (ground (arith, b, pos)) (ground (arith, keeps x)))
    ]
  where
    along :
        {place : Place}
        → find node ps ≡ place
        → lookup node (written_at f ps (peer_at node now_ms ps place))
          ≡ some (f (peer_at node now_ms ps place).1)
        → lookup node (update node now_ms f ps) ≡ some (f (got node now_ms ps))
    along {place} e =
        subst
          (λ x.
            lookup node (written_at f ps (peer_at node now_ms ps x))
            ≡ some (f (peer_at node now_ms ps x).1))
          (sym e)

-- An entry stays where another is written that is not in its place.
lookup-set_other :
    (node k : ℕ) (ps : List Peer) (p q : Peer)
    → lookup node ps ≡ some p
    → (get_or ps k no_peer).node ≢ node
    → (q.node == node) ≡ false
    → (q.node == 0) ≡ false
    → lookup node (set ps k q) ≡ some p
unfolding lookup
lookup-set_other node k [] p q e ne other used = absurd (cc e)
lookup-set_other node zero (x ∷ ps) p q e ne other used = elim (Bool-cases (x.node == node)) [
  | inl here ↦ absurd (ne ((==_iff x.node node).0 here))
  | inr no_match ↦ elim (Bool-cases (x.node == 0)) [
    | inl nothing ↦ absurd (ground (arith, no_match, nothing))
    | inr in_use ↦ ground (arith, no_match, in_use, other, used)
  ]
]
lookup-set_other node (suc k) (x ∷ ps) p q e ne other used = elim (Bool-cases (x.node == node)) [
  | inl here ↦ ground (arith, here)
  | inr no_match ↦ elim (Bool-cases (x.node == 0)) [
    | inl nothing ↦ absurd (ground (arith, no_match, nothing))
    | inr in_use ↦
        let rest : lookup node ps ≡ some p = ground (arith, no_match, in_use) in
        rw (no_match, in_use) (lookup-set_other node k ps p q rest ne other used)
  ]
]

-- A call for another node leaves a node's entry, unless it takes its place.
pub lookup-update_other :
    (node other now_ms : ℕ) (f : Peer → Peer) (ps : List Peer) (p : Peer)
    → lookup node ps ≡ some p
    → node ≢ 0
    → other ≢ 0
    → other ≢ node
    → ((x : Peer) → (f x).node ≡ x.node)
    → ¬ Evicts other node ps
    → lookup node (update other now_ms f ps) ≡ some p
unfolding update peer_get
lookup-update_other node other now_ms f ps p e used other_used ne keeps kept =
    elim (scan-Ends other ps 0 0 (get_or ps 0 no_peer).last_seen_ms) [
      | ends_at k at_k w n ↦
          let x = record (get_or ps k no_peer) { last_seen_ms = now_ms } in
          along (at_k ∙ ap at (zero-add k)) (
            lookup-set_other node k ps p (f x) e (λ y. ne (sym n ∙ y))
              (ground (arith, keeps x, n, ne)) (ground (arith, keeps x, n, other_used)))
      | ends_free k at_k w n ↦
          let x = fresh other now_ms in
          along (at_k ∙ ap free (zero-add k)) (
            lookup-set_other node k ps p (f x) e (λ y. used (sym y ∙ n))
              (ground (arith, keeps x, ne)) (ground (arith, keeps x, other_used)))
      | ends_full j at_j q b ↦
          let x = fresh other now_ms in
          along at_j (
            lookup-set_other node j ps p (f x) e
              (λ y. kept (record { place = j; is_full = at_j; taken = y }))
              (ground (arith, keeps x, ne)) (ground (arith, keeps x, other_used)))
    ]
  where
    along :
        {place : Place}
        → find other ps ≡ place
        → lookup node (written_at f ps (peer_at other now_ms ps place)) ≡ some p
        → lookup node (update other now_ms f ps) ≡ some p
    along e =
        subst (λ x. lookup node (written_at f ps (peer_at other now_ms ps x)) ≡ some p) (sym e)
