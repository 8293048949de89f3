-- ===== src/NodeInfo/Spacing.antt =====
-- How often a node is answered.
use meshtastic_zephyr.Prelude.{
  ℕ, ◌+◌, ◌*◌, ◌<◌, ◌≤◌, ◌≡◌, ◌≢◌, refl, sym, ap, ◌∙◌, inl, inr, true, Bool-cases, List, some, ok,
  arith, length, length-set, ℕ_discrete,
}
use mathlib.Core.Path.{subst}
use meshtastic_zephyr.Packet.{Packet}
use meshtastic_zephyr.NodeInfo.{
  Peer, Env, update, got, is_ours_or_none, interval_elapsed, heard, on_packet, answers, answered,
  alloc_reply, peer_get,
}
use meshtastic_zephyr.NodeInfo.Peers.{
  lookup, Evicts, got-lookup, lookup-update_self, lookup-update_other,
}

-- Calls of the module's two functions, none of which gives away the entry of `node`
pub data Kept (e : Env) (node : ℕ) (s : List Peer) : List Peer → Type 0 where
  start : Kept e node s s
  hears :
      {t : List Peer} (now_ms : ℕ) (p : Packet)
      → Kept e node s t
      → ¬ Evicts p.from node t
      → Kept e node s (on_packet e now_ms (some p) t).0
  is_asked :
      {t : List Peer} (now_ms : ℕ) (req : Packet)
      → Kept e node s t
      → ¬ Evicts req.from node t
      → Kept e node s (alloc_reply e now_ms (some req) t).0

-- The node has been answered at `since` or later.
record Since (node since : ℕ) (t : List Peer) : Type 0 where
  pub peer : Peer
  pub found : lookup node t ≡ some peer
  pub valid : peer.reply_time_valid ≡ true
  pub later : since ≤ peer.last_reply_ms
  pub size : 0 < length t

length-update :
    (node now_ms : ℕ) (f : Peer → Peer) (t : List Peer) → length (update node now_ms f t) ≡ length t
unfolding update
length-update node now_ms f t =
    length-set t (peer_get node now_ms t).0 (f (peer_get node now_ms t).1)

-- What a write to the node's own entry must keep
record IsMild (since : ℕ) (f : Peer → Peer) : Type 0 where
  pub keeps : (p : Peer) → (f p).node ≡ p.node
  pub valid : (p : Peer) → p.reply_time_valid ≡ true → (f p).reply_time_valid ≡ true
  pub later :
      (p : Peer) → p.reply_time_valid ≡ true → since ≤ p.last_reply_ms → since ≤ (f p).last_reply_ms

update-Since :
    (node since other now_ms : ℕ) (f : Peer → Peer) (t : List Peer)
    → node ≢ 0
    → other ≢ 0
    → IsMild since f
    → ¬ Evicts other node t
    → Since node since t
    → Since node since (update other now_ms f t)
update-Since node since other now_ms f t used other_used mild kept s =
    elim (ℕ_discrete other node) [
      | yes same ↦
          let g = got-lookup node now_ms t s.peer s.found in
          let touched : Peer = record (s.peer) { last_seen_ms = now_ms } in
          let self = lookup-update_self node now_ms f t s.size mild.keeps in
          let there : Since node since (update node now_ms f t) = record {
            peer = f touched;
            found = self ∙ ap (λ x. some (f x)) g;
            valid = mild.valid touched s.valid;
            later = mild.later touched s.valid s.later;
            size = omega (arith, length-update node now_ms f t, s.size);
          } in
          subst (λ k. Since node since (update k now_ms f t)) (sym same) there
      | no different ↦ record {
        peer = s.peer;
        found =
            lookup-update_other node other now_ms f t s.peer s.found used other_used different
              mild.keeps kept;
        valid = s.valid;
        later = s.later;
        size = omega (arith, length-update other now_ms f t, s.size);
      }
    ]

heard-IsMild : (e : Env) (since now_ms : ℕ) (p : Packet) → IsMild since (heard e now_ms p)
unfolding heard
heard-IsMild e since now_ms p = record {
  keeps = λ x. ground arith;
  valid = λ x v. ground arith;
  later = λ x v l. ground arith;
}

answered-IsMild : (e : Env) (since now_ms : ℕ) → IsMild since (answered e now_ms)
unfolding answered answers interval_elapsed
answered-IsMild e since now_ms = record {
  keeps = λ x. ground arith;
  valid = λ x v. ground arith;
  later = λ x v l. ground (arith, v, l);
}

Kept-Since :
    (e : Env) (node since : ℕ) (s t : List Peer)
    → node ≢ 0
    → Since node since s
    → Kept e node s t
    → Since node since t
unfolding on_packet alloc_reply
Kept-Since e node since s t used h start = h
Kept-Since e node since s t used h (hears {t = u} now_ms p k kept) =
    let before = Kept-Since e node since s u used h k in
    elim (Bool-cases (is_ours_or_none e p.from)) [
      | inl ours ↦ rw ours before
      | inr other ↦ rw other (
          update-Since node since p.from now_ms (heard e now_ms p) u used (ground (arith, other))
            (heard-IsMild e since now_ms p) kept before)
    ]
Kept-Since e node since s t used h (is_asked {t = u} now_ms req k kept) =
    let before = Kept-Since e node since s u used h k in
    elim (Bool-cases (is_ours_or_none e req.from)) [
      | inl ours ↦ rw ours before
      | inr other ↦ rw other (
          update-Since node since req.from now_ms (answered e now_ms) u used (ground (arith, other))
            (answered-IsMild e since now_ms) kept before)
    ]

-- What a call that answers has tested, and where it leaves the cache
answers-inv :
    (e : Env) (now_ms : ℕ) (req reply : Packet) (s t : List Peer)
    → alloc_reply e now_ms (some req) s ≡ (t, ok reply)
    → (req.from ≢ 0)
      × (answers e now_ms (got req.from now_ms s) ≡ true)
      × (t ≡ update req.from now_ms (answered e now_ms) s)
unfolding alloc_reply
answers-inv e now_ms req reply s t a = elim (Bool-cases (is_ours_or_none e req.from)) [
  | inl ours ↦ absurd (ground (arith, ours))
  | inr other ↦ elim (Bool-cases (answers e now_ms (got req.from now_ms s))) [
    | inl granted ↦ (ground (arith, other), granted, ground (arith, other))
    | inr refused ↦ absurd (ground (arith, other, refused))
  ]
]

answered_now :
    (e : Env) (now_ms : ℕ) (p : Peer)
    → answers e now_ms p ≡ true
    → ((answered e now_ms p).reply_time_valid ≡ true)
      × ((answered e now_ms p).last_reply_ms ≡ now_ms)
unfolding answered
answered_now e now_ms p granted = rw granted (refl, refl)

-- Two answers to one node are at least the suppression interval apart, as long as its entry in the cache
-- is not given to another node between them.
pub alloc_reply_spaced :
    (e : Env) (now_ms later_ms : ℕ) (req again reply second : Packet) (s t u v : List Peer)
    → 0 < length s
    → alloc_reply e now_ms (some req) s ≡ (t, ok reply)
    → Kept e req.from t u
    → again.from ≡ req.from
    → alloc_reply e later_ms (some again) u ≡ (v, ok second)
    → now_ms + e.reply_suppress_sec * 1000 ≤ later_ms
unfolding answers interval_elapsed
alloc_reply_spaced e now_ms later_ms req again reply second s t u v size a k same b =
    let (used, granted, is) = answers-inv e now_ms req reply s t a in
    let (used_again, granted_again, is_again) = answers-inv e later_ms again second u v b in
    let mild = answered-IsMild e 0 now_ms in
    let (valid, time) = answered_now e now_ms (got req.from now_ms s) granted in
    let first : Since req.from now_ms t = subst (Since req.from now_ms) (sym is) (record {
      peer = answered e now_ms (got req.from now_ms s);
      found = lookup-update_self req.from now_ms (answered e now_ms) s size mild.keeps;
      valid = valid;
      later = omega (arith, time);
      size = omega (arith, length-update req.from now_ms (answered e now_ms) s, size);
    }) in
    let now = Kept-Since e req.from now_ms t u used first k in
    let g = got-lookup req.from later_ms u now.peer now.found in
    let tested : answers e later_ms (got req.from later_ms u) ≡ true =
      ap (λ n. answers e later_ms (got n later_ms u)) (sym same) ∙ granted_again in
    let read : answers e later_ms (record (now.peer) { last_seen_ms = later_ms }) ≡ true =
      ap (answers e later_ms) (sym g) ∙ tested in
    ground (arith, read, now.valid, now.later)
