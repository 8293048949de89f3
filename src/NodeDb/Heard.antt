-- ===== src/NodeDb/Heard.antt =====
-- What `meshtastic_module_nodedb_on_packet` of src/meshtastic_nodedb.c leaves in the table.
use meshtastic_zephyr.Prelude.{
  ℕ, zero, suc, ◌≤◌, ◌<◌, ◌==◌, ◌≡◌, ◌≢◌, refl, sym, ap, ◌∙◌, false, ◌||◌, ◌&&◌, List, [], ◌∷◌,
  ◌++◌, none, some, ok, arith, get_elem?, set, Bool-cases, Option-cases, ◌⊎◌, inl, inr, length,
}
use meshtastic_zephyr.Packet.{Packet}
use meshtastic_zephyr.NodeDb.{
  Entry, device_metrics, environment_metrics, other_telemetry, new_entry, find_entry, get_or_create,
  apply_basic_packet, apply_user, apply_position,
}
use meshtastic_zephyr.NodeDb.Table.{IsTable, IsAbsent, get_or_create-Placed, get_or_create-IsTable}
use meshtastic_zephyr.NodeDb.Eviction.{oldest_evictable_lem, IsStuck, get_or_create-IsStuck}
use meshtastic_zephyr.NodeDb.Update.{
  Decoders, News, user_news, position_news, telemetry_news, status_news, no_news, packet_news,
  apply_news, modify, on_packet, get,
}

-- A change of an entry that keeps its node and leaves it in use
abbrev Keeps : (Entry → Entry) → Type 0
Keeps f = (e : Entry) → ((f e).node.num ≡ e.node.num) × ((f e).used ≡ e.used)

modify-IsAbsent :
    (i n : ℕ) (f : Entry → Entry) (es : List Entry)
    → Keeps f
    → IsAbsent n es
    → IsAbsent n (modify i f es)
unfolding modify IsAbsent
modify-IsAbsent i n f [] k a = a
modify-IsAbsent zero n f (e ∷ es) k a = (λ q. a.0 (sym (k e).0 ∙ q), a.1)
modify-IsAbsent (suc i) n f (e ∷ es) k a = (a.0, modify-IsAbsent i n f es k a.1)

modify-IsTable :
    (i : ℕ) (f : Entry → Entry) (es : List Entry) → Keeps f → IsTable es → IsTable (modify i f es)
unfolding modify IsTable
modify-IsTable i f [] k v = v
modify-IsTable zero f (e ∷ es) k v = rw ((k e).0, (k e).1) v
modify-IsTable (suc i) f (e ∷ es) k v =
    (v.0, v.1, modify-IsAbsent i e.node.num f es k v.2, modify-IsTable i f es k v.3)

length-modify : (i : ℕ) (f : Entry → Entry) (es : List Entry) → length (modify i f es) ≡ length es
unfolding modify
length-modify i f [] = refl
length-modify zero f (e ∷ es) = refl
length-modify (suc i) f (e ∷ es) = ap suc (length-modify i f es)

find-modify :
    (i n : ℕ) (f : Entry → Entry) (es : List Entry)
    → Keeps f
    → find_entry n (modify i f es) ≡ find_entry n es
unfolding modify find_entry
find-modify i n f [] k = refl
find-modify zero n f (e ∷ es) k = rw ((k e).0, (k e).1)
find-modify (suc i) n f (e ∷ es) k = rw (find-modify i n f es k)

get_elem?-modify :
    (i : ℕ) (f : Entry → Entry) (es : List Entry) {e : Entry}
    → get_elem? es i ≡ some e
    → get_elem? (modify i f es) i ≡ some (f e)
unfolding modify
get_elem?-modify i f [] h = ground arith
get_elem?-modify zero f (e ∷ es) h = ground arith
get_elem?-modify (suc i) f (e ∷ es) h = get_elem?-modify i f es h

find_there :
    (n i : ℕ) (es : List Entry)
    → find_entry n es ≡ some i
    → (e : Entry) × (get_elem? es i ≡ some e) × (e.node.num ≡ n)
unfolding find_entry
find_there n i [] h = ground arith
find_there n i (e ∷ es) h = elim (Bool-cases (e.used && (e.node.num == n))) [
  | inl own ↦ let first : i ≡ 0 = ground arith in (e, rw first refl, ground arith)
  | inr other ↦ elim (Option-cases (find_entry n es)) [
    | inl lost ↦ absurd (ground arith)
    | inr (j, there) ↦
        let next : i ≡ suc j = ground arith in
        let (e', at', named) = find_there n j es there in (e', rw next at', named)
  ]
]

find_append :
    (n : ℕ) (es : List Entry)
    → find_entry n es ≡ none
    → find_entry n (es ++ (new_entry n ∷ [])) ≡ some (length es)
unfolding find_entry
find_append n [] h = ground arith
find_append n (e ∷ es) h = elim (Option-cases (find_entry n es)) [
  | inl lost ↦ ground (arith, find_append n es lost)
  | inr (j, there) ↦ absurd (ground arith)
]

find_set :
    (n i : ℕ) (es : List Entry)
    → find_entry n es ≡ none
    → i < length es
    → find_entry n (set es i (new_entry n)) ≡ some i
unfolding find_entry
find_set n i [] h lt = absurd (omega arith)
find_set n zero (e ∷ es) h lt = ground arith
find_set n (suc i) (e ∷ es) h lt = elim (Option-cases (find_entry n es)) [
  | inl lost ↦ ground (arith, find_set n i es lost)
  | inr (j, there) ↦ absurd (ground arith)
]

apply_news-Keeps :
    (p : Packet) (now_sec : ℕ) (news : News)
    → Keeps (λ e. apply_news news (apply_basic_packet p now_sec e))
unfolding apply_news apply_basic_packet apply_user apply_position
apply_news-Keeps p now_sec (user_news user) e = (refl, refl)
apply_news-Keeps p now_sec (position_news position) e = (refl, refl)
apply_news-Keeps p now_sec (telemetry_news (device_metrics m)) e = (refl, refl)
apply_news-Keeps p now_sec (telemetry_news (environment_metrics m)) e = (refl, refl)
apply_news-Keeps p now_sec (telemetry_news other_telemetry) e = (refl, refl)
apply_news-Keeps p now_sec (status_news status) e = (refl, refl)
apply_news-Keeps p now_sec no_news e = (refl, refl)

apply_news_heard :
    (p : Packet) (now_sec : ℕ) (news : News) (e : Entry)
    → (apply_news news (apply_basic_packet p now_sec e)).node.last_heard ≡ now_sec
unfolding apply_news apply_basic_packet apply_user apply_position
apply_news_heard p now_sec (user_news user) e = refl
apply_news_heard p now_sec (position_news position) e = refl
apply_news_heard p now_sec (telemetry_news (device_metrics m)) e = refl
apply_news_heard p now_sec (telemetry_news (environment_metrics m)) e = refl
apply_news_heard p now_sec (telemetry_news other_telemetry) e = refl
apply_news_heard p now_sec (status_news status) e = refl
apply_news_heard p now_sec no_news e = refl

get_elem?_lt : (i : ℕ) (es : List Entry) {e : Entry} → get_elem? es i ≡ some e → i < length es
get_elem?_lt i [] h = ground arith
get_elem?_lt zero (e ∷ es) h = omega arith
get_elem?_lt (suc i) (e ∷ es) h = omega (arith, get_elem?_lt i es h)

got_entry :
    (n i : ℕ) (es : List Entry) (e : Entry)
    → find_entry n es ≡ some i
    → get_elem? es i ≡ some e
    → get n es ≡ ok e
unfolding get
got_entry n i es e found there = rw (found, there, get)

-- A received packet leaves the table well formed and within its size.
pub on_packet-IsTable :
    (d : Decoders) (max_nodes local now_sec : ℕ) (p : Packet) (es : List Entry)
    → IsTable es
    → length es ≤ max_nodes
    → IsTable (on_packet d max_nodes local now_sec p es)
      × (length (on_packet d max_nodes local now_sec p es) ≤ max_nodes)
unfolding on_packet
on_packet-IsTable d max_nodes local now_sec p es v fits =
    elim (Bool-cases ((p.from == 0) || (p.from == local))) [
      | inl own ↦ rw own (v, fits)
      | inr other ↦ elim (Option-cases (get_or_create max_nodes local p.from es)) [
        | inl full ↦ rw (other, full) (v, fits)
        | inr ((es', i), made) ↦
            let t = get_or_create-IsTable max_nodes local p.from es es' i v fits made in
            let f : Entry → Entry =
              λ e. apply_news (packet_news d p) (apply_basic_packet p now_sec e) in
            rw (other, made)
              (
                modify-IsTable i f es' (apply_news-Keeps p now_sec (packet_news d p)) t.0,
                omega (arith, length-modify i f es', t.1),
              )
      ]
    ]

placed_found :
    (max_nodes local n : ℕ) (es es' : List Entry) (i : ℕ)
    → get_or_create max_nodes local n es ≡ some (es', i)
    → find_entry n es' ≡ some i
placed_found max_nodes local n es es' i made =
    elim ((get_or_create-Placed max_nodes local n es es' i made).way) [
      | inl (there, same) ↦ rw same there
      | inr (lost, inl (room, added, last)) ↦ rw (added, last) (find_append n es lost)
      | inr (lost, inr (full, oldest, replaced)) ↦
          let (e, there, foreign, least) = oldest_evictable_lem local i es oldest in
          rw replaced (find_set n i es lost (get_elem?_lt i es there))
    ]

-- After a packet from another node, that node is found in the table as heard now; or the table is as it
-- was, full of other nodes, of which each but the local one was heard at the last second of a 32-bit counter
-- or later.
pub on_packet_heard :
    (d : Decoders) (max_nodes local now_sec : ℕ) (p : Packet) (es : List Entry)
    → p.from ≢ 0
    → p.from ≢ local
    → (IsStuck max_nodes local p.from es × (on_packet d max_nodes local now_sec p es ≡ es))
      ⊎ ((e : Entry) × (get p.from (on_packet d max_nodes local now_sec p es) ≡ ok e)
          × (e.node.num ≡ p.from)
          × (e.node.last_heard ≡ now_sec))
unfolding on_packet
on_packet_heard d max_nodes local now_sec p es ne foreign =
    let other : ((p.from == 0) || (p.from == local)) ≡ false = ground arith in
    elim (Option-cases (get_or_create max_nodes local p.from es)) [
      | inl full ↦
          inl (get_or_create-IsStuck max_nodes local p.from es ne full, rw (other, full, on_packet))
      | inr ((es', i), made) ↦
          let f : Entry → Entry =
            λ e. apply_news (packet_news d p) (apply_basic_packet p now_sec e) in
          let k = apply_news-Keeps p now_sec (packet_news d p) in
          let found = placed_found max_nodes local p.from es es' i made in
          let (e, there, named) = find_there p.from i es' found in
          let got =
            got_entry p.from i (modify i f es') (f e) (find-modify i p.from f es' k ∙ found)
              (get_elem?-modify i f es' there) in
          inr (
            f e,
            rw (other, made, on_packet) got,
            (k e).0 ∙ named,
            apply_news_heard p now_sec (packet_news d p) e,
          )
    ]
