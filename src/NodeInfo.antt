-- ===== src/NodeInfo.antt =====
-- src/meshtastic_nodeinfo.c: the cache of peers, which limits how often a node is asked for its user and
-- how often it is answered. Times are uptimes in milliseconds.
pub mod Peers
pub mod Spacing
mod Tests
use meshtastic_zephyr.Prelude.{
  ℕ, ◌+◌, ◌*◌, ◌==◌, ltb, leb, Bool, true, false, not, ◌&&◌, ◌||◌, List, [], ◌∷◌, Option, none,
  some, Result, ok, err, Errno, einval, enoent, enomem, if◌then◌else◌, length, get_or, set, take,
}
use meshtastic_zephyr.Packet.{
  Packet, zero_packet, max_payload_len, port_nodeinfo, channel_index_invalid,
}
use meshtastic_zephyr.Messages.{User}

-- `struct nodeinfo_peer`; `node` is 0 in a free entry.
pub record Peer : Type 0 where
  pub node : ℕ
  pub last_seen_ms : ℕ
  pub last_request_ms : ℕ
  pub last_reply_ms : ℕ
  pub has_user : Bool
  pub request_time_valid : Bool
  pub reply_time_valid : Bool

-- Build options, this node, the index of the primary channel, its user, and nanopb on users.
pub record Env : Type 0 where
  pub unknown_suppress_sec : ℕ
  pub reply_suppress_sec : ℕ
  pub node_id : ℕ
  pub primary_index : ℕ
  pub user : User
  pub encode_user : ℕ → User → Option (List ℕ)
  pub decode_user : List ℕ → Option User

-- `interval_elapsed`, with the difference of two signed times brought to one side
unfoldable pub interval_elapsed : Bool → ℕ → ℕ → ℕ → Bool
interval_elapsed valid last_ms now_ms interval_ms = not valid || leb (last_ms + interval_ms) now_ms

abbrev pub fresh : ℕ → ℕ → Peer
fresh node now_ms = record {
  node = node;
  last_seen_ms = now_ms;
  last_request_ms = 0;
  last_reply_ms = 0;
  has_user = false;
  request_time_valid = false;
  reply_time_valid = false;
}

abbrev pub no_peer : Peer
no_peer = fresh 0 0

-- Where the loop of `peer_get_locked` ends: at the node's entry, at a free one, or past the end, with the
-- place of the oldest.
pub data Place : Type 0 where
  at free full : ℕ → Place

-- The turns of that loop from entry `i` on, with the oldest entry so far and when it was seen
unfoldable pub scan : ℕ → List Peer → ℕ → ℕ → ℕ → Place
scan node [] i oldest seen = full oldest
scan node (p ∷ ps) i oldest seen =
    let older = ltb p.last_seen_ms seen in
    let rest =
      scan node ps (i + 1) (if older then i else oldest) (if older then p.last_seen_ms else seen) in
    if p.node == node then at i else if p.node == 0 then free i else rest

abbrev pub find : ℕ → List Peer → Place
find node peers = scan node peers 0 0 (get_or peers 0 no_peer).last_seen_ms

-- The entry that `peer_get_locked` returns, as it leaves it, with its place
abbrev pub peer_at : ℕ → ℕ → List Peer → Place → ℕ × Peer
peer_at node now_ms peers (at i) = (i, record (get_or peers i no_peer) { last_seen_ms = now_ms })
peer_at node now_ms peers (free i) = (i, fresh node now_ms)
peer_at node now_ms peers (full i) = (i, fresh node now_ms)

unfoldable pub peer_get : ℕ → ℕ → List Peer → ℕ × Peer
peer_get node now_ms peers = peer_at node now_ms peers (find node peers)

-- The cache after the entry is got and then written to
abbrev pub written_at : (Peer → Peer) → List Peer → ℕ × Peer → List Peer
written_at f peers entry = set peers entry.0 (f entry.1)

unfoldable pub update : ℕ → ℕ → (Peer → Peer) → List Peer → List Peer
update node now_ms f peers = written_at f peers (peer_get node now_ms peers)

abbrev pub got : ℕ → ℕ → List Peer → Peer
got node now_ms peers = (peer_get node now_ms peers).1

-- `packet_decode_user`: whether there is one; the user itself is only logged.
unfoldable pub packet_decode_user : Env → Packet → Bool
packet_decode_user e p = elim p.payload [
  | none ↦ false
  | some bytes ↦ elim (e.decode_user (take p.payload_len bytes)) [
    | none ↦ false
    | some user ↦ not (p.payload_len == 0)
  ]
]

-- `nodeinfo_build_packet`
unfoldable pub nodeinfo_build_packet : Env → ℕ → Bool → ℕ → ℕ → Result Packet
nodeinfo_build_packet e dest want_response channel response_to_id =
    elim (e.encode_user max_payload_len e.user) [
      | none ↦ err enomem
      | some bytes ↦ ok (record zero_packet {
        to = dest;
        portnum = port_nodeinfo;
        payload = some bytes;
        payload_len = length bytes;
        channel = channel;
        want_response = want_response;
        request_id = response_to_id;
      })
    ]

-- `meshtastic_send_node_info_ex`, up to the packet that it gives to `meshtastic_send_packet`
unfoldable pub send_node_info_ex : Env → ℕ → Bool → ℕ → ℕ → Result Packet
send_node_info_ex = nodeinfo_build_packet

-- `meshtastic_send_node_info`
unfoldable pub send_node_info : Env → ℕ → Result Packet
send_node_info e dest = send_node_info_ex e dest false 0 0

abbrev pub is_ours_or_none : Env → ℕ → Bool
is_ours_or_none e from = (from == 0) || (from == e.node_id)

-- Whether `meshtastic_module_nodeinfo_on_packet` asks, for the entry that it has got
unfoldable pub asks : Env → ℕ → Packet → Peer → Bool
asks e now_ms p peer =
    let is_nodeinfo = p.portnum == port_nodeinfo in
    let has_user = (is_nodeinfo && packet_decode_user e p) || peer.has_user in
    not has_user
    && not is_nodeinfo
    && interval_elapsed peer.request_time_valid peer.last_request_ms now_ms
        (e.unknown_suppress_sec * 1000)

unfoldable pub heard : Env → ℕ → Packet → Peer → Peer
heard e now_ms p peer =
    let is_nodeinfo = p.portnum == port_nodeinfo in
    let known = record peer {
      has_user = (is_nodeinfo && packet_decode_user e p) || peer.has_user;
    } in
    if asks e now_ms p peer
    then record known { request_time_valid = true; last_request_ms = now_ms }
    else known

-- `meshtastic_module_nodeinfo_on_packet`: the cache, and the packet that is given to
-- `meshtastic_send_packet`, if any.
unfoldable pub on_packet : Env → ℕ → Option Packet → List Peer → List Peer × Option Packet
on_packet e now_ms none peers = (peers, none)
on_packet e now_ms (some p) peers =
    let channel =
      (if p.channel_index == channel_index_invalid then e.primary_index else p.channel_index) in
    if is_ours_or_none e p.from then (peers, none) else (
      update p.from now_ms (heard e now_ms p) peers,
      if asks e now_ms p (got p.from now_ms peers)
          then elim (nodeinfo_build_packet e p.from true channel 0) [
            | err why ↦ none
            | ok q ↦ some q
          ]
          else none,
    )

-- Whether `meshtastic_module_nodeinfo_alloc_reply` answers, for the entry that it has got
unfoldable pub answers : Env → ℕ → Peer → Bool
answers e now_ms peer =
    interval_elapsed peer.reply_time_valid peer.last_reply_ms now_ms (e.reply_suppress_sec * 1000)

unfoldable pub answered : Env → ℕ → Peer → Peer
answered e now_ms peer =
    if answers e now_ms peer
    then record peer { reply_time_valid = true; last_reply_ms = now_ms }
    else peer

-- `meshtastic_module_nodeinfo_alloc_reply`, with `none` for NULL: the cache and the reply
unfoldable pub alloc_reply : Env → ℕ → Option Packet → List Peer → List Peer × Result Packet
alloc_reply e now_ms none peers = (peers, err einval)
alloc_reply e now_ms (some req) peers =
    if is_ours_or_none e req.from then (peers, err einval) else (
      update req.from now_ms (answered e now_ms) peers,
      if answers e now_ms (got req.from now_ms peers)
          then nodeinfo_build_packet e req.from false req.channel req.id
          else err enoent,
    )
