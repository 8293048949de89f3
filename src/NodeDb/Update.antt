-- ===== src/NodeDb/Update.antt =====
-- `meshtastic_module_nodedb_on_packet` and the look-ups of src/meshtastic_nodedb.c.
use meshtastic_zephyr.Prelude.{
  ℕ, zero, suc, ◌==◌, ◌||◌, List, [], ◌∷◌, Option, none, some, Result, ok, err, enoent, enomem,
  if◌then◌else◌, get_elem?, take,
}
use meshtastic_zephyr.Packet.{
  Packet, port_nodeinfo, port_position, port_telemetry, port_node_status,
}
use meshtastic_zephyr.Messages.{User}
use meshtastic_zephyr.NodeDb.{
  Entry, Position, Telemetry, device_metrics, environment_metrics, other_telemetry, apply_user,
  apply_position, apply_basic_packet, get_or_create, find_entry,
}

-- nanopb's decoders
pub record Decoders : Type 0 where
  pub user : List ℕ → Option User
  pub position : List ℕ → Option Position
  pub telemetry : List ℕ → Option Telemetry
  pub status : List ℕ → Option (List ℕ)

-- `decode_user_payload` and its three likes
pub decode_payload {ℓ} : {A : Type ℓ} → (List ℕ → Option A) → Packet → Option A
decode_payload decode p = elim p.payload [
  | none ↦ none
  | some bytes ↦ if p.payload_len == 0 then none else decode (take p.payload_len bytes)
]

-- What the payload of a packet says of its sender.
pub data News : Type 0 where
  user_news : User → News
  position_news : Position → News
  telemetry_news : Telemetry → News
  status_news : List ℕ → News
  no_news : News

abbrev pub news_of {ℓ} : {A : Type ℓ} → (A → News) → Option A → News
news_of f none = no_news
news_of f (some a) = f a

-- The switch on the port
pub packet_news : Decoders → Packet → News
packet_news d p =
    if p.portnum == port_nodeinfo
    then news_of user_news (decode_payload d.user p)
    else if p.portnum == port_position
    then (if p.want_response then no_news else news_of position_news (decode_payload d.position p))
    else if p.portnum == port_telemetry
    then news_of telemetry_news (decode_payload d.telemetry p)
    else if p.portnum == port_node_status
    then news_of status_news (decode_payload d.status p)
    else no_news

unfoldable pub apply_news : News → Entry → Entry
apply_news (user_news user) e = apply_user user e
apply_news (position_news position) e = apply_position position e
apply_news (telemetry_news (device_metrics m)) e = record e { device = some m }
apply_news (telemetry_news (environment_metrics m)) e = record e { environment = some m }
apply_news (telemetry_news other_telemetry) e = e
apply_news (status_news status) e = record e { status = some status }
apply_news no_news e = e

-- A change of one entry in place
unfoldable pub modify : ℕ → (Entry → Entry) → List Entry → List Entry
modify i f [] = []
modify zero f (e ∷ es) = f e ∷ es
modify (suc i) f (e ∷ es) = e ∷ modify i f es

-- `meshtastic_module_nodedb_on_packet`
unfoldable pub on_packet : Decoders → ℕ → ℕ → ℕ → Packet → List Entry → List Entry
on_packet d max_nodes local now_sec p es =
    if (p.from == 0) || (p.from == local)
    then es
    else elim (get_or_create max_nodes local p.from es) [
      | none ↦ es
      | some (es', i) ↦
          modify i (λ e. apply_news (packet_news d p) (apply_basic_packet p now_sec e)) es'
    ]

-- `meshtastic_nodedb_get` up to the copying of the entry, and `meshtastic_nodedb_get_by_index`
unfoldable pub get : ℕ → List Entry → Result Entry
get node_num es = elim (find_entry node_num es) [
  | none ↦ err enoent
  | some i ↦ elim (get_elem? es i) [ none ↦ err enoent | some e ↦ ok e ]
]

pub get_by_index : ℕ → List Entry → Result Entry
get_by_index index es = elim (get_elem? es index) [
  | none ↦ err enoent
  | some e ↦ if e.used then ok e else err enoent
]

-- `meshtastic_nodedb_init`: the node's own entry, in an empty table
pub init : ℕ → ℕ → ℕ → User → Result (List Entry)
init max_nodes local now_sec user = elim (get_or_create max_nodes local local []) [
  | none ↦ err enomem
  | some (es, i) ↦ ok (
      modify i (λ e. apply_user user (record e { node = record (e.node) { last_heard = now_sec } }))
        es)
]
