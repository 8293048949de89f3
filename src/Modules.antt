-- ===== src/Modules.antt =====
-- src/meshtastic_modules.c and src/meshtastic_message.c: packets are handed to the modules, one of which
-- may answer, and texts are reported.
pub mod Replies
mod Tests
use meshtastic_zephyr.Prelude.{
  ℕ, suc, ◌==◌, Bool, true, false, not, ◌&&◌, ◌||◌, List, [], ◌∷◌, Option, none, some, Errno,
  enoent, if◌then◌else◌,
}
use meshtastic_zephyr.Packet.{
  Packet, zero_packet, channel_index_invalid, node_broadcast, port_text_message, text_message,
}
use meshtastic_zephyr.Core.{Core, Env, no_wait, Sent, Action, emit_event, send_packet}

-- `struct meshtastic_module`, named by its place in the linker's section. `alloc_reply` is given what
-- the reply holds and returns what it then holds, with its return code, `none` for 0.
pub record Module : Type 0 where
  pub portnum : ℕ
  pub all_packets : Bool
  pub on_packet : Bool
  pub alloc_reply : Option (Packet → Packet → Option Errno × Packet)

-- The calls of `on_packet`, by the places of the modules, which are numbered from `i` on.
pub handlers : List Module → ℕ → Packet → List ℕ
handlers [] i p = []
handlers (m ∷ ms) i p =
    let rest = handlers ms (suc i) p in
    if m.on_packet && (m.all_packets || (m.portnum == p.portnum)) then i ∷ rest else rest

abbrev pub is_enoent : Option Errno → Bool
is_enoent (some enoent) = true
is_enoent _ = false

-- The loop over `alloc_reply`: the first module of the port that does not answer -ENOENT. The reply that
-- a module has written to before it declined is handed on.
pub find_reply : List Module → Packet → Packet → Option (Option Errno × Packet)
find_reply [] p reply = none
find_reply (m ∷ ms) p reply = elim m.alloc_reply [
  | none ↦ find_reply ms p reply
  | some alloc ↦
      let answer = alloc p reply in
      let here = (if is_enoent answer.0 then find_reply ms p answer.1 else some answer) in
      let next = find_reply ms p reply in if m.portnum == p.portnum then here else next
]

-- `meshtastic_packet_set_reply_to`
pub set_reply_to : Packet → Packet → Packet
set_reply_to reply req =
    let indexed = not (req.channel_index == channel_index_invalid) in
    record reply {
      to = req.from;
      channel_index = if indexed then req.channel_index else reply.channel_index;
      channel =
          if indexed
          then reply.channel
          else if req.channel == 0
          then reply.channel
          else req.channel;
      request_id = req.id;
      reply_id = 0;
      want_response = false;
    }

-- The reply that `meshtastic_dispatch_modules` sends, if any
pub reply_of : ℕ → List Module → Packet → Option Packet
reply_of node_id ms p =
    if not (p.to == node_id) || not p.want_response
    then none
    else elim (find_reply ms p zero_packet) [
      | none ↦ none
      | some (some error, reply) ↦ none
      | some (none, reply) ↦ some (set_reply_to reply p)
    ]

-- What is left of a dispatch: the modules that were called, and the sending of the reply.
pub record Dispatched : Type 0 where
  pub called : List ℕ
  pub core : Core
  pub actions : List Action

-- `meshtastic_dispatch_modules`
pub dispatch : Env → List Module → Option Packet → Core → Option Dispatched
dispatch e ms none c = some (record { called = []; core = c; actions = [] })
dispatch e ms (some p) c = elim (reply_of c.node_id ms p) [
  | none ↦ some (record { called = handlers ms 0 p; core = c; actions = [] })
  | some reply ↦ elim (send_packet e (some reply) no_wait c) [
    | none ↦ none
    | some sent ↦
        some (record { called = handlers ms 0 p; core = sent.core; actions = sent.actions })
  ]
]

-- `packet_is_for_us` of src/meshtastic_message.c
pub packet_is_for_us : ℕ → Packet → Bool
packet_is_for_us node_id p = (p.to == node_id) || (p.to == node_broadcast)

-- `meshtastic_module_message_on_packet`
pub message_on_packet : Core → Option Packet → List Action
message_on_packet c none = []
message_on_packet c (some p) = elim p.payload [
  | none ↦ []
  | some bytes ↦
      if (p.payload_len == 0)
        || not (p.portnum == port_text_message)
        || (p.from == 0)
        || (p.from == c.node_id)
        || not (packet_is_for_us c.node_id p)
      then []
      else emit_event c text_message none (some p)
]
