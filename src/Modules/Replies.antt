-- ===== src/Modules/Replies.antt =====
-- Replies of modules in src/meshtastic_modules.c: to whom they go, and that they are not replied to.
use meshtastic_zephyr.Prelude.{
  ℕ, ◌≡◌, refl, true, false, not, ◌||◌, ◌==◌, List, Option, none, some, Errno, arith, Bool-cases,
  inl, inr,
}
use mathlib.Core.Path.{subst}
use meshtastic_zephyr.Packet.{Packet, ℤ, zero_packet}
use meshtastic_zephyr.Channels.{Channels}
use meshtastic_zephyr.Codec.Roundtrip.{received}
use meshtastic_zephyr.Core.{Core, with_defaults}
use meshtastic_zephyr.Core.Send.{with_defaults-want_response}
use meshtastic_zephyr.Modules.{Module, find_reply, set_reply_to, reply_of}

no_reply :
    (node_id : ℕ) (ms : List Module) (p : Packet)
    → p.want_response ≡ false
    → reply_of node_id ms p ≡ none
unfolding reply_of
no_reply node_id ms p unasked = ground (arith, unasked)

-- What a reply `reply` to `p` is.
pub record IsReply (node_id : ℕ) (p reply : Packet) : Type 0 where
  pub asked : p.want_response ≡ true
  pub ours : p.to ≡ node_id
  pub to_sender : reply.to ≡ p.from
  pub answers : reply.request_id ≡ p.id
  pub ends :
      (c : Core) (t : Channels) (i : ℕ) (rssi snr : ℤ) (q : Packet) (other : ℕ) (ms : List Module)
      → reply_of other ms (received t (with_defaults c reply) i rssi snr q) ≡ none

set_reply_to-IsReply :
    (node_id : ℕ) (p draft : Packet)
    → p.want_response ≡ true
    → p.to ≡ node_id
    → IsReply node_id p (set_reply_to draft p)
unfolding set_reply_to
set_reply_to-IsReply node_id p draft asked ours = record {
  asked = asked;
  ours = ours;
  to_sender = refl;
  answers = refl;
  ends = λ c t i rssi snr q other ms.
      no_reply other ms (received t (with_defaults c (set_reply_to draft p)) i rssi snr q)
        (with_defaults-want_response c (set_reply_to draft p));
}

-- A reply is made only to a packet to this node that asks for one. It goes to the packet's sender and
-- names the packet, whatever the module wrote, and what its receivers decode it to, sent with its
-- defaults, is replied to by no node.
pub reply_of-IsReply :
    (node_id : ℕ) (ms : List Module) (p reply : Packet)
    → reply_of node_id ms p ≡ some reply
    → IsReply node_id p reply
unfolding reply_of
reply_of-IsReply node_id ms p reply h =
    elim (Bool-cases (not (p.to == node_id) || not p.want_response)) [
      | inl silent ↦ absurd (ground (arith, silent))
      | inr asked ↦
          by_answer (ground (arith, asked)) (ground (arith, asked)) (find_reply ms p zero_packet)
            refl
    ]
  where
    by_answer :
        p.want_response ≡ true
        → p.to ≡ node_id
        → (r : Option (Option Errno × Packet)) → find_reply ms p zero_packet ≡ r
        → IsReply node_id p reply
    by_answer asked ours none f = absurd (ground (arith, f, asked, ours))
    by_answer asked ours (some (some error, draft)) f = absurd (ground (arith, f, asked, ours))
    by_answer asked ours (some (none, draft)) f =
        let same : set_reply_to draft p ≡ reply = ground (arith, f, asked, ours) in
        subst (λ r. IsReply node_id p r) same (set_reply_to-IsReply node_id p draft asked ours)
