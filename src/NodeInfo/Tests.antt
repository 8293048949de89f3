-- ===== src/NodeInfo/Tests.antt =====
-- A node that asks twice, through src/meshtastic_nodeinfo.c.
use meshtastic_zephyr.Prelude.{
  ◌+◌, ◌*◌, ◌≤◌, ◌≡◌, refl, false, List, [], ◌∷◌, none, some, ok, err, enoent, arith,
}
use meshtastic_zephyr.Packet.{Packet, zero_packet}
use meshtastic_zephyr.Messages.{User}
use meshtastic_zephyr.NodeInfo.{
  Peer, Env, no_peer, scan, peer_get, update, interval_elapsed, nodeinfo_build_packet, answers,
  answered, alloc_reply, asks, heard, on_packet,
}
use meshtastic_zephyr.NodeInfo.Peers.{Evicts}
use meshtastic_zephyr.NodeInfo.Spacing.{start, hears, alloc_reply_spaced}

abbrev our_user : User
our_user = record {
  user_id = [];
  long_name = b'z' ∷ [];
  short_name = [];
  macaddr = [];
  hw_model = 255;
  role = 0;
  is_licensed = false;
  public_key = [];
  has_is_unmessagable = false;
  is_unmessagable = false;
}

abbrev env : Env
env = record {
  unknown_suppress_sec = 60;
  reply_suppress_sec = 12;
  node_id = 7;
  primary_index = 0;
  user = our_user;
  encode_user = λ size user. some user.long_name;
  decode_user = λ bytes. none;
}

abbrev request : Packet
request = record zero_packet { from = 9; to = 7; id = 5; portnum = 4 }

abbrev again : Packet
again = record zero_packet { from = 9; to = 7; id = 6; portnum = 4 }

abbrev text : Packet
text = record zero_packet { from = 10; to = 7; id = 8; portnum = 1 }

abbrev empty_cache : List Peer
empty_cache = no_peer ∷ no_peer ∷ []

abbrev answered_cache : List Peer
answered_cache = (alloc_reply env 1000 (some request) empty_cache).0

abbrev reply_for : Packet → Packet
reply_for req = record zero_packet {
  to = 9;
  portnum = 4;
  payload = some (b'z' ∷ []);
  payload_len = 1;
  request_id = req.id;
}

abbrev later_cache : List Peer
later_cache = (on_packet env 2000 (some text) answered_cache).0

first_answer :
    alloc_reply env 1000 (some request) empty_cache ≡ (answered_cache, ok (reply_for request))
unfolding alloc_reply update peer_get scan answers answered interval_elapsed nodeinfo_build_packet
first_answer = refl

too_soon : (alloc_reply env 12999 (some again) later_cache).1 ≡ err enoent
unfolding alloc_reply on_packet heard asks update peer_get scan answers answered interval_elapsed
    nodeinfo_build_packet
too_soon = refl

second_answer :
    alloc_reply env 13000 (some again) later_cache
    ≡ ((alloc_reply env 13000 (some again) later_cache).0, ok (reply_for again))
unfolding alloc_reply on_packet heard asks update peer_get scan answers answered interval_elapsed
    nodeinfo_build_packet
second_answer = refl

text_keeps : ¬ Evicts 10 9 answered_cache
unfolding alloc_reply update peer_get scan answers answered interval_elapsed nodeinfo_build_packet
text_keeps x = cc x.is_full

alloc_reply_spaced_example : 1000 + 12 * 1000 ≤ 13000
alloc_reply_spaced_example =
    alloc_reply_spaced env 1000 13000 request again (reply_for request) (reply_for again)
      empty_cache answered_cache later_cache (alloc_reply env 13000 (some again) later_cache).0
      (omega arith) first_answer (hears 2000 text start text_keeps) refl second_answer
