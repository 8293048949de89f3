-- ===== src/Modules/Tests.antt =====
-- A module that answers requests on port 3.
use meshtastic_zephyr.Prelude.{◌≡◌, refl, true, false, List, [], ◌∷◌, none, some, enoent}
use meshtastic_zephyr.Packet.{Packet, zero_packet}
use meshtastic_zephyr.Modules.{Module, handlers, find_reply, set_reply_to, reply_of}
use meshtastic_zephyr.Modules.Replies.{IsReply, reply_of-IsReply}

-- The first module declines, the second one answers, and the third one sees all packets.
abbrev three_modules : List Module
three_modules =
    record {
      portnum = 3;
      all_packets = false;
      on_packet = true;
      alloc_reply = some (λ p reply. (some enoent, reply));
    }
    ∷ record {
      portnum = 3;
      all_packets = false;
      on_packet = false;
      alloc_reply = some (λ p reply. (none, record reply { portnum = 3; want_response = true }));
    }
    ∷ record { portnum = 0; all_packets = true; on_packet = true; alloc_reply = none }
    ∷ []

abbrev question : Packet
question = record zero_packet { from = 7; to = 9; id = 77; portnum = 3; want_response = true }

abbrev answer : Packet
answer = record zero_packet { to = 7; portnum = 3; request_id = 77 }

answered : reply_of 9 three_modules question ≡ some answer
unfolding reply_of find_reply set_reply_to
answered = refl

called : handlers three_modules 0 question ≡ 0 ∷ 2 ∷ []
unfolding handlers
called = refl

reply_of-IsReply_example : IsReply 9 question answer
reply_of-IsReply_example = reply_of-IsReply 9 three_modules question answer answered
