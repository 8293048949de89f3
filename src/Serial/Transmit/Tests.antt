-- ===== src/Serial/Transmit/Tests.antt =====
-- The transmit side on a queue of two frames and a ring of 600 bytes.
use meshtastic_zephyr.Prelude.{◌≤◌, ◌≡◌, refl, Bool, [], ◌∷◌, none, arith, length}
use meshtastic_zephyr.Phone.{ConfigState}
use meshtastic_zephyr.Phone.Queue.Refines.{frames}
use meshtastic_zephyr.Phone.Handshake.{Source, Session}
use meshtastic_zephyr.Phone.Handshake.Rest.{IsReady}
use meshtastic_zephyr.Serial.{encode_frame}
use meshtastic_zephyr.Serial.Transmit.Order.{on_wire}
use meshtastic_zephyr.Serial.Transmit.Stall.{Blocked, Blocked-TxSteps}
use meshtastic_zephyr.Serial.Transmit.Rounds.{
  Line, TxSteps, start, work, interrupt, work_step, isr_step, all_bytes, TxSteps-all_bytes,
}

abbrev quiet_source : Source
quiet_source = record {
  node_id = 7;
  user = record {
    user_id = [];
    long_name = b'a' ∷ [];
    short_name = b'a' ∷ [];
    macaddr = [];
    hw_model = 0;
    role = 0;
    is_licensed = Bool.false;
    public_key = [];
    has_is_unmessagable = Bool.false;
    is_unmessagable = Bool.false;
  };
  device_role = 0;
  hw_model = 0;
  device_ui_content = [];
  get_channel = λ i. none;
  get_config = λ tag. none;
  get_module = λ tag. none;
  encode_fromradio = λ m. none;
}

abbrev two_frames : Session
two_frames = record {
  api = record {
    queue = (9 ∷ []) ∷ (8 ∷ []) ∷ [];
    current = [];
    queue_size = 2;
    head = 0;
    tail = 0;
    count = 2;
    current_valid = Bool.false;
    from_num = 0;
    config_state = ConfigState.idle;
    config_index = 0;
    config_request_id = 0;
  };
  next_id = 1;
}

two_frames-IsReady : IsReady two_frames
two_frames-IsReady = record {
  valid = record {
    storage = omega arith;
    has_room = omega arith;
    tail_in = omega arith;
    count_in = omega arith;
    head_at = refl;
  };
  at_rest = refl;
}

on_the_wire : on_wire (frames two_frames.api) ≡ 148 ∷ 195 ∷ 0 ∷ 1 ∷ 9 ∷ 148 ∷ 195 ∷ 0 ∷ 1 ∷ 8 ∷ []
unfolding encode_frame
on_the_wire = refl

abbrev idle_line : Line
idle_line = record { session = two_frames; ring = []; out = [] }

abbrev moved_line : Line
moved_line = isr_step quiet_source 600 3 (work_step quiet_source 600 idle_line)

line_steps : TxSteps quiet_source 600 idle_line moved_line
line_steps = interrupt 3 (work start)

TxSteps-all_bytes_example :
    IsReady moved_line.session
    × (length moved_line.ring ≤ 600)
    × (all_bytes quiet_source 600 moved_line ≡ all_bytes quiet_source 600 idle_line)
TxSteps-all_bytes_example =
    TxSteps-all_bytes quiet_source 600 {a = idle_line} {b = moved_line} two_frames-IsReady
      (omega arith) line_steps

-- The same queue with a ring of four bytes.
blocked : Blocked quiet_source 4 (9 ∷ []) ((8 ∷ []) ∷ []) two_frames
unfolding Blocked encode_frame
blocked = (two_frames-IsReady, refl, omega arith)

abbrev stuck_line : Line
stuck_line = isr_step quiet_source 4 3 (work_step quiet_source 4 idle_line)

stuck_steps : TxSteps quiet_source 4 idle_line stuck_line
stuck_steps = interrupt 3 (work start)

Blocked-TxSteps_example :
    Blocked quiet_source 4 (9 ∷ []) ((8 ∷ []) ∷ []) stuck_line.session
    × (stuck_line.ring ≡ [])
    × (stuck_line.out ≡ [])
Blocked-TxSteps_example =
    Blocked-TxSteps quiet_source 4 (9 ∷ []) ((8 ∷ []) ∷ []) {a = idle_line} {b = stuck_line} blocked
      refl stuck_steps
