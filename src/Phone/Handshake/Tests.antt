-- ===== src/Phone/Handshake/Tests.antt =====
-- The configuration handshake of src/meshtastic_phoneapi_config.c on one source.
use meshtastic_zephyr.Prelude.{◌≡◌, refl, Bool, [], ◌∷◌, none, some, arith}
use meshtastic_zephyr.Messages.{FromRadio}
use meshtastic_zephyr.Phone.{PhoneApi, Frame, idle, start_config}
use meshtastic_zephyr.Phone.Handshake.{Source}
use meshtastic_zephyr.Phone.Handshake.Stages.{encode_all}
use meshtastic_zephyr.Phone.Handshake.Sequence.{handshake_attempts}
use meshtastic_zephyr.Phone.Handshake.Popped.{pop_all, pop_frame_sequence}

-- An encoder that writes the id alone.
abbrev encode_id : FromRadio → Frame
encode_id m = m.id ∷ []

abbrev test_source : Source
test_source = record {
  node_id = 7;
  user = record {
    user_id = [];
    long_name = b'a' ∷ [];
    short_name = b'a' ∷ [];
    macaddr = [];
    hw_model = 0;
    role = 0;
    is_licensed = Bool.false;
    public_key = [];
    has_is_unmessagable = Bool.false;
    is_unmessagable = Bool.false;
  };
  device_role = 0;
  hw_model = 0;
  device_ui_content = [];
  get_channel = λ i. none;
  get_config = λ tag. some (tag ∷ []);
  get_module = λ tag. none;
  encode_fromradio = λ m. some (encode_id m);
}

abbrev test_api : PhoneApi
test_api = record {
  queue = [] ∷ [] ∷ [];
  current = [];
  queue_size = 2;
  head = 0;
  tail = 0;
  count = 0;
  current_valid = Bool.false;
  from_num = 0;
  config_state = idle;
  config_index = 0;
  config_request_id = 0;
}

pop_frame_sequence_example :
    pop_all test_source 41 (record { api = start_config test_api 5; next_id = 1 })
    ≡ encode_all encode_id 1 (handshake_attempts test_source 2 5)
pop_frame_sequence_example =
    pop_frame_sequence test_source encode_id (λ m. refl) test_api 5 1 41 (omega arith)
