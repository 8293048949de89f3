-- ===== src/Radio/Tests.antt =====
-- A driver that is busy twice, and a queue of one frame.
use meshtastic_zephyr.Prelude.{
  zero, suc, ◌≡◌, refl, true, false, List, [], ◌∷◌, none, some, ebusy, arith,
}
use meshtastic_zephyr.Packet.{ℤ}
use meshtastic_zephyr.Core.Sample.{zero_status}
use meshtastic_zephyr.Radio.{
  Radio, Kconfig, Driver, recv_stop, recv_start, config_tx, config_rx, lora_send, sleep_ms,
  busy_backoff_ms, send_loop, configured_send, report_tx, send_wire_now,
}
use meshtastic_zephyr.Radio.Sending.{Sends, send_wire_now-Sends}
use meshtastic_zephyr.Radio.Reception.{Kept, RxOp, received, turn, run, frames_of, run_keeps}

abbrev test_kconfig : Kconfig
test_kconfig = record {
  tx_busy_retries = 3;
  backoff_min_ms = 10;
  backoff_max_ms = 50;
  rx_queue_depth = 1;
  with_airtime = false;
}

abbrev busy_twice : Driver
busy_twice = record {
  config_tx = none;
  send = λ i. elim i [ zero ↦ some ebusy | suc zero ↦ some ebusy | suc (suc k) ↦ none ];
  arm = none;
  random = λ i. 41;
}

abbrev test_radio : Radio
test_radio = record { rx_armed = true; status = zero_status; rx_queue = [] }

third_time :
    (send_wire_now test_kconfig busy_twice (1 ∷ []) test_radio).calls
    ≡ recv_stop
      ∷ config_tx
      ∷ lora_send (1 ∷ [])
      ∷ sleep_ms 10
      ∷ lora_send (1 ∷ [])
      ∷ sleep_ms 10
      ∷ lora_send (1 ∷ [])
      ∷ config_rx
      ∷ recv_start
      ∷ []
unfolding send_wire_now configured_send send_loop busy_backoff_ms report_tx
third_time = refl

send_wire_now-Sends_example :
    Sends test_kconfig busy_twice test_radio
      (send_wire_now test_kconfig busy_twice (1 ∷ []) test_radio)
send_wire_now-Sends_example = send_wire_now-Sends test_kconfig busy_twice (1 ∷ []) test_radio

-- Two frames come in while there is room for one.
abbrev test_ops : List RxOp
test_ops =
    received (record { buf = 1 ∷ []; rssi = ℤ.pos 0; snr = ℤ.pos 0 })
    ∷ received (record { buf = 2 ∷ []; rssi = ℤ.pos 0; snr = ℤ.pos 0 })
    ∷ turn none
    ∷ []

run_keeps_example :
    Kept test_kconfig 0
      (frames_of test_ops)
      (run test_kconfig test_ops (record { radio = test_radio; handed = [] }))
run_keeps_example = run_keeps test_kconfig test_ops test_radio refl (omega arith)
