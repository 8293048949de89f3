-- ===== src/Airtime/Tests.antt =====
-- The counters of src/meshtastic_airtime.c after two logs and a tick.
use meshtastic_zephyr.Prelude.{◌≡◌, ◌<◌, ◌%◌, ◌^◌, List, [], ◌∷◌, arith}
use meshtastic_zephyr.Airtime.{tx, rx, sum32}
use meshtastic_zephyr.Airtime.Window.{recent}
use meshtastic_zephyr.Airtime.Buckets.{Op, log_op, tick_op, run, history, noted, run_sums}

abbrev test_ops : List Op
test_ops = log_op rx 20 ∷ tick_op ∷ log_op tx 50 ∷ []

test_ops_seconds : (history test_ops).seconds < 2 ^ 32
unfolding history noted
test_ops_seconds = omega arith

run_sums_example :
    (sum32 0 (run test_ops).channel_utilization
      ≡ recent 10 6 (history test_ops).seconds (history test_ops).all_logged % 2 ^ 32)
    × (sum32 0 (run test_ops).utilization_tx
        ≡ recent 60 60 (history test_ops).seconds (history test_ops).tx_logged % 2 ^ 32)
run_sums_example = run_sums test_ops test_ops_seconds
