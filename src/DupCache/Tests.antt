-- ===== src/DupCache/Tests.antt =====
-- The duplicate cache on a ring of two entries.
use meshtastic_zephyr.Prelude.{List, [], ◌∷◌}
use meshtastic_zephyr.DupCache.{DupEntry}

abbrev three_packets : List DupEntry
three_packets =
    record { src = 1; id = 1 } ∷ record { src = 2; id = 1 } ∷ record { src = 3; id = 1 } ∷ []
