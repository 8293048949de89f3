-- ===== src/NodeDb/Tests.antt =====
-- A table of src/meshtastic_nodedb.c that is full: the local node 9, and node 1.
use meshtastic_zephyr.Prelude.{
  ◌≤◌, ◌≡◌, refl, ◌⊎◌, List, [], ◌∷◌, none, some, ok, arith, length, set,
}
use meshtastic_zephyr.Packet.{Packet, zero_packet}
use meshtastic_zephyr.NodeDb.{
  Entry, new_entry, find_entry, get_or_create, oldest_evictable, oldest_from,
}
use meshtastic_zephyr.NodeDb.Table.{IsTable, IsAbsent}
use meshtastic_zephyr.NodeDb.Update.{Decoders, on_packet, get}
use meshtastic_zephyr.NodeDb.Eviction.{IsStuck}
use meshtastic_zephyr.NodeDb.Heard.{on_packet-IsTable, on_packet_heard}

abbrev full_table : List Entry
full_table = new_entry 9 ∷ new_entry 1 ∷ []

full_table-IsTable : IsTable full_table
unfolding IsTable IsAbsent
full_table-IsTable =
    (refl, omega arith, (omega arith, omega arith), (refl, omega arith, omega arith, omega arith))

abbrev no_decoders : Decoders
no_decoders = record {
  user = λ b. none;
  position = λ b. none;
  telemetry = λ b. none;
  status = λ b. none;
}

abbrev from_two : Packet
from_two = record zero_packet { from = 2; to = 9; id = 3; portnum = 1 }

on_packet-IsTable_example :
    IsTable (on_packet no_decoders 2 9 60 from_two full_table)
    × (length (on_packet no_decoders 2 9 60 from_two full_table) ≤ 2)
on_packet-IsTable_example =
    on_packet-IsTable no_decoders 2 9 60 from_two full_table full_table-IsTable (omega arith)

on_packet_heard_example :
    (IsStuck 2 9 2 full_table × (on_packet no_decoders 2 9 60 from_two full_table ≡ full_table))
    ⊎ ((e : Entry) × (get 2 (on_packet no_decoders 2 9 60 from_two full_table) ≡ ok e)
        × (e.node.num ≡ 2)
        × (e.node.last_heard ≡ 60))
on_packet_heard_example =
    on_packet_heard no_decoders 2 9 60 from_two full_table (omega arith) (omega arith)

not_there : find_entry 2 full_table ≡ none
unfolding find_entry
not_there = refl

evicted : get_or_create 2 9 2 full_table ≡ some (set full_table 1 (new_entry 2), 1)
unfolding get_or_create find_entry oldest_evictable oldest_from
evicted = refl
