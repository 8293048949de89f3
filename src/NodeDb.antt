-- ===== src/NodeDb.antt =====
-- src/meshtastic_nodedb.c: the table of nodes heard. The table is the array's first
-- `nodedb_entry_count` entries; the entries after it are not read, and are cleared before use.
pub mod Table
pub mod Eviction
pub mod Heard
pub mod Update
mod Tests
use meshtastic_zephyr.Prelude.{
  ℕ, zero, suc, ◌+◌, ◌-◌, ◌*◌, ◌/◌, ◌%◌, ◌^◌, ◌==◌, ltb, leb, min, Bool, true, false, not, ◌&&◌,
  ◌||◌, List, [], ◌∷◌, ◌++◌, Option, none, some, Result, ok, err, einval, enoent, enomem,
  if◌then◌else◌, length, get_elem?, set, take,
}
use meshtastic_zephyr.Packet.{
  ℤ, Packet, channel_index_invalid, port_nodeinfo, port_position, port_telemetry, port_node_status,
}
use meshtastic_zephyr.Messages.{User}

-- `meshtastic_Position`, as far as it is read
pub record Position : Type 0 where
  pub latitude_i : Option ℤ
  pub longitude_i : Option ℤ
  pub altitude : Option ℤ
  pub time : ℕ
  pub location_source : ℕ
  pub precision_bits : ℕ

-- `meshtastic_PositionLite`
pub record PositionLite : Type 0 where
  pub latitude_i : ℤ
  pub longitude_i : ℤ
  pub altitude : ℤ
  pub time : ℕ
  pub location_source : ℕ
  pub precision_bits : ℕ

-- `meshtastic_Telemetry`: its variant, with the metrics as the bytes of the C struct
pub data Telemetry : Type 0 where
  device_metrics : List ℕ → Telemetry
  environment_metrics : List ℕ → Telemetry
  other_telemetry : Telemetry

-- `meshtastic_NodeInfoLite`; `hops_away` is `none` while `has_hops_away` is not set.
pub record NodeInfoLite : Type 0 where
  pub num : ℕ
  pub last_heard : ℕ
  pub snr : ℤ
  pub channel : ℕ
  pub next_hop : ℕ
  pub hops_away : Option ℕ
  pub bitfield : ℕ
  pub long_name : List ℕ
  pub short_name : List ℕ
  pub hw_model : ℕ
  pub role : ℕ
  pub public_key : List ℕ

-- `struct nodedb_entry`; an absent part is one whose `has_...` is not set.
pub record Entry : Type 0 where
  pub used : Bool
  pub node : NodeInfoLite
  pub position : Option PositionLite
  pub device : Option (List ℕ)
  pub environment : Option (List ℕ)
  pub status : Option (List ℕ)

-- A cleared entry, taken for a node
abbrev pub new_entry : ℕ → Entry
new_entry node_num = record {
  used = true;
  node = record {
    num = node_num;
    last_heard = 0;
    snr = ℤ.pos 0;
    channel = 0;
    next_hop = 0;
    hops_away = none;
    bitfield = 0;
    long_name = [];
    short_name = [];
    hw_model = 0;
    role = 0;
    public_key = [];
  };
  position = none;
  device = none;
  environment = none;
  status = none;
}

-- `WRITE_BIT` and `IS_BIT_SET`
pub write_bit : ℕ → ℕ → Bool → ℕ
write_bit n bit value =
    n / 2 ^ (bit + 1) * 2 ^ (bit + 1) + (if value then 2 ^ bit else 0) + n % 2 ^ bit

pub is_bit_set : ℕ → ℕ → Bool
is_bit_set n bit = n / 2 ^ bit % 2 == 1

-- `apply_user`; the names are cut to 24 and 4 bytes and the key to 32.
pub apply_user : User → Entry → Entry
apply_user user entry =
    let b0 = write_bit entry.node.bitfield 5 true in
    let b1 = write_bit b0 6 user.is_licensed in
    let b2 = write_bit b1 8 user.has_is_unmessagable in
    let b3 = write_bit b2 7 (user.has_is_unmessagable && user.is_unmessagable) in
    record entry {
      node = record (entry.node) {
        long_name = take 24 user.long_name;
        short_name = take 4 user.short_name;
        hw_model = user.hw_model % 256;
        role = user.role % 256;
        public_key = take 32 user.public_key;
        bitfield = b3;
      };
    }

abbrev pub or_zero : Option ℤ → ℤ
or_zero none = ℤ.pos 0
or_zero (some n) = n

-- `apply_position`
pub apply_position : Position → Entry → Entry
apply_position p entry = record entry {
  position = some (record {
    latitude_i = or_zero p.latitude_i;
    longitude_i = or_zero p.longitude_i;
    altitude = or_zero p.altitude;
    time = p.time;
    location_source = p.location_source;
    precision_bits = p.precision_bits;
  });
}

-- `find_entry_locked`: the index of the entry
pub find_entry : ℕ → List Entry → Option ℕ
find_entry node_num [] = none
find_entry node_num (e ∷ es) =
    let rest = find_entry node_num es in
    if e.used && (e.node.num == node_num)
    then some 0
    else elim rest [ none ↦ none | some i ↦ some (i + 1) ]

-- `oldest_evictable_index_locked` on the entries from index `i` on, with the least `last_heard` so
-- far and its index, where there is one
pub oldest_from : ℕ → ℕ → ℕ → Option ℕ → List Entry → Option ℕ
oldest_from local i oldest oldest_index [] = oldest_index
oldest_from local i oldest oldest_index (e ∷ es) =
    let skip = oldest_from local (i + 1) oldest oldest_index es in
    let take_it = oldest_from local (i + 1) e.node.last_heard (some i) es in
    if not e.used || (e.node.num == local)
    then skip
    else if ltb e.node.last_heard oldest
    then take_it
    else skip

pub oldest_evictable : ℕ → List Entry → Option ℕ
oldest_evictable local es = oldest_from local 0 (2 ^ 32 - 1) none es

-- `get_or_create_entry_locked`: the table, and the index of the entry
pub get_or_create : ℕ → ℕ → ℕ → List Entry → Option (List Entry × ℕ)
get_or_create max_nodes local node_num es =
    if node_num == 0 then none else elim (find_entry node_num es) [
      | some i ↦ some (es, i)
      | none ↦
          if ltb (length es) max_nodes
          then some (es ++ (new_entry node_num ∷ []), length es)
          else elim (oldest_evictable local es) [
            | none ↦ none
            | some i ↦ some (set es i (new_entry node_num), i)
          ]
    ]

-- `packet_hops_away`
pub packet_hops_away : Packet → Option ℕ
packet_hops_away p =
    if (p.hop_start == 0) || ltb p.hop_start p.hop_limit
    then none
    else some (p.hop_start - p.hop_limit)

-- `apply_basic_packet`
pub apply_basic_packet : Packet → ℕ → Entry → Entry
apply_basic_packet p now_sec entry = record entry {
  node = record (entry.node) {
    last_heard = now_sec;
    snr = p.snr;
    channel = if p.channel_index == channel_index_invalid then 0 else p.channel_index;
    next_hop = p.next_hop;
    bitfield = write_bit entry.node.bitfield 2 p.via_mqtt;
    hops_away = elim (packet_hops_away p) [ none ↦ entry.node.hops_away | some hops ↦ some hops ];
  };
}
