-- ===== src/Airtime.antt =====
-- src/meshtastic_airtime.c: air time added up by periods of ten seconds and of a minute. The device's
-- `atomic_t` has 32 bits. The two percentages are floating-point quotients of the sums given here.
pub mod Window
pub mod Buckets
mod Tests
use meshtastic_zephyr.Prelude.{
  ℕ, zero, suc, ◌+◌, ◌%◌, ◌^◌, ◌==◌, ◌/◌, Bool, true, false, not, List, [], ◌∷◌, if◌then◌else◌,
  get_or, set, replicate,
}
use meshtastic_zephyr.Packet.{inc32}

-- `enum meshtastic_airtime_type`; `other_type` is any other value.
pub data AirtimeType : Type 0 where
  tx rx rx_all other_type : AirtimeType

-- `struct meshtastic_airtime_state`
pub record Airtime : Type 0 where
  pub channel_utilization : List ℕ
  pub utilization_tx : List ℕ
  pub sec_since_boot : ℕ
  pub last_util_period : ℕ
  pub last_util_period_tx : ℕ
  pub first_tick : Bool

-- `period_util_minute`: ten-second periods, six of them
pub period_util_minute : ℕ → ℕ
period_util_minute sec = (sec / 10) % 6

-- `period_util_hour`: minutes, sixty of them
pub period_util_hour : ℕ → ℕ
period_util_hour sec = (sec / 60) % 60

-- `atomic_add` on one element
abbrev pub add_at : List ℕ → ℕ → ℕ → List ℕ
add_at bs i ms = set bs i ((get_or bs i 0 + ms) % 2 ^ 32)

-- `channel_util_add`
pub channel_util_add : ℕ → Airtime → Airtime
channel_util_add ms a = record a {
  channel_utilization = add_at a.channel_utilization (period_util_minute a.sec_since_boot) ms;
}

-- `meshtastic_airtime_log`
pub log : AirtimeType → ℕ → Airtime → Airtime
log tx ms a =
    channel_util_add ms
      (record a { utilization_tx = add_at a.utilization_tx (period_util_hour a.sec_since_boot) ms })
log rx ms a = channel_util_add ms a
log rx_all ms a = channel_util_add ms a
log other_type ms a = a

-- The sum that both percentages are computed from.
pub sum32 : ℕ → List ℕ → ℕ
sum32 sum [] = sum
sum32 sum (b ∷ bs) = sum32 ((sum + b) % 2 ^ 32) bs

-- One counter array at a tick: the array and the last period.
pub tick_buckets : ℕ → List ℕ → ℕ → List ℕ × ℕ
tick_buckets period buckets last =
    if not (last == period) then (set buckets period 0, period) else (buckets, last)

-- `meshtastic_airtime_tick`
pub tick : Airtime → Airtime
tick a =
    let sec = inc32 a.sec_since_boot in
    let util_period = period_util_minute sec in
    let util_period_tx = period_util_hour sec in
    let channel = tick_buckets util_period a.channel_utilization a.last_util_period in
    let hour = tick_buckets util_period_tx a.utilization_tx a.last_util_period_tx in
    if a.first_tick
    then record a {
      sec_since_boot = sec;
      first_tick = false;
      last_util_period = util_period;
      last_util_period_tx = util_period_tx;
    }
    else record {
      channel_utilization = channel.0;
      utilization_tx = hour.0;
      sec_since_boot = sec;
      last_util_period = channel.1;
      last_util_period_tx = hour.1;
      first_tick = a.first_tick;
    }

-- `meshtastic_airtime_init`
pub init : Airtime
init = record {
  channel_utilization = replicate 6 0;
  utilization_tx = replicate 60 0;
  sec_since_boot = 0;
  last_util_period = 0;
  last_util_period_tx = 0;
  first_tick = true;
}
