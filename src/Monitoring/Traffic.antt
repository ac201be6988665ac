-- ===== src/Monitoring/Traffic.antt =====
-- crates/ng-monitoring/src/traffic_stats.rs: the traffic totals of the network interfaces, counted
-- from the counters that the agents report. A `u64` is a natural number, an `i64` an integer.
pub mod Report
pub mod Totals
pub mod Losses
pub mod Increase
pub mod Exact
pub mod Flush
use node_get.Prelude.{
  ℕ, ◌+◌, ◌-◌, ◌*◌, ◌%◌, ◌^◌, min, Bool, true, false, ◌&&◌, ◌||◌, not, List, [], ◌∷◌, ◌++◌, Option,
  none, some, map, any, ltb, ◌==◌, if◌then◌else◌, ℕ_discrete,
}
use node_get.Prelude.Int.{ℤ, pos, negsuc, ◌-ℤ◌, ltb_ℤ}
use node_get.Text.{Text, text_eq, text_discrete}
use node_get.Keyed.{find, put}

-- `cast_signed` and `cast_unsigned` between `u64` and `i64`, and at 32 bits.
unfoldable pub cast_signed : ℕ → ℕ → ℤ
cast_signed bits n = if ltb n (2 ^ (bits - 1)) then pos n else negsuc (2 ^ bits - n - 1)

unfoldable pub cast_unsigned : ℕ → ℤ → ℕ
cast_unsigned bits (pos n) = n
cast_unsigned bits (negsuc n) = 2 ^ bits - n - 1

-- `saturating_add` and `saturating_mul` on `u64`.
unfoldable pub saturating_add : ℕ → ℕ → ℕ
saturating_add a b = min (a + b) (2 ^ 64 - 1)

unfoldable pub saturating_mul : ℕ → ℕ → ℕ
saturating_mul a b = min (a * b) (2 ^ 64 - 1)

-- The difference of two `i64`, with the wrap-around of a release build.
unfoldable pub sub_i64 : ℤ → ℤ → ℤ
unfolding cast_signed
sub_i64 a b = elim (a -ℤ b) [
  | pos n ↦ cast_signed 64 (n % 2 ^ 64)
  | negsuc n ↦ cast_signed 64 (2 ^ 64 - n % 2 ^ 64 - 1)
]

-- The parts of a report that are read (crates/ng-monitoring/src/data_structure.rs).
pub record DynamicPerNetworkInterfaceData : Type 0 where
  pub interface_name : Text
  pub total_received : ℕ
  pub total_transmitted : ℕ
  pub ifindex : Option ℕ
  pub is_outlet : Option Bool

pub record DynamicMonitoringData : Type 0 where
  pub time : ℕ
  pub uptime : ℕ
  pub boot_id : Option Text
  pub interfaces : List DynamicPerNetworkInterfaceData

pub record NetworkInterfaceReading : Type 0 where
  pub boot_id : Option Text
  pub ifindex : Option ℕ
  pub counter_received : ℕ
  pub counter_transmitted : ℕ
  pub report_time : ℤ
  pub created_at : ℤ
  pub updated_at : ℤ

pub record Traffic : Type 0 where
  pub received : ℕ
  pub transmitted : ℕ

pub record PossibleDataLoss : Type 0 where
  pub uuid_id : ℤ
  pub start_time : ℤ
  pub end_time : ℤ

pub record Key : Type 0 where
  pub uuid_id : ℤ
  pub interface_name : Text

unfoldable pub key_discrete : Discrete Key
unfolding text_discrete ℕ_discrete
key_discrete = hlevel (text_discrete, ℕ_discrete)

pub record State : Type 0 where
  pub prev_readings : List (Key × NetworkInterfaceReading)
  pub totals : List (Key × Traffic)
  pub pending_possible_data_losses : List PossibleDataLoss

pub record CounterReset : Type 0 where
  pub received : Bool
  pub transmitted : Bool

unfoldable pub none_reset : CounterReset
none_reset = record { received = false; transmitted = false }

unfoldable pub both_reset : CounterReset
both_reset = record { received = true; transmitted = true }

abbrev pub any_reset : CounterReset → Bool
any_reset reset = reset.received || reset.transmitted

-- `matches!((prev, current), (Some(prev), Some(current)) if prev != current)`
unfoldable pub is_ifindex_changed : NetworkInterfaceReading → NetworkInterfaceReading → Bool
is_ifindex_changed prev_reading current_reading = elim prev_reading.ifindex [
  | none ↦ false
  | some prev ↦ elim current_reading.ifindex [ none ↦ false | some current ↦ not (prev == current) ]
]

unfoldable pub is_boot_id_changed : NetworkInterfaceReading → NetworkInterfaceReading → Bool
is_boot_id_changed prev_reading current_reading = elim prev_reading.boot_id [
  | none ↦ false
  | some prev ↦ elim current_reading.boot_id [
    | none ↦ false
    | some current ↦ not (text_eq prev current)
  ]
]

unfoldable pub is_full_reset : NetworkInterfaceReading → NetworkInterfaceReading → Bool
is_full_reset prev_reading current_reading =
    is_boot_id_changed prev_reading current_reading
    || is_ifindex_changed prev_reading current_reading

unfoldable pub detect_counter_reset :
    NetworkInterfaceReading → NetworkInterfaceReading → CounterReset
unfolding both_reset
detect_counter_reset prev_reading current_reading =
    if is_full_reset prev_reading current_reading then both_reset else record {
      received = ltb current_reading.counter_received prev_reading.counter_received;
      transmitted = ltb current_reading.counter_transmitted prev_reading.counter_transmitted;
    }

-- `saturating_sub` on `u64` is the subtraction that stops at 0.
unfoldable pub increase_for_direction : ℕ → ℕ → Bool → ℕ
increase_for_direction prev current reset = if reset then current else current - prev

unfoldable pub compute_traffic_increase :
    Option NetworkInterfaceReading → NetworkInterfaceReading → CounterReset → Traffic
compute_traffic_increase none current_reading reset = record { received = 0; transmitted = 0 }
compute_traffic_increase (some prev) current_reading reset = record {
  received =
      increase_for_direction prev.counter_received current_reading.counter_received reset.received;
  transmitted =
      increase_for_direction prev.counter_transmitted current_reading.counter_transmitted
        reset.transmitted;
}

-- More than ten minutes.
unfoldable pub possible_data_loss_threshold_ms : ℕ
possible_data_loss_threshold_ms = 10 * 60 * 1000

unfoldable pub detect_possible_data_loss : ℤ → NetworkInterfaceReading → ℤ → Option PossibleDataLoss
unfolding possible_data_loss_threshold_ms
detect_possible_data_loss uuid_id prev_reading reset_at =
    if not (ltb_ℤ (pos possible_data_loss_threshold_ms) (sub_i64 reset_at prev_reading.updated_at))
    then none
    else some
        (record { uuid_id = uuid_id; start_time = prev_reading.updated_at; end_time = reset_at })
