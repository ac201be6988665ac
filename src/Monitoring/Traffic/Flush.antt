-- ===== src/Monitoring/Traffic/Flush.antt =====
-- crates/ng-monitoring/src/traffic_stats.rs, `flush`, `current_total_model` and `init`: the readings
-- and totals as rows of the table `traffic_current_total`, and back.
pub mod Restore
pub mod Always
pub mod Retry
use node_get.Prelude.{
  ℕ, ◌-◌, ◌^◌, ◌<◌, ◌≤◌, ◌≡◌, refl, ap, ◌∙◌, List, [], ◌∷◌, Option, none, some, All, arith,
  Option-cases, inl, inr, subst,
}
use node_get.Prelude.Int.{ℤ}
use node_get.Text.{Text}
use node_get.Keyed.{find, put, put_all, find-put_all, Distinct, Absent}
use node_get.Monitoring.Traffic.{
  cast_signed, cast_unsigned, NetworkInterfaceReading, Traffic, Key, key_discrete, State,
}
use node_get.Monitoring.Traffic.Report.{traffic_or_default}
use node_get.Monitoring.Traffic.Totals.{total_of, FitsU64, AllFit}

pub record CurrentTotal : Type 0 where
  pub uuid_id : ℤ
  pub interface_name : Text
  pub boot_id : Option Text
  pub ifindex : Option ℤ
  pub counter_received : ℤ
  pub counter_transmitted : ℤ
  pub report_time : ℤ
  pub total_received : ℤ
  pub total_transmitted : ℤ
  pub created_at : ℤ
  pub updated_at : ℤ

unfoldable pub current_total_model : ℤ → Text → NetworkInterfaceReading → Traffic → CurrentTotal
current_total_model uuid_id interface_name reading total = record {
  uuid_id = uuid_id;
  interface_name = interface_name;
  boot_id = reading.boot_id;
  ifindex = elim reading.ifindex [ none ↦ none | some i ↦ some (cast_signed 32 i) ];
  counter_received = cast_signed 64 reading.counter_received;
  counter_transmitted = cast_signed 64 reading.counter_transmitted;
  report_time = reading.report_time;
  total_received = cast_signed 64 total.received;
  total_transmitted = cast_signed 64 total.transmitted;
  created_at = reading.created_at;
  updated_at = reading.updated_at;
}

-- The rows that `flush` writes.
unfoldable pub current_rows :
    List (Key × Traffic) → List (Key × NetworkInterfaceReading) → List CurrentTotal
unfolding current_total_model
current_rows totals [] = []
current_rows totals ((key, reading) ∷ readings) =
    current_total_model key.uuid_id key.interface_name reading
      (traffic_or_default (find key_discrete key totals))
    ∷ current_rows totals readings

unfoldable pub reading_of_row : CurrentTotal → NetworkInterfaceReading
reading_of_row row = record {
  boot_id = row.boot_id;
  ifindex = elim row.ifindex [ none ↦ none | some i ↦ some (cast_unsigned 32 i) ];
  counter_received = cast_unsigned 64 row.counter_received;
  counter_transmitted = cast_unsigned 64 row.counter_transmitted;
  report_time = row.report_time;
  created_at = row.created_at;
  updated_at = row.updated_at;
}

unfoldable pub traffic_of_row : CurrentTotal → Traffic
traffic_of_row row = record {
  received = cast_unsigned 64 row.total_received;
  transmitted = cast_unsigned 64 row.total_transmitted;
}

-- The loop of `init` over the rows of the table, from the default state.
unfoldable pub init : List CurrentTotal → State → State
unfolding reading_of_row traffic_of_row
init [] state = state
init (row ∷ rows) state =
    let key : Key = record { uuid_id = row.uuid_id; interface_name = row.interface_name } in
    init rows (record state {
      totals = put key_discrete key (traffic_of_row row) state.totals;
      prev_readings = put key_discrete key (reading_of_row row) state.prev_readings;
    })

unfoldable pub default_state : State
default_state = record { prev_readings = []; totals = []; pending_possible_data_losses = [] }
