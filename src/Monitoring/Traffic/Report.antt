-- ===== src/Monitoring/Traffic/Report.antt =====
-- crates/ng-monitoring/src/traffic_stats.rs, `State::apply_report`: a report moves the totals on.
use node_get.Prelude.{
  Bool, true, false, ◌&&◌, not, List, [], ◌∷◌, ◌++◌, Option, none, some, any, if◌then◌else◌,
}
use node_get.Prelude.Int.{ℤ, ltb_ℤ}
use node_get.Keyed.{find, put}
use node_get.Monitoring.Traffic.{
  cast_signed, saturating_add, saturating_mul, sub_i64, DynamicPerNetworkInterfaceData,
  DynamicMonitoringData, NetworkInterfaceReading, Traffic, PossibleDataLoss, Key, key_discrete,
  State, CounterReset, none_reset, any_reset, is_boot_id_changed, detect_counter_reset,
  compute_traffic_increase, detect_possible_data_loss,
}

-- `copied().unwrap_or_default()`
abbrev pub traffic_or_default : Option Traffic → Traffic
traffic_or_default none = record { received = 0; transmitted = 0 }
traffic_or_default (some t) = t

abbrev pub is_none : Option Bool → Bool
is_none none = true
is_none (some _) = false

-- `interface.is_outlet == Some(true)`
abbrev pub is_true : Option Bool → Bool
is_true none = false
is_true (some b) = b

-- The record that a report makes of an interface.
unfoldable pub reading_of :
    DynamicMonitoringData
    → ℤ
    → Option NetworkInterfaceReading
    → DynamicPerNetworkInterfaceData
    → NetworkInterfaceReading
unfolding cast_signed
reading_of report received_at prev_reading interface = record {
  boot_id = report.boot_id;
  ifindex = interface.ifindex;
  counter_received = interface.total_received;
  counter_transmitted = interface.total_transmitted;
  report_time = cast_signed 64 report.time;
  created_at = elim prev_reading [ none ↦ received_at | some prev ↦ prev.created_at ];
  updated_at = received_at;
}

abbrev pub add_traffic : Traffic → Traffic → Traffic
add_traffic total increase = record {
  received = saturating_add total.received increase.received;
  transmitted = saturating_add total.transmitted increase.transmitted;
}

-- The end of the body of the loop: the loss of a reset, if one is found, and whether one is now
-- recorded for this report.
unfoldable pub record_loss :
    ℤ
    → ℤ
    → ℤ
    → Option NetworkInterfaceReading
    → NetworkInterfaceReading
    → CounterReset
    → List PossibleDataLoss × Bool
    → List PossibleDataLoss × Bool
record_loss uuid_id boot_at received_at none current_reading reset losses = losses
record_loss uuid_id boot_at received_at (some prev) current_reading reset (pending, recorded) =
    if any_reset reset && not recorded
    then (let reset_at = if is_boot_id_changed prev current_reading then boot_at else received_at in
        elim (detect_possible_data_loss uuid_id prev reset_at) [
          | none ↦ (pending, recorded)
          | some loss ↦ (pending ++ loss ∷ [], true)
        ])
    else (pending, recorded)

-- `prev_reading.is_some_and(|prev| report_time < prev.report_time)`
unfoldable pub is_stale : ℤ → Option NetworkInterfaceReading → Bool
is_stale report_time none = false
is_stale report_time (some prev) = ltb_ℤ report_time prev.report_time

module _ (uuid_id : ℤ) (report : DynamicMonitoringData) (received_at : ℤ) where
  unfoldable pub boot_at : ℤ
  unfolding sub_i64 saturating_mul cast_signed
  boot_at = sub_i64 received_at (cast_signed 64 (saturating_mul report.uptime 1000))

  -- The body of the loop on an outlet interface that is not stale.
  unfoldable pub apply_fresh :
      Option NetworkInterfaceReading → DynamicPerNetworkInterfaceData → State × Bool → State × Bool
  unfolding reading_of none_reset
  apply_fresh prev_reading interface (state, recorded) =
      let key : Key = record { uuid_id = uuid_id; interface_name = interface.interface_name } in
      let current_reading = reading_of report received_at prev_reading interface in
      let total = traffic_or_default (find key_discrete key state.totals) in
      let reset : CounterReset = elim prev_reading [
        | none ↦ none_reset
        | some prev ↦ detect_counter_reset prev current_reading
      ] in
      let increase = compute_traffic_increase prev_reading current_reading reset in
      let losses =
        record_loss uuid_id boot_at received_at prev_reading current_reading reset
          (state.pending_possible_data_losses, recorded) in
      (
        record {
          prev_readings = put key_discrete key current_reading state.prev_readings;
          totals = put key_discrete key (add_traffic total increase) state.totals;
          pending_possible_data_losses = losses.0;
        },
        losses.1,
      )

  unfoldable pub apply_interface : DynamicPerNetworkInterfaceData → State × Bool → State × Bool
  unfolding apply_fresh
  apply_interface interface (state, recorded) =
      let key : Key = record { uuid_id = uuid_id; interface_name = interface.interface_name } in
      let prev_reading = find key_discrete key state.prev_readings in
      if is_stale (cast_signed 64 report.time) prev_reading
      then (state, recorded)
      else apply_fresh prev_reading interface (state, recorded)

  unfoldable pub apply_interfaces :
      List DynamicPerNetworkInterfaceData → State × Bool → State × Bool
  unfolding apply_interface
  apply_interfaces [] s = s
  apply_interfaces (interface ∷ interfaces) s =
      if is_true interface.is_outlet
      then apply_interfaces interfaces (apply_interface interface s)
      else apply_interfaces interfaces s

  unfoldable pub apply_report : State → State
  unfolding apply_interfaces
  apply_report state =
      if any (λ interface. is_none interface.is_outlet) report.interfaces
      then state
      else (apply_interfaces report.interfaces (state, false)).0
