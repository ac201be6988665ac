-- ===== src/Monitoring/Traffic/Totals.antt =====
-- What a report may do to the totals and to the readings.
use node_get.Prelude.{
  ◌-◌, ◌^◌, ◌≤◌, ◌≡◌, inl, inr, Bool, false, List, [], ◌∷◌, Option, none, some, any, arith,
  Bool-cases,
}
use node_get.Prelude.Int.{ℤ, ◌≤ℤ◌}
use node_get.Keyed.{find, put, find-put_elim}
use node_get.Monitoring.Traffic.{
  cast_signed, saturating_add, DynamicPerNetworkInterfaceData, DynamicMonitoringData,
  NetworkInterfaceReading, Traffic, PossibleDataLoss, Key, key_discrete, State,
}
use node_get.Monitoring.Traffic.Report.{
  traffic_or_default, is_none, is_true, reading_of, add_traffic, is_stale, apply_fresh,
  apply_interface, apply_interfaces, apply_report,
}

abbrev pub total_of : State → Key → Traffic
total_of state key = traffic_or_default (find key_discrete key state.totals)

abbrev pub AtMost : Traffic → Traffic → Type 0
AtMost a b = (a.received ≤ b.received) × (a.transmitted ≤ b.transmitted)

-- Both directions fit into a `u64`.
abbrev pub FitsU64 : Traffic → Type 0
FitsU64 t = (t.received ≤ 2 ^ 64 - 1) × (t.transmitted ≤ 2 ^ 64 - 1)

-- The reading afterwards is there, and not older.
abbrev pub NotOlder : Option NetworkInterfaceReading → Option NetworkInterfaceReading → Type 0
NotOlder none after = Unit {0}
NotOlder (some r) none = ⊥
NotOlder (some r) (some s) = r.report_time ≤ℤ s.report_time

-- From one state to a later one.
pub record Moves (before after : State) : Type 0 where
  pub grows : (k : Key) → AtMost (total_of before k) (total_of after k)
  pub fits : (k : Key) → FitsU64 (total_of after k)
  pub newer :
      (k : Key)
      → NotOlder
          (find key_discrete k before.prev_readings)
          (find key_discrete k after.prev_readings)

add_grows : (t increase : Traffic) → FitsU64 t → AtMost t (add_traffic t increase)
unfolding saturating_add
add_grows t increase h = (ground (arith, h), ground (arith, h))

add_fits : (t increase : Traffic) → FitsU64 (add_traffic t increase)
unfolding saturating_add
add_fits t increase = (ground arith, ground arith)

NotOlder-refl : (r : Option NetworkInterfaceReading) → NotOlder r r
NotOlder-refl none = tt
NotOlder-refl (some r) = ground arith

NotOlder-trans :
    (a b c : Option NetworkInterfaceReading) → NotOlder a b → NotOlder b c → NotOlder a c
NotOlder-trans none b c g h = tt
NotOlder-trans (some a) none c g h = elim g [ ]
NotOlder-trans (some a) (some b) none g h = h
NotOlder-trans (some a) (some b) (some c) g h = omega (arith, g, h)

Moves-refl : (s : State) → ((k : Key) → FitsU64 (total_of s k)) → Moves s s
Moves-refl s h = record {
  grows = λ k. (omega arith, omega arith);
  fits = h;
  newer = λ k. NotOlder-refl (find key_discrete k s.prev_readings);
}

Moves-trans : (a b c : State) → Moves a b → Moves b c → Moves a c
Moves-trans a b c g h = record {
  grows = λ k.
      (omega (arith, (g.grows k).0, (h.grows k).0), omega (arith, (g.grows k).1, (h.grows k).1));
  fits = h.fits;
  newer = λ k. NotOlder-trans _ _ _ (g.newer k) (h.newer k);
}

-- One key gets a new reading and a larger total.
moved :
    (s : State) (key : Key) (r : NetworkInterfaceReading) (increase : Traffic)
    (pending : List PossibleDataLoss)
    → ((k : Key) → FitsU64 (total_of s k))
    → NotOlder (find key_discrete key s.prev_readings) (some r)
    → Moves s (record {
      prev_readings = put key_discrete key r s.prev_readings;
      totals = put key_discrete key (add_traffic (total_of s key) increase) s.totals;
      pending_possible_data_losses = pending;
    })
moved s key r increase pending fits newer =
    let t : Traffic = add_traffic (total_of s key) increase in
    record {
      grows =
          find-put_elim key_discrete (λ k o. AtMost (total_of s k) (traffic_or_default o)) key t
            s.totals (add_grows (total_of s key) increase (fits key))
            (λ k. (omega arith, omega arith));
      fits =
          find-put_elim key_discrete (λ k o. FitsU64 (traffic_or_default o)) key t s.totals
            (add_fits (total_of s key) increase) fits;
      newer =
          find-put_elim key_discrete (λ k o. NotOlder (find key_discrete k s.prev_readings) o) key r
            s.prev_readings newer (λ k. NotOlder-refl (find key_discrete k s.prev_readings));
    }

fresh_NotOlder :
    (report : DynamicMonitoringData) (received_at : ℤ) (prev : Option NetworkInterfaceReading)
    (interface : DynamicPerNetworkInterfaceData)
    → is_stale (cast_signed 64 report.time) prev ≡ false
    → NotOlder prev (some (reading_of report received_at prev interface))
unfolding is_stale reading_of
fresh_NotOlder report received_at none interface h = tt
fresh_NotOlder report received_at (some prev) interface h = ground (arith, h)

abbrev pub AllFit : State → Type 0
AllFit s = (k : Key) → FitsU64 (total_of s k)

module _ (uuid_id : ℤ) (report : DynamicMonitoringData) (received_at : ℤ) where
  interface_Moves :
      (interface : DynamicPerNetworkInterfaceData) (s : State) (recorded : Bool)
      → AllFit s
      → Moves s (apply_interface uuid_id report received_at interface (s, recorded)).0
  unfolding apply_interface apply_fresh
  interface_Moves interface s recorded fits =
      let key : Key = record { uuid_id = uuid_id; interface_name = interface.interface_name } in
      elim (Bool-cases
        (is_stale (cast_signed 64 report.time) (find key_discrete key s.prev_readings))) [
          | inl h ↦ rw h (Moves-refl s fits)
          | inr h ↦ rw h (
              moved s key _ _ _ fits (
                fresh_NotOlder report received_at (find key_discrete key s.prev_readings) interface
                  h))
        ]

  interfaces_Moves :
      (interfaces : List DynamicPerNetworkInterfaceData) (s : State) (recorded : Bool)
      → AllFit s
      → Moves s (apply_interfaces uuid_id report received_at interfaces (s, recorded)).0
  unfolding apply_interfaces
  interfaces_Moves [] s recorded fits = Moves-refl s fits
  interfaces_Moves (interface ∷ interfaces) s recorded fits =
      elim (Bool-cases (is_true interface.is_outlet)) [
        | inl h ↦ rw h (
            let next = apply_interface uuid_id report received_at interface (s, recorded) in
            let m = interface_Moves interface s recorded fits in
            Moves-trans s next.0 _ m (interfaces_Moves interfaces next.0 next.1 m.fits))
        | inr h ↦ rw h (interfaces_Moves interfaces s recorded fits)
      ]

  pub apply_report-Moves :
      (s : State) → AllFit s → Moves s (apply_report uuid_id report received_at s)
  unfolding apply_report
  apply_report-Moves s fits =
      elim (Bool-cases (any (λ interface. is_none interface.is_outlet) report.interfaces)) [
        | inl h ↦ rw h (Moves-refl s fits)
        | inr h ↦ rw h (interfaces_Moves report.interfaces s false fits)
      ]

-- Reports of any devices, one after the other, each with the time it was received.
unfoldable pub apply_reports : List (ℤ × DynamicMonitoringData × ℤ) → State → State
apply_reports [] s = s
apply_reports ((uuid_id, report, received_at) ∷ reports) s =
    apply_reports reports (apply_report uuid_id report received_at s)

-- From a state whose totals fit into u64, any sequence of reports leaves every interface's totals
-- at least as large and within u64, and the report time of every kept reading at least as late.
pub apply_reports-Moves :
    (reports : List (ℤ × DynamicMonitoringData × ℤ)) (s : State)
    → AllFit s
    → Moves s (apply_reports reports s)
unfolding apply_reports
apply_reports-Moves [] s fits = Moves-refl s fits
apply_reports-Moves ((uuid_id, report, received_at) ∷ reports) s fits =
    let m = apply_report-Moves uuid_id report received_at s fits in
    Moves-trans s (apply_report uuid_id report received_at s) _ m
      (apply_reports-Moves reports (apply_report uuid_id report received_at s) m.fits)
