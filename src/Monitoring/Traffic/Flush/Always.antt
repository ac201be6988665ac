-- ===== src/Monitoring/Traffic/Flush/Always.antt =====
-- The round trip of a state that reports have reached.
use node_get.Prelude.{
  ◌≡◌, ◌≤◌, ◌^◌, ◌-◌, Bool, false, List, [], ◌∷◌, none, some, any, All, arith, Bool-cases, inl, inr,
}
use node_get.Prelude.Int.{ℤ}
use node_get.Keyed.{find, Distinct, put-Distinct, put-All}
use node_get.Monitoring.Traffic.{
  cast_signed, DynamicPerNetworkInterfaceData, DynamicMonitoringData, Key, key_discrete, State,
}
use node_get.Monitoring.Traffic.Report.{
  is_none, is_true, is_stale, reading_of, apply_fresh, apply_interface, apply_interfaces,
  apply_report, traffic_or_default,
}
use node_get.Monitoring.Traffic.Totals.{total_of, AllFit, apply_reports, apply_reports-Moves}
use node_get.Monitoring.Traffic.Flush.{current_rows, init, default_state}
use node_get.Monitoring.Traffic.Flush.Restore.{InRange, AllInRange, FitsU32, init-current_rows}

-- The counters of an interface are `u64` and its number is a `u32`.
abbrev pub IsTyped : DynamicPerNetworkInterfaceData → Type 0
IsTyped i = FitsU32 i.ifindex × (i.total_received ≤ 2 ^ 64 - 1) × (i.total_transmitted ≤ 2 ^ 64 - 1)

abbrev pub AreTyped : List (ℤ × DynamicMonitoringData × ℤ) → Type 0
AreTyped = All (λ r. All IsTyped r.1.interfaces)

-- What the round trip needs of the readings.
abbrev Kept : State → Type 0
Kept s = Distinct key_discrete s.prev_readings × AllInRange s.prev_readings

module _ (uuid_id : ℤ) (report : DynamicMonitoringData) (received_at : ℤ) where
  interface_Kept :
      (i : DynamicPerNetworkInterfaceData) (s : State) (recorded : Bool)
      → IsTyped i
      → Kept s
      → Kept (apply_interface uuid_id report received_at i (s, recorded)).0
  unfolding apply_interface apply_fresh reading_of
  interface_Kept i s recorded typed k =
      let key : Key = record { uuid_id = uuid_id; interface_name = i.interface_name } in
      let prev = find key_discrete key s.prev_readings in
      let r = reading_of report received_at prev i in
      elim (Bool-cases (is_stale (cast_signed 64 report.time) prev)) [
        | inl h ↦ rw h k
        | inr h ↦ rw h (
          put-Distinct key_discrete key r s.prev_readings k.0,
          put-All key_discrete InRange key r s.prev_readings typed k.1,
        )
      ]

  interfaces_Kept :
      (is : List DynamicPerNetworkInterfaceData) (s : State) (recorded : Bool)
      → All IsTyped is
      → Kept s
      → Kept (apply_interfaces uuid_id report received_at is (s, recorded)).0
  unfolding apply_interfaces
  interfaces_Kept [] s recorded typed k = k
  interfaces_Kept (i ∷ is) s recorded typed k =
      let next = apply_interface uuid_id report received_at i (s, recorded) in
      elim (Bool-cases (is_true i.is_outlet)) [
        | inl h ↦
            rw h (interfaces_Kept is next.0 next.1 typed.1 (interface_Kept i s recorded typed.0 k))
        | inr h ↦ rw h (interfaces_Kept is s recorded typed.1 k)
      ]

  report_Kept :
      (s : State)
      → All IsTyped report.interfaces
      → Kept s
      → Kept (apply_report uuid_id report received_at s)
  unfolding apply_report
  report_Kept s typed k = elim (Bool-cases (any (λ i. is_none i.is_outlet) report.interfaces)) [
    | inl h ↦ rw h k
    | inr h ↦ rw h (interfaces_Kept report.interfaces s false typed k)
  ]

reports_Kept :
    (reports : List (ℤ × DynamicMonitoringData × ℤ)) (s : State)
    → AreTyped reports
    → Kept s
    → Kept (apply_reports reports s)
unfolding apply_reports
reports_Kept [] s typed k = k
reports_Kept ((uuid_id, report, received_at) ∷ reports) s typed k =
    reports_Kept reports (apply_report uuid_id report received_at s) typed.1
      (report_Kept uuid_id report received_at s typed.0 k)

default_fits : AllFit default_state
unfolding default_state find
default_fits k = (ground arith, ground arith)

default_Kept : Kept default_state
unfolding default_state
default_Kept = (tt, tt)

-- Whatever reports with counters of their types were applied since the start: writing the state to
-- an empty table and loading it brings back the readings, and the totals of the interfaces with a
-- reading.
pub init-apply_reports :
    (reports : List (ℤ × DynamicMonitoringData × ℤ)) (k : Key)
    → AreTyped reports
    → (let s = apply_reports reports default_state in
        let restored = init (current_rows s.totals s.prev_readings) default_state in
        (find key_discrete k restored.prev_readings ≡ find key_discrete k s.prev_readings)
        × (total_of restored k ≡ elim (find key_discrete k s.prev_readings) [
          | none ↦ traffic_or_default none
          | some _ ↦ total_of s k
        ]))
init-apply_reports reports k typed =
    let s = apply_reports reports default_state in
    let kept = reports_Kept reports default_state typed default_Kept in
    let m = apply_reports-Moves reports default_state default_fits in
    init-current_rows s k m.fits kept.0 kept.1
