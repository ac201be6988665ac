-- ===== src/Monitoring/Traffic/Losses.antt =====
-- Which possible losses of data a report adds.
use node_get.Prelude.{
  ◌≡◌, refl, sym, subst, ◌⊎◌, inl, inr, Bool, true, false, List, [], ◌∷◌, ◌++◌, Option, none, some,
  any, arith, if◌then◌else◌, Bool-cases, Option-cases,
}
use node_get.Prelude.Int.{ℤ, pos, ltb_ℤ}
use node_get.Keyed.{find}
use node_get.Monitoring.Traffic.{
  cast_signed, sub_i64, DynamicPerNetworkInterfaceData, DynamicMonitoringData,
  NetworkInterfaceReading, PossibleDataLoss, Key, key_discrete, State, CounterReset, any_reset,
  is_boot_id_changed, detect_possible_data_loss, possible_data_loss_threshold_ms,
}
use node_get.Monitoring.Traffic.Report.{
  is_none, is_true, record_loss, is_stale, boot_at, apply_fresh, apply_interface, apply_interfaces,
  apply_report,
}

-- Of this device, and longer than the threshold.
abbrev pub IsLoss : ℤ → PossibleDataLoss → Type 0
IsLoss uuid_id loss =
    (loss.uuid_id ≡ uuid_id)
    × (ltb_ℤ (pos possible_data_loss_threshold_ms) (sub_i64 loss.end_time loss.start_time) ≡ true)

-- The losses stay the same, or one is added and the mark is set.
abbrev pub AddsOne : ℤ → List PossibleDataLoss → List PossibleDataLoss × Bool → Type 0
AddsOne uuid_id before after =
    ((after.0 ≡ before) × (after.1 ≡ false))
    ⊎ ((loss : PossibleDataLoss) × (after.0 ≡ before ++ loss ∷ [])
        × (after.1 ≡ true)
        × IsLoss uuid_id loss)

detected_IsLoss :
    (uuid_id : ℤ) (prev : NetworkInterfaceReading) (reset_at : ℤ) (loss : PossibleDataLoss)
    → detect_possible_data_loss uuid_id prev reset_at ≡ some loss
    → IsLoss uuid_id loss
unfolding detect_possible_data_loss
detected_IsLoss uuid_id prev reset_at loss h = ground (arith, h)

module _ (uuid_id boot received_at : ℤ) where
  record_once :
      (prev : Option NetworkInterfaceReading) (current : NetworkInterfaceReading)
      (reset : CounterReset) (pending : List PossibleDataLoss)
      → record_loss uuid_id boot received_at prev current reset (pending, true) ≡ (pending, true)
  unfolding record_loss
  record_once none current reset pending = refl
  record_once (some prev) current reset pending = ground arith

  record_first :
      (prev : Option NetworkInterfaceReading) (current : NetworkInterfaceReading)
      (reset : CounterReset) (pending : List PossibleDataLoss)
      → AddsOne uuid_id pending
          (record_loss uuid_id boot received_at prev current reset (pending, false))
  unfolding record_loss
  record_first none current reset pending = inl (refl, refl)
  record_first (some prev) current reset pending =
      let reset_at = if is_boot_id_changed prev current then boot else received_at in
      elim (Bool-cases (any_reset reset)) [
        | inr r ↦ inl (ground (arith, r), ground (arith, r))
        | inl r ↦ elim (Option-cases (detect_possible_data_loss uuid_id prev reset_at)) [
          | inl d ↦ inl (ground (arith, r, d), ground (arith, r, d))
          | inr (loss, d) ↦ inr (
            loss,
            ground (arith, r, d),
            ground (arith, r, d),
            detected_IsLoss uuid_id prev reset_at loss d,
          )
        ]
      ]

abbrev losses_of : State × Bool → List PossibleDataLoss × Bool
losses_of (s, recorded) = (s.pending_possible_data_losses, recorded)

module _ (uuid_id : ℤ) (report : DynamicMonitoringData) (received_at : ℤ) where
  interface_once :
      (interface : DynamicPerNetworkInterfaceData) (s : State)
      → losses_of (apply_interface uuid_id report received_at interface (s, true))
        ≡ (s.pending_possible_data_losses, true)
  unfolding apply_interface apply_fresh
  interface_once interface s =
      let key : Key = record { uuid_id = uuid_id; interface_name = interface.interface_name } in
      elim (Bool-cases
        (is_stale (cast_signed 64 report.time) (find key_discrete key s.prev_readings))) [
          | inl h ↦ rw h refl
          | inr h ↦
              rw h (record_once uuid_id (boot_at uuid_id report received_at) received_at _ _ _ _)
        ]

  interface_first :
      (interface : DynamicPerNetworkInterfaceData) (s : State)
      → AddsOne uuid_id s.pending_possible_data_losses
          (losses_of (apply_interface uuid_id report received_at interface (s, false)))
  unfolding apply_interface apply_fresh
  interface_first interface s =
      let key : Key = record { uuid_id = uuid_id; interface_name = interface.interface_name } in
      elim (Bool-cases
        (is_stale (cast_signed 64 report.time) (find key_discrete key s.prev_readings))) [
          | inl h ↦ rw h (inl (refl, refl))
          | inr h ↦
              rw h (record_first uuid_id (boot_at uuid_id report received_at) received_at _ _ _ _)
        ]

  interface_AddsOne :
      (pending : List PossibleDataLoss) (interface : DynamicPerNetworkInterfaceData)
      (x : State × Bool)
      → AddsOne uuid_id pending (losses_of x)
      → AddsOne uuid_id pending (losses_of (apply_interface uuid_id report received_at interface x))
  interface_AddsOne pending interface (s, true) (inl h) = cc h.1
  interface_AddsOne pending interface (s, false) (inr (loss, _, f, _)) = cc f
  interface_AddsOne pending interface (s, false) (inl h) =
      subst
        (λ p.
          AddsOne uuid_id p
            (losses_of (apply_interface uuid_id report received_at interface (s, false))))
        h.0 (interface_first interface s)
  interface_AddsOne pending interface (s, true) (inr h) =
      subst (AddsOne uuid_id pending) (sym (interface_once interface s)) (inr h)

  interfaces_AddsOne :
      (pending : List PossibleDataLoss) (interfaces : List DynamicPerNetworkInterfaceData)
      (x : State × Bool)
      → AddsOne uuid_id pending (losses_of x)
      → AddsOne uuid_id pending
          (losses_of (apply_interfaces uuid_id report received_at interfaces x))
  unfolding apply_interfaces
  interfaces_AddsOne pending [] x h = h
  interfaces_AddsOne pending (interface ∷ interfaces) x h =
      elim (Bool-cases (is_true interface.is_outlet)) [
        | inl o ↦ rw o (
            interfaces_AddsOne pending interfaces
              (apply_interface uuid_id report received_at interface x)
              (interface_AddsOne pending interface x h))
        | inr o ↦ rw o (interfaces_AddsOne pending interfaces x h)
      ]

  -- A report adds at most one possible loss of data, of its own device and of more than the
  -- threshold, however many interfaces were reset.
  pub apply_report-losses :
      (s : State)
      → (let after = (apply_report uuid_id report received_at s).pending_possible_data_losses in
          (after ≡ s.pending_possible_data_losses)
          ⊎ ((loss : PossibleDataLoss) × (after ≡ s.pending_possible_data_losses ++ loss ∷ [])
              × IsLoss uuid_id loss))
  unfolding apply_report
  apply_report-losses s =
      elim (Bool-cases (any (λ interface. is_none interface.is_outlet) report.interfaces)) [
        | inl h ↦ rw h (inl refl)
        | inr h ↦
            rw h
              (elim (interfaces_AddsOne s.pending_possible_data_losses report.interfaces (s, false)
                (inl (refl, refl))) [ inl x ↦ inl x.0 | inr x ↦ inr (x.0, x.1, x.3) ])
      ]
