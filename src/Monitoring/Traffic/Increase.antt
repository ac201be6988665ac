-- ===== src/Monitoring/Traffic/Increase.antt =====
-- What one reading adds when nothing was reset.
use node_get.Prelude.{ℕ, ◌-◌, ◌^◌, ◌≤◌, ◌≡◌, false, some, arith, Option-cases, inl, inr, ◌+◌}
use node_get.Text.Laws.{text_eq_refl}
use node_get.Monitoring.Traffic.{
  saturating_add, NetworkInterfaceReading, Traffic, is_boot_id_changed, is_ifindex_changed,
  is_full_reset, detect_counter_reset, increase_for_direction, compute_traffic_increase,
}
use node_get.Monitoring.Traffic.Report.{add_traffic}

same_boot : (q c : NetworkInterfaceReading) → q.boot_id ≡ c.boot_id → is_boot_id_changed q c ≡ false
unfolding is_boot_id_changed
same_boot q c e = elim (Option-cases q.boot_id) [
  | inl n ↦ ground (arith, n)
  | inr (b, h) ↦ let h' : c.boot_id ≡ some b = cc (e, h) in ground (arith, h, h', text_eq_refl b)
]

same_ifindex :
    (q c : NetworkInterfaceReading) → q.ifindex ≡ c.ifindex → is_ifindex_changed q c ≡ false
unfolding is_ifindex_changed
same_ifindex q c e = elim (Option-cases q.ifindex) [
  | inl n ↦ ground (arith, n)
  | inr (b, h) ↦ let h' : c.ifindex ≡ some b = cc (e, h) in ground (arith, h, h')
]

no_reset :
    (q c : NetworkInterfaceReading)
    → q.boot_id ≡ c.boot_id
    → q.ifindex ≡ c.ifindex
    → q.counter_received ≤ c.counter_received
    → q.counter_transmitted ≤ c.counter_transmitted
    → detect_counter_reset q c ≡ record { received = false; transmitted = false }
unfolding detect_counter_reset is_full_reset
no_reset q c b i r t = rw (same_boot q c b, same_ifindex q c i, detect_counter_reset) (ground arith)

abbrev pub grown : Traffic → ℕ → ℕ → Traffic
grown total a b = record { received = total.received + a; transmitted = total.transmitted + b }

-- Without a reset, and as long as the total is not above the counter, what is added is the difference.
pub added :
    (q c : NetworkInterfaceReading) (total : Traffic)
    → q.boot_id ≡ c.boot_id
    → q.ifindex ≡ c.ifindex
    → q.counter_received ≤ c.counter_received
    → q.counter_transmitted ≤ c.counter_transmitted
    → c.counter_received ≤ 2 ^ 64 - 1
    → c.counter_transmitted ≤ 2 ^ 64 - 1
    → total.received ≤ q.counter_received
    → total.transmitted ≤ q.counter_transmitted
    → add_traffic total (compute_traffic_increase (some q) c (detect_counter_reset q c))
      ≡ grown total
          (c.counter_received - q.counter_received)
          (c.counter_transmitted - q.counter_transmitted)
unfolding saturating_add compute_traffic_increase increase_for_direction
added q c total b i r t fr ft lr lt =
    rw (no_reset q c b i r t) (ground (arith, fr, ft, lr, lt, r, t))
