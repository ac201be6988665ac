-- ===== src/Monitoring/Traffic/Exact.antt =====
-- The totals of an interface that is never reset.
use node_get.Prelude.{
  ℕ, ◌-◌, ◌^◌, ◌≤◌, ◌≡◌, refl, ap, ◌∙◌, true, false, List, [], ◌∷◌, Option, none, some, any, arith,
  ◌+◌,
}
use node_get.Prelude.Int.{ℤ, ltb_ℤ}
use node_get.Text.{Text}
use node_get.Keyed.{find, find-put_same}
use node_get.Monitoring.Traffic.{
  cast_signed, saturating_add, DynamicPerNetworkInterfaceData, DynamicMonitoringData,
  NetworkInterfaceReading, Traffic, Key, key_discrete, State, CounterReset, none_reset,
  detect_counter_reset, compute_traffic_increase,
}
use node_get.Monitoring.Traffic.Report.{
  traffic_or_default, reading_of, add_traffic, is_stale, apply_fresh, apply_interface,
  apply_interfaces, apply_report,
}
use node_get.Monitoring.Traffic.Totals.{total_of}
use node_get.Monitoring.Traffic.Increase.{grown, added}

-- What one report says of the interface.
pub record Sample : Type 0 where
  pub time : ℕ
  pub uptime : ℕ
  pub received : ℕ
  pub transmitted : ℕ
  pub received_at : ℤ

-- The next sample is not older, and its counters are not smaller and are `u64`.
abbrev pub Rises : Sample → Sample → Type 0
Rises r x =
    (ltb_ℤ (cast_signed 64 x.time) (cast_signed 64 r.time) ≡ false)
    × (r.received ≤ x.received)
    × (r.transmitted ≤ x.transmitted)
    × (x.received ≤ 2 ^ 64 - 1)
    × (x.transmitted ≤ 2 ^ 64 - 1)

abbrev pub Rising : Sample → List Sample → Type 0
Rising r [] = Unit
Rising r (x ∷ xs) = Rises r x × Rising x xs

abbrev pub last : Sample → List Sample → Sample
last r [] = r
last r (x ∷ xs) = last x xs

module _ (uuid_id : ℤ) (name : Text) (boot_id : Option Text) (ifindex : Option ℕ) where
  abbrev pub interface_of : Sample → DynamicPerNetworkInterfaceData
  interface_of x = record {
    interface_name = name;
    total_received = x.received;
    total_transmitted = x.transmitted;
    ifindex = ifindex;
    is_outlet = some true;
  }

  -- The reports of one run of the device, which has this one interface.
  abbrev pub report_of : Sample → DynamicMonitoringData
  report_of x = record {
    time = x.time;
    uptime = x.uptime;
    boot_id = boot_id;
    interfaces = interface_of x ∷ [];
  }

  abbrev pub key : Key
  key = record { uuid_id = uuid_id; interface_name = name }

  abbrev pub apply_samples : List Sample → State → State
  apply_samples [] s = s
  apply_samples (x ∷ xs) s = apply_samples xs (apply_report uuid_id (report_of x) x.received_at s)

  -- The reading that is kept is that of the sample.
  abbrev Kept : State → Sample → Type 0
  Kept s r =
      (q : NetworkInterfaceReading) × (find key_discrete key s.prev_readings ≡ some q)
      × (q.boot_id ≡ boot_id)
      × (q.ifindex ≡ ifindex)
      × (q.counter_received ≡ r.received)
      × (q.counter_transmitted ≡ r.transmitted)
      × (q.report_time ≡ cast_signed 64 r.time)

  fresh_stale :
      (s : State) (r x : Sample)
      → Kept s r
      → Rises r x
      → is_stale (cast_signed 64 x.time) (find key_discrete key s.prev_readings) ≡ false
  unfolding is_stale
  fresh_stale s r x (q, f, _, _, _, _, t) h = rw f (rw t h.0)

  step_Kept :
      (s : State) (r x : Sample)
      → Kept s r
      → Rises r x
      → Kept (apply_report uuid_id (report_of x) x.received_at s) x
  unfolding apply_report apply_interfaces apply_interface apply_fresh any reading_of
  step_Kept s r x k h = rw (fresh_stale s r x k h) (
    reading_of (report_of x) x.received_at (find key_discrete key s.prev_readings) (interface_of x),
    find-put_same key_discrete key _ s.prev_readings,
    refl,
    refl,
    refl,
    refl,
    refl,
  )

  -- The new total, by the reading that is kept.
  abbrev after : Sample → Traffic → Option NetworkInterfaceReading → Traffic
  after x total o =
      let c = reading_of (report_of x) x.received_at o (interface_of x) in
      let reset : CounterReset = elim o [
        | none ↦ none_reset
        | some prev ↦ detect_counter_reset prev c
      ] in
      add_traffic total (compute_traffic_increase o c reset)

  differences :
      (total : Traffic) (q : NetworkInterfaceReading) (r x : Sample)
      → q.counter_received ≡ r.received
      → q.counter_transmitted ≡ r.transmitted
      → grown total (x.received - q.counter_received) (x.transmitted - q.counter_transmitted)
        ≡ grown total (x.received - r.received) (x.transmitted - r.transmitted)
  differences total q r x cr ct = rw (cr, ct) refl

  step_total :
      (s : State) (r x : Sample)
      → Kept s r
      → Rises r x
      → (total_of s key).received ≤ r.received
      → (total_of s key).transmitted ≤ r.transmitted
      → total_of (apply_report uuid_id (report_of x) x.received_at s) key
        ≡ grown (total_of s key) (x.received - r.received) (x.transmitted - r.transmitted)
  unfolding apply_report apply_interfaces apply_interface apply_fresh any reading_of
  step_total s r x k h lr lt =
      let (q, f, b, i, cr, ct, t) = k in
      let c : NetworkInterfaceReading =
        reading_of (report_of x) x.received_at (some q) (interface_of x) in
      let total = total_of s key in
      rw (fresh_stale s r x k h) (
        ap traffic_or_default (find-put_same key_discrete key _ s.totals)
        ∙ ap (after x total) f
        ∙ added q c total b i (omega (arith, cr, h.1)) (omega (arith, ct, h.2)) h.3 h.4
            (omega (arith, cr, lr)) (omega (arith, ct, lt))
        ∙ differences total q r x cr ct)

  total_of-samples :
      (s : State) (r : Sample) (xs : List Sample) (base : Sample)
      → Kept s r
      → Rising r xs
      → (total_of s key).received + base.received ≡ r.received
      → (total_of s key).transmitted + base.transmitted ≡ r.transmitted
      → ((total_of (apply_samples xs s) key).received + base.received ≡ (last r xs).received)
        × ((total_of (apply_samples xs s) key).transmitted + base.transmitted
            ≡ (last r xs).transmitted)
  total_of-samples s r [] base k h er et = (er, et)
  total_of-samples s r (x ∷ xs) base k h er et =
      let e = step_total s r x k h.0 (omega (arith, er)) (omega (arith, et)) in
      total_of-samples (apply_report uuid_id (report_of x) x.received_at s) x xs base
        (step_Kept s r x k h.0) h.1 (rw e (omega (arith, er, h.0.1)))
        (rw e (omega (arith, et, h.0.2)))

  -- The first report of an interface starts at 0.
  first_Kept :
      (s : State) (x : Sample)
      → find key_discrete key s.prev_readings ≡ none
      → Kept (apply_report uuid_id (report_of x) x.received_at s) x
  unfolding apply_report apply_interfaces apply_interface apply_fresh any reading_of is_stale
  first_Kept s x f = rw f (
    reading_of (report_of x) x.received_at none (interface_of x),
    find-put_same key_discrete key _ s.prev_readings,
    refl,
    refl,
    refl,
    refl,
    refl,
  )

  first_total :
      (s : State) (x : Sample)
      → find key_discrete key s.prev_readings ≡ none
      → find key_discrete key s.totals ≡ none
      → total_of (apply_report uuid_id (report_of x) x.received_at s) key
        ≡ record { received = 0; transmitted = 0 }
  unfolding apply_report apply_interfaces apply_interface apply_fresh any reading_of is_stale
      compute_traffic_increase saturating_add
  first_total s x f e =
      rw f (ap traffic_or_default (find-put_same key_discrete key _ s.totals) ∙ rw e (ground arith))

  -- For an interface that was not known, which is the only one in its reports, is an outlet, and
  -- whose reports are of one run, in order of time and with u64 counters that do not fall, the
  -- totals plus the counters of the first report are the counters of the last one.
  pub apply_samples-total :
      (s : State) (x : Sample) (xs : List Sample)
      → find key_discrete key s.prev_readings ≡ none
      → find key_discrete key s.totals ≡ none
      → Rising x xs
      → ((total_of (apply_samples (x ∷ xs) s) key).received + x.received ≡ (last x xs).received)
        × ((total_of (apply_samples (x ∷ xs) s) key).transmitted + x.transmitted
            ≡ (last x xs).transmitted)
  apply_samples-total s x xs f e h =
      let z = first_total s x f e in
      total_of-samples (apply_report uuid_id (report_of x) x.received_at s) x xs x
        (first_Kept s x f) h (rw z (omega arith)) (rw z (omega arith))
