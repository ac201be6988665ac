-- ===== src/Monitoring/Traffic/Flush/Restore.antt =====
-- Loading the rows that `flush` writes.
use node_get.Prelude.{
  ℕ, ◌-◌, ◌^◌, ◌<◌, ◌≤◌, ◌≡◌, refl, ap, ◌∙◌, List, [], ◌∷◌, Option, none, some, All, arith,
  Option-cases, inl, inr, subst,
}
use node_get.Keyed.{find, put, put_all, find-put_all, Distinct, Absent}
use node_get.Monitoring.Traffic.{
  cast_signed, cast_unsigned, NetworkInterfaceReading, Traffic, Key, key_discrete, State,
}
use node_get.Monitoring.Traffic.Report.{traffic_or_default}
use node_get.Monitoring.Traffic.Totals.{total_of, FitsU64, AllFit}
use node_get.Monitoring.Traffic.Flush.{
  current_total_model, current_rows, reading_of_row, traffic_of_row, init, default_state,
}

cast_64 : (n : ℕ) → n ≤ 2 ^ 64 - 1 → cast_unsigned 64 (cast_signed 64 n) ≡ n
unfolding cast_signed cast_unsigned
cast_64 n h = ground (arith, h)

cast_32 : (n : ℕ) → n < 2 ^ 32 → cast_unsigned 32 (cast_signed 32 n) ≡ n
unfolding cast_signed cast_unsigned
cast_32 n h = ground (arith, h)

abbrev pub FitsU32 : Option ℕ → Type 0
FitsU32 none = Unit {0}
FitsU32 (some i) = i < 2 ^ 32

-- The numbers of a reading are in the range of their types.
abbrev pub InRange : NetworkInterfaceReading → Type 0
InRange r =
    FitsU32 r.ifindex × (r.counter_received ≤ 2 ^ 64 - 1) × (r.counter_transmitted ≤ 2 ^ 64 - 1)

row_reading :
    (key : Key) (r : NetworkInterfaceReading) (t : Traffic)
    → InRange r
    → reading_of_row (current_total_model key.uuid_id key.interface_name r t) ≡ r
unfolding reading_of_row current_total_model
row_reading key r t h = elim (Option-cases r.ifindex) [
  | inl n ↦ ground (arith, n, cast_64 r.counter_received h.1, cast_64 r.counter_transmitted h.2)
  | inr (i, e) ↦ ground (
    arith,
    e,
    cast_32 i (subst FitsU32 e h.0),
    cast_64 r.counter_received h.1,
    cast_64 r.counter_transmitted h.2,
  )
]

row_traffic :
    (key : Key) (r : NetworkInterfaceReading) (t : Traffic)
    → FitsU64 t
    → traffic_of_row (current_total_model key.uuid_id key.interface_name r t) ≡ t
unfolding traffic_of_row current_total_model
row_traffic key r t h = ground (arith, cast_64 t.received h.0, cast_64 t.transmitted h.1)

-- The totals of the keys that have a reading.
totals_at : List (Key × Traffic) → List (Key × NetworkInterfaceReading) → List (Key × Traffic)
totals_at totals [] = []
totals_at totals ((key, reading) ∷ readings) =
    (key, traffic_or_default (find key_discrete key totals)) ∷ totals_at totals readings

abbrev pub AllInRange : List (Key × NetworkInterfaceReading) → Type 0
AllInRange = All (λ e. InRange e.1)

init_all :
    (totals : List (Key × Traffic)) (readings : List (Key × NetworkInterfaceReading)) (s : State)
    → ((k : Key) → FitsU64 (traffic_or_default (find key_discrete k totals)))
    → AllInRange readings
    → ((init (current_rows totals readings) s).prev_readings
        ≡ put_all key_discrete readings s.prev_readings)
      × ((init (current_rows totals readings) s).totals
          ≡ put_all key_discrete (totals_at totals readings) s.totals)
unfolding init current_rows put_all totals_at
init_all totals [] s fits range = (refl, refl)
init_all totals ((key, r) ∷ readings) s fits range =
    let t = traffic_or_default (find key_discrete key totals) in
    let row = current_total_model key.uuid_id key.interface_name r t in
    let s' : State = record s {
      totals = put key_discrete key (traffic_of_row row) s.totals;
      prev_readings = put key_discrete key (reading_of_row row) s.prev_readings;
    } in
    let (p, q) = init_all totals readings s' fits range.1 in
    (
      p
          ∙ ap (λ r'. put_all key_discrete readings (put key_discrete key r' s.prev_readings))
              (row_reading key r t range.0),
      q
          ∙ ap
              (λ t'.
                put_all key_discrete (totals_at totals readings) (put key_discrete key t' s.totals))
              (row_traffic key r t (fits key)),
    )

Absent-totals_at :
    (totals : List (Key × Traffic)) (readings : List (Key × NetworkInterfaceReading)) (k : Key)
    → Absent key_discrete k readings
    → Absent key_discrete k (totals_at totals readings)
unfolding totals_at
Absent-totals_at totals [] k h = tt
Absent-totals_at totals ((key, r) ∷ readings) k h = (h.0, Absent-totals_at totals readings k h.1)

Distinct-totals_at :
    (totals : List (Key × Traffic)) (readings : List (Key × NetworkInterfaceReading))
    → Distinct key_discrete readings
    → Distinct key_discrete (totals_at totals readings)
unfolding totals_at
Distinct-totals_at totals [] d = tt
Distinct-totals_at totals ((key, r) ∷ readings) d =
    (Absent-totals_at totals readings key d.0, Distinct-totals_at totals readings d.1)

find-totals_at :
    (totals : List (Key × Traffic)) (readings : List (Key × NetworkInterfaceReading)) (k : Key)
    → traffic_or_default (find key_discrete k (totals_at totals readings))
      ≡ elim (find key_discrete k readings) [
        | none ↦ traffic_or_default none
        | some _ ↦ traffic_or_default (find key_discrete k totals)
      ]
unfolding totals_at find
find-totals_at totals [] k = refl
find-totals_at totals ((key, r) ∷ readings) k = elim (key_discrete key k) [
  | yes e ↦ ground (arith, e, ap (λ x. traffic_or_default (find key_discrete x totals)) e)
  | no ne ↦ ground (arith, ne, find-totals_at totals readings k)
]

default_eq :
    (o : Option Traffic)
    → traffic_or_default (elim o [ none ↦ none | some t ↦ some t ]) ≡ traffic_or_default o
default_eq none = refl
default_eq (some t) = refl

-- A state that is written to an empty table and loaded again has the same readings, and the same
-- total for each interface that has a reading.
pub init-current_rows :
    (s : State) (k : Key)
    → AllFit s
    → Distinct key_discrete s.prev_readings
    → AllInRange s.prev_readings
    → (find key_discrete k
          (init (current_rows s.totals s.prev_readings) default_state).prev_readings
        ≡ find key_discrete k s.prev_readings)
      × (total_of (init (current_rows s.totals s.prev_readings) default_state) k
          ≡ elim (find key_discrete k s.prev_readings) [
            | none ↦ traffic_or_default none
            | some _ ↦ total_of s k
          ])
unfolding default_state find
init-current_rows s k fits distinct range =
    let (p, q) = init_all s.totals s.prev_readings default_state fits range in
    (
      ap (find key_discrete k) p
          ∙ find-put_all key_discrete s.prev_readings [] k distinct
          ∙ ground arith,
      ap (λ m. traffic_or_default (find key_discrete k m)) q
          ∙ ap traffic_or_default (
              find-put_all key_discrete (totals_at s.totals s.prev_readings) [] k
                (Distinct-totals_at s.totals s.prev_readings distinct))
          ∙ default_eq (find key_discrete k (totals_at s.totals s.prev_readings))
          ∙ find-totals_at s.totals s.prev_readings k,
    )
