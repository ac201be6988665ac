-- ===== src/Monitoring/Tests.antt =====
-- The theorems on the totals at one device with one interface.
use node_get.Prelude.{List, ◌≡◌, ◌+◌, refl, [], ◌∷◌, ◌++◌, none, some, arith}
use node_get.Prelude.Int.{ℤ, pos}
use node_get.Text.{Text, codes}
use node_get.Keyed.{find}
use node_get.Monitoring.Traffic.{
  cast_signed, DynamicMonitoringData, PossibleDataLoss, Key, key_discrete, State,
}
use node_get.Monitoring.Traffic.Report.{traffic_or_default, apply_report}
use node_get.Monitoring.Traffic.Totals.{total_of, AllFit, Moves, apply_reports, apply_reports-Moves}
use node_get.Monitoring.Traffic.Exact.{Sample, report_of, key, apply_samples, apply_samples-total}
use node_get.Monitoring.Traffic.Flush.{init, current_rows, default_state}
use node_get.Monitoring.Traffic.Flush.Retry.{
  Server, Event, report, begin, fail, succeed, recorded, run_events, run_events-recorded,
}
use node_get.Monitoring.Traffic.Flush.Always.{init-apply_reports}

abbrev sample : Sample
sample = record {
  time = 1000;
  uptime = 60;
  received = 500;
  transmitted = 70;
  received_at = pos 1001;
}

abbrev next_sample : Sample
next_sample = record {
  time = 2000;
  uptime = 61;
  received = 900;
  transmitted = 70;
  received_at = pos 2001;
}

abbrev eth : Text
eth = codes "eth0"

abbrev first_report : DynamicMonitoringData
first_report = report_of (pos 7) eth (some (codes "boot")) (some 2) sample

abbrev next_report : DynamicMonitoringData
next_report = report_of (pos 7) eth (some (codes "other boot")) (some 2) next_sample

default_fits : AllFit default_state
unfolding default_state find
default_fits k = (ground arith, ground arith)

apply_reports-Moves_example : Moves default_state (
    apply_reports
      ((pos 7, first_report, pos 1001) ∷ (pos 7, next_report, pos 2001) ∷ [])
      default_state)
apply_reports-Moves_example =
    apply_reports-Moves ((pos 7, first_report, pos 1001) ∷ (pos 7, next_report, pos 2001) ∷ [])
      default_state default_fits

-- The device was restarted between the two reports.
abbrev running : State
running = apply_report (pos 7) first_report (pos 1001) default_state

apply_samples-total_example :
    ((total_of
          (apply_samples (pos 7) eth none (some 2) (sample ∷ next_sample ∷ []) default_state)
          (key (pos 7) eth none (some 2))).received
        + 500
      ≡ 900)
    × ((total_of
            (apply_samples (pos 7) eth none (some 2) (sample ∷ next_sample ∷ []) default_state)
            (key (pos 7) eth none (some 2))).transmitted
          + 70
        ≡ 70)
unfolding default_state find cast_signed
apply_samples-total_example =
    apply_samples-total (pos 7) eth none (some 2) default_state sample (next_sample ∷ []) refl refl
      ((refl, omega arith, omega arith, omega arith, omega arith), tt)

abbrev eth_key : Key
eth_key = record { uuid_id = pos 7; interface_name = eth }

abbrev two_reports : List (ℤ × DynamicMonitoringData × ℤ)
two_reports = (pos 7, first_report, pos 1001) ∷ (pos 7, next_report, pos 2001) ∷ []

abbrev reached : State
reached = apply_reports two_reports default_state

abbrev restored : State
restored = init (current_rows reached.totals reached.prev_readings) default_state

init-apply_reports_example :
    (find key_discrete eth_key restored.prev_readings
      ≡ find key_discrete eth_key reached.prev_readings)
    × (total_of restored eth_key ≡ elim (find key_discrete eth_key reached.prev_readings) [
      | none ↦ traffic_or_default none
      | some _ ↦ total_of reached eth_key
    ])
init-apply_reports_example = init-apply_reports two_reports eth_key (
  ((omega arith, omega arith, omega arith), tt),
  (((omega arith, omega arith, omega arith), tt), tt),
)

abbrev server : Server
server = record { state = reached; in_flight = none; written = [] }

-- A flush fails while a report comes in, and the next one succeeds.
abbrev events : List Event
events = begin ∷ report (pos 7) next_report (pos 3001) ∷ fail ∷ begin ∷ succeed ∷ []

run_events-recorded_example :
    (new : List PossibleDataLoss) × (recorded (run_events events server) ≡ recorded server ++ new)
run_events-recorded_example = run_events-recorded events server
