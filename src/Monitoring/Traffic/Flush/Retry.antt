-- ===== src/Monitoring/Traffic/Flush/Retry.antt =====
-- crates/ng-monitoring/src/traffic_stats.rs, `flush`: what happens to the possible losses of data
-- while a flush is under way, which may fail. There is one flush at a time; reports may come during it.
use node_get.Prelude.{
  ◌≡◌, refl, sym, ap, ◌∙◌, inl, inr, List, [], ◌∷◌, ◌++◌, Option, none, some, if◌then◌else◌, Bool,
  true, false, ◌&&◌, arith, Option-cases, Bool-cases,
}
use mathlib.Core.List.{append_assoc, append-nil}
use node_get.Prelude.Int.{ℤ}
use node_get.Monitoring.Traffic.{DynamicMonitoringData, PossibleDataLoss, State}
use node_get.Monitoring.Traffic.Report.{apply_report}
use node_get.Monitoring.Traffic.Losses.{apply_report-losses}
use node_get.Monitoring.Traffic.Flush.{current_rows}

-- The memory, the losses that a flush has taken out of it and not yet written, and those written.
pub record Server : Type 0 where
  pub state : State
  pub in_flight : Option (List PossibleDataLoss)
  pub written : List PossibleDataLoss

-- A report, the start of a flush, and its two ends.
pub data Event : Type 0 where
  report : ℤ → DynamicMonitoringData → ℤ → Event
  begin succeed fail : Event

-- `mem::take` on the pending losses.
unfoldable pub take_losses : State → State
take_losses state = record state { pending_possible_data_losses = [] }

-- `splice(0..0, …)`
unfoldable pub restore_losses : List PossibleDataLoss → State → State
restore_losses losses state = record state {
  pending_possible_data_losses = losses ++ state.pending_possible_data_losses;
}

abbrev is_empty : {A : Type 0} → List A → Bool
is_empty [] = true
is_empty (_ ∷ _) = false

abbrev finish : Server → (List PossibleDataLoss → Server) → Server
finish server end = elim server.in_flight [ none ↦ server | some losses ↦ end losses ]

unfoldable pub run_event : Event → Server → Server
unfolding take_losses restore_losses
run_event (report uuid_id received received_at) server = record server {
  state = apply_report uuid_id received received_at server.state;
}
run_event begin server = elim server.in_flight [
  | some _ ↦ server
  | none ↦
      let losses = server.state.pending_possible_data_losses in
      let rows = current_rows server.state.totals server.state.prev_readings in
      if is_empty losses && is_empty rows
      then server
      else record server { state = take_losses server.state; in_flight = some losses }
]
run_event succeed server =
    finish server λ losses. record server { in_flight = none; written = server.written ++ losses }
run_event fail server =
    finish server
      λ losses. record server { in_flight = none; state = restore_losses losses server.state }

unfoldable pub run_events : List Event → Server → Server
run_events [] server = server
run_events (e ∷ es) server = run_events es (run_event e server)

abbrev flying : Option (List PossibleDataLoss) → List PossibleDataLoss
flying none = []
flying (some losses) = losses

-- All losses that were ever recorded, in order.
abbrev pub recorded : Server → List PossibleDataLoss
recorded server =
    server.written ++ (flying server.in_flight ++ server.state.pending_possible_data_losses)

abbrev Grows : List PossibleDataLoss → List PossibleDataLoss → Type 0
Grows before after = (new : List PossibleDataLoss) × (after ≡ before ++ new)

begin_same : (server : Server) → recorded (run_event begin server) ≡ recorded server
unfolding run_event take_losses
begin_same server =
    let losses = server.state.pending_possible_data_losses in
    let rows = current_rows server.state.totals server.state.prev_readings in
    elim (Option-cases server.in_flight) [
      | inr (x, h) ↦ ground (arith, h)
      | inl h ↦ elim (Bool-cases (is_empty losses && is_empty rows)) [
        | inl b ↦ ground (arith, h, b)
        | inr b ↦ ground (arith, h, b, append-nil losses)
      ]
    ]

succeed_same : (server : Server) → recorded (run_event succeed server) ≡ recorded server
unfolding run_event
succeed_same server = elim (Option-cases server.in_flight) [
  | inl h ↦ ground (arith, h)
  | inr (x, h) ↦
      ground (arith, h, append_assoc server.written x server.state.pending_possible_data_losses)
]

fail_same : (server : Server) → recorded (run_event fail server) ≡ recorded server
unfolding run_event restore_losses
fail_same server = elim (Option-cases server.in_flight) [
  | inl h ↦ ground (arith, h)
  | inr (x, h) ↦ ground (arith, h)
]

stays : (a b : List PossibleDataLoss) → a ≡ b → Grows b a
stays a b e = ([], e ∙ sym (append-nil b))

event_Grows :
    (e : Event) (server : Server) → Grows (recorded server) (recorded (run_event e server))
unfolding run_event
event_Grows (report u r t) server =
    let before = flying server.in_flight in
    elim (apply_report-losses u r t server.state) [
      | inl h ↦ stays _ (recorded server) (ap (λ p. server.written ++ (before ++ p)) h)
      | inr (loss, h, _) ↦ (
        loss ∷ [],
        ap (λ p. server.written ++ (before ++ p)) h
            ∙ ap (λ p. server.written ++ p)
                (sym (append_assoc before server.state.pending_possible_data_losses (loss ∷ [])))
            ∙ sym (
                append_assoc server.written (before ++ server.state.pending_possible_data_losses)
                  (loss ∷ [])),
      )
    ]
event_Grows begin server = stays _ (recorded server) (begin_same server)
event_Grows succeed server = stays _ (recorded server) (succeed_same server)
event_Grows fail server = stays _ (recorded server) (fail_same server)

-- If a failed flush writes nothing: over any sequence of reports and of starts, successes and
-- failures of a flush, the losses written, then those that a flush has taken, then those in
-- memory, are the list from before with new ones at its end, so none is dropped, doubled or moved.
pub run_events-recorded :
    (events : List Event) (server : Server)
    → (new : List PossibleDataLoss) × (recorded (run_events events server) ≡ recorded server ++ new)
unfolding run_events
run_events-recorded [] server = stays _ (recorded server) refl
run_events-recorded (e ∷ es) server =
    let (a, p) = event_Grows e server in
    let (b, q) = run_events-recorded es (run_event e server) in
    (a ++ b, q ∙ ap (λ x. x ++ b) p ∙ append_assoc (recorded server) a b)
