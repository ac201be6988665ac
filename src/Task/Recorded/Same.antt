-- ===== src/Task/Recorded/Same.antt =====
-- crates/ng-task/src/rpc: calls that leave the answers to waiting calls as they are.
use node_get.Prelude.{
  ℕ, ◌≡◌, refl, ◌∙◌, List, Option, none, some, ◌==◌, if_case, match_case, ℕ_discrete, leb,
}
use node_get.Prelude.Int.{ℤ}
use node_get.Keyed.{find}
use node_get.Text.{Text}
use node_get.Error.{Result, ok, err}
use node_get.Token.Auth.{World}
use node_get.Task.{TaskEventType, TaskEvent, TaskEventResponse}
use node_get.Task.Manager.{
  TaskManager, TaskSendError, Channel, send_event, after_send, try_send, TrySend, sent, full,
  closed, remove_session, change_channel, register_blocking_waiter, remove_blocking_waiter,
  is_connected,
}
use node_get.Task.Rpc.{
  TaskSerde, Server, create_task, create_task_blocking, finish_blocking, refuse, dispatch,
  dispatch_waiting, insert_task, sent_or_taken_back, sent_or_unregistered, clamp_timeout,
  check_create, create_permissions, blocking_permissions, when_connected, connected_or, event_of,
}
use node_get.Task.Recorded.{create, create_blocking, handle}

module _ {U R J : Type 0} (json : TaskSerde U R J) where
  abbrev pub answers_of : Server U R J → List (ℕ × TaskEventResponse R)
  answers_of s = (s.manager).answers

  send_same :
      (uuid : ℕ) (e : TaskEvent U) (m : TaskManager U R)
      → ((send_event uuid e m).1).answers ≡ m.answers
  unfolding send_event
  send_same uuid e m =
      match_case (λ (r : Option TaskSendError × TaskManager U R). (r.1).answers ≡ m.answers)
        (find ℕ_discrete uuid m.peers) _ _ (λ q. refl)
        (λ session. λ q. tried (try_send session.1 e m.channels))
    where
      tried : (t : TrySend U) → ((after_send uuid t m).1).answers ≡ m.answers
      tried (sent channels) = refl
      tried full = refl
      tried closed = refl

  refuse_same :
      {A : Type 0} (check : Result (Unit {0})) (rest : Server U R J → Result A × Server U R J)
      (s : Server U R J)
      → answers_of (rest s).1 ≡ answers_of s
      → answers_of (refuse json check rest s).1 ≡ answers_of s
  refuse_same (ok u) rest s k = k
  refuse_same (err e) rest s k = refl

  dispatch_same :
      (uuid id : ℕ) (r : Option TaskSendError × TaskManager U R) (s : Server U R J)
      → answers_of (sent_or_taken_back json uuid id r s).1 ≡ (r.1).answers
  dispatch_same uuid id (none, m) s = refl
  dispatch_same uuid id (some e, m) s = refl

  dispatch_waiting_same :
      (uuid id : ℕ) (r : Option TaskSendError × TaskManager U R) (s : Server U R J)
      → answers_of (sent_or_unregistered json uuid id r s).1 ≡ (r.1).answers
  unfolding remove_blocking_waiter
  dispatch_waiting_same uuid id (none, m) s = refl
  dispatch_waiting_same uuid id (some e, m) s = refl

  pub finish_same :
      (task_id timeout_ms elapsed : ℕ) (s : Server U R J)
      → answers_of (finish_blocking json task_id timeout_ms elapsed s).1 ≡ answers_of s
  unfolding finish_blocking remove_blocking_waiter
  finish_same task_id timeout_ms elapsed s =
      match_case
        (λ (r : Option (Result (TaskEventResponse R)) × Server U R J).
          answers_of r.1 ≡ answers_of s)
        (find ℕ_discrete task_id (answers_of s)) _ _
        (λ e.
          if_case
            (λ (r : Option (Result (TaskEventResponse R)) × Server U R J).
              answers_of r.1 ≡ answers_of s)
            (leb (clamp_timeout timeout_ms) elapsed) _ _ (λ t. refl) (λ t. refl))
        (λ a. λ e. refl)

  pub create_same :
      (w : World) (task_token : Text) (now : ℤ) (token : Text) (uuid : ℕ) (t : TaskEventType U)
      (s : Server U R J)
      → answers_of (handle json w (create task_token now token uuid t) s) ≡ answers_of s
  unfolding create_task
  create_same w task_token now token uuid t s =
      refuse_same (check_create json w token uuid t (create_permissions json t) _)
        (when_connected json uuid (dispatch json uuid task_token now t)) s
        (refuse_same (connected_or uuid (is_connected uuid s.manager))
          (dispatch json uuid task_token now t) s
          (dispatch_same uuid s.next_id
              (send_event uuid (event_of json s.next_id task_token t) s.manager)
              (insert_task json uuid task_token now t s)
            ∙ send_same uuid (event_of json s.next_id task_token t) s.manager))

  pub create_blocking_same :
      (w : World) (task_token : Text) (now : ℤ) (token : Text) (uuid : ℕ) (t : TaskEventType U)
      (s : Server U R J)
      → answers_of (handle json w (create_blocking task_token now token uuid t) s) ≡ answers_of s
  unfolding create_task_blocking register_blocking_waiter
  create_blocking_same w task_token now token uuid t s =
      refuse_same (check_create json w token uuid t (blocking_permissions json t) _)
        (when_connected json uuid (dispatch_waiting json uuid task_token now t)) s
        (refuse_same (connected_or uuid (is_connected uuid s.manager))
          (dispatch_waiting json uuid task_token now t) s
          (dispatch_waiting_same uuid s.next_id
              (send_event uuid (event_of json s.next_id task_token t)
                (register_blocking_waiter s.next_id s.manager))
              (insert_task json uuid task_token now t s)
            ∙ send_same uuid (event_of json s.next_id task_token t)
                (register_blocking_waiter s.next_id s.manager)))

  pub channel_same :
      (tx : ℕ) (f : Channel U → Channel U) (m : TaskManager U R)
      → (change_channel tx f m).answers ≡ m.answers
  channel_same tx f m =
      match_case (λ (r : TaskManager U R). r.answers ≡ m.answers) (find ℕ_discrete tx m.channels) _
        _ (λ e. refl) (λ c. λ e. refl)

  pub leave_same :
      (uuid reg_id : ℕ) (m : TaskManager U R) → (remove_session uuid reg_id m).answers ≡ m.answers
  unfolding remove_session
  leave_same uuid reg_id m =
      match_case (λ (r : TaskManager U R). r.answers ≡ m.answers) (find ℕ_discrete uuid m.peers) _ _
        (λ e. refl)
        (λ c. λ e.
          if_case (λ (r : TaskManager U R). r.answers ≡ m.answers) (c.0 == reg_id) _ _ (λ t. refl)
            (λ t. refl))
