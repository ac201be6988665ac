-- ===== src/Task/Rpc/Failed.antt =====
-- crates/ng-task/src/rpc: a task that is not sent leaves nothing behind, and a wait ends.
use node_get.Prelude.{
  ℕ, ◌<◌, ◌≤◌, ◌≡◌, refl, sym, ap, ◌∙◌, not, List, [], ◌∷◌, ◌++◌, Option, none, some, All, keep,
  ◌==◌, arith, if_case, match_case, ℕ_discrete, leb, min, max,
}
use node_get.Prelude.Int.{ℤ}
use node_get.Prelude.Pairs.{keep_yes, keep_no}
use node_get.Keyed.{find}
use node_get.Text.{Text}
use node_get.Error.{NodegetError, Result, ok, err}
use node_get.Token.Auth.{World}
use node_get.Task.{TaskEventType, TaskEvent, TaskEventResponse, Row}
use node_get.Task.Manager.{
  TaskManager, TaskSendError, send_event, after_send, try_send, TrySend, sent, full, closed,
  register_blocking_waiter, remove_blocking_waiter, is_connected, without,
}
use node_get.Task.Rpc.{
  TaskSerde, Server, create_task, create_task_blocking, finish_blocking, refuse, dispatch,
  dispatch_waiting, insert_task, new_row, sent_or_taken_back, sent_or_unregistered, clamp_timeout,
  check_create, create_permissions, blocking_permissions, when_connected, connected_or, event_of,
}

module _ {U R J : Type 0} (w : World) (json : TaskSerde U R J) where
  -- The rows are those from before, and so are the waiting calls and the channels.
  abbrev pub Unchanged : Server U R J → Server U R J → Type 0
  Unchanged s s' =
      (s'.rows ≡ s.rows)
      × ((s'.manager).blocking_waiters ≡ (s.manager).blocking_waiters)
      × ((s'.manager).channels ≡ (s.manager).channels)
      × ((s'.manager).peers ≡ (s.manager).peers)

  keep_older :
      (id : ℕ) (rows : List (Row J)) (new : Row J)
      → new.id ≡ id
      → All (λ r. r.id < id) rows
      → keep (λ r. not (r.id == id)) (rows ++ new ∷ []) ≡ rows
  unfolding keep
  keep_older id [] new e h = keep_no (λ r. not (r.id == id)) new [] (ground (arith, e))
  keep_older id (r ∷ rows) new e h =
      keep_yes (λ r. not (r.id == id)) r (rows ++ new ∷ []) (ground (arith, h.0))
      ∙ ap (λ rs. r ∷ rs) (keep_older id rows new e h.1)

  without_older :
      (id : ℕ) (waiters : List ℕ) → All (λ j. j < id) waiters → without id waiters ≡ waiters
  unfolding keep
  without_older id [] h = refl
  without_older id (j ∷ waiters) h =
      keep_yes (λ x. not (x == id)) j waiters (ground (arith, h.0))
      ∙ ap (λ r. j ∷ r) (without_older id waiters h.1)

  -- A failed send leaves the manager alone.
  send_failed :
      (uuid : ℕ) (e : TaskEvent U) (m m' : TaskManager U R) (x : TaskSendError)
      → send_event uuid e m ≡ (some x, m')
      → m ≡ m'
  unfolding send_event
  send_failed uuid e m m' x =
      match_case (λ (r : Option TaskSendError × TaskManager U R). r ≡ (some x, m') → m ≡ m')
        (find ℕ_discrete uuid m.peers) _ _ (λ q h. ap (λ r. r.1) h)
        (λ session q. tried (try_send session.1 e m.channels))
    where
      tried : (t : TrySend U) → after_send uuid t m ≡ (some x, m') → m ≡ m'
      tried (sent channels) h = cc h
      tried full h = ap (λ r. r.1) h
      tried closed h = ap (λ r. r.1) h

  -- The keys of the rows and of the waiting calls were given out before.
  abbrev pub IsFresh : Server U R J → Type 0
  IsFresh s =
      All (λ r. r.id < s.next_id) s.rows × All (λ j. j < s.next_id) (s.manager).blocking_waiters

  refuse-Unchanged :
      {A : Type 0} (check : Result (Unit {0})) (rest : Server U R J → Result A × Server U R J)
      (s : Server U R J) (e : NodegetError)
      → ((rest s).0 ≡ err e → Unchanged s (rest s).1)
      → (refuse json check rest s).0 ≡ err e
      → Unchanged s (refuse json check rest s).1
  refuse-Unchanged (ok u) rest s e k h = k h
  refuse-Unchanged (err x) rest s e k h = (refl, refl, refl, refl)

  dispatch-Unchanged :
      (uuid : ℕ) (token : Text) (now : ℤ) (t : TaskEventType U) (s : Server U R J)
      (e : NodegetError) (r : Option TaskSendError × TaskManager U R)
      → IsFresh s
      → ((x : TaskSendError) (m : TaskManager U R) → r ≡ (some x, m) → s.manager ≡ m)
      → (sent_or_taken_back json uuid s.next_id r (insert_task json uuid token now t s)).0 ≡ err e
      → Unchanged s
          (sent_or_taken_back json uuid s.next_id r (insert_task json uuid token now t s)).1
  dispatch-Unchanged uuid token now t s e (none, m) f k h = cc h
  dispatch-Unchanged uuid token now t s e (some x, m) f k h =
      let same : m ≡ s.manager = sym (k x m refl) in
      (
        keep_older s.next_id s.rows (new_row json s.next_id uuid token now t) refl f.0,
        ap (λ n. n.blocking_waiters) same,
        ap (λ n. n.channels) same,
        ap (λ n. n.peers) same,
      )

  unregistered :
      (id : ℕ) (m : TaskManager U R)
      → All (λ j. j < id) m.blocking_waiters
      → (remove_blocking_waiter id (register_blocking_waiter id m)).blocking_waiters
        ≡ m.blocking_waiters
  unfolding remove_blocking_waiter register_blocking_waiter
  unregistered id m f =
      keep_no (λ j. not (j == id)) id (without id m.blocking_waiters) (ground arith)
      ∙ ap (without id) (without_older id m.blocking_waiters f)
      ∙ without_older id m.blocking_waiters f

  others_kept :
      (id : ℕ) (m : TaskManager U R)
      → ((remove_blocking_waiter id (register_blocking_waiter id m)).channels ≡ m.channels)
        × ((remove_blocking_waiter id (register_blocking_waiter id m)).peers ≡ m.peers)
  unfolding remove_blocking_waiter register_blocking_waiter
  others_kept id m = (refl, refl)

  dispatch_waiting-Unchanged :
      (uuid : ℕ) (token : Text) (now : ℤ) (t : TaskEventType U) (s : Server U R J)
      (e : NodegetError) (r : Option TaskSendError × TaskManager U R)
      → IsFresh s
      → ((x : TaskSendError) (m : TaskManager U R)
          → r ≡ (some x, m)
          → register_blocking_waiter s.next_id s.manager ≡ m)
      → (sent_or_unregistered json uuid s.next_id r (insert_task json uuid token now t s)).0 ≡ err e
      → Unchanged s
          (sent_or_unregistered json uuid s.next_id r (insert_task json uuid token now t s)).1
  dispatch_waiting-Unchanged uuid token now t s e (none, m) f k h = cc h
  dispatch_waiting-Unchanged uuid token now t s e (some x, m) f k h =
      let same : remove_blocking_waiter s.next_id m
          ≡ remove_blocking_waiter s.next_id (register_blocking_waiter s.next_id s.manager) =
        ap (remove_blocking_waiter s.next_id) (sym (k x m refl)) in
      let others = others_kept s.next_id s.manager in
      (
        keep_older s.next_id s.rows (new_row json s.next_id uuid token now t) refl f.0,
        ap (λ n. n.blocking_waiters) same ∙ unregistered s.next_id s.manager f.1,
        ap (λ n. n.channels) same ∙ others.0,
        ap (λ n. n.peers) same ∙ others.1,
      )

  pub create_task-failed :
      (task_token : Text) (now : ℤ) (token : Text) (uuid : ℕ) (t : TaskEventType U)
      (s : Server U R J) (e : NodegetError)
      → IsFresh s
      → (create_task json w task_token now token uuid t s).0 ≡ err e
      → Unchanged s (create_task json w task_token now token uuid t s).1
  unfolding create_task
  create_task-failed task_token now token uuid t s e f =
      refuse-Unchanged (check_create json w token uuid t (create_permissions json t) _)
        (when_connected json uuid (dispatch json uuid task_token now t)) s e
        (refuse-Unchanged (connected_or uuid (is_connected uuid s.manager))
          (dispatch json uuid task_token now t) s e
          (dispatch-Unchanged uuid task_token now t s e
            (send_event uuid (event_of json s.next_id task_token t) s.manager) f
            (λ x m. send_failed uuid (event_of json s.next_id task_token t) s.manager m x)))

  -- With the keys of the rows and of the waiting calls below the next one: a blocking call that is
  -- answered with an error before the wait leaves the rows, the waiting calls, the sessions and
  -- their channels as they were.
  pub create_task_blocking-failed :
      (task_token : Text) (now : ℤ) (token : Text) (uuid : ℕ) (t : TaskEventType U)
      (s : Server U R J) (e : NodegetError)
      → IsFresh s
      → (create_task_blocking json w task_token now token uuid t s).0 ≡ err e
      → Unchanged s (create_task_blocking json w task_token now token uuid t s).1
  unfolding create_task_blocking
  create_task_blocking-failed task_token now token uuid t s e f =
      refuse-Unchanged (check_create json w token uuid t (blocking_permissions json t) _)
        (when_connected json uuid (dispatch_waiting json uuid task_token now t)) s e
        (refuse-Unchanged (connected_or uuid (is_connected uuid s.manager))
          (dispatch_waiting json uuid task_token now t) s e
          (dispatch_waiting-Unchanged uuid task_token now t s e
            (send_event uuid (event_of json s.next_id task_token t)
              (register_blocking_waiter s.next_id s.manager))
            f
            (λ x m.
              send_failed uuid (event_of json s.next_id task_token t)
                (register_blocking_waiter s.next_id s.manager) m x)))

  -- A blocking call has a result after 300,000 milliseconds at the latest, whatever timeout it
  -- asked for.
  pub finish_blocking-ends :
      (task_id timeout_ms elapsed : ℕ) (s : Server U R J)
      → 300000 ≤ elapsed
      → (r : Result (TaskEventResponse R)) × ((finish_blocking json task_id timeout_ms elapsed s).0
          ≡ some r)
  unfolding finish_blocking clamp_timeout
  finish_blocking-ends task_id timeout_ms elapsed s h =
      match_case Ends (find ℕ_discrete task_id (s.manager).answers) _ _
        (λ e.
          if_case Ends (leb (min (max timeout_ms 1) 300000) elapsed) _ _ (λ t. (_, refl))
            (λ t. ground (arith, t, h)))
        (λ a e. (ok a, refl))
    where
      Ends : Option (Result (TaskEventResponse R)) × Server U R J → Type 0
      Ends o = (r : Result (TaskEventResponse R)) × (o.0 ≡ some r)
