-- ===== src/Task/Recorded.antt =====
-- crates/ng-task/src/rpc: what becomes of the rows over any sequence of calls.
pub mod Same
pub mod Answered
use node_get.Prelude.{
  ℕ, suc, ◌<◌, ◌≡◌, ◌≢◌, ◌⊎◌, inl, inr, refl, sym, ap, ◌∙◌, subst, Bool, true, false, not, List, [],
  ◌∷◌, ◌++◌, Option, none, some, All, Member, All-append, All-map, keep, map, any, ◌==◌, ◌&&◌,
  arith, Bool-cases, Option-cases, if◌then◌else◌, if_case, match_case, All_at, ℕ_discrete, leb,
}
use node_get.Keyed.{find}
use node_get.Prelude.Int.{ℤ}
use node_get.Prelude.Pairs.{All-keep}
use node_get.Prelude.Members.{Member-append, Member-keep, Member-map}
use node_get.Text.{Text}
use node_get.Error.{NodegetError, Result, ok, err}
use node_get.Token.Auth.{World}
use node_get.Task.{TaskEventType, TaskEvent, TaskEventResponse, Row}
use node_get.Task.Manager.{
  TaskManager, TaskSendError, start_session, remove_session, change_channel, recv, hang_up,
  send_event, is_connected, register_blocking_waiter,
}
use node_get.Task.Upload.{
  upload_task_result, store_result, update_open, is_open_row_of, record_result, check_upload,
}
use node_get.Task.Rpc.{
  TaskSerde, Server, create_task, create_task_blocking, finish_blocking, refuse, dispatch,
  dispatch_waiting, insert_task, new_row, delete_task, sent_or_taken_back, sent_or_unregistered,
  with_manager, with_rows, clamp_timeout, check_create, create_permissions, blocking_permissions,
  when_connected, connected_or, event_of,
}

-- A call on the server, or what a session does, with everything it is given.
pub data TaskCall (U R : Type 0) : Type 0 where
  create create_blocking : Text → ℤ → Text → ℕ → TaskEventType U → TaskCall U R
  finish : ℕ → ℕ → ℕ → TaskCall U R
  upload : Text → TaskEventResponse R → TaskCall U R
  register leave : ℕ → ℕ → TaskCall U R
  forward close : ℕ → TaskCall U R

module _ {U R J : Type 0} (json : TaskSerde U R J) where
  abbrev pub handle : World → TaskCall U R → Server U R J → Server U R J
  handle w (create task_token now token uuid task_type) s =
      (create_task json w task_token now token uuid task_type s).1
  handle w (create_blocking task_token now token uuid task_type) s =
      (create_task_blocking json w task_token now token uuid task_type s).1
  handle w (finish task_id timeout_ms elapsed) s =
      (finish_blocking json task_id timeout_ms elapsed s).1
  handle w (upload token response) s = (upload_task_result json w token response s).1
  handle w (register uuid reg_id) s = with_manager json (start_session uuid reg_id s.manager) s
  handle w (leave uuid reg_id) s = with_manager json (remove_session uuid reg_id s.manager) s
  handle w (forward reg_id) s = with_manager json (change_channel reg_id recv s.manager) s
  handle w (close reg_id) s = with_manager json (change_channel reg_id hang_up s.manager) s

  unfoldable pub serve : List (World × TaskCall U R) → Server U R J → Server U R J
  serve [] s = s
  serve ((w, c) ∷ cs) s = serve cs (handle w c s)

  -- Keys were given out before.
  abbrev pub Below : Server U R J → Type 0
  Below s = All (λ r. r.id < s.next_id) s.rows

  -- Rows with a result are still there, unchanged; and the keys stay below the next one.
  pub record Settles (s s' : Server U R J) : Type 0 where
    pub kept : (r : Row J) (b : Bool) → r.success ≡ some b → Member r s.rows → Member r s'.rows
    pub below : Below s'

  same-Settles :
      (s : Server U R J) (m : TaskManager U R) → Below s → Settles s (with_manager json m s)
  same-Settles s m h = record { kept = λ r b e k. k; below = h }

  refuse-Settles :
      {A : Type 0} (check : Result (Unit {0})) (rest : Server U R J → Result A × Server U R J)
      (s : Server U R J)
      → Below s
      → Settles s (rest s).1
      → Settles s (refuse json check rest s).1
  refuse-Settles (ok u) rest s h k = k
  refuse-Settles (err e) rest s h k = record { kept = λ r b e' m. m; below = h }

  insert-Below :
      (uuid : ℕ) (token : Text) (now : ℤ) (t : TaskEventType U) (s : Server U R J)
      → Below s
      → Below (insert_task json uuid token now t s)
  insert-Below uuid token now t s h =
      All-append (λ r. r.id < suc s.next_id) s.rows _
        (All-map (λ r. r.id < s.next_id) (λ r. r.id < suc s.next_id) (λ r. λ k. omega (arith, k))
          s.rows h)
        (omega arith, tt)

  inserted-Settles :
      (uuid : ℕ) (token : Text) (now : ℤ) (t : TaskEventType U) (m : TaskManager U R)
      (s : Server U R J)
      → Below s
      → Settles s (with_manager json m (insert_task json uuid token now t s))
  inserted-Settles uuid token now t m s h = record {
    kept = λ r b e k. Member-append r s.rows _ k;
    below = insert-Below uuid token now t s h;
  }

  taken_back-Settles :
      (uuid : ℕ) (token : Text) (now : ℤ) (t : TaskEventType U) (m : TaskManager U R)
      (s : Server U R J)
      → Below s
      → Settles s
          (delete_task json s.next_id (with_manager json m (insert_task json uuid token now t s)))
  taken_back-Settles uuid token now t m s h = record {
    kept = λ r b e k.
        Member-keep (λ x. not (x.id == s.next_id)) r _
          (older r (All_at (λ x. x.id < s.next_id) r s.rows h k)) (Member-append r s.rows _ k);
    below =
        All-keep (λ r. r.id < suc s.next_id) (λ x. not (x.id == s.next_id)) _
          (insert-Below uuid token now t s h);
  }
    where
      older : (r : Row J) → r.id < s.next_id → not (r.id == s.next_id) ≡ true
      older r k = ground (arith, k)

  dispatch-Settles :
      (uuid : ℕ) (token : Text) (now : ℤ) (t : TaskEventType U)
      (r : Option TaskSendError × TaskManager U R) (s : Server U R J)
      → Below s
      → Settles s (sent_or_taken_back json uuid s.next_id r (insert_task json uuid token now t s)).1
  dispatch-Settles uuid token now t (none, m) s h = inserted-Settles uuid token now t m s h
  dispatch-Settles uuid token now t (some e, m) s h = taken_back-Settles uuid token now t m s h

  dispatch_waiting-Settles :
      (uuid : ℕ) (token : Text) (now : ℤ) (t : TaskEventType U)
      (r : Option TaskSendError × TaskManager U R) (s : Server U R J)
      → Below s
      → Settles s
          (sent_or_unregistered json uuid s.next_id r (insert_task json uuid token now t s)).1
  dispatch_waiting-Settles uuid token now t (none, m) s h = inserted-Settles uuid token now t m s h
  dispatch_waiting-Settles uuid token now t (some e, m) s h =
      taken_back-Settles uuid token now t _ s h

  -- An upload changes open rows only.
  settled_same :
      (response : TaskEventResponse R) (r : Row J) (b : Bool)
      → r.success ≡ some b
      → update_open json response r ≡ r
  settled_same response r b e = rw e refl

  update_rows_below :
      (next : ℕ) (response : TaskEventResponse R) (rows : List (Row J))
      → All (λ r. r.id < next) rows
      → All (λ r. r.id < next) (map (update_open json response) rows)
  update_rows_below next response [] h = tt
  update_rows_below next response (r ∷ rows) h = (
    if_case (λ (x : Row J). x.id < next) (is_open_row_of json response r) _ _ (λ e. h.0) (λ e. h.0),
    update_rows_below next response rows h.1,
  )

  pub upload-Settles :
      (response : TaskEventResponse R) (s : Server U R J)
      → Below s
      → Settles s (store_result json response s).1
  upload-Settles response s h =
      if_case (λ (r : Result ℕ × Server U R J). Settles s r.1)
        (not (any (is_open_row_of json response) s.rows)) _ _
        (λ e. record { kept = λ r b e' k. k; below = h })
        (λ e. record {
          kept = λ r b e' k.
              subst (λ x. Member x (map (update_open json response) s.rows))
                (settled_same response r b e') (Member-map (update_open json response) r s.rows k);
          below = update_rows_below s.next_id response s.rows h;
        })

  finish-Settles :
      (task_id timeout_ms elapsed : ℕ) (s : Server U R J)
      → Below s
      → Settles s (finish_blocking json task_id timeout_ms elapsed s).1
  unfolding finish_blocking
  finish-Settles task_id timeout_ms elapsed s h =
      match_case (λ (r : Option (Result (TaskEventResponse R)) × Server U R J). Settles s r.1)
        (find ℕ_discrete task_id (s.manager).answers) _ _
        (λ e.
          if_case (λ (r : Option (Result (TaskEventResponse R)) × Server U R J). Settles s r.1)
            (leb (clamp_timeout timeout_ms) elapsed) _ _ (λ t. same-Settles s _ h)
            (λ t. record { kept = λ r b e' k. k; below = h }))
        (λ a. λ e. record { kept = λ r b e' k. k; below = h })

  connected-Settles :
      (uuid : ℕ) (rest : Server U R J → Result ℕ × Server U R J) (s : Server U R J)
      → Below s
      → Settles s (rest s).1
      → Settles s (when_connected json uuid rest s).1
  connected-Settles uuid rest s h k =
      refuse-Settles (connected_or uuid (is_connected uuid s.manager)) rest s h k

  pub handle-Settles :
      (w : World) (c : TaskCall U R) (s : Server U R J) → Below s → Settles s (handle w c s)
  unfolding create_task create_task_blocking upload_task_result
  handle-Settles w (create task_token now token uuid t) s h =
      refuse-Settles (check_create json w token uuid t (create_permissions json t) _)
        (when_connected json uuid (dispatch json uuid task_token now t)) s h
        (connected-Settles uuid (dispatch json uuid task_token now t) s h (
          dispatch-Settles uuid task_token now t
            (send_event uuid (event_of json s.next_id task_token t) s.manager) s h))
  handle-Settles w (create_blocking task_token now token uuid t) s h =
      refuse-Settles (check_create json w token uuid t (blocking_permissions json t) _)
        (when_connected json uuid (dispatch_waiting json uuid task_token now t)) s h
        (connected-Settles uuid (dispatch_waiting json uuid task_token now t) s h (
          dispatch_waiting-Settles uuid task_token now t
            (send_event uuid (event_of json s.next_id task_token t)
              (register_blocking_waiter s.next_id s.manager))
            s h))
  handle-Settles w (finish task_id timeout_ms elapsed) s h =
      finish-Settles task_id timeout_ms elapsed s h
  handle-Settles w (upload token response) s h =
      refuse-Settles (check_upload json w token response s.rows) (store_result json response) s h
        (upload-Settles response s h)
  handle-Settles w (register uuid reg_id) s h = same-Settles s _ h
  handle-Settles w (leave uuid reg_id) s h = same-Settles s _ h
  handle-Settles w (forward reg_id) s h = same-Settles s _ h
  handle-Settles w (close reg_id) s h = same-Settles s _ h

  -- With the keys of the rows below the next one: a task row that has a result is left unchanged
  -- by every sequence of creating tasks, waiting for them, uploading results and session events,
  -- each call with its own clock and tokens.
  pub serve-settled :
      (cs : List (World × TaskCall U R)) (s : Server U R J) (r : Row J) (b : Bool)
      → Below s
      → r.success ≡ some b
      → Member r s.rows
      → Member r (serve cs s).rows
  unfolding serve
  serve-settled [] s r b h e m = m
  serve-settled ((w, c) ∷ cs) s r b h e m =
      let step = handle-Settles w c s h in
      serve-settled cs (handle w c s) r b step.below e (step.kept r b e m)
