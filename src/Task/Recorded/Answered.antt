-- ===== src/Task/Recorded/Answered.antt =====
-- crates/ng-task/src/rpc: what a waiting call gets, compared with the rows.
use node_get.Prelude.{
  ℕ, ◌≡◌, inl, inr, refl, sym, ◌∙◌, subst, Bool, true, false, not, List, [], ◌∷◌, Option, none,
  some, All, Member, All-map, map, any, ◌==◌, arith, Bool-cases, if_case, match_case, All_at,
  ℕ_discrete, leb,
}
use node_get.Prelude.Members.{Member-map, any→Member}
use node_get.Keyed.{find, is_same}
use node_get.Error.{Result, ok, err}
use node_get.Token.Auth.{World}
use node_get.Task.{TaskEventResponse, Row, cast_signed}
use node_get.Task.Manager.{TaskManager, recv, hang_up, notify_blocking_waiter, add_session}
use node_get.Task.Upload.{
  upload_task_result, store_result, update_open, is_open_row_of, is_row_of, check_upload,
  encode_optional,
}
use node_get.Task.Upload.Named.{IsFor, is_row_of-IsFor}
use node_get.Task.Rpc.{TaskSerde, Server, finish_blocking, refuse, clamp_timeout}
use node_get.Task.Recorded.{
  TaskCall, create, create_blocking, finish, upload, register, leave, forward, close, handle, serve,
  Below, Settles, handle-Settles, upload-Settles,
}
use node_get.Task.Recorded.Same.{
  answers_of, finish_same, create_same, create_blocking_same, channel_same, leave_same,
}

module _ {U R J : Type 0} (json : TaskSerde U R J) where
  -- The JSON of the result stands in the row, or neither is there.
  abbrev pub Stored : Option R → Option J → Type 0
  Stored (some result) column = column ≡ some (json.encode_result result)
  Stored none column = column ≡ none

  -- The row is that of the response, and has everything that it reports.
  abbrev pub Recorded : ℕ → TaskEventResponse R → Row J → Type 0
  Recorded task_id response r =
      (r.success ≡ some response.success)
      × (task_id ≡ response.task_id)
      × IsFor response r
      × (r.timestamp ≡ some (cast_signed response.timestamp))
      × (r.error_message ≡ response.error_message)
      × Stored response.task_event_result r.task_event_result

  abbrev pub InRows : List (Row J) → ℕ × TaskEventResponse R → Type 0
  InRows rows a = (r : Row J) × Member r rows × Recorded a.0 a.1 r

  -- Every answer is in the rows.
  abbrev pub Answers : Server U R J → Type 0
  Answers s = All (InRows s.rows) (s.manager).answers

  carried :
      (s s' : Server U R J)
      → Settles json s s'
      → answers_of json s' ≡ answers_of json s
      → Answers s
      → Answers s'
  carried s s' k e h = subst (All (InRows s'.rows)) (sym e) (
      All-map (InRows s.rows) (InRows s'.rows)
        (λ a. λ x. (x.0, k.kept x.0 a.1.success x.2.0 x.1, x.2)) (answers_of json s) h)

  encode_optional-Stored : (result : Option R) → Stored result (encode_optional json result)
  encode_optional-Stored none = refl
  encode_optional-Stored (some result) = refl

  -- An open row that the response names has the result after the update.
  updated-Recorded :
      (response : TaskEventResponse R) (r : Row J)
      → is_open_row_of json response r ≡ true
      → Recorded response.task_id response (update_open json response r)
  updated-Recorded response r t =
      let named : is_row_of json response r ≡ true = open_is_named r.success t in
      rw t (
        refl,
        refl,
        is_row_of-IsFor json response r named,
        refl,
        refl,
        encode_optional-Stored response.task_event_result,
      )
    where
      open_is_named :
          (o : Option Bool)
          → elim o [ none ↦ is_row_of json response r | some _ ↦ false ] ≡ true
          → is_row_of json response r ≡ true
      open_is_named none h = h
      open_is_named (some b) h = cc h

  notified :
      (rows : List (Row J)) (response : TaskEventResponse R) (m : TaskManager U R)
      → All (InRows rows) m.answers
      → InRows rows (response.task_id, response)
      → All (InRows rows) ((notify_blocking_waiter response.task_id response m).1).answers
  unfolding notify_blocking_waiter
  notified rows response m old new =
      if_case (λ (r : Bool × TaskManager U R). All (InRows rows) (r.1).answers)
        (any (λ j. j == response.task_id) m.blocking_waiters) _ _ (λ t. (new, old)) (λ t. old)

  store-Answers :
      (response : TaskEventResponse R) (s : Server U R J)
      → Settles json s (store_result json response s).1
      → Answers s
      → Answers (store_result json response s).1
  store-Answers response s k h =
      if_case (λ (r : Result ℕ × Server U R J). Settles json s r.1 → Answers r.1)
        (not (any (is_open_row_of json response) s.rows)) _ _ (λ e settles. h)
        (λ e settles.
          let (r, m, t) = any→Member (is_open_row_of json response) s.rows (ground (arith, e)) in
          notified (map (update_open json response) s.rows) response s.manager
            (All-map (InRows s.rows) (InRows (map (update_open json response) s.rows))
              (λ a. λ x. (x.0, settles.kept x.0 a.1.success x.2.0 x.1, x.2)) (answers_of json s) h)
            (
              update_open json response r,
              Member-map (update_open json response) r s.rows m,
              updated-Recorded response r t,
            ))
        k

  refuse-Answers :
      {A : Type 0} (check : Result (Unit {0})) (rest : Server U R J → Result A × Server U R J)
      (s : Server U R J)
      → Answers s
      → Answers (rest s).1
      → Answers (refuse json check rest s).1
  refuse-Answers (ok u) rest s h k = k
  refuse-Answers (err e) rest s h k = h

  handle-Answers :
      (w : World) (c : TaskCall U R) (s : Server U R J)
      → Below json s
      → Answers s
      → Answers (handle json w c s)
  unfolding upload_task_result add_session
  handle-Answers w (create a b d e t) s l h =
      carried s _ (handle-Settles json w (create a b d e t) s l) (create_same json w a b d e t s) h
  handle-Answers w (create_blocking a b d e t) s l h =
      carried s _ (handle-Settles json w (create_blocking a b d e t) s l)
        (create_blocking_same json w a b d e t s) h
  handle-Answers w (finish a b d) s l h =
      carried s _ (handle-Settles json w (finish a b d) s l) (finish_same json a b d s) h
  handle-Answers w (upload token response) s l h =
      refuse-Answers (check_upload json w token response s.rows) (store_result json response) s h
        (store-Answers response s (upload-Settles json response s l) h)
  handle-Answers w (register a b) s l h = h
  handle-Answers w (leave a b) s l h =
      carried s _ (handle-Settles json w (leave a b) s l) (leave_same json a b s.manager) h
  handle-Answers w (forward a) s l h =
      carried s _ (handle-Settles json w (forward a) s l) (channel_same json a recv s.manager) h
  handle-Answers w (close a) s l h =
      carried s _ (handle-Settles json w (close a) s l) (channel_same json a hang_up s.manager) h

  serve-Answers :
      (cs : List (World × TaskCall U R)) (s : Server U R J)
      → Below json s
      → Answers s
      → Answers (serve json cs s)
  unfolding serve
  serve-Answers [] s l h = h
  serve-Answers ((w, c) ∷ cs) s l h =
      serve-Answers cs (handle json w c s) (handle-Settles json w c s l).below
        (handle-Answers w c s l h)

  find→Member :
      (id : ℕ) (r : TaskEventResponse R) (m : List (ℕ × TaskEventResponse R))
      → find ℕ_discrete id m ≡ some r
      → Member (id, r) m
  unfolding find
  find→Member id r [] h = cc h
  find→Member id r ((j, v) ∷ m) h = elim (Bool-cases (is_same ℕ_discrete j id)) [
    | inl e ↦ inl (ground (arith, e, h))
    | inr e ↦ inr (find→Member id r m (ground (arith, e, h)))
  ]

  finish_found :
      (id timeout_ms elapsed : ℕ) (s : Server U R J) (response : TaskEventResponse R)
      → (finish_blocking json id timeout_ms elapsed s).0 ≡ some (ok response)
      → find ℕ_discrete id (answers_of json s) ≡ some response
  unfolding finish_blocking
  finish_found id timeout_ms elapsed s response =
      match_case FoundBy (find ℕ_discrete id (answers_of json s)) _ _
        (λ e.
          if_case FoundBy (leb (clamp_timeout timeout_ms) elapsed) _ _ (λ t h. cc h) (λ t h. cc h))
        (λ a e h. e ∙ same_answer a response h)
    where
      FoundBy : Option (Result (TaskEventResponse R)) × Server U R J → Type 0
      FoundBy r = r.0 ≡ some (ok response) → find ℕ_discrete id (answers_of json s) ≡ some response

      same_answer : (a b : TaskEventResponse R) → some (ok a) ≡ some (ok b) → some a ≡ some b
      same_answer a b h = cc h

  -- Over any sequence of task calls, each with its own clock and tokens, and session events, from
  -- a server whose keys are below the next one and whose answers are in its rows: a blocking call
  -- that returns a response returns one that is recorded in the row of its task, for the agent and
  -- with the task token of the response, with its time, its success, its error message and the
  -- JSON of its result.
  pub finish_blocking-Recorded :
      (cs : List (World × TaskCall U R)) (s : Server U R J) (id timeout_ms elapsed : ℕ)
      (response : TaskEventResponse R)
      → Below json s
      → Answers s
      → (finish_blocking json id timeout_ms elapsed (serve json cs s)).0 ≡ some (ok response)
      → InRows (serve json cs s).rows (id, response)
  finish_blocking-Recorded cs s id timeout_ms elapsed response l h e =
      All_at (InRows (serve json cs s).rows) (id, response) (answers_of json (serve json cs s))
        (serve-Answers cs s l h)
        (find→Member id response (answers_of json (serve json cs s))
          (finish_found id timeout_ms elapsed (serve json cs s) response e))
