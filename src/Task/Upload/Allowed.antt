-- ===== src/Task/Upload/Allowed.antt =====
-- crates/ng-task/src/rpc/upload_task_result.rs: who may hand in which result.
use node_get.Prelude.{
  ℕ, ◌≡◌, refl, sym, ap, ◌∙◌, Bool, true, List, [], ◌∷◌, Option, none, some, Member, Bool-cases,
  inl, inr,
}
use node_get.Text.{Text}
use node_get.Error.{Result, ok, err, bind-ok, invalid_input, result_already_uploaded}
use node_get.Permission.{Scope, Permission, Task}
use node_get.Token.Auth.{World, TokenOrAuth, parsed, from_full_token, check_token_limit}
use node_get.Token.Guard.{parse_token, get_checker, parse_token→parsed, allowed_or→true}
use node_get.Task.{TaskEventType, TaskEventResponse, Row, task_name}
use node_get.Task.Rpc.{TaskSerde, Server, refuse}
use node_get.Task.Upload.{
  check_any_task_write, find_row, or_missing, still_open, decoded, check_upload, store_result,
  upload_task_result, is_row_of,
}
use node_get.Task.Upload.Named.{IsFor, is_row_of-IsFor}

module _ {U R J : Type 0} (w : World) (json : TaskSerde U R J) where
  -- The row that the response names has no result yet, and the credential passes `check_token_limit`
  -- for writing results of the row's kind of task for the agent of the response.
  abbrev pub Permitted : Text → TaskEventResponse R → List (Row J) → Type 0
  Permitted token response rows =
      (c : TokenOrAuth) × (r : Row J) × (t : TaskEventType U) × (from_full_token token ≡ parsed c)
      × Member r rows
      × IsFor response r
      × (r.success ≡ none)
      × (json.decode_type r.task_event_type ≡ some t)
      × (check_token_limit w c (Scope.agent_uuid response.agent_uuid ∷ [])
            (Permission.task (Task.write (task_name t)) ∷ [])
          ≡ ok true)

  find_row→Member :
      (response : TaskEventResponse R) (rows : List (Row J)) (r : Row J)
      → or_missing json (find_row json response rows) ≡ ok r
      → Member r rows × (is_row_of json response r ≡ true)
  unfolding find_row
  find_row→Member response [] r = λ h. cc h
  find_row→Member response (x ∷ rows) r = elim (Bool-cases (is_row_of json response x)) [
    | inl e ↦
        rw e
          (λ h. let same : x ≡ r = cc h in (inl same, sym (ap (is_row_of json response) same) ∙ e))
    | inr e ↦ rw e (λ h. let (m, t) = find_row→Member response rows r h in (inr m, t))
  ]

  open_of :
      (o : Option Bool)
      → elim o [ none ↦ ok tt | some b ↦ err (invalid_input result_already_uploaded) ] ≡ ok tt
      → o ≡ none
  open_of none h = refl
  open_of (some b) h = cc h

  decoded_of :
      (o : Option (TaskEventType U)) (t : TaskEventType U) → decoded json o ≡ ok t → o ≡ some t
  decoded_of none t h = cc h
  decoded_of (some x) t h = cc h

  refuse_ok :
      {A : Type 0} (check : Result (Unit {0})) (rest : Server U R J → Result A × Server U R J)
      (s : Server U R J) (a : A)
      → (refuse json check rest s).0 ≡ ok a
      → check ≡ ok tt
  refuse_ok (ok u) rest s a h = refl
  refuse_ok (err e) rest s a h = cc h

  -- An upload that is accepted is for a row without a result whose key, agent and task token are
  -- those of the response, and its credential passes check_token_limit for writing results of the
  -- row's kind of task for this agent.
  pub upload_task_result-Permitted :
      (token : Text) (response : TaskEventResponse R) (s : Server U R J) (id : ℕ)
      → (upload_task_result json w token response s).0 ≡ ok id
      → Permitted token response s.rows
  unfolding upload_task_result
  upload_task_result-Permitted token response s id h =
      let passed =
        refuse_ok (check_upload json w token response s.rows) (store_result json response) s id h in
      let (c, x, h1) = bind-ok (parse_token token) _ tt passed in
      let (u, y, h2) = bind-ok (get_checker w) _ tt h1 in
      let (v, z, h3) = bind-ok (check_any_task_write w c response.agent_uuid) _ tt h2 in
      let (r, f, h4) = bind-ok (or_missing json (find_row json response s.rows)) _ tt h3 in
      let (o, k, h5) = bind-ok (still_open json r) _ tt h4 in
      let (t, d, h6) = bind-ok (decoded json (json.decode_type r.task_event_type)) _ tt h5 in
      let (b, q, h7) =
        bind-ok
          (check_token_limit w c (Scope.agent_uuid response.agent_uuid ∷ [])
            (Permission.task (Task.write (task_name t)) ∷ []))
          _ tt h6 in
      let (m, n) = find_row→Member response s.rows r f in
      (
        c,
        r,
        t,
        parse_token→parsed token c x,
        m,
        is_row_of-IsFor json response r n,
        open_of r.success k,
        decoded_of (json.decode_type r.task_event_type) t d,
        q ∙ ap ok (allowed_or→true _ b h7),
      )
