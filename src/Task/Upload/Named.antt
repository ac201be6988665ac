-- ===== src/Task/Upload/Named.antt =====
-- crates/ng-task/src/rpc/upload_task_result.rs: the row that an upload is for.
use node_get.Prelude.{ℕ, ◌≡◌, refl, Bool, true, false, ◌==◌, ◌&&◌, arith}
use node_get.Prelude.Int.{pos, eq_ℤ, eq_ℤ→eq}
use node_get.Text.{text_eq}
use node_get.Text.Laws.{text_eq→eq}
use node_get.Task.{TaskEventResponse, Row, cast_signed}
use node_get.Task.Rpc.{TaskSerde}
use node_get.Task.Upload.{is_row_of}

-- The key, the agent and the task token of the row are those of the response.
abbrev pub IsFor : {R J : Type 0} → TaskEventResponse R → Row J → Type 0
IsFor response r =
    (pos r.id ≡ cast_signed response.task_id)
    × (r.uuid ≡ response.agent_uuid)
    × (r.token ≡ response.task_token)

first_of : (a b : Bool) → (a && b) ≡ true → a ≡ true
first_of true b h = refl
first_of false b h = h

second_of : (a b : Bool) → (a && b) ≡ true → b ≡ true
second_of true b h = h
second_of false b h = cc h

equal : (a b : ℕ) → (a == b) ≡ true → a ≡ b
equal a b h = ground (arith, h)

pub is_row_of-IsFor :
    {U R J : Type 0} (json : TaskSerde U R J) (response : TaskEventResponse R) (r : Row J)
    → is_row_of json response r ≡ true
    → IsFor response r
is_row_of-IsFor json response r h =
    let agent_and_token : (r.uuid == response.agent_uuid && text_eq r.token response.task_token)
        ≡ true =
      second_of (eq_ℤ (pos r.id) (cast_signed response.task_id)) _ h in
    (
      eq_ℤ→eq (pos r.id) (cast_signed response.task_id) (first_of _ _ h),
      equal r.uuid response.agent_uuid (first_of _ _ agent_and_token),
      text_eq→eq r.token response.task_token (second_of _ _ agent_and_token),
    )
