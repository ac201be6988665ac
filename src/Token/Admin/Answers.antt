-- ===== src/Token/Admin/Answers.antt =====
-- A call by its answer and by what the calls after it see.
use node_get.Prelude.{ℕ, List}
use node_get.Text.{Text}
use node_get.Error.{Result}
use node_get.Permission.{Limit}
use node_get.Token.Limits.{Json, Serde}
use node_get.Token.Auth.{World}
use node_get.Token.Table.{TokenServer}
use node_get.Token.Admin.{Request, Response, serve}

module _ (serde : Serde) (encode : List ℕ → Text) (encode_limits : List Limit → Json) where
  abbrev pub answered : Request → TokenServer → Result Response
  answered r s = (serve encode encode_limits serde r s).0

  abbrev pub world_after : Request → TokenServer → World
  world_after r s = (serve encode encode_limits serde r s).1.world
