-- ===== src/Token/Admin/Changed.antt =====
-- What a new secret and a new password are worth.
use node_get.Prelude.{ℕ, ◌≡◌, refl, sym, subst, List, some}
use node_get.Text.{Text}
use node_get.Error.{ok, bind-ok}
use node_get.Permission.{Limit, Token}
use node_get.Token.Limits.{Json, Serde}
use node_get.Token.Cache.{Model}
use node_get.Token.Cache.Build.{AllDiffer}
use node_get.Token.Cache.Hex.{Encodes}
use node_get.Token.Auth.{token, auth, get_token, hash_to_bytes}
use node_get.Token.Auth.Login.{
  IsSha256, LogsIn, LogsIn-reload, get_token-reload_secret, get_token-reload_password,
}
use node_get.Token.Table.{TokenServer}
use node_get.Token.Table.Unique.{updated-Member}
use node_get.Token.Table.Committed.{commit-ok}
use node_get.Token.Admin.{
  Response, rolled, change_password, roll_token_secret, find_target_token, check_new_password,
  verify_supertoken, set_password, set_secret, change, serve,
}
use node_get.Token.Admin.Found.{find_target_token-Member}
use node_get.Token.Admin.Answers.{answered, world_after}

module _ (serde : Serde) (encode : List ℕ → Text) (encode_limits : List Limit → Json) where
  -- With a SHA-256 of 32 bytes, a hexadecimal encoder of two digits a byte and a table with unique
  -- columns: when rolling a secret answers, the target was found, the answer is its key with the
  -- new secret, these log in with the row's bounds and user name, and every secret that then logs
  -- in with the key has the hash of the new one.
  pub serve-roll_token_secret :
      (credential target new_secret : Text) (s : TokenServer) (answer : Response)
      → Encodes encode
      → IsSha256 (s.world).sha256
      → AllDiffer s.rows
      → answered serde encode encode_limits (roll_token_secret credential target new_secret) s
        ≡ ok answer
      → let w =
          world_after serde encode encode_limits
            (roll_token_secret credential target new_secret)
            s in
        (m : Model) × (find_target_token s.rows target ≡ ok m)
        × (answer ≡ rolled m.token_key new_secret)
        × LogsIn w (token m.token_key new_secret) m.time_stamp_from m.time_stamp_to m.username
        × ((other : Text) (t : Token)
            → get_token w (token m.token_key other) ≡ ok t
            → hash_to_bytes s.world other ≡ hash_to_bytes s.world new_secret)
  unfolding serve change
  serve-roll_token_secret credential target new_secret s answer encodes sha d h =
      let r = roll_token_secret credential target new_secret in
      let (rows, changed, after) = commit-ok serde (change encode encode_limits r s) s answer h in
      let (_, _, h1) = bind-ok (verify_supertoken s.world credential) _ _ changed in
      let (m, found, h2) = bind-ok (find_target_token s.rows target) _ _ h1 in
      let f : Model → Model = set_secret encode encode_limits s.world new_secret in
      let (unique, at) =
        updated-Member m f s.rows rows (λ x. (refl, refl, refl)) d
          (find_target_token-Member s.rows target m found) (cc h2) in
      (
        m,
        found,
        cc h2,
        subst
            (λ x.
              LogsIn x.world (token m.token_key new_secret) m.time_stamp_from m.time_stamp_to
                m.username)
            (sym after)
            (LogsIn-reload serde encode encodes rows s.world (token m.token_key new_secret) (f m)
              unique sha at (refl, refl)),
        λ other t g.
            get_token-reload_secret serde encode encodes rows s.world (f m) new_secret other t
              unique sha at refl
              (subst (λ x. get_token x.world (token m.token_key other) ≡ ok t) after g),
      )

  -- With a SHA-256 of 32 bytes, a hexadecimal encoder of two digits a byte and a table with unique
  -- columns: when changing a password answers, the target was found, and if it has a user name,
  -- this logs in with the new password, with the row's bounds, and every password that then logs
  -- in with it has the hash of the new one.
  pub serve-change_password :
      (credential target new_password : Text) (s : TokenServer) (answer : Response)
      → Encodes encode
      → IsSha256 (s.world).sha256
      → AllDiffer s.rows
      → answered serde encode encode_limits (change_password credential target new_password) s
        ≡ ok answer
      → let w =
          world_after serde encode encode_limits
            (change_password credential target new_password)
            s in
        (m : Model) × (find_target_token s.rows target ≡ ok m)
        × ((username : Text)
            → m.username ≡ some username
            → LogsIn w (auth username new_password) m.time_stamp_from m.time_stamp_to m.username
              × ((other : Text) (t : Token)
                  → get_token w (auth username other) ≡ ok t
                  → hash_to_bytes s.world other ≡ hash_to_bytes s.world new_password))
  unfolding serve change
  serve-change_password credential target new_password s answer encodes sha d h =
      let r = change_password credential target new_password in
      let (rows, changed, after) = commit-ok serde (change encode encode_limits r s) s answer h in
      let (_, _, h1) = bind-ok (verify_supertoken s.world credential) _ _ changed in
      let (_, _, h2) = bind-ok (check_new_password new_password) _ _ h1 in
      let (m, found, h3) = bind-ok (find_target_token s.rows target) _ _ h2 in
      let f : Model → Model = set_password encode encode_limits s.world new_password in
      let (unique, at) =
        updated-Member m f s.rows rows (λ x. (refl, refl, refl)) d
          (find_target_token-Member s.rows target m found) (cc h3) in
      (
        m,
        found,
        λ username u. (
          subst
              (λ x.
                LogsIn x.world (auth username new_password) m.time_stamp_from m.time_stamp_to
                  m.username)
              (sym after)
              (LogsIn-reload serde encode encodes rows s.world (auth username new_password) (f m)
                unique sha at (u, refl)),
          λ other t g.
              get_token-reload_password serde encode encodes rows s.world (f m) username
                new_password other t unique sha at u refl
                (subst (λ x. get_token x.world (auth username other) ≡ ok t) after g),
        ),
      )
