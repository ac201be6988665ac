-- ===== src/Token/Admin/Edited.antt =====
-- What new limits are worth.
use node_get.Prelude.{ℕ, ◌≡◌, ◌≢◌, refl, sym, subst, List, some, arith, if◌then◌else◌}
use node_get.Prelude.Int.{pos, eq_ℤ_refl}
use node_get.Text.{Text}
use node_get.Error.{
  Result, ok, err, bind-ok, not_found, token_missing, only_super_edits, permission_denied,
  super_cannot_be_edited,
}
use node_get.Permission.{Limit, Token}
use node_get.Token.Limits.{Json, Serde, parse_token_limit_with_compat}
use node_get.Token.Cache.{Model, cached_token}
use node_get.Token.Cache.Build.{AllDiffer}
use node_get.Token.Cache.Hex.{Encodes}
use node_get.Token.Auth.{World, TokenOrAuth, token, auth, get_token, to_token}
use node_get.Token.Auth.Login.{IsSha256, WrittenFor, get_token-reload}
use node_get.Token.Table.{TokenServer, has_id}
use node_get.Token.Table.Unique.{updated-Member}
use node_get.Token.Table.Committed.{commit-ok}
use node_get.Token.Admin.{
  Response, edit, find_by_key_or_username, extract_target_identifier, or_error, require_super,
  set_limits, change, serve,
}
use node_get.Token.Admin.Found.{find_by_key_or_username-Member, or_error-ok}
use node_get.Token.Admin.Answers.{answered, world_after}

module _ (serde : Serde) (encode : List ℕ → Text) (encode_limits : List Limit → Json) where
  limits-cached_token :
      (m : Model) (limits : List Limit)
      → serde.limits m.token_limit ≡ some limits
      → (to_token (cached_token serde m)).token_limit ≡ limits
  unfolding to_token cached_token parse_token_limit_with_compat
  limits-cached_token m limits h = ground (arith, h)

  WrittenFor-set_limits :
      (w : World) (c : TokenOrAuth) (limits : List Limit) (r : Model)
      → WrittenFor w encode c r
      → WrittenFor w encode c (set_limits encode encode_limits limits r)
  WrittenFor-set_limits w (token key secret) limits r x = x
  WrittenFor-set_limits w (auth username password) limits r x = x

  -- With a SHA-256 of 32 bytes, a hexadecimal encoder of two digits a byte, a table with unique
  -- columns and limits that decode to what was encoded: when editing limits answers, the target
  -- was found, it is not the super token, and every credential that its row was written for then
  -- gets a token with exactly the new limits.
  pub serve-edit :
      (credential target : Text) (limits : List Limit) (s : TokenServer) (answer : Response)
      → Encodes encode
      → IsSha256 (s.world).sha256
      → AllDiffer s.rows
      → serde.limits (encode_limits limits) ≡ some limits
      → answered serde encode encode_limits (edit credential target limits) s ≡ ok answer
      → let w = world_after serde encode encode_limits (edit credential target limits) s in
        (m : Model) × (find_by_key_or_username s.rows target ≡ some m)
        × (m.id ≢ pos 1)
        × ((c : TokenOrAuth)
            → WrittenFor s.world encode c m
            → (t : Token) × (get_token w c ≡ ok t) × (t.token_limit ≡ limits))
  unfolding serve change
  serve-edit credential target limits s answer encodes sha d decodes h =
      let (rows, changed, after) =
        commit-ok serde (change encode encode_limits (edit credential target limits) s) s answer
          h in
      let (_, _, h1) = bind-ok (require_super s.world only_super_edits credential) _ _ changed in
      let missing : Result Model =
        err (not_found (token_missing (extract_target_identifier target))) in
      let (m, found, h2) =
        bind-ok (or_error missing (find_by_key_or_username s.rows target)) _ _ h1 in
      let (_, not_super, h3) =
        bind-ok (if has_id (pos 1) m then err (permission_denied super_cannot_be_edited) else ok tt)
          _ _ h2 in
      let f : Model → Model = set_limits encode encode_limits limits in
      let is_found =
        or_error-ok missing (find_by_key_or_username s.rows target) m (λ x. cc x) found in
      let (unique, at) =
        updated-Member m f s.rows rows (λ x. (refl, refl, refl)) d
          (find_by_key_or_username-Member s.rows target m is_found) (cc h3) in
      (
        m,
        is_found,
        λ e. ground (arith, not_super, e, eq_ℤ_refl (pos 1)),
        λ c written. (
          to_token (cached_token serde (f m)),
          subst (λ x. get_token x.world c ≡ ok (to_token (cached_token serde (f m)))) (sym after)
              (get_token-reload serde encode encodes rows s.world c (f m) unique sha at
                (WrittenFor-set_limits s.world c limits m written)),
          limits-cached_token (f m) limits decodes,
        ),
      )
