-- ===== src/Token/Admin/Sound.antt =====
-- Every call keeps the table and the cache sound.
use node_get.Prelude.{
  ℕ, ◌≡◌, refl, sym, ◌∙◌, subst, inl, inr, Bool, List, [], ◌∷◌, some, Member, All_at, arith,
  if◌then◌else◌,
}
use node_get.Prelude.Int.{pos}
use node_get.Prelude.Pairs.{Pairwise-keep}
use node_get.Prelude.Members.{Member-append}
use node_get.Text.{Text}
use node_get.Error.{
  ok, err, Result-cases, bind-ok, token_insert_failed, super_transaction_failed, only_super_edits,
  not_found, token_missing, permission_denied, super_cannot_be_edited,
}
use node_get.Permission.{Limit}
use node_get.Token.Limits.{Json, Serde}
use node_get.Token.Cache.{Model, CachedToken, TokenCacheInner, build_maps, cached_token}
use node_get.Token.Cache.Build.{Differs, Found, build_maps-Found}
use node_get.Token.Auth.{World, TokenOrAuth, inner, check_super_token, reload_from_models}
use node_get.Token.Guard.{parse_token}
use node_get.Token.Table.{TokenServer, has_id, insert_row, delete_rows}
use node_get.Token.Table.Unique.{insert_row-AllDiffer}
use node_get.Token.Table.Committed.{reloaded, commit-ok, commit-err}
use node_get.Token.Generate.{generate}
use node_get.Token.Generate.Stored.{generate-ok}
use node_get.Token.Admin.{
  Request, Response, create, delete, change_password, roll_token_secret, edit, generate_super_token,
  roll_super_token, or_error, find_by_key_or_username, find_target_token, extract_target_identifier,
  check_new_password, require_super, verify_supertoken, set_password, set_secret, set_limits,
  super_model, change, serve, serve_all,
}
use node_get.Token.Admin.Deleted.{delete_token-Removes}
use node_get.Token.Admin.Kept.{
  IsTable, update_row-IsTable, delete_rows-IsTable, insert_row-IsTable, at_rows,
  stored_or_exists-IsTable,
}

-- The cache is the table's.
abbrev pub IsCurrent : Serde → TokenServer → Type 0
IsCurrent serde s =
    (s.world.cache ≡ some (inner (build_maps serde s.rows)))
    × (s.world.super_token ≡ (build_maps serde s.rows).super_token)

abbrev pub IsSound : Serde → TokenServer → Type 0
IsSound serde s = IsTable s.rows × IsCurrent serde s

module _ (encode : List ℕ → Text) (encode_limits : List Limit → Json) where
  change-IsTable :
      (r : Request) (s : TokenServer) (answer : Response) (rows : List Model)
      → IsTable s.rows
      → change encode encode_limits r s ≡ ok (answer, rows)
      → IsTable rows
  unfolding change
  change-IsTable (create father id key secret from to limits username password) s answer rows t h =
      let (c, _, h1) = bind-ok (parse_token father) _ _ h in
      let ((a, new_rows), g, h2) =
        bind-ok (generate encode encode_limits id key secret c from to limits username password s) _
          _ h1 in
      let (_, unique, _, all_rows, _) =
        generate-ok encode encode_limits id key secret c from to limits username password s a
          new_rows t.0 g in
      let (m, at, e) = t.1 in
      at_rows IsTable _ answer new_rows rows
        (unique, (m, subst (Member m) (sym all_rows) (Member-append m s.rows _ at), e)) h2
  change-IsTable (delete credential target) s answer rows t h =
      let (p, _, left, _) = delete_token-Removes credential target s answer rows h in
      subst IsTable (sym left) (delete_rows-IsTable p s.rows t)
  change-IsTable (change_password credential target new_password) s answer rows t h =
      let (_, _, h1) = bind-ok (verify_supertoken s.world credential) _ _ h in
      let (_, _, h2) = bind-ok (check_new_password new_password) _ _ h1 in
      let (m, _, h3) = bind-ok (find_target_token s.rows target) _ _ h2 in
      at_rows IsTable _ answer _ rows
        (update_row-IsTable m.id (set_password encode encode_limits s.world new_password) s.rows
          (λ r. (refl, refl, refl)) t)
        h3
  change-IsTable (roll_token_secret credential target new_secret) s answer rows t h =
      let (_, _, h1) = bind-ok (verify_supertoken s.world credential) _ _ h in
      let (m, _, h2) = bind-ok (find_target_token s.rows target) _ _ h1 in
      at_rows IsTable _ answer _ rows
        (update_row-IsTable m.id (set_secret encode encode_limits s.world new_secret) s.rows
          (λ r. (refl, refl, refl)) t)
        h2
  change-IsTable (edit credential target limits) s answer rows t h =
      let (_, _, h1) = bind-ok (require_super s.world only_super_edits credential) _ _ h in
      let (m, _, h2) =
        bind-ok
          (or_error (err (not_found (token_missing (extract_target_identifier target))))
            (find_by_key_or_username s.rows target))
          _ _ h1 in
      let (_, _, h3) =
        bind-ok (if has_id (pos 1) m then err (permission_denied super_cannot_be_edited) else ok tt)
          _ _ h2 in
      at_rows IsTable _ answer _ rows
        (update_row-IsTable m.id (set_limits encode encode_limits limits) s.rows
          (λ r. (refl, refl, refl)) t)
        h3
  change-IsTable (generate_super_token key secret raw_password) s answer rows t h =
      stored_or_exists-IsTable
        (insert_row token_insert_failed
          (super_model encode encode_limits s.world key secret raw_password) s.rows)
        _ answer s.rows rows
        (λ new_rows e. insert_row-IsTable token_insert_failed _ s.rows new_rows t e) t h
  change-IsTable (roll_super_token key secret raw_password) s answer rows t h =
      let m = super_model encode encode_limits s.world key secret raw_password in
      let (new_rows, i, h1) =
        bind-ok (insert_row super_transaction_failed m (delete_rows (has_id (pos 1)) s.rows)) _ _
          h in
      let (unique, at, _) =
        insert_row-AllDiffer super_transaction_failed m (delete_rows (has_id (pos 1)) s.rows)
          new_rows (Pairwise-keep Differs _ s.rows t.0) i in
      at_rows IsTable _ answer new_rows rows (unique, (m, at, refl)) h1

  reloaded-IsCurrent :
      (serde : Serde) (rows : List Model) (s : TokenServer)
      → IsCurrent serde (reloaded serde rows s)
  unfolding reload_from_models
  reloaded-IsCurrent serde rows s = (refl, refl)

  pub serve-IsSound :
      (serde : Serde) (r : Request) (s : TokenServer)
      → IsSound serde s
      → IsSound serde (serve encode encode_limits serde r s).1
  unfolding serve
  serve-IsSound serde r s (t, current) =
      elim (Result-cases (serve encode encode_limits serde r s).0) [
        | inl (answer, h) ↦
            let (rows, c, after) = commit-ok serde (change encode encode_limits r s) s answer h in
            subst (IsSound serde) (sym after)
              (change-IsTable r s answer rows t c, reloaded-IsCurrent serde rows s)
        | inr (e, h) ↦
            subst (IsSound serde) (sym (commit-err serde (change encode encode_limits r s) s e h))
              (t, current)
      ]

  super_answers :
      (w : World) (cache : TokenCacheInner) (entry : CachedToken) (c : TokenOrAuth)
      → w.cache ≡ some cache
      → w.super_token ≡ some entry
      → (b : Bool) × (check_super_token w c ≡ ok b)
  unfolding check_super_token
  super_answers w cache entry c h k = elim (Result-cases (check_super_token w c)) [
    | inl answer ↦ answer
    | inr (e, f) ↦ ground (arith, h, k, f)
  ]

  IsSound-answers :
      (serde : Serde) (s : TokenServer) (c : TokenOrAuth)
      → IsSound serde s
      → (b : Bool) × (check_super_token s.world c ≡ ok b)
  IsSound-answers serde s c ((d, (m, at, e)), (cached, super)) =
      let found : Found serde (build_maps serde s.rows) m =
        All_at _ m s.rows (build_maps-Found serde s.rows d) at in
      super_answers s.world (inner (build_maps serde s.rows)) (cached_token serde m) c cached
        (super ∙ found.super e)

  still_IsSound :
      (serde : Serde) (requests : List Request) (s : TokenServer)
      → IsSound serde s
      → IsSound serde (serve_all encode encode_limits serde requests s)
  unfolding serve_all
  still_IsSound serde [] s h = h
  still_IsSound serde (r ∷ requests) s h =
      still_IsSound serde requests (serve encode encode_limits serde r s).1
        (serve-IsSound serde r s h)

  -- From a table with unique columns and a row of the super token, with the cache built from it:
  -- any sequence of creating, deleting and editing tokens, changing passwords, rolling secrets and
  -- generating or rolling the super token leaves such a table with its cache, and every credential
  -- is then answered by check_super_token.
  pub serve_all-IsSound :
      (serde : Serde) (requests : List Request) (s : TokenServer)
      → IsSound serde s
      → IsSound serde (serve_all encode encode_limits serde requests s)
        × ((c : TokenOrAuth)
            → (b : Bool) × (check_super_token
                  (serve_all encode encode_limits serde requests s).world
                  c
                ≡ ok b))
  serve_all-IsSound serde requests s h =
      let after = still_IsSound serde requests s h in (after, λ c. IsSound-answers serde _ c after)
