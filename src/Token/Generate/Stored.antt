-- ===== src/Token/Generate/Stored.antt =====
-- crates/ng-token/src/generate_token.rs: what a generated token is worth.
use node_get.Prelude.{
  ℕ, ◌≡◌, refl, sym, ap, subst, ◌∙◌, List, [], ◌∷◌, ◌++◌, Option, some, Bool, true, false, not,
  ◌||◌, if◌then◌else◌, Member,
}
use node_get.Prelude.Int.{ℤ}
use node_get.Text.{Text, contains}
use node_get.Error.{
  NodegetError, Result, ok, err, map_err, map_err-ok, bind-ok, permission_denied,
  only_super_creates_tokens, token_insert_failed,
}
use node_get.Permission.{Limit}
use node_get.Token.Limits.{Json, Serde}
use node_get.Token.Cache.{Model}
use node_get.Token.Cache.Build.{AllDiffer}
use node_get.Token.Cache.Hex.{Encodes}
use node_get.Token.Auth.{
  World, TokenOrAuth, token, auth, parsed, from_full_token, as_denied, check_super_token,
  hash_to_bytes,
}
use node_get.Token.Auth.Login.{IsSha256, LogsIn, LogsIn-reload}
use node_get.Token.Auth.Parse.{IsWritable, to_full_token, from_full_token-to_full_token}
use node_get.Token.Table.{TokenServer, insert_row}
use node_get.Token.Table.Unique.{insert_row-AllDiffer}
use node_get.Token.Table.Committed.{commit-ok}
use node_get.Token.Generate.{check_request, new_model, generate, generate_and_store_token}

separators_absent :
    (a b c d : Bool) (e f : NodegetError)
    → (if a || b then err e else if c || d then err f else ok tt) ≡ ok tt
    → (a ≡ false) × (b ≡ false) × (c ≡ false)
separators_absent true b c d e f h = cc h
separators_absent false true c d e f h = cc h
separators_absent false false true d e f h = cc h
separators_absent false false false d e f h = (refl, refl, refl)

check_unless-ok :
    (b : Bool) (e : NodegetError) (rest : Result (Unit {0}))
    → (if b then err e else rest) ≡ ok tt
    → rest ≡ ok tt
check_unless-ok true e rest h = cc h
check_unless-ok false e rest h = h

-- A user name and a password that pass the checks can be written as one credential and read back.
check_request-IsWritable :
    (w : World) (father : TokenOrAuth) (username password : Text)
    → check_request w father (some username) (some password) ≡ ok tt
    → IsWritable (auth username password)
check_request-IsWritable w father username password h =
    let (is_authorized, _, checked) =
      bind-ok (map_err as_denied (check_super_token w father)) _ tt h in
    let rest = check_unless-ok (not is_authorized) _ _ checked in
    separators_absent (contains username b':') (contains username b'|') (contains password b':')
      (contains password b'|') _ _ rest

pub check_request-IsSuper :
    (w : World) (father : TokenOrAuth) (username password : Option Text)
    → check_request w father username password ≡ ok tt
    → check_super_token w father ≡ ok true
check_request-IsSuper w father username password h =
    let (is_authorized, found, checked) =
      bind-ok (map_err as_denied (check_super_token w father)) _ tt h in
    at_true is_authorized _ checked
      (map_err-ok as_denied (check_super_token w father) is_authorized found)
  where
    at_true :
        (b : Bool) (rest : Result (Unit {0}))
        → (if not b then err (permission_denied only_super_creates_tokens) else rest) ≡ ok tt
        → check_super_token w father ≡ ok b
        → check_super_token w father ≡ ok true
    at_true true rest h k = k
    at_true false rest h k = cc h

module _ (encode : List ℕ → Text) (encode_limits : List Limit → Json) where
  -- A generation that succeeds: its checks did, and the row is in the table.
  pub generate-ok :
      (id : ℤ) (key secret : Text) (father : TokenOrAuth) (from to : Option ℤ) (limits : List Limit)
      (username password : Option Text) (s : TokenServer) (answer : Text × Text) (rows : List Model)
      → AllDiffer s.rows
      → generate encode encode_limits id key secret father from to limits username password s
        ≡ ok (answer, rows)
      → (check_request s.world father username password ≡ ok tt)
        × AllDiffer rows
        × Member
            (new_model encode encode_limits s.world id key secret from to limits username password)
            rows
        × (rows
            ≡ s.rows
              ++ new_model encode encode_limits s.world id key secret from to limits username
                  password
                ∷ [])
        × (answer ≡ (key, secret))
  generate-ok id key secret father from to limits username password s answer rows d h =
      let (u, checked, rest) = bind-ok (check_request s.world father username password) _ _ h in
      let (rows', inserted, rest') =
        bind-ok
          (insert_row token_insert_failed
            (new_model encode encode_limits s.world id key secret from to limits username password)
            s.rows)
          _ _ rest in
      let (unique, at, all_rows) =
        insert_row-AllDiffer token_insert_failed _ s.rows rows' d inserted in
      let same : rows' ≡ rows = cc rest' in
      (
        checked,
        subst AllDiffer same unique,
        subst (Member _) same at,
        sym same ∙ all_rows,
        cc rest',
      )

module _ (serde : Serde) (encode : List ℕ → Text) (encode_limits : List Limit → Json) where
  -- With a SHA-256 of 32 bytes, a hexadecimal encoder of two digits a byte and a table with unique
  -- columns: when generate_and_store_token answers a key and a secret, the caller is the super
  -- token, and the key and the secret log in with the bounds in time and the user name that were
  -- asked for.
  pub generate_and_store_token-LogsIn :
      (id : ℤ) (key secret : Text) (father : TokenOrAuth) (from to : Option ℤ) (limits : List Limit)
      (username password : Option Text) (s : TokenServer) (answer : Text × Text)
      → Encodes encode
      → IsSha256 (s.world).sha256
      → AllDiffer s.rows
      → (generate_and_store_token encode encode_limits serde id key secret father from to limits
          username password s).0
        ≡ ok answer
      → (check_super_token s.world father ≡ ok true)
        × LogsIn
            ((generate_and_store_token encode encode_limits serde id key secret father from to
                limits username password s).1
              ).world
            (token answer.0 answer.1)
            from
            to
            username
  unfolding generate_and_store_token
  generate_and_store_token-LogsIn id key secret father from to limits username password s answer
        encodes sha d h =
      let (rows, changed, left) =
        commit-ok serde
          (generate encode encode_limits id key secret father from to limits username password s) s
          answer h in
      let (checked, unique, at, _, same) =
        generate-ok encode encode_limits id key secret father from to limits username password s
          answer rows d changed in
      (
        check_request-IsSuper s.world father username password checked,
        subst (λ after. LogsIn after.world (token answer.0 answer.1) from to username) (sym left)
            (LogsIn-reload serde encode encodes rows s.world (token answer.0 answer.1)
              (new_model encode encode_limits s.world id key secret from to limits username
                password)
              unique sha at
              (
                sym (ap (λ a. a.0) same),
                ap (λ x. encode (hash_to_bytes s.world x)) (sym (ap (λ a. a.1) same)),
              )),
      )

  -- With a SHA-256 of 32 bytes, a hexadecimal encoder of two digits a byte and a table with unique
  -- columns: when generate_and_store_token succeeds for a user name and a password, the text with
  -- a bar between the two is read back as them, and they log in with the bounds in time that were
  -- asked for.
  pub generate_and_store_token-PasswordLogsIn :
      (id : ℤ) (key secret : Text) (father : TokenOrAuth) (from to : Option ℤ) (limits : List Limit)
      (username password : Text) (s : TokenServer) (answer : Text × Text)
      → Encodes encode
      → IsSha256 (s.world).sha256
      → AllDiffer s.rows
      → (generate_and_store_token encode encode_limits serde id key secret father from to limits
          (some username)
          (some password)
          s).0
        ≡ ok answer
      → (from_full_token (to_full_token (auth username password)) ≡ parsed (auth username password))
        × LogsIn
            ((generate_and_store_token encode encode_limits serde id key secret father from to
                limits
                (some username)
                (some password)
                s).1
              ).world
            (auth username password)
            from
            to
            (some username)
  unfolding generate_and_store_token
  generate_and_store_token-PasswordLogsIn id key secret father from to limits username password s
        answer encodes sha d h =
      let (rows, changed, left) =
        commit-ok serde
          (generate encode encode_limits id key secret father from to limits (some username)
            (some password) s)
          s answer h in
      let (checked, unique, at, _, same) =
        generate-ok encode encode_limits id key secret father from to limits (some username)
          (some password) s answer rows d changed in
      (
        from_full_token-to_full_token (auth username password)
            (check_request-IsWritable s.world father username password checked),
        subst (λ after. LogsIn after.world (auth username password) from to (some username))
            (sym left)
            (LogsIn-reload serde encode encodes rows s.world (auth username password)
              (new_model encode encode_limits s.world id key secret from to limits (some username)
                (some password))
              unique sha at (refl, refl)),
      )
