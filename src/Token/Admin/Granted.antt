-- ===== src/Token/Admin/Granted.antt =====
-- Only the super token changes the table, and an error leaves it as it is.
use node_get.Prelude.{ℕ, ◌≡◌, subst, true, List}
use node_get.Text.{Text}
use node_get.Error.{
  NodegetError, Message, ok, err, map_err, map_err-ok, bind-ok, permission_denied,
  only_super_performs,
}
use node_get.Permission.{Limit}
use node_get.Token.Limits.{Json, Serde}
use node_get.Token.Cache.{Model}
use node_get.Token.Auth.{
  World, Parsed, parsed, refused, TokenOrAuth, from_full_token, check_super_token, as_denied,
}
use node_get.Token.Guard.{parse_token, parse_token→parsed, allowed_or→true}
use node_get.Token.Table.{TokenServer}
use node_get.Token.Table.Committed.{commit-ok, commit-err}
use node_get.Token.Generate.{generate, check_request}
use node_get.Token.Generate.Stored.{check_request-IsSuper}
use node_get.Token.Admin.{
  Request, Response, create, delete, change_password, roll_token_secret, edit, generate_super_token,
  roll_super_token, plain_parsed, only_super, require_super, verify_supertoken, change, serve,
}

-- The text is a credential of the super token.
abbrev pub IsSuper : World → Text → Type 0
IsSuper w credential =
    (c : TokenOrAuth) × (from_full_token credential ≡ parsed c) × (check_super_token w c ≡ ok true)

-- The credential of a call; the two commands of the server have none.
abbrev pub Granted : World → Request → Type 0
Granted w (create father _ _ _ _ _ _ _ _) = IsSuper w father
Granted w (delete credential _) = IsSuper w credential
Granted w (change_password credential _ _) = IsSuper w credential
Granted w (roll_token_secret credential _ _) = IsSuper w credential
Granted w (edit credential _ _) = IsSuper w credential
Granted w (generate_super_token _ _ _) = Unit
Granted w (roll_super_token _ _ _) = Unit

only_super-ok :
    (w : World) (denial : Message) (c : TokenOrAuth)
    → only_super w denial c ≡ ok tt
    → check_super_token w c ≡ ok true
only_super-ok w denial c h =
    let (is_super, found, allowed) = bind-ok (map_err as_denied (check_super_token w c)) _ tt h in
    subst (λ b. check_super_token w c ≡ ok b)
      (allowed_or→true (permission_denied denial) is_super allowed)
      (map_err-ok as_denied (check_super_token w c) is_super found)

pub require_super-ok :
    (w : World) (denial : Message) (t : Text) → require_super w denial t ≡ ok tt → IsSuper w t
require_super-ok w denial t h =
    let (c, p, k) = bind-ok (parse_token t) _ tt h in
    (c, parse_token→parsed t c p, only_super-ok w denial c k)

plain_parsed-ok : (p : Parsed) (c : TokenOrAuth) → plain_parsed p ≡ ok c → p ≡ parsed c
plain_parsed-ok (parsed d) c h = cc h
plain_parsed-ok (refused m) c h = cc h

pub verify_supertoken-ok : (w : World) (t : Text) → verify_supertoken w t ≡ ok tt → IsSuper w t
verify_supertoken-ok w t h =
    let (c, p, k) = bind-ok (plain_parsed (from_full_token t)) _ tt h in
    (c, plain_parsed-ok (from_full_token t) c p, only_super-ok w only_super_performs c k)

module _ (encode : List ℕ → Text) (encode_limits : List Limit → Json) where
  change-Granted :
      (r : Request) (s : TokenServer) (answer : Response × List Model)
      → change encode encode_limits r s ≡ ok answer
      → Granted s.world r
  unfolding change
  change-Granted (create father id key secret from to limits username password) s answer h =
      let (c, p, rest) = bind-ok (parse_token father) _ answer h in
      let (a, g, _) =
        bind-ok (generate encode encode_limits id key secret c from to limits username password s) _
          answer rest in
      let (u, k, _) = bind-ok (check_request s.world c username password) _ a g in
      (c, parse_token→parsed father c p, check_request-IsSuper s.world c username password k)
  change-Granted (delete credential target) s answer h =
      let (u, k, _) = bind-ok (require_super s.world _ credential) _ answer h in
      require_super-ok s.world _ credential k
  change-Granted (change_password credential target new_password) s answer h =
      let (u, k, _) = bind-ok (verify_supertoken s.world credential) _ answer h in
      verify_supertoken-ok s.world credential k
  change-Granted (roll_token_secret credential target new_secret) s answer h =
      let (u, k, _) = bind-ok (verify_supertoken s.world credential) _ answer h in
      verify_supertoken-ok s.world credential k
  change-Granted (edit credential target limits) s answer h =
      let (u, k, _) = bind-ok (require_super s.world _ credential) _ answer h in
      require_super-ok s.world _ credential k
  change-Granted (generate_super_token key secret raw_password) s answer h = tt
  change-Granted (roll_super_token key secret raw_password) s answer h = tt

  -- A call that creates, deletes or edits a token, changes a password or rolls a secret is
  -- answered only if its credential is the super token's; a call that answers an error changes
  -- neither the table nor the cache.
  pub serve-Granted :
      (serde : Serde) (r : Request) (s : TokenServer)
      → ((answer : Response)
          → (serve encode encode_limits serde r s).0 ≡ ok answer
          → Granted s.world r)
        × ((e : NodegetError)
            → (serve encode encode_limits serde r s).0 ≡ err e
            → (serve encode encode_limits serde r s).1 ≡ s)
  unfolding serve
  serve-Granted serde r s = (
    λ answer h.
        let (rows, k, _) = commit-ok serde (change encode encode_limits r s) s answer h in
        change-Granted r s (answer, rows) k,
    λ e h. commit-err serde (change encode encode_limits r s) s e h,
  )
