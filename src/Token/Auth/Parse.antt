-- ===== src/Token/Auth/Parse.antt =====
-- Writing a credential down and reading it.
use node_get.Prelude.{◌≡◌, true, false, ◌||◌, [], ◌∷◌, ◌++◌, arith}
use node_get.Text.{Text, contains}
use node_get.Text.Laws.{split_once-append, split_once-none, split_once_found}
use node_get.Token.Auth.{TokenOrAuth, token, auth, parsed, from_full_token}

-- The two ways to write a credential down.
unfoldable pub to_full_token : TokenOrAuth → Text
to_full_token (token key secret) = key ++ b':' ∷ secret
to_full_token (auth username password) = username ++ b'|' ∷ password

-- What the parts must not contain: a key no colon; a user name neither separator, and its password
-- no colon.
abbrev pub IsWritable : TokenOrAuth → Type 0
IsWritable (token key secret) = contains key b':' ≡ false
IsWritable (auth username password) =
    (contains username b':' ≡ false)
    × (contains username b'|' ≡ false)
    × (contains password b':' ≡ false)

no_colon :
    (username password : Text)
    → contains username b':' ≡ false
    → contains password b':' ≡ false
    → contains (username ++ b'|' ∷ password) b':' ≡ false
unfolding contains
no_colon [] password h k = ground arith
no_colon (c ∷ username) password h k = ground (arith, no_colon username password)

-- A credential whose parts are free of the separators is read back as it was written.
pub from_full_token-to_full_token :
    (c : TokenOrAuth) → IsWritable c → from_full_token (to_full_token c) ≡ parsed c
unfolding from_full_token to_full_token
from_full_token-to_full_token (token key secret) h =
    ground (arith, split_once-append key secret b':' h)
from_full_token-to_full_token (auth username password) h = ground (
  arith,
  split_once-none (username ++ b'|' ∷ password) b':' (no_colon username password h.0 h.2),
  split_once-append username password b'|' h.1,
)

colon_right :
    (username password : Text)
    → (contains username b':' || contains password b':') ≡ true
    → contains (username ++ b'|' ∷ password) b':' ≡ true
unfolding contains
colon_right [] password h = ground arith
colon_right (c ∷ username) password h = ground (arith, colon_right username password)

-- A user name and a password of which one contains a colon, written with the bar between them, are
-- read as a key and a secret.
pub from_full_token_colon :
    (username password : Text)
    → (contains username b':' || contains password b':') ≡ true
    → (key : Text) × (secret : Text) × (from_full_token (username ++ b'|' ∷ password)
        ≡ parsed (token key secret))
unfolding from_full_token
from_full_token_colon username password h =
    let (key, secret, found, _, _) =
      split_once_found (username ++ b'|' ∷ password) b':' has_colon in
    (key, secret, ground arith)
  where
    has_colon : contains (username ++ b'|' ∷ password) b':' ≡ true
    has_colon = colon_right username password h
