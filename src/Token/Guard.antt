-- ===== src/Token/Guard.antt =====
-- What the RPC methods do with a credential before anything else: parse it, and ask the registered
-- checker. The crates have this code in each handler.
use node_get.Prelude.{◌≡◌, refl, Bool, true, false, if◌then◌else◌}
use node_get.Text.{Text}
use node_get.Error.{
  NodegetError, Result, ok, err, parse_error, config_not_found, permission_checker_not_initialized,
  failed_to_parse_token,
}
use node_get.Token.Auth.{World, TokenOrAuth, Parsed, parsed, refused, from_full_token}

abbrev pub parsed_or_error : Parsed → Result TokenOrAuth
parsed_or_error (parsed c) = ok c
parsed_or_error (refused m) = err (parse_error (failed_to_parse_token m))

abbrev pub parse_token : Text → Result TokenOrAuth
parse_token token = parsed_or_error (from_full_token token)

abbrev pub get_checker : World → Result (Unit {0})
get_checker w =
    if w.checker_registered
    then ok tt
    else err (config_not_found permission_checker_not_initialized)

abbrev pub allowed_or : NodegetError → Bool → Result (Unit {0})
allowed_or denial is_allowed = if is_allowed then ok tt else err denial

parsed_of : (p : Parsed) (c : TokenOrAuth) → parsed_or_error p ≡ ok c → p ≡ parsed c
parsed_of (parsed d) c h = cc h
parsed_of (refused m) c h = cc h

pub parse_token→parsed :
    (token : Text) (c : TokenOrAuth) → parse_token token ≡ ok c → from_full_token token ≡ parsed c
parse_token→parsed token c = parsed_of (from_full_token token) c

pub allowed_or→true : (denial : NodegetError) (b : Bool) → allowed_or denial b ≡ ok tt → b ≡ true
allowed_or→true denial true h = refl
allowed_or→true denial false h = cc h
