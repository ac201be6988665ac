-- ===== src/Token/Cache.antt =====
-- crates/ng-token/src/cache.rs: the token table in memory, indexed by key and by user name.
pub mod Build
pub mod Hex
use node_get.Prelude.{
  ℕ, zero, suc, ◌+◌, ◌-◌, ◌*◌, ◌≡◌, Bool, true, false, ◌&&◌, List, [], ◌∷◌, Option, none, some, leb,
  ◌==◌, if◌then◌else◌, length, replicate, not,
}
use node_get.Prelude.Int.{ℤ, pos, eq_ℤ}
use node_get.Text.{Text}
use node_get.Dict.{Dict, lookup, insert}
use node_get.Error.{Result, ok, err}
use node_get.Permission.{Limit}
use node_get.Token.Limits.{Json, Serde, parse_token_limit_with_compat}

-- crates/ng-db/src/entity/token.rs: a row of the table.
pub record Model : Type 0 where
  pub id : ℤ
  pub version : ℤ
  pub token_key : Text
  pub token_hash : Text
  pub time_stamp_from : Option ℤ
  pub time_stamp_to : Option ℤ
  pub token_limit : Json
  pub username : Option Text
  pub password_hash : Option Text

pub record CachedToken : Type 0 where
  pub model : Model
  pub parsed_limits : List Limit
  pub token_hash_bytes : List ℕ
  pub password_hash_bytes : Option (List ℕ)

pub record TokenCacheInner : Type 0 where
  pub by_key : Dict CachedToken
  pub by_username : Dict CachedToken

unfoldable pub hex_nibble : ℕ → Option ℕ
hex_nibble b =
    if leb b'0' b && leb b b'9'
    then some (b - b'0')
    else if leb b'a' b && leb b b'f'
    then some (b - b'a' + 10)
    else if leb b'A' b && leb b b'F'
    then some (b - b'A' + 10)
    else none

-- `(hi << 4) | lo`: the low four bits of the shifted byte are 0, so the `|` is a sum.
hex_byte : ℕ → ℕ → Option ℕ
unfolding hex_nibble
hex_byte hi lo = elim (hex_nibble hi) [
  | none ↦ none
  | some h ↦ elim (hex_nibble lo) [ none ↦ none | some l ↦ some (h * 16 + l) ]
]

-- The loop over the array, two characters to a byte; `?` leaves it at the first bad character.
hex_bytes : List ℕ → Option (List ℕ)
unfolding hex_byte
hex_bytes [] = some []
hex_bytes (hi ∷ []) = none
hex_bytes (hi ∷ lo ∷ rest) =
    let bytes = hex_bytes rest in
    elim (hex_byte hi lo) [
      | none ↦ none
      | some b ↦ elim bytes [ none ↦ none | some bs ↦ some (b ∷ bs) ]
    ]

unfoldable pub hex_to_bytes : Text → Option (List ℕ)
unfolding hex_bytes
hex_to_bytes hex_str = if not (length hex_str == 64) then none else hex_bytes hex_str

-- `.unwrap_or_else` of the parse, and `.unwrap_or([0u8; 32])` of the hash.
or_empty : Result (List Limit) → List Limit
or_empty (ok limits) = limits
or_empty (err e) = []

or_zeros : Option (List ℕ) → List ℕ
or_zeros (some bytes) = bytes
or_zeros none = replicate 32 0

and_then_hex : Option Text → Option (List ℕ)
and_then_hex none = none
and_then_hex (some hash) = hex_to_bytes hash

-- What `build_maps` is about to return.
pub record Maps : Type 0 where
  pub by_key : Dict CachedToken
  pub by_username : Dict CachedToken
  pub super_token : Option CachedToken

insert_username : Option Text → CachedToken → Dict CachedToken → Dict CachedToken
insert_username none cached by_username = by_username
insert_username (some uname) cached by_username = insert uname cached by_username

module _ (serde : Serde) where
  unfoldable pub cached_token : Model → CachedToken
  unfolding or_empty or_zeros and_then_hex
  cached_token model = record {
    model = model;
    parsed_limits = or_empty (parse_token_limit_with_compat serde model.token_limit);
    token_hash_bytes = or_zeros (hex_to_bytes model.token_hash);
    password_hash_bytes = and_then_hex model.password_hash;
  }

  -- One round of the loop.
  unfoldable pub insert_model : Maps → Model → Maps
  unfolding insert_username
  insert_model maps model =
      let cached = cached_token model in
      record {
        super_token = if eq_ℤ model.id (pos 1) then some cached else maps.super_token;
        by_key = insert model.token_key cached maps.by_key;
        by_username = insert_username model.username cached maps.by_username;
      }

  unfoldable pub build_from : Maps → List Model → Maps
  build_from maps [] = maps
  build_from maps (model ∷ models) = build_from (insert_model maps model) models

  unfoldable pub build_maps : List Model → Maps
  unfolding build_from
  build_maps all_tokens =
      build_from (record { by_key = []; by_username = []; super_token = none }) all_tokens
