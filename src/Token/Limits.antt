-- ===== src/Token/Limits.antt =====
-- The `token_limit` column: crates/ng-token/src/get.rs, `parse_token_limit_with_compat`.
-- serde_json is not part of the repository: its `Value` is the documented enum, and what it decodes
-- is the parameter `Serde`.
pub mod Compat
use node_get.Prelude.{
  ◌≡◌, refl, Bool, true, false, List, [], ◌∷◌, Option, none, some, arith, if◌then◌else◌, ◌&&◌,
}
use node_get.Text.{Text, text_eq, codes}
use node_get.Error.{Result, ok, err, serialization_error, failed_to_parse_permissions}
use node_get.Permission.{Limit, Permission}

mutual
  pub data Json : Type 0 where
    null : Json
    bool : Bool → Json
    -- a number or a string, as it is written
    number string : Text → Json
    array : Items → Json
    object : Fields → Json

  pub data Items : Type 0 where
    nil : Items
    cons : Json → Items → Items

  pub data Fields : Type 0 where
    end : Fields
    field : Text → Json → Fields → Fields

-- `serde_json::from_value` at the two types that are decoded; `none` is an error.
pub record Serde : Type 0 where
  pub limits : Json → Option (List Limit)
  pub permission : Json → Option Permission

-- The key under which a limit holds its permissions.
unfoldable pub is_permissions : Text → Bool
is_permissions name = text_eq name (codes "permissions")

module _ (serde : Serde) where
  -- `perms.retain(|perm| from_value::<Permission>(perm.clone()).is_ok())`
  unfoldable pub retain_known : Items → Items
  retain_known nil = nil
  retain_known (cons perm perms) =
      let rest = retain_known perms in
      elim (serde.permission perm) [ none ↦ rest | some _ ↦ cons perm rest ]

  retain_in_value : Json → Json
  retain_in_value (array perms) = array (retain_known perms)
  retain_in_value v = v

  -- `limit.get_mut("permissions").and_then(Value::as_array_mut)`; an object has a key once.
  retain_in_fields : Fields → Fields
  unfolding retain_in_value
  retain_in_fields end = end
  retain_in_fields (field name v fields) =
      let rest = retain_in_fields fields in
      if is_permissions name then field name (retain_in_value v) fields else field name v rest

  retain_in_limit : Json → Json
  unfolding retain_in_fields
  retain_in_limit (object fields) = object (retain_in_fields fields)
  retain_in_limit v = v

  retain_in_limits : Items → Items
  unfolding retain_in_limit
  retain_in_limits nil = nil
  retain_in_limits (cons limit limits) = cons (retain_in_limit limit) (retain_in_limits limits)

  unfoldable pub drop_unknown_permissions : Json → Json
  unfolding retain_in_limits
  drop_unknown_permissions (array limits) = array (retain_in_limits limits)
  drop_unknown_permissions v = v

  parse_filtered : Json → Result (List Limit)
  parse_filtered filtered = elim (serde.limits filtered) [
    | some limits ↦ ok limits
    | none ↦ err (serialization_error failed_to_parse_permissions)
  ]

  unfoldable pub parse_token_limit_with_compat : Json → Result (List Limit)
  unfolding parse_filtered
  parse_token_limit_with_compat token_limit_value = elim (serde.limits token_limit_value) [
    | some limits ↦ ok limits
    | none ↦ parse_filtered (drop_unknown_permissions token_limit_value)
  ]
