-- ===== src/Kv/Tests.antt =====
-- The theorems on the stores at a table of one namespace with its marker and one key.
use node_get.Prelude.{some, ℕ, ◌≡◌, ◌↔◌, refl, sym, subst, List, [], ◌∷◌, arith, any}
use node_get.Text.{Text, text_discrete, codes, starts_with, split_once}
use node_get.Text.Laws.{text_eq_refl}
use node_get.Error.{ok, err, permission_denied, namespace_is_reserved}
use node_get.Permission.{permission_discrete, Kv, Token}
use node_get.Token.Auth.{
  from_full_token, check_super_token, reload_from_models, is_in_time, to_token, World, TokenOrAuth,
  get_token,
}
use node_get.Token.Match.{check_limits_cover}
use node_get.Token.Cache.{build_maps, insert_model, cached_token, hex_to_bytes}
use node_get.Token.Limits.{parse_token_limit_with_compat}
use node_get.Dict.{lookup, insert}
use node_get.Token.Match.Chain.{PlainGrants}
use node_get.Kv.Table.{Row, marker, namespace_exists}
use node_get.Kv.Table.View.{set_value, run_call, view, step, has_marker, IsMarked}
use node_get.Kv.Table.View.Refines.{run_call-step}
use node_get.Kv.Rpc
use node_get.Kv.Auth.{resolve_kv_list_namespace_permission, collect_limits}
use node_get.Kv.Auth.Listing.{list_all, has, listing-scoped}
use node_get.Token.Limits.{Json, Serde}
use node_get.Token.Auth.{starts_later, ended_before}
use node_get.Token.Tests.{toy_serde, rows, before, mia_row}
use node_get.Permission.{Scope}
use node_get.Kv.Auth.{
  is_reserved_namespace, ensure_namespace_writable, parse_credential, check_kv_read_permission,
  check_kv_write_permission, check_kv_delete_permission,
}
use node_get.Kv.Auth.Granted.{Permitted, check_kv_permissions_iff}
use node_get.Kv.Rpc.Reserved.{
  Request, kv_set_value, kv_delete_namespace, handle, serve, rows_of, serve-reserved,
}
use node_get.Token.Tests.{w, mia, mia_limits, toy_encode}
use node_get.Token.Match.Tests.{limits_plain}

abbrev ns : Text
ns = codes "cfg"

abbrev db : List (Row ℕ)
db =
    record { namespace = ns; key = marker; value = 0 }
    ∷ record { namespace = ns; key = codes "ab"; value = 7 }
    ∷ record { namespace = codes "__js_audit"; key = marker; value = 0 }
    ∷ record { namespace = codes "__js_audit"; key = codes "on"; value = 1 }
    ∷ []

db-IsMarked : IsMarked db
unfolding namespace_exists has_marker any
db-IsMarked n h = ground (arith, text_eq_refl marker)

run_call-step_example :
    (
      (run_call 0 (set_value ns (codes "k") 9) db).0,
      view (run_call 0 (set_value ns (codes "k") 9) db).1,
    )
    ≡ step (set_value ns (codes "k") 9) (view db)
run_call-step_example = run_call-step 0 (set_value ns (codes "k") 9) db db-IsMarked

check_kv_permissions_iff_example :
    ((check_kv_read_permission w (codes "mia|pw") ns (codes "ab") ≡ ok tt)
      ↔ Permitted w (codes "mia|pw") ns Kv.read (codes "ab"))
    × ((check_kv_write_permission w (codes "mia|pw") ns (codes "ab") ≡ ok tt)
        ↔ Permitted w (codes "mia|pw") ns Kv.write (codes "ab"))
    × ((check_kv_delete_permission w (codes "mia|pw") ns (codes "ab") ≡ ok tt)
        ↔ Permitted w (codes "mia|pw") ns Kv.delete (codes "ab"))
check_kv_permissions_iff_example = check_kv_permissions_iff w (codes "mia|pw") ns (codes "ab")

abbrev audit : Text
audit = codes "__js_audit"

-- The super token tries to clear the audit data.
abbrev attack : List (World × Request ℕ)
attack =
    (w, kv_set_value (codes "root:r") audit (codes "on") 0)
    ∷ (w, kv_delete_namespace (codes "root:r") audit)
    ∷ []

serve-reserved_example : rows_of audit (serve 0 attack db) ≡ rows_of audit db
serve-reserved_example = serve-reserved 0 attack audit (codes "js_audit") db refl

refused_write :
    (handle 0 w (kv_set_value (codes "root:r") audit (codes "on") 0) db).0
    ≡ err (permission_denied (namespace_is_reserved audit))
unfolding handle Rpc.set_value ensure_namespace_writable is_reserved_namespace starts_with
refused_write = refl

mia_plain :
    (c : TokenOrAuth) (t : Token)
    → parse_credential (codes "mia|pw") ≡ ok c
    → get_token w c ≡ ok t
    → PlainGrants t.token_limit
unfolding parse_credential from_full_token split_once
mia_plain c t p g =
    let same : mia ≡ c = ground (arith, p) in
    let g' : get_token w mia ≡ ok t = subst (λ x. get_token w x ≡ ok t) (sym same) g in
    subst PlainGrants (sym (mia_limits t g')) limits_plain

-- The same table, with the permission to list namespaces in one scope.
abbrev listing_serde : Scope → Serde
listing_serde s = record toy_serde {
  limits = λ v. elim v [
    | Json.null ↦ some (record { scopes = s ∷ []; permissions = list_all ∷ [] } ∷ [])
    | _ ↦ some []
  ];
}

abbrev listing : Scope → World
listing s = reload_from_models (listing_serde s) rows before

listing-scoped_example :
    has (ns ∷ []) ns
    ≡ check_limits_cover
        (cached_token (listing_serde (Scope.kv_namespace ns)) mia_row).parsed_limits
        (Scope.kv_namespace ns)
        list_all
unfolding to_token resolve_kv_list_namespace_permission collect_limits any parse_credential
    from_full_token split_once check_super_token get_token reload_from_models build_maps lookup
    insert insert_model text_discrete cached_token hex_to_bytes toy_encode
    parse_token_limit_with_compat is_in_time starts_later ended_before permission_discrete
listing-scoped_example =
    listing-scoped (listing (Scope.kv_namespace ns)) (codes "mia|pw") mia
      (to_token (cached_token (listing_serde (Scope.kv_namespace ns)) mia_row)) (ns ∷ []) ns refl
      refl refl refl
