-- ===== src/Token/Admin/Deleted.antt =====
-- What `delete` removes when it answers.
use node_get.Prelude.{
  ◌≡◌, refl, subst, ◌⊎◌, inl, inr, Bool, true, List, [], ◌∷◌, ltb, keep, length, Member, Bool-cases,
  arith, if◌then◌else◌,
}
use node_get.Prelude.Int.{pos}
use node_get.Prelude.Pairs.{keep_no}
use node_get.Text.{Text, trim, is_empty}
use node_get.Error.{
  ok, err, bind-ok, invalid_input, target_is_empty, permission_denied, super_cannot_be_deleted,
  not_found, super_missing_in_table, only_super_deletes,
}
use node_get.Token.Cache.{Model}
use node_get.Token.Table.{TokenServer, has_id, has_key, has_username, find_row, delete_rows}
use node_get.Token.Admin.{
  Response, or_error, is_deletable, delete_matching, is_super_target, require_super, delete_token,
}

keep_found :
    (p : Model → Bool) (xs : List Model)
    → ltb 0 (length (keep p xs)) ≡ true
    → (m : Model) × Member m xs × (p m ≡ true)
unfolding keep
keep_found p [] h = cc h
keep_found p (x ∷ xs) h = elim (Bool-cases (p x)) [
  | inl e ↦ (x, inl refl, e)
  | inr e ↦
      let (m, at, t) =
        keep_found p xs (subst (λ k. ltb 0 (length k) ≡ true) (keep_no p x xs e) h) in
      (m, inr at, t)
]

-- The rows that go are those with the key, or with the user name if no row that may go has the
-- key, and there is one.
abbrev pub Removes : Text → List Model → List Model → Type 0
Removes target rows left =
    (p : Model → Bool) × ((p ≡ has_key target) ⊎ (p ≡ has_username target))
    × (left ≡ delete_rows (is_deletable p) rows)
    × ((m : Model) × Member m rows × (is_deletable p m ≡ true))

delete_matching-Removes :
    (target : Text) (rows : List Model) (answer : Response) (left : List Model)
    → delete_matching target rows ≡ ok (answer, left)
    → Removes target rows left
delete_matching-Removes target rows answer left h =
    elim (Bool-cases (ltb 0 (length (keep (is_deletable (has_key target)) rows)))) [
      | inl e ↦ (
        has_key target,
        inl refl,
        ground (arith, e, h),
        keep_found (is_deletable (has_key target)) rows e,
      )
      | inr e ↦
          elim (Bool-cases (ltb 0 (length (keep (is_deletable (has_username target)) rows)))) [
            | inl f ↦ (
              has_username target,
              inr refl,
              ground (arith, e, f, h),
              keep_found (is_deletable (has_username target)) rows f,
            )
            | inr f ↦ ground (arith, e, f, h)
          ]
    ]

pub delete_token-Removes :
    (credential target : Text) (s : TokenServer) (answer : Response) (left : List Model)
    → delete_token credential target s ≡ ok (answer, left)
    → Removes target s.rows left
delete_token-Removes credential target s answer left h =
    let (u, _, h1) = bind-ok (require_super s.world only_super_deletes credential) _ _ h in
    let (u', _, h2) =
      bind-ok (if is_empty (trim target) then err (invalid_input target_is_empty) else ok tt) _ _
        h1 in
    let (super, _, h3) =
      bind-ok (or_error (err (not_found super_missing_in_table)) (find_row (has_id (pos 1)) s.rows))
        _ _ h2 in
    let (u'', _, h4) =
      bind-ok
        (if is_super_target target super
          then err (permission_denied super_cannot_be_deleted)
          else ok tt)
        _ _ h3 in
    delete_matching-Removes target s.rows answer left h4
