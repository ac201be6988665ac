-- ===== src/Token/Limits/Compat.antt =====
-- What the filter of `parse_token_limit_with_compat` keeps.
use node_get.Prelude.{
  ◌≡◌, refl, ap, ap₂, subst, ◌↔◌, some, Option-cases, Bool-cases, inl, inr, if◌then◌else◌,
}
use node_get.Permission.{Permission}
use node_get.Token.Limits.{
  Json, Items, Fields, array, object, nil, cons, end, field, Serde, is_permissions, retain_known,
  retain_in_value, retain_in_fields, retain_in_limits, drop_unknown_permissions,
}

module _ (serde : Serde) where
  -- Each entry decodes as a permission.
  abbrev pub AllKnown : Items → Type 0
  AllKnown nil = Unit {0}
  AllKnown (cons perm perms) =
      ((p : Permission) × (serde.permission perm ≡ some p)) × AllKnown perms

  abbrev KnownValue : Json → Type 0
  KnownValue (array perms) = AllKnown perms
  KnownValue _ = Unit {0}

  -- If a limit has an array of permissions, each entry decodes.
  abbrev KnownFields : Fields → Type 0
  KnownFields end = Unit {0}
  KnownFields (field name v fields) =
      if is_permissions name then KnownValue v else KnownFields fields

  abbrev KnownLimit : Json → Type 0
  KnownLimit (object fields) = KnownFields fields
  KnownLimit _ = Unit {0}

  abbrev KnownLimits : Items → Type 0
  KnownLimits nil = Unit {0}
  KnownLimits (cons limit limits) = KnownLimit limit × KnownLimits limits

  -- Each entry in the permissions of each limit decodes.
  abbrev pub IsKnown : Json → Type 0
  IsKnown (array limits) = KnownLimits limits
  IsKnown _ = Unit {0}

  retain_known-AllKnown : (perms : Items) → AllKnown (retain_known serde perms)
  unfolding retain_known
  retain_known-AllKnown nil = tt
  retain_known-AllKnown (cons perm perms) = elim (Option-cases (serde.permission perm)) [
    | inl e ↦ rw (e, retain_known) (retain_known-AllKnown perms)
    | inr (p, e) ↦ rw (e, retain_known) ((p, e), retain_known-AllKnown perms)
  ]

  retain_known_all : (perms : Items) → AllKnown perms → retain_known serde perms ≡ perms
  unfolding retain_known
  retain_known_all nil h = refl
  retain_known_all (cons perm perms) ((p, e), h) =
      rw (e, retain_known) (ap (cons perm) (retain_known_all perms h))

  retain_in_value-KnownValue : (v : Json) → KnownValue (retain_in_value serde v)
  unfolding retain_in_value
  retain_in_value-KnownValue (array perms) = retain_known-AllKnown perms
  retain_in_value-KnownValue _ = tt

  retain_in_value_all : (v : Json) → KnownValue v → retain_in_value serde v ≡ v
  unfolding retain_in_value
  retain_in_value_all (array perms) h = ap array (retain_known_all perms h)
  retain_in_value_all _ h = refl

  retain_in_fields-KnownFields : (fields : Fields) → KnownFields (retain_in_fields serde fields)
  unfolding retain_in_fields
  retain_in_fields-KnownFields end = tt
  retain_in_fields-KnownFields (field name v fields) = elim (Bool-cases (is_permissions name)) [
    | inl e ↦ rw (e, retain_in_fields) (rw e (retain_in_value-KnownValue v))
    | inr e ↦ rw (e, retain_in_fields) (rw e (retain_in_fields-KnownFields fields))
  ]

  retain_in_fields_all :
      (fields : Fields) → KnownFields fields → retain_in_fields serde fields ≡ fields
  unfolding retain_in_fields
  retain_in_fields_all end h = refl
  retain_in_fields_all (field name v fields) h = elim (Bool-cases (is_permissions name)) [
    | inl e ↦
        rw (e, retain_in_fields) (ap (λ x. field name x fields) (retain_in_value_all v (rw e at h)))
    | inr e ↦ rw (e, retain_in_fields) (ap (field name v) (retain_in_fields_all fields (rw e at h)))
  ]

  retain_in_limits-KnownLimits : (limits : Items) → KnownLimits (retain_in_limits serde limits)
  unfolding retain_in_limits
  retain_in_limits-KnownLimits nil = tt
  retain_in_limits-KnownLimits (cons (object fields) limits) =
      (retain_in_fields-KnownFields fields, retain_in_limits-KnownLimits limits)
  retain_in_limits-KnownLimits (cons _ limits) = (tt, retain_in_limits-KnownLimits limits)

  retain_in_limits_all :
      (limits : Items) → KnownLimits limits → retain_in_limits serde limits ≡ limits
  unfolding retain_in_limits
  retain_in_limits_all nil h = refl
  retain_in_limits_all (cons (object fields) limits) h =
      ap₂ (λ a b. cons (object a) b) (retain_in_fields_all fields h.0)
        (retain_in_limits_all limits h.1)
  retain_in_limits_all (cons v limits) h = ap (cons v) (retain_in_limits_all limits h.1)

  -- The filter leaves only entries that decode, in the permissions of every limit of any value.
  drop_unknown_permissions-IsKnown : (v : Json) → IsKnown (drop_unknown_permissions serde v)
  unfolding drop_unknown_permissions
  drop_unknown_permissions-IsKnown (array limits) = retain_in_limits-KnownLimits limits
  drop_unknown_permissions-IsKnown _ = tt

  drop_unknown_permissions_all : (v : Json) → IsKnown v → drop_unknown_permissions serde v ≡ v
  unfolding drop_unknown_permissions
  drop_unknown_permissions_all (array limits) h = ap array (retain_in_limits_all limits h)
  drop_unknown_permissions_all _ h = refl

  -- The filter changes nothing exactly when all entries of the permission arrays decode already,
  -- and filtering twice is filtering once.
  pub drop_unknown_permissions_iff :
      (v : Json)
      → ((drop_unknown_permissions serde v ≡ v) ↔ IsKnown v)
        × (drop_unknown_permissions serde (drop_unknown_permissions serde v)
            ≡ drop_unknown_permissions serde v)
  drop_unknown_permissions_iff v = (
    (λ e. subst IsKnown e (drop_unknown_permissions-IsKnown v), drop_unknown_permissions_all v),
    drop_unknown_permissions_all _ (drop_unknown_permissions-IsKnown v),
  )
