-- ===== src/Monitoring/Uuid/Cached.antt =====
-- What the cache holds: the two directions agree, and every entry is a row's.
use node_get.Prelude.{
  ℕ, ◌≡◌, refl, sym, ◌∙◌, subst, ◌↔◌, Bool, true, List, [], ◌∷◌, Option, none, some, All, arith,
  ℕ_discrete, Bool-cases, inl, inr,
}
use node_get.Prelude.Int.{ℤ}
use node_get.Keyed.{find, find-put_same, find-put_other}
use node_get.Monitoring.Uuid.{
  UuidRow, UuidCache, ℤ_discrete, is_i16, try_id_i16, insert_entry, empty_cache, cache_row,
  cache_rows, build_cache,
}
use node_get.Monitoring.Uuid.Rows.{AllApart, HasRow, HasRow-id, HasRow-uuid, Grows}

-- The entry of a UUID is a row's id, which fits, and the entry of the id is the UUID's.
pub record IsCacheOf (rows : List UuidRow) (cache : UuidCache) : Type 0 where
  pub known :
      (uuid : ℕ) (id : ℤ) (soft : Bool)
      → find ℕ_discrete uuid cache.by_uuid ≡ some (id, soft)
      → HasRow rows uuid id × (is_i16 id ≡ true)
  pub inverse :
      (uuid : ℕ) (id : ℤ) (soft : Bool)
      → (find ℕ_discrete uuid cache.by_uuid ≡ some (id, soft))
        ↔ (find ℤ_discrete id cache.by_id ≡ some (uuid, soft))

pub IsCacheOf-Grows :
    (rows rows' : List UuidRow) (cache : UuidCache)
    → Grows rows rows'
    → IsCacheOf rows cache
    → IsCacheOf rows' cache
IsCacheOf-Grows rows rows' cache g c = record {
  known = λ uuid id soft h. let (has, fits) = c.known uuid id soft h in (g uuid id has, fits);
  inverse = c.inverse;
}

pair_eq :
    {A B : Type 0} {a c : A} {b d : B}
    → ◌≡◌ {A = Option (A × B)} (some (a, b)) (some (c, d))
    → (a ≡ c) × (b ≡ d)
pair_eq h = (cc h, cc h)

module _ (rows : List UuidRow) (cache : UuidCache) (u : ℕ) (i : ℤ) (s : Bool)
    (apart : AllApart rows) (c : IsCacheOf rows cache) (has : HasRow rows u i)
    (fits : is_i16 i ≡ true) where
  insert_known :
      (uuid : ℕ) (id : ℤ) (soft : Bool)
      → find ℕ_discrete uuid (insert_entry u i s cache).by_uuid ≡ some (id, soft)
      → HasRow rows uuid id × (is_i16 id ≡ true)
  insert_known uuid id soft h = elim (ℕ_discrete u uuid) [
    | yes e ↦
        let same : i ≡ id =
          (pair_eq (
            sym (find-put_same ℕ_discrete u (i, s) cache.by_uuid)
            ∙ subst (λ x. find ℕ_discrete x (insert_entry u i s cache).by_uuid ≡ some (id, soft))
                (sym e) h)).0 in
        (
          subst (λ x. HasRow rows x id) e (subst (HasRow rows u) same has),
          subst (λ x. is_i16 x ≡ true) same fits,
        )
    | no ne ↦
        c.known uuid id soft (sym (find-put_other ℕ_discrete u uuid (i, s) cache.by_uuid ne) ∙ h)
  ]

  forth :
      (uuid : ℕ) (id : ℤ) (soft : Bool)
      → find ℕ_discrete uuid (insert_entry u i s cache).by_uuid ≡ some (id, soft)
      → find ℤ_discrete id (insert_entry u i s cache).by_id ≡ some (uuid, soft)
  forth uuid id soft h = elim (ℕ_discrete u uuid) [
    | yes e ↦
        let (same, bit) = pair_eq (
          sym (find-put_same ℕ_discrete u (i, s) cache.by_uuid)
          ∙ subst (λ x. find ℕ_discrete x (insert_entry u i s cache).by_uuid ≡ some (id, soft))
              (sym e) h) in
        subst (λ x. find ℤ_discrete x (insert_entry u i s cache).by_id ≡ some (uuid, soft)) same
          (find-put_same ℤ_discrete i (u, s) cache.by_id ∙ cc (e, bit))
    | no ne ↦
        let old = sym (find-put_other ℕ_discrete u uuid (i, s) cache.by_uuid ne) ∙ h in
        let known = c.known uuid id soft old in
        find-put_other ℤ_discrete i id (u, s) cache.by_id
          (λ e. ne (HasRow-uuid rows u uuid id apart (subst (HasRow rows u) e has) known.0))
        ∙ (c.inverse uuid id soft).0 old
  ]

  back :
      (uuid : ℕ) (id : ℤ) (soft : Bool)
      → find ℤ_discrete id (insert_entry u i s cache).by_id ≡ some (uuid, soft)
      → find ℕ_discrete uuid (insert_entry u i s cache).by_uuid ≡ some (id, soft)
  back uuid id soft h = elim (ℤ_discrete i id) [
    | yes e ↦
        let (same, bit) = pair_eq (
          sym (find-put_same ℤ_discrete i (u, s) cache.by_id)
          ∙ subst (λ x. find ℤ_discrete x (insert_entry u i s cache).by_id ≡ some (uuid, soft))
              (sym e) h) in
        subst (λ x. find ℕ_discrete x (insert_entry u i s cache).by_uuid ≡ some (id, soft)) same
          (find-put_same ℕ_discrete u (i, s) cache.by_uuid ∙ cc (e, bit))
    | no ne ↦
        let old =
          (c.inverse uuid id soft).1
            (sym (find-put_other ℤ_discrete i id (u, s) cache.by_id ne) ∙ h) in
        let known = c.known uuid id soft old in
        find-put_other ℕ_discrete u uuid (i, s) cache.by_uuid
          (λ e.
            ne (HasRow-id rows u i id apart has (subst (λ x. HasRow rows x id) (sym e) known.0)))
        ∙ old
  ]

  pub insert_entry-IsCacheOf : IsCacheOf rows (insert_entry u i s cache)
  insert_entry-IsCacheOf = record {
    known = insert_known;
    inverse = λ uuid id soft. (forth uuid id soft, back uuid id soft);
  }

empty-IsCacheOf : (rows : List UuidRow) → IsCacheOf rows empty_cache
unfolding find
empty-IsCacheOf rows = record {
  known = λ uuid id soft h. cc h;
  inverse = λ uuid id soft. (λ h. cc h, λ h. cc h);
}

pub try_id_i16-some :
    (model_id id : ℤ) → try_id_i16 model_id ≡ some id → (model_id ≡ id) × (is_i16 id ≡ true)
try_id_i16-some model_id id h = elim (Bool-cases (is_i16 model_id)) [
  | inl e ↦
      let same : model_id ≡ id = ground (arith, e, h) in (same, subst (λ x. is_i16 x ≡ true) same e)
  | inr e ↦ ground (arith, e, h)
]

-- Rows of an older table.
abbrev pub AllHave : List UuidRow → List UuidRow → Type 0
AllHave rows models = All (λ r. HasRow rows r.uuid r.id) models

cache_row-IsCacheOf :
    (rows : List UuidRow) (cache : UuidCache) (r : UuidRow) (o : Option ℤ)
    → try_id_i16 r.id ≡ o
    → AllApart rows
    → IsCacheOf rows cache
    → HasRow rows r.uuid r.id
    → IsCacheOf rows (cache_row o r cache)
cache_row-IsCacheOf rows cache r none e d c has = c
cache_row-IsCacheOf rows cache r (some id) e d c has =
    let (same, fits) = try_id_i16-some r.id id e in
    insert_entry-IsCacheOf rows cache r.uuid id r.soft_delete d c
      (subst (HasRow rows r.uuid) same has) fits

cache_rows-IsCacheOf :
    (rows models : List UuidRow) (cache : UuidCache)
    → AllApart rows
    → IsCacheOf rows cache
    → AllHave rows models
    → IsCacheOf rows (cache_rows models cache)
unfolding cache_rows
cache_rows-IsCacheOf rows [] cache d c h = c
cache_rows-IsCacheOf rows (r ∷ models) cache d c h =
    cache_rows-IsCacheOf rows models (cache_row (try_id_i16 r.id) r cache) d
      (cache_row-IsCacheOf rows cache r (try_id_i16 r.id) refl d c h.0) h.1

pub build_cache-IsCacheOf :
    (rows models : List UuidRow)
    → AllApart rows
    → AllHave rows models
    → IsCacheOf rows (build_cache models)
build_cache-IsCacheOf rows models d h =
    cache_rows-IsCacheOf rows models empty_cache d (empty-IsCacheOf rows) h
