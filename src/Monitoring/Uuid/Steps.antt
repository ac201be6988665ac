-- ===== src/Monitoring/Uuid/Steps.antt =====
-- What a call knows of the table between two of its steps.
use node_get.Prelude.{
  ℕ, ◌≡◌, refl, subst, Bool, true, false, List, [], ◌∷◌, ◌++◌, Option, none, some, All-map, any,
  if_case,
}
use node_get.Prelude.Int.{ℤ}
use node_get.Error.{Message, ok, err}
use node_get.Monitoring.Uuid.{
  UuidRow, UuidServer, Phase, looking, inserting, conflicted, reviving, caching, got, deletion,
  deleting, uncaching, gone, reloading, reloaded, try_id_i16, is_i16, find_uuid, set_soft_delete,
  row_clashes, with_id, with_row, with_new_id, delete_id, delete_row, with_rows, insert_new, step,
}
use node_get.Monitoring.Uuid.Rows.{
  AllApart, HasRow, Grows, find_uuid-HasRow, set_soft_delete-Grows, set_soft_delete-AllApart,
  append-AllApart, append-Grows, append-HasRow,
}
use node_get.Monitoring.Uuid.Cached.{
  IsCacheOf, IsCacheOf-Grows, AllHave, try_id_i16-some, insert_entry-IsCacheOf,
  build_cache-IsCacheOf,
}

-- The id is that of the UUID's row, and fits.
abbrev pub Owns : List UuidRow → ℕ → ℤ → Type 0
Owns rows uuid id = HasRow rows uuid id × (is_i16 id ≡ true)

-- What a call knows of the table.
abbrev pub Knows : List UuidRow → Phase → Type 0
Knows rows (reviving uuid id) = Owns rows uuid id
Knows rows (caching uuid id) = Owns rows uuid id
Knows rows (deleting uuid id) = Owns rows uuid id
Knows rows (uncaching uuid id) = Owns rows uuid id
Knows rows (got uuid (ok id)) = Owns rows uuid id
Knows rows (got uuid (err e)) = Unit
Knows rows (reloading models) = AllHave rows models
Knows rows (looking uuid) = Unit
Knows rows (inserting uuid) = Unit
Knows rows (conflicted uuid) = Unit
Knows rows (deletion uuid) = Unit
Knows rows (gone uuid answer) = Unit
Knows rows reloaded = Unit

abbrev pub IsSoundServer : UuidServer → Type 0
IsSoundServer s = AllApart s.rows × IsCacheOf s.rows s.cache

AllHave-Grows :
    (rows rows' models : List UuidRow)
    → Grows rows rows'
    → AllHave rows models
    → AllHave rows' models
AllHave-Grows rows rows' models g h =
    All-map (λ r. HasRow rows r.uuid r.id) (λ r. HasRow rows' r.uuid r.id) (λ r k. g r.uuid r.id k)
      models h

pub Knows-Grows :
    (rows rows' : List UuidRow) → Grows rows rows' → (p : Phase) → Knows rows p → Knows rows' p
Knows-Grows rows rows' g (reviving uuid id) h = (g uuid id h.0, h.1)
Knows-Grows rows rows' g (caching uuid id) h = (g uuid id h.0, h.1)
Knows-Grows rows rows' g (deleting uuid id) h = (g uuid id h.0, h.1)
Knows-Grows rows rows' g (uncaching uuid id) h = (g uuid id h.0, h.1)
Knows-Grows rows rows' g (got uuid (ok id)) h = (g uuid id h.0, h.1)
Knows-Grows rows rows' g (got uuid (err e)) h = tt
Knows-Grows rows rows' g (reloading models) h = AllHave-Grows rows rows' models g h
Knows-Grows rows rows' g (looking uuid) h = tt
Knows-Grows rows rows' g (inserting uuid) h = tt
Knows-Grows rows rows' g (conflicted uuid) h = tt
Knows-Grows rows rows' g (deletion uuid) h = tt
Knows-Grows rows rows' g (gone uuid answer) h = tt
Knows-Grows rows rows' g reloaded h = tt

with_id-Knows :
    (failure : Message) (rows : List UuidRow) (uuid : ℕ) (model : UuidRow) (o : Option ℤ)
    → try_id_i16 model.id ≡ o
    → HasRow rows uuid model.id
    → Knows rows (with_id failure uuid model o)
with_id-Knows failure rows uuid model none e h = tt
with_id-Knows failure rows uuid model (some id) e h =
    let (same, fits) = try_id_i16-some model.id id e in
    let owns : Owns rows uuid id = (subst (HasRow rows uuid) same h, fits) in
    if_case (Knows rows) model.soft_delete (reviving uuid id) (caching uuid id) (λ _. owns)
      (λ _. owns)

with_row-Knows :
    (failure : ℤ → Message) (rows : List UuidRow) (uuid : ℕ) (missing : Phase) (o : Option UuidRow)
    → find_uuid uuid rows ≡ o
    → Knows rows missing
    → Knows rows (with_row failure uuid missing o)
with_row-Knows failure rows uuid missing none e h = h
with_row-Knows failure rows uuid missing (some model) e h =
    let (at, u) = find_uuid-HasRow uuid rows model e in
    with_id-Knows (failure model.id) rows uuid model (try_id_i16 model.id) refl (model, at, u, refl)

with_new_id-Knows :
    (rows : List UuidRow) (uuid : ℕ) (new_id : ℤ) (o : Option ℤ)
    → try_id_i16 new_id ≡ o
    → HasRow rows uuid new_id
    → Knows rows (with_new_id uuid new_id o)
with_new_id-Knows rows uuid new_id none e h = tt
with_new_id-Knows rows uuid new_id (some id) e h =
    let (same, fits) = try_id_i16-some new_id id e in (subst (HasRow rows uuid) same h, fits)

delete_row-Knows :
    (rows : List UuidRow) (uuid : ℕ) (o : Option UuidRow)
    → find_uuid uuid rows ≡ o
    → Knows rows (delete_row uuid o)
delete_row-Knows rows uuid none e = tt
delete_row-Knows rows uuid (some model) e =
    let (at, u) = find_uuid-HasRow uuid rows model e in
    if_case (Knows rows) model.soft_delete (gone uuid (ok true))
      (delete_id uuid model (try_id_i16 model.id)) (λ _. tt)
      (λ _. deletes (try_id_i16 model.id) refl (model, at, u, refl))
  where
    deletes :
        (o : Option ℤ)
        → try_id_i16 model.id ≡ o
        → HasRow rows uuid model.id
        → Knows rows (delete_id uuid model o)
    deletes none e h = tt
    deletes (some id) e h =
        let (same, fits) = try_id_i16-some model.id id e in (subst (HasRow rows uuid) same h, fits)

-- A step from the server to the next one.
abbrev pub Goes : UuidServer → Phase × UuidServer → Type 0
Goes s next = IsSoundServer next.1 × Knows (next.1).rows next.0 × Grows s.rows (next.1).rows

marked-Goes :
    (s : UuidServer) (id : ℤ) (value : Bool) (p : Phase)
    → IsSoundServer s
    → Knows s.rows p
    → Goes s (p, with_rows (set_soft_delete id value s.rows) s)
marked-Goes s id value p (d, c) k =
    let g : Grows s.rows (set_soft_delete id value s.rows) =
      set_soft_delete-Grows id value s.rows in
    (
      (
        set_soft_delete-AllApart id value s.rows d,
        IsCacheOf-Grows s.rows (set_soft_delete id value s.rows) s.cache g c,
      ),
      Knows-Grows s.rows (set_soft_delete id value s.rows) g p k,
      g,
    )

insert_new-Goes :
    (b : Bool) (new_id : ℤ) (uuid : ℕ) (s : UuidServer)
    → any (row_clashes new_id uuid) s.rows ≡ b
    → IsSoundServer s
    → Goes s (insert_new b new_id uuid s)
insert_new-Goes true new_id uuid s e sound = (sound, tt, λ u i h. h)
insert_new-Goes false new_id uuid s e (d, c) =
    let row : UuidRow = record { id = new_id; uuid = uuid; soft_delete = false } in
    let g : Grows s.rows (s.rows ++ row ∷ []) = append-Grows row s.rows in
    (
      (append-AllApart row s.rows d e, IsCacheOf-Grows s.rows (s.rows ++ row ∷ []) s.cache g c),
      with_new_id-Knows (s.rows ++ row ∷ []) uuid new_id (try_id_i16 new_id) refl
          (append-HasRow row s.rows),
      g,
    )

pub step-Goes :
    (new_id : ℤ) (p : Phase) (s : UuidServer)
    → IsSoundServer s
    → Knows s.rows p
    → Goes s (step new_id p s)
unfolding step
step-Goes new_id (looking uuid) s sound k = (
  sound,
  with_row-Knows _ s.rows uuid (inserting uuid) (find_uuid uuid s.rows) refl tt,
  λ u i h. h,
)
step-Goes new_id (inserting uuid) s sound k =
    insert_new-Goes (any (row_clashes new_id uuid) s.rows) new_id uuid s refl sound
step-Goes new_id (conflicted uuid) s sound k =
    (sound, with_row-Knows _ s.rows uuid _ (find_uuid uuid s.rows) refl tt, λ u i h. h)
step-Goes new_id (reviving uuid id) s sound k = marked-Goes s id false (caching uuid id) sound k
step-Goes new_id (caching uuid id) s (d, c) k =
    ((d, insert_entry-IsCacheOf s.rows s.cache uuid id false d c k.0 k.1), k, λ u i h. h)
step-Goes new_id (deletion uuid) s sound k =
    (sound, delete_row-Knows s.rows uuid (find_uuid uuid s.rows) refl, λ u i h. h)
step-Goes new_id (deleting uuid id) s sound k = marked-Goes s id true (uncaching uuid id) sound k
step-Goes new_id (uncaching uuid id) s (d, c) k =
    ((d, insert_entry-IsCacheOf s.rows s.cache uuid id true d c k.0 k.1), tt, λ u i h. h)
step-Goes new_id (reloading models) s (d, c) k =
    ((d, build_cache-IsCacheOf s.rows models d k), tt, λ u i h. h)
step-Goes new_id reloaded s sound k = (sound, tt, λ u i h. h)
step-Goes new_id (got uuid answer) s sound k = (sound, k, λ u i h. h)
step-Goes new_id (gone uuid answer) s sound k = (sound, tt, λ u i h. h)
