-- ===== src/Monitoring/Uuid/Race.antt =====
-- A call that revives a UUID while another one deletes it.
use node_get.Prelude.{
  ℕ, suc, ◌≡◌, refl, ap, ◌∙◌, subst, Bool, true, false, List, [], ◌∷◌, ◌++◌, Option, none, some,
  arith, length, ℕ_discrete, Bool-cases, inl, inr, ◌==◌,
}
use node_get.Prelude.Int.{ℤ, pos, eq_ℤ_refl}
use node_get.Keyed.{find, put, find-put_same}
use node_get.Error.{ok}
use node_get.Monitoring.Uuid.{
  UuidRow, UuidServer, UuidSystem, Phase, looking, reviving, caching, got, deletion, deleting,
  uncaching, gone, UuidEvent, get_call, delete_call, advance, is_i16, is_active, is_live,
  insert_entry, find_uuid, from_cache, set_soft_delete, with_rows, with_cache, step, advance_call,
  run_event, run_events,
}

-- The deletion runs between the revival's two writes; the two calls have the next two numbers.
abbrev pub schedule : ℕ → ℕ → List UuidEvent
schedule n uuid =
    get_call uuid
    ∷ advance n (pos 0)
    ∷ advance n (pos 0)
    ∷ delete_call uuid
    ∷ advance (suc n) (pos 0)
    ∷ advance (suc n) (pos 0)
    ∷ advance (suc n) (pos 0)
    ∷ advance n (pos 0)
    ∷ []

abbrev pub marked : Bool → UuidRow → UuidRow
marked value row = record row { soft_delete = value }

abbrev one_call : List Phase → Phase → UuidServer → UuidSystem
one_call others p s = record { server = s; calls = others ++ p ∷ [] }

abbrev two_calls : List Phase → Phase → Phase → UuidServer → UuidSystem
two_calls others p q s = record { server = s; calls = others ++ p ∷ q ∷ [] }

advance_one :
    (others : List Phase) (p : Phase) (s : UuidServer)
    → run_event (advance (length others) (pos 0)) (one_call others p s)
      ≡ one_call others (step (pos 0) p s).0 (step (pos 0) p s).1
unfolding run_event advance_call
advance_one [] p s = refl
advance_one (other ∷ others) p s =
    ap (λ (r : UuidSystem). record { server = r.server; calls = other ∷ r.calls })
      (advance_one others p s)

advance_first :
    (others : List Phase) (p q : Phase) (s : UuidServer)
    → run_event (advance (length others) (pos 0)) (two_calls others p q s)
      ≡ two_calls others (step (pos 0) p s).0 q (step (pos 0) p s).1
unfolding run_event advance_call
advance_first [] p q s = refl
advance_first (other ∷ others) p q s =
    ap (λ (r : UuidSystem). record { server = r.server; calls = other ∷ r.calls })
      (advance_first others p q s)

advance_second :
    (others : List Phase) (p q : Phase) (s : UuidServer)
    → run_event (advance (suc (length others)) (pos 0)) (two_calls others p q s)
      ≡ two_calls others p (step (pos 0) q s).0 (step (pos 0) q s).1
unfolding run_event advance_call
advance_second [] p q s = refl
advance_second (other ∷ others) p q s =
    ap (λ (r : UuidSystem). record { server = r.server; calls = other ∷ r.calls })
      (advance_second others p q s)

second_comes :
    (others : List Phase) (uuid : ℕ) (p : Phase) (s : UuidServer)
    → run_event (delete_call uuid) (one_call others p s) ≡ two_calls others p (deletion uuid) s
unfolding run_event
second_comes [] uuid p s = refl
second_comes (other ∷ others) uuid p s =
    ap (λ (r : UuidSystem). record { server = r.server; calls = other ∷ r.calls })
      (second_comes others uuid p s)

-- A row keeps its UUID when it is marked.
find_uuid-marked :
    (uuid : ℕ) (value : Bool) (rows : List UuidRow) (row : UuidRow)
    → find_uuid uuid rows ≡ some row
    → find_uuid uuid (set_soft_delete row.id value rows) ≡ some (marked value row)
unfolding find_uuid
find_uuid-marked uuid value [] row h = cc h
find_uuid-marked uuid value (r ∷ rows) row h = elim (Bool-cases (r.uuid == uuid)) [
  | inl e ↦ found (ground (arith, e, h)) e
  | inr e ↦ ground (arith, e, find_uuid-marked uuid value rows row (ground (arith, e, h)))
]
  where
    found :
        r ≡ row
        → (r.uuid == uuid) ≡ true
        → find_uuid uuid (set_soft_delete row.id value (r ∷ rows)) ≡ some (marked value row)
    found same e =
        subst (λ x. find_uuid uuid (set_soft_delete x.id value (r ∷ rows)) ≡ some (marked value x))
          same (ground (arith, e, eq_ℤ_refl r.id))

inactive_looks :
    (uuid : ℕ) (o : Option (ℤ × Bool)) → is_live o ≡ false → from_cache uuid o ≡ looking uuid
inactive_looks uuid none h = refl
inactive_looks uuid (some (id, soft_delete)) h = ground (arith, h)

looking_revives :
    (uuid : ℕ) (s : UuidServer) (row : UuidRow)
    → find_uuid uuid s.rows ≡ some row
    → row.soft_delete ≡ true
    → is_i16 row.id ≡ true
    → step (pos 0) (looking uuid) s ≡ (reviving uuid row.id, s)
unfolding step
looking_revives uuid s row found deleted fits = rw (found, fits, deleted) refl

deletion_deletes :
    (uuid : ℕ) (s : UuidServer) (row : UuidRow)
    → find_uuid uuid s.rows ≡ some row
    → row.soft_delete ≡ false
    → is_i16 row.id ≡ true
    → step (pos 0) (deletion uuid) s ≡ (deleting uuid row.id, s)
unfolding step
deletion_deletes uuid s row found active fits = rw (found, active, fits) refl

and_then :
    (e : UuidEvent) (es : List UuidEvent) (x y z : UuidSystem)
    → run_event e x ≡ y
    → run_events es y ≡ z
    → run_events (e ∷ es) x ≡ z
unfolding run_events
and_then e es x y z h k = ap (run_events es) h ∙ k

run_nothing : (x : UuidSystem) → run_events [] x ≡ x
unfolding run_events
run_nothing x = refl

first_comes :
    (uuid : ℕ) (x : UuidSystem)
    → is_active uuid (x.server).cache ≡ false
    → run_event (get_call uuid) x ≡ one_call x.calls (looking uuid) x.server
unfolding run_event
first_comes uuid x inactive =
    ap (λ p. one_call x.calls p x.server)
      (inactive_looks uuid (find ℕ_discrete uuid ((x.server).cache).by_uuid) inactive)

-- The server after the schedule.
abbrev pub left : ℕ → UuidRow → UuidServer → UuidServer
left uuid row s = record {
  rows = set_soft_delete row.id true (set_soft_delete row.id false s.rows);
  cache = insert_entry uuid row.id false (insert_entry uuid row.id true s.cache);
}

run_events-left :
    (uuid : ℕ) (row : UuidRow) (x : UuidSystem)
    → find_uuid uuid (x.server).rows ≡ some row
    → row.soft_delete ≡ true
    → is_i16 row.id ≡ true
    → is_active uuid (x.server).cache ≡ false
    → run_events (schedule (length x.calls) uuid) x
      ≡ two_calls x.calls (got uuid (ok row.id)) (gone uuid (ok true)) (left uuid row x.server)
unfolding step
run_events-left uuid row x found deleted fits inactive =
    let others = x.calls in
    let s = x.server in
    let revived : UuidServer = with_rows (set_soft_delete row.id false s.rows) s in
    let redeleted : UuidServer = with_rows (set_soft_delete row.id true revived.rows) revived in
    let uncached : UuidServer = with_cache (insert_entry uuid row.id true s.cache) redeleted in
    and_then _ _ _ _ _ (first_comes uuid x inactive) (
      and_then _ _ _ _ _
        (advance_one others (looking uuid) s
          ∙ ap (λ (r : Phase × UuidServer). one_call others r.0 r.1)
              (looking_revives uuid s row found deleted fits))
        (and_then _ _ _ _ _ (advance_one others (reviving uuid row.id) s) (
          and_then _ _ _ _ _ (second_comes others uuid (caching uuid row.id) revived) (
            and_then _ _ _ _ _
              (advance_second others (caching uuid row.id) (deletion uuid) revived
                ∙ ap (λ (r : Phase × UuidServer). two_calls others (caching uuid row.id) r.0 r.1)
                    (deletion_deletes uuid revived (marked false row)
                      (find_uuid-marked uuid false s.rows row found) refl fits))
              (and_then _ _ _ _ _
                (advance_second others (caching uuid row.id) (deleting uuid row.id) revived)
                (and_then _ _ _ _ _
                  (advance_second others (caching uuid row.id) (uncaching uuid row.id) redeleted)
                  (and_then _ _ _ _ _
                    (advance_first others (caching uuid row.id) (gone uuid (ok true)) uncached)
                    (run_nothing _))))))))

-- From any table and cache, with any calls under way: when the row of a UUID is marked as deleted,
-- its id fits and the cache does not say that the UUID is active, and a deletion runs between the
-- two writes of a call that revives it, then both calls succeed, the row is marked as deleted, and
-- the cache says that the UUID is active.
pub schedule_stale :
    (uuid : ℕ) (row : UuidRow) (x : UuidSystem)
    → find_uuid uuid (x.server).rows ≡ some row
    → row.soft_delete ≡ true
    → is_i16 row.id ≡ true
    → is_active uuid (x.server).cache ≡ false
    → let y = run_events (schedule (length x.calls) uuid) x in
      (y.calls ≡ x.calls ++ got uuid (ok row.id) ∷ gone uuid (ok true) ∷ [])
      × (find_uuid uuid (y.server).rows ≡ some (marked true row))
      × (is_active uuid (y.server).cache ≡ true)
schedule_stale uuid row x found deleted fits inactive =
    let end = run_events-left uuid row x found deleted fits inactive in
    (
      ap (λ (y : UuidSystem). y.calls) end,
      ap (λ (y : UuidSystem). find_uuid uuid (y.server).rows) end
          ∙ find_uuid-marked uuid true (set_soft_delete row.id false (x.server).rows)
              (marked false row) (find_uuid-marked uuid false (x.server).rows row found),
      ap (λ (y : UuidSystem). is_active uuid (y.server).cache) end
          ∙ ap is_live (
              find-put_same ℕ_discrete uuid (row.id, false)
                (put ℕ_discrete uuid (row.id, true) ((x.server).cache).by_uuid)),
    )
