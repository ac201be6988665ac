-- ===== src/Token/Table/Committed.antt =====
-- What a change that succeeds or fails leaves behind.
use node_get.Prelude.{◌≡◌, refl, ap, List}
use node_get.Error.{NodegetError, ok, err}
use node_get.Token.Limits.{Serde}
use node_get.Token.Cache.{Model}
use node_get.Token.Auth.{reload_from_models}
use node_get.Token.Table.{TokenServer, Change, commit}

abbrev pub reloaded : Serde → List Model → TokenServer → TokenServer
reloaded serde rows s = record { rows = rows; world = reload_from_models serde rows s.world }

pub commit-ok :
    {A : Type 0} (serde : Serde) (change : Change A) (s : TokenServer) (answer : A)
    → (commit serde change s).0 ≡ ok answer
    → (rows : List Model) × (change ≡ ok (answer, rows))
      × ((commit serde change s).1 ≡ reloaded serde rows s)
commit-ok serde (err e) s answer h = cc h
commit-ok serde (ok (a, rows)) s answer h = (rows, ap (λ x. ok (x, rows)) (value_of h), refl)
  where
    value_of : {B : Type 0} {a b : B} → ok a ≡ ok b → a ≡ b
    value_of e = cc e

pub commit-err :
    {A : Type 0} (serde : Serde) (change : Change A) (s : TokenServer) (e : NodegetError)
    → (commit serde change s).0 ≡ err e
    → (commit serde change s).1 ≡ s
commit-err serde (err e) s e' h = refl
commit-err serde (ok (a, rows)) s e' h = cc h
