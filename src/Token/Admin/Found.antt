-- ===== src/Token/Admin/Found.antt =====
-- What the searches for a target find is a row of the table.
use node_get.Prelude.{
  ◌≡◌, ◌≢◌, inl, inr, not, List, Option, none, some, Member, Option-cases, Bool-cases, arith,
  if◌then◌else◌,
}
use node_get.Text.{Text, text_eq}
use node_get.Error.{Result, ok, err, not_found, target_not_found}
use node_get.Token.Cache.{Model}
use node_get.Token.Table.{has_key, has_username, find_row}
use node_get.Token.Table.Unique.{find_row-Member}
use node_get.Token.Admin.{
  find_by_key_or_username, find_target_token, extract_target_identifier, or_error,
}

pub find_by_key_or_username-Member :
    (rows : List Model) (name : Text) (m : Model)
    → find_by_key_or_username rows name ≡ some m
    → Member m rows
unfolding find_by_key_or_username
find_by_key_or_username-Member rows name m h = elim (Option-cases (find_row (has_key name) rows)) [
  | inr (n, e) ↦ (find_row-Member (has_key name) rows m (ground (arith, e, h))).0
  | inl e ↦ (find_row-Member (has_username name) rows m (ground (arith, e, h))).0
]

pub or_error-ok :
    {A : Type 0} (missing : Result A) (o : Option A) (a : A)
    → missing ≢ ok a
    → or_error missing o ≡ ok a
    → o ≡ some a
or_error-ok missing none a n h = elim (n h) [ ]
or_error-ok missing (some b) a n h = cc h

pub find_target_token-Member :
    (rows : List Model) (target : Text) (m : Model)
    → find_target_token rows target ≡ ok m
    → Member m rows
unfolding find_target_token
find_target_token-Member rows target m h =
    elim (Option-cases (find_by_key_or_username rows target)) [
      | inr (n, e) ↦ find_by_key_or_username-Member rows target m (ground (arith, e, h))
      | inl e ↦
          let extracted = extract_target_identifier target in
          let second : or_error (err (not_found (target_not_found extracted))) (
                if not (text_eq extracted target)
                then find_by_key_or_username rows extracted
                else none)
              ≡ ok m =
            ground (arith, e, h) in
          elim (Bool-cases (text_eq extracted target)) [
            | inl t ↦ ground (arith, t, second)
            | inr f ↦ find_by_key_or_username-Member rows extracted m (
                or_error-ok (err (not_found (target_not_found extracted))) _ m (λ x. cc x)
                  (ground (arith, f, second)))
          ]
    ]
