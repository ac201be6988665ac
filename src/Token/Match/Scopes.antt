-- ===== src/Token/Match/Scopes.antt =====
-- crates/ng-token/src/get.rs: which requested scopes a scope of a limit covers.
use node_get.Prelude.{◌≡◌, ◌⊎◌, inl, inr, refl, subst, true, List, [], ◌∷◌, Any, arith}
use node_get.Text.{text_eq}
use node_get.Text.Laws.{text_eq→eq, text_eq_refl}
use node_get.Permission.{Scope}
use node_get.Token.Match.{scope_matches}
use node_get.Token.Match.Wildcard.{HasPrefix, wildcard_iff}

-- Everything covers by the global scope, an agent and a namespace by being the same, a worker, a
-- bucket and a database by being the same or by a pattern.
abbrev pub ScopeCovers : Scope → Scope → Type 0
ScopeCovers Scope.global _ = Unit {0}
ScopeCovers (Scope.agent_uuid limit_id) (Scope.agent_uuid req_id) = limit_id ≡ req_id
ScopeCovers (Scope.kv_namespace limit_ns) (Scope.kv_namespace req_ns) = limit_ns ≡ req_ns
ScopeCovers (Scope.js_worker limit_name) (Scope.js_worker req_name) =
    (req_name ≡ limit_name) ⊎ HasPrefix limit_name req_name
ScopeCovers (Scope.static_bucket limit_name) (Scope.static_bucket req_name) =
    (req_name ≡ limit_name) ⊎ HasPrefix limit_name req_name
ScopeCovers (Scope.db limit_name) (Scope.db req_name) =
    (req_name ≡ limit_name) ⊎ HasPrefix limit_name req_name
ScopeCovers _ _ = ⊥

pub scope_matches→ScopeCovers :
    (limit req : Scope) → scope_matches limit req ≡ true → ScopeCovers limit req
unfolding scope_matches
scope_matches→ScopeCovers Scope.global req h = tt
scope_matches→ScopeCovers (Scope.agent_uuid a) (Scope.agent_uuid b) h = ground (arith, h)
scope_matches→ScopeCovers (Scope.agent_uuid a) (Scope.kv_namespace b) h = cc h
scope_matches→ScopeCovers (Scope.agent_uuid a) (Scope.js_worker b) h = cc h
scope_matches→ScopeCovers (Scope.agent_uuid a) (Scope.static_bucket b) h = cc h
scope_matches→ScopeCovers (Scope.agent_uuid a) (Scope.db b) h = cc h
scope_matches→ScopeCovers (Scope.agent_uuid a) Scope.global h = cc h
scope_matches→ScopeCovers (Scope.kv_namespace a) (Scope.agent_uuid b) h = cc h
scope_matches→ScopeCovers (Scope.kv_namespace a) (Scope.kv_namespace b) h = text_eq→eq a b h
scope_matches→ScopeCovers (Scope.kv_namespace a) (Scope.js_worker b) h = cc h
scope_matches→ScopeCovers (Scope.kv_namespace a) (Scope.static_bucket b) h = cc h
scope_matches→ScopeCovers (Scope.kv_namespace a) (Scope.db b) h = cc h
scope_matches→ScopeCovers (Scope.kv_namespace a) Scope.global h = cc h
scope_matches→ScopeCovers (Scope.js_worker a) (Scope.agent_uuid b) h = cc h
scope_matches→ScopeCovers (Scope.js_worker a) (Scope.kv_namespace b) h = cc h
scope_matches→ScopeCovers (Scope.js_worker a) (Scope.js_worker b) h = (wildcard_iff b a).0 h
scope_matches→ScopeCovers (Scope.js_worker a) (Scope.static_bucket b) h = cc h
scope_matches→ScopeCovers (Scope.js_worker a) (Scope.db b) h = cc h
scope_matches→ScopeCovers (Scope.js_worker a) Scope.global h = cc h
scope_matches→ScopeCovers (Scope.static_bucket a) (Scope.agent_uuid b) h = cc h
scope_matches→ScopeCovers (Scope.static_bucket a) (Scope.kv_namespace b) h = cc h
scope_matches→ScopeCovers (Scope.static_bucket a) (Scope.js_worker b) h = cc h
scope_matches→ScopeCovers (Scope.static_bucket a) (Scope.static_bucket b) h = (wildcard_iff b a).0 h
scope_matches→ScopeCovers (Scope.static_bucket a) (Scope.db b) h = cc h
scope_matches→ScopeCovers (Scope.static_bucket a) Scope.global h = cc h
scope_matches→ScopeCovers (Scope.db a) (Scope.agent_uuid b) h = cc h
scope_matches→ScopeCovers (Scope.db a) (Scope.kv_namespace b) h = cc h
scope_matches→ScopeCovers (Scope.db a) (Scope.js_worker b) h = cc h
scope_matches→ScopeCovers (Scope.db a) (Scope.static_bucket b) h = cc h
scope_matches→ScopeCovers (Scope.db a) (Scope.db b) h = (wildcard_iff b a).0 h
scope_matches→ScopeCovers (Scope.db a) Scope.global h = cc h

pub ScopeCovers→scope_matches :
    (limit req : Scope) → ScopeCovers limit req → scope_matches limit req ≡ true
unfolding scope_matches
ScopeCovers→scope_matches Scope.global req h = refl
ScopeCovers→scope_matches (Scope.agent_uuid a) (Scope.agent_uuid b) h = ground (arith, h)
ScopeCovers→scope_matches (Scope.agent_uuid a) (Scope.kv_namespace b) h = elim h [ ]
ScopeCovers→scope_matches (Scope.agent_uuid a) (Scope.js_worker b) h = elim h [ ]
ScopeCovers→scope_matches (Scope.agent_uuid a) (Scope.static_bucket b) h = elim h [ ]
ScopeCovers→scope_matches (Scope.agent_uuid a) (Scope.db b) h = elim h [ ]
ScopeCovers→scope_matches (Scope.agent_uuid a) Scope.global h = elim h [ ]
ScopeCovers→scope_matches (Scope.kv_namespace a) (Scope.agent_uuid b) h = elim h [ ]
ScopeCovers→scope_matches (Scope.kv_namespace a) (Scope.kv_namespace b) h =
    subst (λ x. text_eq a x ≡ true) h (text_eq_refl a)
ScopeCovers→scope_matches (Scope.kv_namespace a) (Scope.js_worker b) h = elim h [ ]
ScopeCovers→scope_matches (Scope.kv_namespace a) (Scope.static_bucket b) h = elim h [ ]
ScopeCovers→scope_matches (Scope.kv_namespace a) (Scope.db b) h = elim h [ ]
ScopeCovers→scope_matches (Scope.kv_namespace a) Scope.global h = elim h [ ]
ScopeCovers→scope_matches (Scope.js_worker a) (Scope.agent_uuid b) h = elim h [ ]
ScopeCovers→scope_matches (Scope.js_worker a) (Scope.kv_namespace b) h = elim h [ ]
ScopeCovers→scope_matches (Scope.js_worker a) (Scope.js_worker b) h = (wildcard_iff b a).1 h
ScopeCovers→scope_matches (Scope.js_worker a) (Scope.static_bucket b) h = elim h [ ]
ScopeCovers→scope_matches (Scope.js_worker a) (Scope.db b) h = elim h [ ]
ScopeCovers→scope_matches (Scope.js_worker a) Scope.global h = elim h [ ]
ScopeCovers→scope_matches (Scope.static_bucket a) (Scope.agent_uuid b) h = elim h [ ]
ScopeCovers→scope_matches (Scope.static_bucket a) (Scope.kv_namespace b) h = elim h [ ]
ScopeCovers→scope_matches (Scope.static_bucket a) (Scope.js_worker b) h = elim h [ ]
ScopeCovers→scope_matches (Scope.static_bucket a) (Scope.static_bucket b) h = (wildcard_iff b a).1 h
ScopeCovers→scope_matches (Scope.static_bucket a) (Scope.db b) h = elim h [ ]
ScopeCovers→scope_matches (Scope.static_bucket a) Scope.global h = elim h [ ]
ScopeCovers→scope_matches (Scope.db a) (Scope.agent_uuid b) h = elim h [ ]
ScopeCovers→scope_matches (Scope.db a) (Scope.kv_namespace b) h = elim h [ ]
ScopeCovers→scope_matches (Scope.db a) (Scope.js_worker b) h = elim h [ ]
ScopeCovers→scope_matches (Scope.db a) (Scope.static_bucket b) h = elim h [ ]
ScopeCovers→scope_matches (Scope.db a) (Scope.db b) h = (wildcard_iff b a).1 h
ScopeCovers→scope_matches (Scope.db a) Scope.global h = elim h [ ]

module _ {P Q : Scope → Type 0} (f : (s : Scope) → P s → Q s) where
  pub Any-each : (scopes : List Scope) → Any P scopes → Any Q scopes
  Any-each [] h = elim h [ ]
  Any-each (s ∷ scopes) (inl h) = inl (f s h)
  Any-each (s ∷ scopes) (inr h) = inr (Any-each scopes h)
