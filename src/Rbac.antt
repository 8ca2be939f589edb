-- ===== src/Rbac.antt =====
-- internal/rbac/rbac.go: the local policy of the command line. `LoadPolicy` reads a file and
-- `ActorFromEnv` the environment, so the policy and the actor are arguments here; `none` is a nil
-- policy, and a denial is its actor and action.
pub mod Defaults
use architecture_rehearsal.Prelude.{
  String, Option, none, some, List, [], ◌∷◌, Bool, true, false, ◌||◌, ◌==◌, any, lookup, or_empty,
  if◌then◌else◌,
}

pub data Action : Type 0 where
  analyze verify snapshot change store merge audit_read sign : Action

-- `string(action)`
abbrev pub action_text : Action → String
action_text analyze = "analyze"
action_text verify = "verify"
action_text snapshot = "snapshot"
action_text change = "change"
action_text store = "store"
action_text merge = "merge"
action_text audit_read = "audit.read"
action_text sign = "sign"

pub record Policy : Type 0 where
  pub version : String
  pub roles : List (String × List String)
  pub bindings : List (String × String)

abbrev pub default_policy : Policy
default_policy = record {
  version = "v0.7";
  roles =
      ("viewer", "audit.read" ∷ "verify" ∷ [])
      ∷ ("analyst", "analyze" ∷ "verify" ∷ "snapshot" ∷ "change" ∷ "audit.read" ∷ [])
      ∷ (
        "admin",
        "analyze" ∷ "verify" ∷ "snapshot" ∷ "change" ∷ "store" ∷ "merge" ∷ "audit.read" ∷ "sign"
            ∷ [],
      )
      ∷ [];
  bindings = ("local", "admin") ∷ ("ci", "admin") ∷ ("*", "viewer") ∷ [];
}

abbrev or_no_texts : Option (List String) → List String
or_no_texts none = []
or_no_texts (some texts) = texts

-- The binding of the actor, or the one of `*`.
unfoldable pub role_of : Policy → String → String
role_of p actor =
    let role = or_empty (lookup actor p.bindings) in
    if role == "" then or_empty (lookup "*" p.bindings) else role

unfoldable pub allow_in : Policy → String → Action → Bool
unfolding role_of
allow_in p actor action =
    let role = role_of p (if actor == "" then "local" else actor) in
    if role == ""
    then false
    else any (λ a. a == action_text action || a == "*") (or_no_texts (lookup role p.roles))

unfoldable pub allow : Option Policy → String → Action → Bool
unfolding allow_in
allow none actor action = true
allow (some p) actor action = allow_in p actor action

unfoldable pub require : Option Policy → String → Action → Option (String × Action)
unfolding allow
require p actor action = if allow p actor action then none else some (actor, action)
