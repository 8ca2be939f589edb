-- ===== src/Authz.antt =====
-- internal/authz/authz.go: the authorizer of the control plane. A principal (internal/authn/authn.go)
-- holds roles, a role grants actions, and a tenant test follows. `env` is the value of
-- REHEARSAL_CROSS_TENANT_ADMIN.
pub mod Tenant
use architecture_rehearsal.Prelude.{
  String, Option, none, some, List, [], ◌∷◌, Bool, true, false, not, ◌&&◌, ◌||◌, ◌==◌, any, lookup,
  if◌then◌else◌,
}

-- `ActionAdmin` is `admin`.
pub data Action : Type 0 where
  run_create run_read run_write evidence_read cluster_read cluster_write : Action
  policy_write policy_read job_read job_write audit_read admin : Action

pub record Resource : Type 0 where
  pub org : String
  pub project : String
  pub environment : String
  pub cluster : String

pub record Principal : Type 0 where
  pub id : String
  pub email : String
  pub issuer : String
  pub roles : List String
  pub org : String

pub record Authorizer : Type 0 where
  pub role_grants : List (String × List Action)

-- Go's `==` on actions.
abbrev pub action_eq : Action → Action → Bool
action_eq run_create run_create = true
action_eq run_read run_read = true
action_eq run_write run_write = true
action_eq evidence_read evidence_read = true
action_eq cluster_read cluster_read = true
action_eq cluster_write cluster_write = true
action_eq policy_write policy_write = true
action_eq policy_read policy_read = true
action_eq job_read job_read = true
action_eq job_write job_write = true
action_eq audit_read audit_read = true
action_eq admin admin = true
action_eq _ _ = false

-- `Default`
abbrev pub default_authorizer : Authorizer
default_authorizer = record {
  role_grants =
      ("viewer", run_read ∷ evidence_read ∷ cluster_read ∷ policy_read ∷ job_read ∷ audit_read ∷ [])
      ∷ (
        "developer",
        run_read ∷ run_create ∷ evidence_read ∷ cluster_read ∷ policy_read ∷ job_read ∷ [],
      )
      ∷ (
        "operator",
        run_read ∷ run_create ∷ run_write ∷ evidence_read ∷ cluster_read ∷ cluster_write
            ∷ policy_read ∷ job_read ∷ job_write ∷ audit_read ∷ [],
      )
      ∷ (
        "security-reviewer",
        run_read ∷ evidence_read ∷ policy_write ∷ policy_read ∷ cluster_read ∷ audit_read ∷ [],
      )
      ∷ (
        "platform-admin",
        run_read ∷ run_create ∷ run_write ∷ evidence_read ∷ cluster_read ∷ cluster_write
            ∷ policy_write ∷ policy_read ∷ job_read ∷ job_write ∷ audit_read ∷ admin ∷ [],
      )
      ∷ [];
}

-- `a.RoleGrants[role]`: no action for a role that is not in the map.
abbrev pub or_no_actions : Option (List Action) → List Action
or_no_actions none = []
or_no_actions (some actions) = actions

unfoldable pub role_allows : Authorizer → Action → String → Bool
role_allows a action role =
    any (λ act. action_eq act action || action_eq act admin)
      (or_no_actions (lookup role a.role_grants))

unfoldable pub has_action : Authorizer → Principal → Action → Bool
unfolding role_allows
has_action a p action = any (role_allows a action) p.roles

unfoldable pub is_admin : Principal → Bool
is_admin p = any (λ r. r == "platform-admin") p.roles

unfoldable pub os_cross_tenant_admin : String → Bool
os_cross_tenant_admin env = env == "1"

unfoldable pub same_tenant : String → Principal → Resource → Bool
unfolding is_admin os_cross_tenant_admin
same_tenant env p res =
    if p.org == ""
    then false
    else if res.org == ""
    then true
    else if not (p.org == res.org)
    then is_admin p && os_cross_tenant_admin env
    else true

unfoldable pub allow : String → Authorizer → Principal → Action → Resource → Bool
unfolding has_action same_tenant
allow env a p action res = if not (has_action a p action) then false else same_tenant env p res

unfoldable pub can_access_object : String → Authorizer → Principal → Action → Resource → Bool
unfolding allow
can_access_object env a p action res = allow env a p action res
