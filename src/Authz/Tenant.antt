-- ===== src/Authz/Tenant.antt =====
-- Tenant isolation and least privilege of the authorizer (internal/authz/authz.go).
use architecture_rehearsal.Prelude.{
  ◌≡◌, ◌≢◌, sym, ◌⊎◌, inl, inr, Memᴰ, contains-mem, String, List, [], ◌∷◌, true, any, arith, eq_iff,
  lookup, Bool-cases,
}
use architecture_rehearsal.Authz.{
  Action, run_write, cluster_write, job_write, Resource, Principal, Authorizer, default_authorizer,
  role_allows, has_action, is_admin, os_cross_tenant_admin, same_tenant, allow, can_access_object,
}

admin_role : (p : Principal) → is_admin p ≡ true → Memᴰ "platform-admin" p.roles
unfolding is_admin
admin_role p h = contains-mem p.roles "platform-admin" h

env_flag : (env : String) → os_cross_tenant_admin env ≡ true → env ≡ "1"
unfolding os_cross_tenant_admin
env_flag env h = (eq_iff env "1").0 h

-- An object that carries another organisation than the principal is accessed only by a platform
-- admin, and only when the variable REHEARSAL_CROSS_TENANT_ADMIN is "1". A principal without an
-- organisation accesses nothing.
pub can_access_object_isolates :
    (env : String) (a : Authorizer) (p : Principal) (action : Action) (res : Resource)
    → can_access_object env a p action res ≡ true
    → (p.org ≢ "")
      × ((res.org ≡ "") ⊎ ((res.org ≡ p.org) ⊎ (Memᴰ "platform-admin" p.roles × (env ≡ "1"))))
unfolding can_access_object allow same_tenant
can_access_object_isolates env a p action res h = (
  λ e. ground (arith, h, eq_iff p.org "", e),
  ground (arith, h, eq_iff res.org "", eq_iff p.org res.org, admin_role p, env_flag env),
)

-- In the default matrix, only operators and platform admins write runs, clusters or jobs.
abbrev pub IsWrite : Action → Type 0
IsWrite action = (action ≡ run_write) ⊎ ((action ≡ cluster_write) ⊎ (action ≡ job_write))

writer_role :
    (action : Action) (role : String)
    → IsWrite action
    → role_allows default_authorizer action role ≡ true
    → (role ≡ "operator") ⊎ (role ≡ "platform-admin")
unfolding role_allows lookup
writer_role action role w h = ground (arith, eq_iff "operator" role, eq_iff "platform-admin" role)

any_writer :
    (action : Action) (roles : List String)
    → IsWrite action
    → any (role_allows default_authorizer action) roles ≡ true
    → Memᴰ "operator" roles ⊎ Memᴰ "platform-admin" roles
any_writer action [] w h = cc
any_writer action (role ∷ roles) w h =
    elim (Bool-cases (role_allows default_authorizer action role)) [
      | inl e ↦ elim (writer_role action role w e) [
        | inl o ↦ inl (Memᴰ.head (sym o))
        | inr a ↦ inr (Memᴰ.head (sym a))
      ]
      | inr e ↦ elim (any_writer action roles w (rw e at h)) [
        | inl m ↦ inl (Memᴰ.tail m)
        | inr m ↦ inr (Memᴰ.tail m)
      ]
    ]

-- In the default matrix only a principal who is an operator or a platform admin may write a run, a
-- cluster or a job.
pub allow-IsWrite :
    (env : String) (p : Principal) (action : Action) (res : Resource)
    → IsWrite action
    → allow env default_authorizer p action res ≡ true
    → Memᴰ "operator" p.roles ⊎ Memᴰ "platform-admin" p.roles
unfolding allow has_action
allow-IsWrite env p action res w h = any_writer action p.roles w (ground (arith, h))
