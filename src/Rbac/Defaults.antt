-- ===== src/Rbac/Defaults.antt =====
-- What the default policy grants (internal/rbac/rbac.go).
use architecture_rehearsal.Prelude.{
  ◌≡◌, refl, inl, inr, String, none, some, Bool, true, false, ◌==◌, ◌||◌, if◌then◌else◌, Bool-cases,
  lookup,
}
use architecture_rehearsal.Rbac.{
  Action, analyze, verify, snapshot, change, store, merge, audit_read, sign, default_policy,
  role_of, allow_in, allow, require,
}

-- The actions of the role `viewer`.
abbrev pub is_viewed : Action → Bool
is_viewed verify = true
is_viewed audit_read = true
is_viewed _ = false

-- The actors that are bound to the role `admin`.
abbrev pub is_trusted : String → Bool
is_trusted actor = actor == "" || ("local" == actor || "ci" == actor)

role_of-default_policy :
    (actor : String)
    → role_of default_policy (if actor == "" then "local" else actor)
      ≡ (if is_trusted actor then "admin" else "viewer")
unfolding role_of lookup
role_of-default_policy actor = elim (Bool-cases (actor == "")) [
  | inl e ↦ rw e refl
  | inr e ↦ rw e (elim (Bool-cases ("local" == actor)) [
    | inl l ↦ rw l refl
    | inr l ↦ rw l (elim (Bool-cases ("ci" == actor)) [
      | inl c ↦ rw c refl
      | inr c ↦ rw c (elim (Bool-cases ("*" == actor)) [ inl a ↦ rw a refl | inr a ↦ rw a refl ])
    ])
  ])
]

allow-trusted :
    (actor : String) (action : Action)
    → is_trusted actor ≡ true
    → allow (some default_policy) actor action ≡ true
unfolding allow allow_in lookup
allow-trusted actor analyze h = rw (role_of-default_policy actor, h) refl
allow-trusted actor verify h = rw (role_of-default_policy actor, h) refl
allow-trusted actor snapshot h = rw (role_of-default_policy actor, h) refl
allow-trusted actor change h = rw (role_of-default_policy actor, h) refl
allow-trusted actor store h = rw (role_of-default_policy actor, h) refl
allow-trusted actor merge h = rw (role_of-default_policy actor, h) refl
allow-trusted actor audit_read h = rw (role_of-default_policy actor, h) refl
allow-trusted actor sign h = rw (role_of-default_policy actor, h) refl

allow-viewer :
    (actor : String) (action : Action)
    → is_trusted actor ≡ false
    → allow (some default_policy) actor action ≡ is_viewed action
unfolding allow allow_in lookup
allow-viewer actor analyze h = rw (role_of-default_policy actor, h) refl
allow-viewer actor verify h = rw (role_of-default_policy actor, h) refl
allow-viewer actor snapshot h = rw (role_of-default_policy actor, h) refl
allow-viewer actor change h = rw (role_of-default_policy actor, h) refl
allow-viewer actor store h = rw (role_of-default_policy actor, h) refl
allow-viewer actor merge h = rw (role_of-default_policy actor, h) refl
allow-viewer actor audit_read h = rw (role_of-default_policy actor, h) refl
allow-viewer actor sign h = rw (role_of-default_policy actor, h) refl

-- Under the default policy, the local user, the CI and an actor without a name are denied nothing;
-- any other actor may verify and read the audit log, and is denied everything else.
pub require-default_policy :
    (actor : String) (action : Action)
    → require (some default_policy) actor action
      ≡ (if is_trusted actor || is_viewed action then none else some (actor, action))
unfolding require
require-default_policy actor action = elim (Bool-cases (is_trusted actor)) [
  | inl t ↦ rw (allow-trusted actor action t, t) refl
  | inr v ↦ rw (allow-viewer actor action v, v) refl
]
