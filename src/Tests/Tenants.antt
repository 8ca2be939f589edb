-- ===== src/Tests/Tenants.antt =====
-- Authorisation and the backend in memory (internal/authz, internal/api) on concrete tenants.
use architecture_rehearsal.Prelude.{◌≡◌, ◌≢◌, ◌⊎◌, refl, Memᴰ, String, List, [], ◌∷◌, Bool, lookup}
use architecture_rehearsal.Run.{RehearsalRun}
use architecture_rehearsal.Run.Lifecycle.{new_run}
use architecture_rehearsal.Tests.Runs.{demo_spec}
use architecture_rehearsal.Authz.{
  job_write, Resource, Principal, default_authorizer, can_access_object, allow, has_action,
  role_allows, same_tenant, is_admin, os_cross_tenant_admin,
}
use architecture_rehearsal.Authz.Tenant.{can_access_object_isolates}
use architecture_rehearsal.Memory.{
  MemoryBackend, new_memory_backend, MemJob, pending, Result, ok, err,
}
use architecture_rehearsal.Memory.Runs.{create_run}

abbrev alice : Principal
alice = record {
  id = "alice";
  email = "";
  issuer = "";
  roles = "viewer" ∷ "operator" ∷ [];
  org = "acme";
}

abbrev acme : Resource
acme = record { org = "acme"; project = ""; environment = ""; cluster = "" }

abbrev no_override : String
no_override = ""

can_access_object_isolates_example :
    (alice.org ≢ "")
    × ((acme.org ≡ "")
        ⊎ ((acme.org ≡ alice.org) ⊎ (Memᴰ "platform-admin" alice.roles × (no_override ≡ "1"))))
unfolding can_access_object allow has_action role_allows same_tenant is_admin os_cross_tenant_admin
    lookup
can_access_object_isolates_example =
    can_access_object_isolates no_override default_authorizer alice job_write acme refl

abbrev labelled : RehearsalRun
labelled = record (new_run "run-1" "key-1" demo_spec 5) { labels = ("org", "acme") ∷ [] }

abbrev backend : MemoryBackend Bool
backend = new_memory_backend

abbrev backend_of : Result (MemoryBackend Bool) → MemoryBackend Bool
backend_of (ok s) = s
backend_of (err e) = backend

abbrev backend_later : MemoryBackend Bool
backend_later = backend_of (create_run backend labelled)

-- The same key under another identifier.
abbrev repeated : RehearsalRun
repeated = record labelled { id = "run-2" }

abbrev job : String → String → MemJob
job id org = record {
  id = id;
  kind = "execute";
  run_id = "run-1";
  org = org;
  payload = "";
  status = pending;
  op_id = "";
}

abbrev jobs : List MemJob
jobs = job "j1" "acme" ∷ job "j2" "globex" ∷ []
