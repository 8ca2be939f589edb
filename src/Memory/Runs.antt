-- ===== src/Memory/Runs.antt =====
-- The runs, clusters, policies, calibration and audit log of internal/api/memory_backend.go. Go
-- visits the entries of a map in no fixed order; here they come in the order of the list.
use architecture_rehearsal.Prelude.{
  ℕ, String, Option, none, some, List, [], ◌∷◌, ◌++◌, map, Bool, true, false, ◌||◌, ◌==◌, eqb,
  concat, lookup, insert, or_empty, filter, find, take, if◌then◌else◌, non_empty,
}
use mathlib.Core.List.{reverse}
use architecture_rehearsal.Run.{RehearsalRun}
use architecture_rehearsal.Memory.{
  AuditEntry, Cluster, MemoryBackend, org_and_id_required, conflict, not_found, Result, ok, err,
  run_key, idem_key, org_of,
}

-- `_, ok := m[k]`
abbrev pub has_key {ℓ} : {V : Type ℓ} → Option V → Bool
has_key none = false
has_key (some v) = true

abbrev or_first {ℓ} : {A : Type ℓ} → A → Option A → A
or_first a none = a
or_first a (some b) = b

-- `p["org"].(string)`
abbrev of_org : String → List (String × String) → Bool
of_org org p = or_empty (lookup "org" p) == org

module _ {Cal : Type 0} where
  unfoldable pub create_run : MemoryBackend Cal → RehearsalRun → Result (MemoryBackend Cal)
  create_run s r =
      let org = org_of r in
      let k = run_key org r.id in
      let ik = idem_key org r.idempotency_key in
      let keyed = non_empty r.idempotency_key in
      if org == "" || r.id == ""
      then err org_and_id_required
      else if has_key (lookup k s.runs)
      then err conflict
      else if keyed
      then (if has_key (lookup ik s.idem)
          then err conflict
          else ok (record s { runs = insert k r s.runs; idem = insert ik r.id s.idem }))
      else ok (record s { runs = insert k r s.runs })

  unfoldable pub update_run : MemoryBackend Cal → RehearsalRun → Result (MemoryBackend Cal)
  update_run s r =
      let k = run_key (org_of r) r.id in
      if has_key (lookup k s.runs)
      then ok (record s { runs = insert k r s.runs })
      else err not_found

  unfoldable pub get_run : MemoryBackend Cal → String → String → Option RehearsalRun
  get_run s org id = lookup (run_key org id) s.runs

  unfoldable pub get_run_by_idempotency : MemoryBackend Cal → String → String → Option RehearsalRun
  get_run_by_idempotency s org key =
      let id = or_empty (lookup (idem_key org key) s.idem) in
      if id == "" then none else lookup (run_key org id) s.runs

  unfoldable pub list_runs : MemoryBackend Cal → String → List RehearsalRun
  list_runs s org = filter (λ r. org_of r == org) (map (λ e. e.1) s.runs)

  unfoldable pub put_cluster : MemoryBackend Cal → Cluster → MemoryBackend Cal
  put_cluster s c = record s { clusters = insert (concat (c.org ∷ "/" ∷ c.name ∷ [])) c s.clusters }

  unfoldable pub list_clusters : MemoryBackend Cal → String → List Cluster
  list_clusters s org = filter (λ c. c.org == org) (map (λ e. e.1) s.clusters)

  unfoldable pub put_policy :
      MemoryBackend Cal → String → String → List (String × String) → MemoryBackend Cal
  put_policy s id org p = record s {
    policies =
        insert (concat (org ∷ "/" ∷ id ∷ [])) (insert "org" org (insert "id" id p)) s.policies;
  }

  unfoldable pub list_policies : MemoryBackend Cal → String → List (List (String × String))
  list_policies s org = filter (of_org org) (map (λ e. e.1) s.policies)

  unfoldable pub get_org_policy : MemoryBackend Cal → String → Option (List (String × String))
  get_org_policy s org = find (of_org org) (map (λ e. e.1) s.policies)

  unfoldable pub record_calibration :
      {O : Type 0} (new_store : Cal) (record' : Cal → O → Cal)
      → MemoryBackend Cal
      → String
      → O
      → MemoryBackend Cal
  record_calibration new_store record' s org o = record s {
    cal = insert org (record' (or_first new_store (lookup org s.cal)) o) s.cal;
  }

  unfoldable pub calibration_report :
      {R : Type 0} (new_store : Cal) (report : Cal → R) → MemoryBackend Cal → String → R
  calibration_report new_store report s org = report (or_first new_store (lookup org s.cal))

  unfoldable pub audit :
      (now : ℕ) → MemoryBackend Cal → String → String → String → String → String → MemoryBackend Cal
  audit now s actor action target detail org = record s {
    audit =
        s.audit
        ++ record {
          time = now;
          actor = actor;
          action = action;
          target = target;
          detail = detail;
          org = org;
        }
          ∷ [];
  }

  -- The newest entries first; a limit that is not positive is 100.
  unfoldable pub list_audit : MemoryBackend Cal → String → ℕ → List AuditEntry
  list_audit s org limit =
      take (if eqb limit 0 then 100 else limit) (filter (λ a. a.org == org) (reverse s.audit))
