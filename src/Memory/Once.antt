-- ===== src/Memory/Once.antt =====
-- A run is created once (internal/api/memory_backend.go).
use architecture_rehearsal.Prelude.{
  ◌≡◌, ◌≢◌, refl, ◌⊎◌, inl, inr, some, true, arith, eq_iff, eq_refl, lookup, insert, lookup-insert,
  ==-ne, Bool-cases,
}
use architecture_rehearsal.Run.{RehearsalRun}
use architecture_rehearsal.Memory.{MemoryBackend, conflict, ok, err, run_key, idem_key, org_of}
use architecture_rehearsal.Memory.Runs.{has_key, create_run, get_run, get_run_by_idempotency}

module _ {Cal : Type 0} where
  -- What a creation that is not refused did.
  created :
      (s s' : MemoryBackend Cal) (r : RehearsalRun)
      → create_run s r ≡ ok s'
      → (org_of r ≢ "")
        × ((r.id ≢ "")
            × ((s'.runs ≡ insert (run_key (org_of r) r.id) r s.runs)
                × (r.idempotency_key ≢ ""
                    → s'.idem ≡ insert (idem_key (org_of r) r.idempotency_key) r.id s.idem)))
  unfolding create_run
  created s s' r h =
      let org = eq_iff (org_of r) "" in
      let id = eq_iff r.id "" in let key = eq_iff r.idempotency_key "" in ground (arith, h)

  -- What makes a creation a conflict.
  refused :
      (s : MemoryBackend Cal) (r : RehearsalRun)
      → org_of r ≢ ""
      → r.id ≢ ""
      → (has_key (lookup (run_key (org_of r) r.id) s.runs) ≡ true)
        ⊎ ((r.idempotency_key ≢ "")
            × (has_key (lookup (idem_key (org_of r) r.idempotency_key) s.idem) ≡ true))
      → create_run s r ≡ err conflict
  unfolding create_run
  refused s r o i (inl taken) = rw (==-ne (org_of r) "" o, ==-ne r.id "" i, taken) refl
  refused s r o i (inr (k, taken)) =
      rw (==-ne (org_of r) "" o, ==-ne r.id "" i, ==-ne r.idempotency_key "" k, taken)
        (elim (Bool-cases (has_key (lookup (run_key (org_of r) r.id) s.runs))) [
          | inl e ↦ rw e refl
          | inr e ↦ rw e refl
        ])

  -- A run that was created with an idempotency key is read back by its organisation and identifier,
  -- and by its organisation and key.
  pub create_run-get_run :
      (s s' : MemoryBackend Cal) (r : RehearsalRun)
      → create_run s r ≡ ok s'
      → r.idempotency_key ≢ ""
      → (get_run s' (org_of r) r.id ≡ some r)
        × (get_run_by_idempotency s' (org_of r) r.idempotency_key ≡ some r)
  unfolding get_run get_run_by_idempotency
  create_run-get_run s s' r h keyed =
      let c = created s s' r h in
      let ids = run_key (org_of r) r.id in
      let keys = idem_key (org_of r) r.idempotency_key in
      (
        rw (c.1.1.0, lookup-insert ids ids r s.runs, eq_refl ids) refl,
        rw (c.1.1.1 keyed, lookup-insert keys keys r.id s.idem, eq_refl keys)
            (rw (==-ne r.id "" c.1.0)
              (rw (c.1.1.0, lookup-insert ids ids r s.runs, eq_refl ids) refl)),
      )

  -- After a run was created, a creation that repeats its organisation and identifier, or its
  -- organisation and its idempotency key, is refused as a conflict.
  pub create_run_once :
      (s s' : MemoryBackend Cal) (r r' : RehearsalRun)
      → create_run s r ≡ ok s'
      → org_of r' ≡ org_of r
      → (r'.id ≡ r.id) ⊎ ((r'.idempotency_key ≡ r.idempotency_key) × (r.idempotency_key ≢ ""))
      → r'.id ≢ ""
      → create_run s' r' ≡ err conflict
  create_run_once s s' r r' h same again named =
      let c = created s s' r h in
      let ids = run_key (org_of r) r.id in
      let keys = idem_key (org_of r) r.idempotency_key in
      refused s' r' (rw same c.0) named (elim again [
        | inl e ↦ inl (rw (same, e, c.1.1.0, lookup-insert ids ids r s.runs, eq_refl ids) refl)
        | inr (e, k) ↦ inr (
          (rw e k),
          rw (same, e, c.1.1.1 k, lookup-insert keys keys r.id s.idem, eq_refl keys) refl,
        )
      ])
