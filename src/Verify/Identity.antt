-- ===== src/Verify/Identity.antt =====
-- internal/verify/verify.go: whether the change is what was deployed (changeIdentityChecks) and how the
-- observed graph moved from the baseline (deltaChecks). `decimal` shows an integer as the verb %d
-- does, `fingerprint` is the first 8 bytes of the SHA-256 sum of the JSON of the parts, in hex.
use architecture_rehearsal.Prelude.{
  ℕ, suc, String, Option, none, some, List, [], ◌∷◌, ◌++◌, map, gather, is_nil, Bool, true, false,
  not, ◌&&◌, ◌||◌, ◌==◌, lookup, eqb, ltb, concat, if◌then◌else◌,
}
use architecture_rehearsal.Graph.{
  Node, Snapshot, Index, Attribute, ℤ, pos, build_index, workload_replicas,
}
use architecture_rehearsal.Loader.{ChangeEnvelope}
use architecture_rehearsal.Verify.{
  Check, passes, fails, unsettled, softly, optional_int, eqz, ltz, is_some,
}
use architecture_rehearsal.Verify.Signals.{is_workload}

-- The type `patchID`.
pub record PatchId : Type 0 where
  pub id : String
  pub attrs : List (String × Attribute)
  pub removed : Bool

unfoldable pub parts_of : ChangeEnvelope → List PatchId
parts_of ch =
    map (λ p. record { id = p.id; attrs = p.attributes; removed = false }) ch.patch_nodes
    ++ map (λ id. record { id = id; attrs = []; removed = true }) ch.removed_nodes

-- The counters `applied` and `wanted`, and the checks so far.
pub record Applied : Type 0 where
  pub applied : ℕ
  pub wanted : ℕ
  pub checks : List Check

abbrev at_least : ℤ → Option ℤ → Bool
at_least want none = true
at_least want (some n) = not (ltz n want)

abbrev named_for : String → String → String
named_for prefix id = concat (prefix ∷ id ∷ [])

module _ (decimal : ℤ → String) where
  abbrev of_want : String → ℤ → Option ℤ → List String
  of_want label want none = []
  of_want label want (some n) = label ∷ decimal n ∷ " want=" ∷ decimal want ∷ []

  abbrev and_space : Bool → List String
  and_space true = " " ∷ []
  and_space false = []

  unfoldable pub convergence : Node → ℤ → Node → List Check
  convergence p want n =
      let ready = optional_int n.attributes "readyReplicas" in
      let available = optional_int n.attributes "availableReplicas" in
      let detail : List String =
        of_want "readyReplicas=" want ready
        ++ and_space (is_some ready && is_some available)
        ++ of_want "availableReplicas=" want available in
      if not (is_some ready || is_some available)
      then []
      else if at_least want ready && at_least want available
      then passes (named_for "rollout_converged:" p.id) (concat detail) ∷ []
      else softly true (named_for "rollout_status:" p.id) (
          concat
            ("rollout_not_converged (consistent with capacity/CNI prediction risk): " ∷ detail))
        ∷ []

  -- A patch of a node that is in the observed graph: whether it is applied, and its checks.
  unfoldable pub patch_present : Node → Node → Option ℤ → Bool × List Check
  unfolding convergence
  patch_present p n none = (
    true,
    passes (named_for "change_applied:" p.id)
          "patched workload present (no replica target in change)"
        ∷ [],
  )
  patch_present p n (some want) =
      let got = pos (workload_replicas (some n)) in
      if eqz got want
      then (
        true,
        passes (named_for "change_applied:" p.id)
              (concat ("desired replicas=" ∷ decimal want ∷ " matches observed spec" ∷ []))
            ∷ convergence p want n,
      )
      else (
        false,
        fails (named_for "change_applied:" p.id) (
              concat (
                "desired replicas="
                ∷ decimal want
                ∷ " but observed spec="
                ∷ decimal got
                ∷ " (change not applied)"
                ∷ []))
            ∷ [],
      )

  abbrev pub patch_found : Node → Option Node → Bool × List Check
  patch_found p none = (
    false,
    fails (named_for "change_applied:" p.id) "patched workload not found in observed graph" ∷ [],
  )
  patch_found p (some n) = patch_present p n (optional_int p.attributes "replicas")

  unfoldable pub patch_result : Index → Node → Bool × List Check
  unfolding patch_present
  patch_result idx p = patch_found p (lookup p.id idx.by_id)

  abbrev pub with_result : Applied → Bool × List Check → Applied
  with_result acc (hit, found) = record {
    applied = if hit then suc acc.applied else acc.applied;
    wanted = suc acc.wanted;
    checks = acc.checks ++ found;
  }

  unfoldable pub patch_loop : Index → List Node → Applied → Applied
  unfolding patch_result
  patch_loop idx [] acc = acc
  patch_loop idx (p ∷ ps) acc =
      patch_loop idx ps (if p.id == "" then acc else with_result acc (patch_result idx p))

  abbrev pub still_present : Index → String → List Check
  still_present idx id =
      if is_some (lookup id idx.by_id) && is_workload id
      then fails (named_for "change_applied_remove:" id) "workload predicted removed still present"
        ∷ []
      else []

  abbrev pub digest_check : String → ChangeEnvelope → Applied → List Check
  digest_check digest ch acc =
      if eqb acc.wanted 0 && is_nil ch.removed_nodes
      then unsettled "deployed_change_identity" "change has no patch/remove nodes to fingerprint"
        ∷ []
      else if ltb 0 acc.wanted
      then record {
        name = "deployed_change_digest";
        passed = eqb acc.applied acc.wanted;
        detail = concat (
            "digest="
            ∷ digest
            ∷ " change_applied="
            ∷ decimal (pos acc.applied)
            ∷ "/"
            ∷ decimal (pos acc.wanted)
            ∷ []);
        unknown = false;
        soft = false;
      }
        ∷ []
      else []

  unfoldable pub change_identity_checks :
      (List PatchId → String) → ChangeEnvelope → Index → String × List Check
  unfolding patch_loop parts_of
  change_identity_checks fingerprint ch idx =
      let digest = fingerprint (parts_of ch) in
      let acc = patch_loop idx ch.patch_nodes (record { applied = 0; wanted = 0; checks = [] }) in
      (
        digest,
        acc.checks ++ (gather (still_present idx) ch.removed_nodes ++ digest_check digest ch acc),
      )

  abbrev pub removed_delta : String → Option Node → Option Node → List Check
  removed_delta id none none = []
  removed_delta id (some before) none =
      passes (named_for "delta_removed:" id) "removed node absent from observed graph" ∷ []
  removed_delta id none (some n) = []
  removed_delta id (some before) (some n) =
      if before.kind == "Node"
      then fails (named_for "delta_removed:" id) "node predicted removed still present in observed"
        ∷ []
      else []

  abbrev of_three : String → ℕ → ℕ → ℤ → List String
  of_three label base obs want =
      label ∷ decimal (pos base) ∷ " obs=" ∷ decimal (pos obs) ∷ " want=" ∷ decimal want ∷ []

  unfoldable pub replica_delta : String → ℕ → ℕ → ℤ → List Check
  replica_delta id base obs want =
      let name = named_for "delta_replicas:" id in
      if ltz (pos base) want && eqb obs base
      then fails name (concat (of_three "scale-up not applied: base=" base obs want)) ∷ []
      else if ltz (pos base) want && ltb obs base
      then fails name
          (concat (of_three "replicas decreased below baseline (base=" base obs want ++ ")" ∷ []))
        ∷ []
      else if eqz (pos obs) want
      then passes name (
          concat
            (of_three "observed replicas advanced toward change (base=" base obs want ++ ")" ∷ []))
        ∷ []
      else []

  abbrev pub patch_delta : Node → Option Node → Option Node → Option ℤ → List Check
  patch_delta p (some before) (some n) (some want) =
      if not (before.kind == "Workload")
      then []
      else replica_delta p.id (workload_replicas (some before)) (workload_replicas (some n)) want
  patch_delta p _ _ _ = []

  abbrev pub or_consistent : List Check → List Check
  or_consistent [] =
      passes "delta_baseline_observed" "no contradictory baseline→observed delta for change seeds"
      ∷ []
  or_consistent (c ∷ cs) = c ∷ cs

  unfoldable pub delta_checks : Snapshot → ChangeEnvelope → Snapshot → List Check
  unfolding replica_delta
  delta_checks base ch observed =
      let before = (build_index base).by_id in
      let after = (build_index observed).by_id in
      or_consistent (
        gather (λ id. removed_delta id (lookup id before) (lookup id after)) ch.removed_nodes
        ++ gather
            (λ p.
              patch_delta p (lookup p.id before) (lookup p.id after)
                (optional_int p.attributes "replicas"))
            ch.patch_nodes)
