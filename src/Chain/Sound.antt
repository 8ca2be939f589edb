-- ===== src/Chain/Sound.antt =====
-- What the verification of an evidence chain (internal/chain/chain.go) guarantees.
use architecture_rehearsal.Prelude.{
  ℕ, ◌≡◌, refl, ap, sym, ◌∙◌, String, Option, none, some, List, [], ◌∷◌, ◌++◌, Bool, true, false,
  ◌||◌, ◌==◌, arith, non_empty,
}
use text.Mathlib.TextEquality.{eq_iff}
use architecture_rehearsal.Chain.{
  Codec, Report, hashed, canonical_json, compute_digest, snapshot_digest, change_digest,
  semantic_digest, EvidenceChain, equal, unless, build, report_errors, observed_errors,
  baseline_errors, change_errors, claim_errors, body_errors, binding_errors, chain_errors,
  verify_chain,
}

append-none : (xs ys : List String) → xs ++ ys ≡ [] → (xs ≡ []) × (ys ≡ [])
append-none [] ys h = (refl, h)
append-none (x ∷ xs) ys h = cc h

unless-none : (b : Bool) (msg : String) → unless b msg ≡ [] → b ≡ true
unless-none true msg h = refl
unless-none false msg h = cc h

equal-≡ : (x y : String) → equal x y ≡ true → x ≡ y
unfolding equal
equal-≡ x y h = (eq_iff x y).0 (ground (arith, h))

unless-true : (b : Bool) (msg : String) → b ≡ true → unless b msg ≡ []
unless-true b msg h = rw h refl

equal_self : (x : String) → non_empty x ≡ true → equal x x ≡ true
unfolding equal
equal_self x h = ground (arith, h, (eq_iff x x).1 refl)

filled : (x : String) → non_empty x ≡ true → (x == "") ≡ false
filled x h = ground (arith, h)

same_text : (x : String) → (x == x) ≡ true
same_text x = (eq_iff x x).1 refl

given_text : (x y : String) → x ≡ y → non_empty y ≡ true → (x == "") ≡ false
given_text x y e h = rw e (filled y h)

||-true : (b : Bool) → (b || true) ≡ true
||-true true = refl
||-true false = refl

-- A digest is never empty, and is that of one artifact only.
abbrev pub IsDigest : {A : Type 0} → (A → String) → Type 0
IsDigest {A} f = ((x : A) → non_empty (f x) ≡ true) × ((x y : A) → f x ≡ f y → x ≡ y)

-- A test against a recorded digest, which is skipped where that is empty.
checked_digest :
    {A : Type 0} (f : A → String) (x y : A)
    → IsDigest f
    → (f y == "" || equal (f x) (f y)) ≡ true
    → x ≡ y
checked_digest f x y (filled, apart) h =
    apart x y (equal-≡ (f x) (f y) (ground (arith, filled y, h)))

-- Where both are given, the same.
abbrev pub SameIfBoth : {A : Type 0} → Option A → Option A → Type 0
SameIfBoth (some x) (some y) = x ≡ y
SameIfBoth _ _ = Unit

-- The two reports agree in each field that `semanticDigest` reads.
abbrev pub SameReport : {S : Type 0} → Report S → Report S → Type 0
SameReport r s =
    ((r.version ≡ s.version) × (r.change_id ≡ s.change_id) × (r.baseline_id ≡ s.baseline_id))
    × ((r.baseline_digest ≡ s.baseline_digest)
        × (r.change_digest ≡ s.change_digest)
        × (r.proposed_digest ≡ s.proposed_digest))
    × ((r.risk ≡ s.risk) × (r.decision ≡ s.decision) × (r.rollback ≡ s.rollback))
    × ((r.affected_components ≡ s.affected_components)
        × (r.critical_paths ≡ s.critical_paths)
        × (r.slo_violations ≡ s.slo_violations))
    × ((r.predicted_failures ≡ s.predicted_failures)
        × (r.findings ≡ s.findings)
        × (r.coverage ≡ s.coverage))

abbrev pub SameReports : {S : Type 0} → Option (Report S) → Option (Report S) → Type 0
SameReports (some r) (some s) = SameReport r s
SameReports _ _ = Unit

hashed-SameReport : {S : Type 0} (r s : Report S) → hashed r ≡ hashed s → SameReport r s
hashed-SameReport r s e = (
  (ap (λ h. h.version) e, ap (λ h. h.change_id) e, ap (λ h. h.baseline_id) e),
  (ap (λ h. h.baseline_digest) e, ap (λ h. h.change_digest) e, ap (λ h. h.proposed_digest) e),
  (ap (λ h. h.risk) e, ap (λ h. h.decision) e, ap (λ h. h.rollback) e),
  (ap (λ h. h.affected_components) e, ap (λ h. h.critical_paths) e, ap (λ h. h.slo_violations) e),
  (ap (λ h. h.predicted_failures) e, ap (λ h. h.findings) e, ap (λ h. h.coverage) e),
)

module _ {Snap Chg Share Ver Value : Type 0} (d : Codec Snap Chg Share Ver Value) where
  -- What Marshal writes can be read, and what is read of two artifacts differs if they do.
  abbrev pub IsReadable : {A : Type 0} → (A → String) → Type 0
  IsReadable {A} marshal =
      ((x : A) → (v : Value) × (d.decode (marshal x) ≡ some v))
      × ((x y : A) → d.decode (marshal x) ≡ d.decode (marshal y) → x ≡ y)

  -- JSON keeps apart what is hashed of two reports.
  abbrev pub AreApart : Option (Report Share) → Option (Report Share) → Type 0
  AreApart (some r) (some s) =
      d.report_json (hashed r) ≡ d.report_json (hashed s) → hashed r ≡ hashed s
  AreApart _ _ = Unit

  -- SHA-256 has no collisions, and JSON keeps apart values, snapshots and changes.
  pub record IsFaithful : Type 0 where
    pub hash : IsDigest d.hash
    pub values : (v w : Value) → d.encode v ≡ d.encode w → v ≡ w
    pub snapshots : IsReadable d.snapshot_json
    pub changes : IsReadable d.change_json

  compute-IsDigest :
      {A : Type 0} (marshal : A → String)
      → IsFaithful
      → IsReadable marshal
      → IsDigest (compute_digest d marshal)
  unfolding compute_digest
  compute-IsDigest marshal faith readable = (
    λ x. faith.hash.0 (canonical_json d (marshal x)),
    λ x y e.
        let (v, read) = readable.0 x in
        let (w, read') = readable.0 y in
        let same : d.encode v ≡ d.encode w =
          rw (read, read') at
            (faith.hash.1 (canonical_json d (marshal x)) (canonical_json d (marshal y)) e) in
        readable.1 x y (read ∙ (ap some (faith.values v w same) ∙ sym read')),
  )

  body_errors-none :
      (x : EvidenceChain) (r r' : Report Share)
      → IsFaithful
      → AreApart (some r') (some r)
      → x.digests.report_digest ≡ semantic_digest d r
      → body_errors d x (semantic_digest d r') ≡ []
      → SameReport r' r
  body_errors-none x r r' faith apart same h =
      let json =
        checked_digest d.hash (d.report_json (hashed r')) (d.report_json (hashed r)) faith.hash
          (rw same at (unless-none _ _ h)) in
      hashed-SameReport r' r (apart json)

  report_errors-none :
      (x : EvidenceChain) (rep rep' : Option (Report Share)) (b c : String)
      → IsFaithful
      → AreApart rep' rep
      → ((r : Report Share) → rep ≡ some r → x.digests.report_digest ≡ semantic_digest d r)
      → report_errors d x rep' b c ≡ []
      → SameReports rep' rep
  report_errors-none x none none b c faith apart same h = tt
  report_errors-none x none (some r') b c faith apart same h = tt
  report_errors-none x (some r) none b c faith apart same h = tt
  report_errors-none x (some r) (some r') b c faith apart same h =
      body_errors-none x r r' faith apart (same r refl)
        (append-none (claim_errors d r' b c) (body_errors d x (semantic_digest d r')) h).1

  observed_errors-none :
      (x : EvidenceChain) (obs obs' : Option Snap)
      → IsDigest (snapshot_digest d)
      → ((s : Snap) → obs ≡ some s → x.digests.observed_digest ≡ snapshot_digest d s)
      → observed_errors d x obs' ≡ []
      → SameIfBoth obs' obs
  observed_errors-none x none none ds same h = tt
  observed_errors-none x none (some s') ds same h = tt
  observed_errors-none x (some s) none ds same h = tt
  observed_errors-none x (some s) (some s') ds same h =
      checked_digest (snapshot_digest d) s' s ds (rw (same s refl) at (unless-none _ _ h))

  -- Where SHA-256 has no collisions and JSON keeps artifacts apart, a chain that was built is verified
  -- without errors only against the baseline and the change that it was built of, against the observed
  -- snapshot that it was built of, where there is one on both sides, and against a report that agrees
  -- with its own, where there is one on both sides, in each field that the semantic digest covers: the
  -- version, the identifiers and digests, the risk, the decision, the rollback, the counts, the
  -- predicted failures, the findings and the coverage.
  pub chain_errors-detects :
      (base base' : Snap) (ch ch' : Chg) (proposed obs obs' : Option Snap)
      (rep rep' : Option (Report Share)) (vres : Option Ver) (now : ℕ)
      → IsFaithful
      → AreApart rep' rep
      → chain_errors d (build d base ch proposed rep obs vres now) base' ch' rep' obs' ≡ []
      → (base' ≡ base) × (ch' ≡ ch) × SameReports rep' rep × SameIfBoth obs' obs
  unfolding chain_errors build
  chain_errors-detects base base' ch ch' proposed obs obs' rep rep' vres now faith apart h =
      let ds = compute-IsDigest d.snapshot_json faith faith.snapshots in
      let dc = compute-IsDigest d.change_json faith faith.changes in
      let x = build d base ch proposed rep obs vres now in
      let b = snapshot_digest d base' in
      let c = change_digest d ch' in
      let reports = report_errors d x rep' b c in
      let (e₁, h₁) =
        append-none (baseline_errors d x b)
          (change_errors d x c ++ (reports ++ observed_errors d x obs')) h in
      let (e₂, h₂) = append-none (change_errors d x c) (reports ++ observed_errors d x obs') h₁ in
      let (e₃, e₄) = append-none reports (observed_errors d x obs') h₂ in
      (
        ds.1 base' base (equal-≡ b (snapshot_digest d base) (unless-none _ _ e₁)),
        dc.1 ch' ch (equal-≡ c (change_digest d ch) (unless-none _ _ e₂)),
        report_errors-none x rep rep' b c faith apart (λ r k. rw k refl) e₃,
        observed_errors-none x obs obs' ds (λ s k. rw k refl) e₄,
      )

  -- A hash is never empty.
  abbrev pub IsFilled : Type 0
  IsFilled = (s : String) → non_empty (d.hash s) ≡ true

  filled_snapshot : IsFilled → (s : Snap) → non_empty (snapshot_digest d s) ≡ true
  unfolding compute_digest
  filled_snapshot full s = full (canonical_json d (d.snapshot_json s))

  filled_change : IsFilled → (ch : Chg) → non_empty (change_digest d ch) ≡ true
  unfolding compute_digest
  filled_change full ch = full (canonical_json d (d.change_json ch))

  -- A report that claims the digests of the artifacts and of its own body.
  abbrev pub IsHonest : Snap → Chg → Option (Report Share) → Type 0
  IsHonest base ch none = Unit
  IsHonest base ch (some rep) =
      (rep.baseline_digest ≡ snapshot_digest d base)
      × (rep.change_digest ≡ change_digest d ch)
      × (rep.semantic_digest ≡ semantic_digest d rep)

  claim_errors-honest :
      (base : Snap) (ch : Chg) (rep : Report Share)
      → IsFilled
      → IsHonest base ch (some rep)
      → claim_errors d rep (snapshot_digest d base) (change_digest d ch) ≡ []
  unfolding binding_errors
  claim_errors-honest base ch rep full h =
      let b = filled_snapshot full base in
      let c = filled_change full ch in
      rw
        (
          given_text rep.baseline_digest (snapshot_digest d base) h.0 b,
          given_text rep.change_digest (change_digest d ch) h.1 c,
          (eq_iff rep.baseline_digest (snapshot_digest d base)).1 h.0,
          (eq_iff rep.change_digest (change_digest d ch)).1 h.1,
          (eq_iff rep.semantic_digest (semantic_digest d rep)).1 h.2,
          filled (snapshot_digest d base) b,
          filled (change_digest d ch) c,
        )
        (unless-true _ _ (||-true (rep.semantic_digest == "")))

  body_errors-same :
      (x : EvidenceChain) (rep : Report Share)
      → IsFilled
      → x.digests.report_digest ≡ semantic_digest d rep
      → body_errors d x (semantic_digest d rep) ≡ []
  body_errors-same x rep full same = rw same (
      unless-true _ _
        (rw (equal_self (semantic_digest d rep) (full (d.report_json (hashed rep)))) (||-true _)))

  report_errors-honest :
      (x : EvidenceChain) (base : Snap) (ch : Chg) (rep : Option (Report Share))
      → IsFilled
      → IsHonest base ch rep
      → ((r : Report Share) → rep ≡ some r → x.digests.report_digest ≡ semantic_digest d r)
      → report_errors d x rep (snapshot_digest d base) (change_digest d ch) ≡ []
  report_errors-honest x base ch none full h same = refl
  report_errors-honest x base ch (some r) full h same =
      rw (claim_errors-honest base ch r full h) (body_errors-same x r full (same r refl))

  observed_errors-same :
      (x : EvidenceChain) (obs : Option Snap)
      → IsFilled
      → ((s : Snap) → obs ≡ some s → x.digests.observed_digest ≡ snapshot_digest d s)
      → observed_errors d x obs ≡ []
  observed_errors-same x none full same = refl
  observed_errors-same x (some s) full same =
      rw (same s refl) (
        unless-true _ _
          (rw (equal_self (snapshot_digest d s) (filled_snapshot full s)) (||-true _)))

  -- What was built is verified: a chain is left as it is, valid and without errors, when it is
  -- verified against the artifacts that it was built of, if the report claims their digests and that
  -- of its own body, where a hash is never empty.
  pub build-verify_chain :
      (base : Snap) (ch : Chg) (proposed obs : Option Snap) (rep : Option (Report Share))
      (vres : Option Ver) (now : ℕ)
      → IsFilled
      → IsHonest base ch rep
      → let x = build d base ch proposed rep obs vres now in verify_chain d x base ch rep obs ≡ x
  unfolding verify_chain chain_errors build
  build-verify_chain base ch proposed obs rep vres now full h =
      let x = build d base ch proposed rep obs vres now in
      rw
        (
          equal_self (snapshot_digest d base) (filled_snapshot full base),
          equal_self (change_digest d ch) (filled_change full ch),
          report_errors-honest x base ch rep full h (λ r k. rw k refl),
          observed_errors-same x obs full (λ s k. rw k refl),
        )
        refl
