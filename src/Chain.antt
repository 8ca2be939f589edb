-- ===== src/Chain.antt =====
-- internal/chain/chain.go: the evidence chain, with ComputeDigest, canonicalJSON, Digest.Equal and
-- Digest.Short of internal/contract/digest.go and semanticDigest and AssertBindings of
-- internal/analyze/analyze.go. SHA-256 and encoding/json are the functions of the record `Codec`. A nil
-- pointer is `none`. Digests are ASCII, so their bytes are characters.
pub mod Sound
use Prim.Native.String
use architecture_rehearsal.Prelude.{
  ℕ, zero, suc, String, Option, none, some, List, [], ◌∷◌, ◌++◌, Bool, true, false, not, ◌&&◌, ◌||◌,
  ◌==◌, concat, non_empty, if◌then◌else◌,
}
use architecture_rehearsal.Run.{ArtifactDigests}
use architecture_rehearsal.Analyze.{Finding}

-- A share of a coverage is a float64, which is the parameter `Share`.
pub record Coverage (Share : Type 0) : Type 0 where
  pub overall : Share
  pub domains : List (String × Share)
  pub required_missing : List String
  pub gaps : List String

pub record Report (Share : Type 0) : Type 0 where
  pub api_version : String
  pub kind : String
  pub version : String
  pub generated : ℕ
  pub semantic_digest : String
  pub change_id : String
  pub change_title : String
  pub change_kind : String
  pub baseline_id : String
  pub baseline_digest : String
  pub change_digest : String
  pub proposed_digest : String
  pub risk : String
  pub decision : String
  pub summary : String
  pub affected_components : ℕ
  pub critical_paths : ℕ
  pub slo_violations : ℕ
  pub rollback : String
  pub predicted_failures : List String
  pub findings : List Finding
  pub coverage : Coverage Share
  pub cascades : List (List String)
  pub coverage_gaps : List String

-- The type `dig` of `semanticDigest`.
pub record Hashed (Share : Type 0) : Type 0 where
  pub version : String
  pub change_id : String
  pub baseline_id : String
  pub baseline_digest : String
  pub change_digest : String
  pub proposed_digest : String
  pub risk : String
  pub decision : String
  pub affected_components : ℕ
  pub critical_paths : ℕ
  pub slo_violations : ℕ
  pub rollback : String
  pub predicted_failures : List String
  pub findings : List Finding
  pub coverage : Coverage Share

abbrev pub hashed : {Share : Type 0} → Report Share → Hashed Share
hashed r = record {
  version = r.version;
  change_id = r.change_id;
  baseline_id = r.baseline_id;
  baseline_digest = r.baseline_digest;
  change_digest = r.change_digest;
  proposed_digest = r.proposed_digest;
  risk = r.risk;
  decision = r.decision;
  affected_components = r.affected_components;
  critical_paths = r.critical_paths;
  slo_violations = r.slo_violations;
  rollback = r.rollback;
  predicted_failures = r.predicted_failures;
  findings = r.findings;
  coverage = r.coverage;
}

-- What the digests use of other packages: SHA-256 in hexadecimal digits, `json.Marshal` of an artifact and
-- of a value without a type, and `json.Unmarshal`. No artifact here is one that Marshal refuses.
pub record Codec (Snap Chg Share Ver Value : Type 0) : Type 0 where
  pub hash : String → String
  pub snapshot_json : Snap → String
  pub change_json : Chg → String
  pub report_json : Hashed Share → String
  pub verification_json : Ver → String
  pub decode : String → Option Value
  pub encode : Value → String
  pub change_id : Chg → String

pub record ReportBinding : Type 0 where
  pub baseline_digest : String
  pub change_digest : String
  pub report_digest : String

pub record EvidenceChain : Type 0 where
  pub api_version : String
  pub kind : String
  pub id : String
  pub created_at : ℕ
  pub digests : ArtifactDigests
  pub report_binding : ReportBinding
  pub valid : Bool
  pub errors : List String

-- `Digest.Equal`
unfoldable pub equal : String → String → Bool
equal d o = non_empty d && d == o

abbrev first : ℕ → String → String
first zero s = String.[]
first (suc n) String.[] = String.[]
first (suc n) (String.◌∷◌ c s) = String.◌∷◌ c (first n s)

-- `Digest.Short`
unfoldable pub short : String → String
short d = first 12 d

abbrev digest_of : {A : Type 0} → (A → String) → Option A → String
digest_of f none = ""
digest_of f (some a) = f a

-- `ArtifactDigests.ValidateChain`: its error.
unfoldable pub validate_chain : ArtifactDigests → Bool → Option String
validate_chain a require_observed =
    if a.baseline_digest == ""
    then some "missing baselineDigest"
    else if a.change_digest == ""
    then some "missing changeDigest"
    else if a.report_digest == ""
    then some "missing reportDigest"
    else if require_observed && a.observed_digest == ""
    then some "missing observedDigest"
    else none

-- A text in a list if the test fails.
abbrev pub unless : Bool → String → List String
unless true msg = []
unless false msg = msg ∷ []

module _ {Snap Chg Share Ver Value : Type 0} (d : Codec Snap Chg Share Ver Value) where
  abbrev encoded : Option Value → String → String
  encoded none raw = raw
  encoded (some v) raw = d.encode v

  -- `canonicalJSON` of what Marshal writes.
  abbrev pub canonical_json : String → String
  canonical_json raw = encoded (d.decode raw) raw

  -- `ComputeDigest`
  unfoldable pub compute_digest : {A : Type 0} → (A → String) → A → String
  compute_digest marshal a = d.hash (canonical_json (marshal a))

  abbrev pub snapshot_digest : Snap → String
  snapshot_digest s = compute_digest d.snapshot_json s

  abbrev pub change_digest : Chg → String
  change_digest ch = compute_digest d.change_json ch

  abbrev pub semantic_digest : Report Share → String
  semantic_digest r = d.hash (d.report_json (hashed r))

  unfoldable pub build :
      Snap
      → Chg
      → Option Snap
      → Option (Report Share)
      → Option Snap
      → Option Ver
      → ℕ
      → EvidenceChain
  build base ch proposed rep obs vres now =
      let b = snapshot_digest base in
      let c = change_digest ch in
      let r = digest_of semantic_digest rep in
      record {
        api_version = "rehearsal.io/v1beta1";
        kind = "EvidenceChain";
        id = concat ("chain-" ∷ d.change_id ch ∷ []);
        created_at = now;
        digests = record {
          baseline_digest = b;
          change_digest = c;
          proposed_digest = digest_of snapshot_digest proposed;
          report_digest = r;
          observed_digest = digest_of snapshot_digest obs;
          verification_digest = digest_of (compute_digest d.verification_json) vres;
        };
        report_binding = record { baseline_digest = b; change_digest = c; report_digest = r };
        valid = true;
        errors = [];
      }

  unfoldable pub assert_report_matches : Snap → Chg → String → String → Option String
  unfolding equal short
  assert_report_matches base ch expected_baseline expected_change =
      let b = snapshot_digest base in
      let c = change_digest ch in
      if non_empty expected_baseline && not (equal b expected_baseline)
      then some (
          concat
            ("baseline digest mismatch: got " ∷ short b ∷ " want " ∷ short expected_baseline ∷ []))
      else if non_empty expected_change && not (equal c expected_change)
      then some (
          concat ("change digest mismatch: got " ∷ short c ∷ " want " ∷ short expected_change ∷ []))
      else none

  -- AssertBindings, in VerifyChain's words.
  unfoldable pub binding_errors : Report Share → String → String → List String
  unfolding short
  binding_errors rep b c =
      if rep.baseline_digest == "" || rep.change_digest == ""
      then "report binding: report missing content digests (need analyze ≥1.1.0)" ∷ []
      else if non_empty b && not (rep.baseline_digest == b)
      then concat (
          "report binding: baselineDigest mismatch: report="
          ∷ short rep.baseline_digest
          ∷ " live="
          ∷ short b
          ∷ [])
        ∷ []
      else if non_empty c && not (rep.change_digest == c)
      then concat (
          "report binding: changeDigest mismatch: report="
          ∷ short rep.change_digest
          ∷ " live="
          ∷ short c
          ∷ [])
        ∷ []
      else []

  -- The errors in what a report claims of itself.
  abbrev pub claim_errors : Report Share → String → String → List String
  claim_errors rep b c =
      let live = semantic_digest rep in
      unless (rep.baseline_digest == "" || rep.baseline_digest == b)
        "report.baselineDigest != live baseline"
      ++ (unless (rep.change_digest == "" || rep.change_digest == c)
            "report.changeDigest != live change"
          ++ ((if non_empty rep.baseline_digest || non_empty rep.change_digest
                then binding_errors rep b c
                else [])
              ++ unless (rep.semantic_digest == "" || rep.semantic_digest == live) (
                  concat (
                    "report.semanticDigest stale/tampered: field="
                    ∷ short rep.semantic_digest
                    ∷ " recomputed="
                    ∷ short live
                    ∷ []))))

  abbrev pub body_errors : EvidenceChain → String → List String
  body_errors x live =
      unless (x.digests.report_digest == "" || equal live x.digests.report_digest) (
        concat (
          "reportDigest broken: live="
          ∷ short live
          ∷ " chain="
          ∷ short x.digests.report_digest
          ∷ []))

  abbrev pub report_errors : EvidenceChain → Option (Report Share) → String → String → List String
  report_errors x none b c = []
  report_errors x (some rep) b c = claim_errors rep b c ++ body_errors x (semantic_digest rep)

  abbrev pub observed_errors : EvidenceChain → Option Snap → List String
  observed_errors x none = []
  observed_errors x (some obs) =
      unless
        (x.digests.observed_digest == "" || equal (snapshot_digest obs) x.digests.observed_digest)
        "observedDigest broken"

  abbrev pub baseline_errors : EvidenceChain → String → List String
  baseline_errors x b = unless (equal b x.digests.baseline_digest) (
      concat (
        "baselineDigest broken: live="
        ∷ short b
        ∷ " chain="
        ∷ short x.digests.baseline_digest
        ∷ []))

  abbrev pub change_errors : EvidenceChain → String → List String
  change_errors x c = unless (equal c x.digests.change_digest) (
      concat
        ("changeDigest broken: live=" ∷ short c ∷ " chain=" ∷ short x.digests.change_digest ∷ []))

  -- The errors that VerifyChain collects; it fails if there are any.
  unfoldable pub chain_errors :
      EvidenceChain → Snap → Chg → Option (Report Share) → Option Snap → List String
  unfolding binding_errors equal
  chain_errors x base ch rep obs =
      let b = snapshot_digest base in
      let c = change_digest ch in
      baseline_errors x b
      ++ (change_errors x c ++ (report_errors x rep b c ++ observed_errors x obs))

  abbrev is_empty : List String → Bool
  is_empty [] = true
  is_empty (s ∷ ss) = false

  unfoldable pub verify_chain :
      EvidenceChain → Snap → Chg → Option (Report Share) → Option Snap → EvidenceChain
  unfolding chain_errors
  verify_chain x base ch rep obs =
      let errs = chain_errors x base ch rep obs in record x { valid = is_empty errs; errors = errs }
