-- ===== src/Tests/Chains.antt =====
-- The evidence chain of internal/chain/chain.go over artifacts that are single switches.
use architecture_rehearsal.Prelude.{
  ◌≡◌, refl, String, Option, none, some, [], Bool, true, false, non_empty, ne-==, arith, ◌==◌,
  eq_iff, Bool-cases, inl, inr, if◌then◌else◌,
}
use architecture_rehearsal.Chain.{
  Codec, Report, build, verify_chain, chain_errors, equal, binding_errors, compute_digest,
}
use architecture_rehearsal.Chain.Sound.{
  IsReadable, IsFaithful, SameIfBoth, SameReports, chain_errors-detects, build-verify_chain,
}

abbrev bit : Bool → String
bit true = "1f"
bit false = "0e"

apart_bits : (a b : Bool) → bit a ≡ bit b → a ≡ b
apart_bits true true h = refl
apart_bits false false h = refl
apart_bits true false h = absurd (ne-== "1f" "0e" refl h)
apart_bits false true h = absurd (ne-== "0e" "1f" refl h)

apart_tails : (s t : String) → String.◌∷◌ "#" s ≡ String.◌∷◌ "#" t → s ≡ t
apart_tails s t h = ground (arith, h)

-- A hash without collisions.
abbrev marked : String → String
marked s = String.◌∷◌ "#" s

filled_mark : (s : String) → non_empty (marked s) ≡ true
filled_mark s = elim (Bool-cases (marked s == "")) [
  | inl e ↦ cc ((eq_iff (marked s) "").0 e)
  | inr e ↦ rw e refl
]

abbrev value_of : String → Option Bool
value_of s = if s == "1f" then some true else if s == "0e" then some false else none

abbrev codec : Codec Bool Bool Bool Bool Bool
codec = record {
  hash = marked;
  snapshot_json = bit;
  change_json = bit;
  report_json = λ r. r.risk;
  verification_json = bit;
  decode = value_of;
  encode = bit;
  change_id = bit;
}

read_bit : (b : Bool) → value_of (bit b) ≡ some b
read_bit true = refl
read_bit false = refl

some-apart : (a b : Bool) → value_of (bit a) ≡ value_of (bit b) → a ≡ b
some-apart true true h = refl
some-apart false false h = refl
some-apart true false h = cc h
some-apart false true h = cc h

bit-IsReadable : IsReadable codec bit
bit-IsReadable = (λ b. (b, read_bit b), some-apart)

codec-IsFaithful : IsFaithful codec
codec-IsFaithful = record {
  hash = (filled_mark, apart_tails);
  values = apart_bits;
  snapshots = bit-IsReadable;
  changes = bit-IsReadable;
}

abbrev honest : Report Bool
honest = record {
  api_version = "";
  kind = "";
  version = "1";
  generated = 3;
  semantic_digest = "#high";
  change_id = "c";
  change_title = "";
  change_kind = "";
  baseline_id = "b";
  baseline_digest = "#1f";
  change_digest = "#0e";
  proposed_digest = "";
  risk = "high";
  decision = "block";
  summary = "one summary";
  affected_components = 0;
  critical_paths = 0;
  slo_violations = 0;
  rollback = "unknown";
  predicted_failures = [];
  findings = [];
  coverage = record { overall = true; domains = []; required_missing = []; gaps = [] };
  cascades = [];
  coverage_gaps = [];
}

-- Another summary, which the digest does not cover.
abbrev reworded : Report Bool
reworded = record honest { summary = "another" }

chain_errors-detects_example :
    (true ≡ true)
    × (false ≡ false)
    × SameReports (some reworded) (some honest)
    × SameIfBoth (some false) (some false)
unfolding chain_errors build equal binding_errors compute_digest
chain_errors-detects_example =
    chain_errors-detects codec true true false false none (some false) (some false) (some honest)
      (some reworded) none 7 codec-IsFaithful (λ e. refl) refl

build-verify_chain_example :
    let x = build codec true false none (some honest) (some false) none 7 in
    verify_chain codec x true false (some honest) (some false) ≡ x
unfolding compute_digest
build-verify_chain_example =
    build-verify_chain codec true false none (some false) (some honest) none 7 filled_mark
      (refl, refl, refl)
