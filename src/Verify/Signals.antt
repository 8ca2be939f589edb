-- ===== src/Verify/Signals.antt =====
-- internal/verify/verify.go: which components a finding names, which pods belong to them, and what
-- the attributes of a pod or a claim say. A list attribute `eventReasons` counts by what `fmt.Sprint` shows.
use mathlib.Core.List.{reverse}
use architecture_rehearsal.Prelude.{
  ℕ, String, some, List, [], ◌∷◌, ◌++◌, map, filter, gather, is_nil, any, Bool, false, not, ◌&&◌,
  ◌||◌, ◌==◌, lookup, codes, text_eq, has_prefix, contains_text, starts, ascii_lower, join,
  non_empty, leb, eqb, concat, if◌then◌else◌,
}
use architecture_rehearsal.Graph.{Node, Index, ℤ, attr_string, attr_bool, or_nil}
use architecture_rehearsal.Graph.Values.{sprint, as_array}
use architecture_rehearsal.Policy.Syntax.{split}
use architecture_rehearsal.Verify.{Prediction, is_some}

abbrev pub is_pvc : String → Bool
is_pvc c = starts c "pvc/"

abbrev pub is_workload : String → Bool
is_workload c = starts c "workload/"

abbrev first_workload : List String → List String
first_workload [] = []
first_workload (c ∷ cs) = let rest = first_workload cs in if is_workload c then c ∷ [] else rest

-- The claims, then the first workload.
unfoldable pub primary_survivor_components : List String → List String
primary_survivor_components comps = filter is_pvc comps ++ first_workload comps

unfoldable pub components_for_scenario : Prediction → String → List String
components_for_scenario pred scenario =
    gather (λ f. f.components) (filter (λ f. f.scenario == scenario) pred.findings)

abbrev pub nodes_of_kind : Index → String → List Node
nodes_of_kind idx kind = or_nil (lookup kind idx.by_kind)

abbrev is_workload_path : List (List ℕ) → Bool
is_workload_path [] = false
is_workload_path (k ∷ ks) = text_eq k (codes "workload")

-- The parts of a path from its end: a name and a namespace, with a part before them.
abbrev belongs : Node → List (List ℕ) → Bool
belongs p (name ∷ namespace ∷ before ∷ rest) =
    text_eq (codes p.namespace) namespace
    && (text_eq (codes p.name) name || has_prefix (codes p.name) (name ++ b'-' ∷ []))
belongs p _ = false

unfoldable pub pod_matches_components : Node → List String → Bool
unfolding split
pod_matches_components p comps =
    any
      (λ c. let parts = split b'/' (codes c) in is_workload_path parts && belongs p (reverse parts))
      comps

-- The name ends in a dash and a digit, after at least one other byte.
abbrev ends_in_ordinal : List ℕ → Bool
ends_in_ordinal (digit ∷ dash ∷ before ∷ rest) = eqb dash b'-' && (leb b'0' digit && leb digit b'9')
ends_in_ordinal _ = false

unfoldable pub pod_looks_stateful : Node → Bool
pod_looks_stateful p = ends_in_ordinal (reverse (codes p.name))

-- Some needle in the texts, joined by spaces and in lower case.
abbrev mentions : List String → List String → Bool
mentions needles parts =
    let blob = map ascii_lower (join (b' ' ∷ []) (map codes parts)) in
    any (λ n. contains_text blob (codes n)) needles

abbrev pub cni_needles : List String
cni_needles =
    "failedcreatepodsandbox" ∷ "failed to assign an ip" ∷ "failed to assign ip" ∷ "no free ips"
    ∷ "ipamd" ∷ "networkplugin" ∷ "network plugin cni failed" ∷ "failed to setup network" ∷ []

-- `decimal` shows an integer.
unfoldable pub has_cni_failure_signal : (ℤ → String) → Node → Bool
unfolding ascii_lower contains_text join
has_cni_failure_signal decimal p = mentions cni_needles (
    attr_string (some p) "reason"
    ∷ attr_string (some p) "message"
    ∷ attr_string (some p) "waitingReason"
    ∷ attr_string (some p) "containerReason"
    ∷ map (λ x. sprint decimal (some x)) (as_array (lookup "eventReasons" p.attributes)))

abbrev pub attach_needles : List String
attach_needles =
    "failedattachvolume" ∷ "multi-attach" ∷ "multi attach" ∷ "volumeattach" ∷ "attachvolume"
    ∷ "waitforfirstconsumer" ∷ []

unfoldable pub has_volume_attach_failure : Node → Bool
unfolding ascii_lower contains_text join
has_volume_attach_failure p = mentions attach_needles (
    attr_string (some p) "reason"
    ∷ attr_string (some p) "message"
    ∷ attr_string (some p) "waitingReason"
    ∷ [])

unfoldable pub has_eviction_signal : Node → Bool
unfolding ascii_lower contains_text join
has_eviction_signal p =
    mentions ("evict" ∷ "disruption" ∷ "pdb" ∷ [])
      (attr_string (some p) "reason" ∷ attr_string (some p) "message" ∷ [])

unfoldable pub has_volume_attach_failure_any : Index → List String → Bool
unfolding has_volume_attach_failure pod_matches_components
has_volume_attach_failure_any idx comps =
    any (λ p. pod_matches_components p comps && has_volume_attach_failure p)
      (nodes_of_kind idx "Pod")

unfoldable pub node_name_present : Index → String → Bool
node_name_present idx name =
    if name == "" then false else any (λ n. n.name == name) (nodes_of_kind idx "Node")

abbrev is_rwo : String → Bool
is_rwo mode = not (non_empty mode && (not (mode == "ReadWriteOnce") && not (mode == "RWO")))

unfoldable pub rwo_pvc_bound_node_missing : Index → Node → Bool
rwo_pvc_bound_node_missing idx pvc =
    let bound = attr_string (some pvc) "boundNode" in
    if not (is_rwo (attr_string (some pvc) "accessMode"))
    then false
    else if bound == ""
    then false
    else if is_some (lookup (concat ("node/" ∷ bound ∷ [])) idx.by_id)
    then false
    else not (any (λ n. n.name == bound) (nodes_of_kind idx "Node"))

abbrev second_is : String → List (List ℕ) → Bool
second_is s (first ∷ second ∷ third ∷ rest) = text_eq second (codes s)
second_is s _ = false

unfoldable pub pvc_in_scope : Node → List String → Bool
unfolding split
pvc_in_scope pvc comps =
    is_nil comps
    || any
        (λ c.
          c == pvc.id
          || ((is_workload c && second_is pvc.namespace (split b'/' (codes c)))
              || (is_pvc c && c == pvc.id)))
        comps

-- The pod waits for a place.
abbrev pub waits : Node → Bool
waits n = attr_string (some n) "phase" == "Pending" || attr_bool (some n) "unschedulable"
