-- ===== src/Impact/PdbBounds.antt =====
-- When the number of pods that a rollout may take down reaches the replicas (internal/impact/pdb.go).
use architecture_rehearsal.Prelude.{
  ℕ, zero, suc, ◌+◌, ◌*◌, ◌/◌, ◌^◌, ◌≤◌, ◌<◌, ◌≡◌, ◌↔◌, refl, ap, String, some, List, true, false,
  ◌==◌, leb, ltb, arith, Bool-cases, inl, inr, codes,
}
use text.Mathlib.TextEquality.{eq_iff}
use native.Mathlib.Nat.{mul-le-mul_left}
use mathlib.Core.List.{reverse}
use architecture_rehearsal.Graph.{ℤ, pos, negsuc}
use architecture_rehearsal.Impact.Unavailable.{
  negated, to_int, atoi, none_remain, floor_percent, percent_of, parse_max_unavailable,
}

share-all : (r q : ℕ) → 1 ≤ r → (r ≤ (r * q) / 100) ↔ (100 ≤ q)
share-all r q h = (
  λ all. elim (Bool-cases (leb 100 q)) [
    | inl much ↦ ground (arith, much)
    | inr less ↦
        let low : q ≤ 99 = ground (arith, less) in
        absurd (omega (arith, h, all, mul-le-mul_left r low))
  ],
  λ much. omega (arith, mul-le-mul_left r much),
)

abbrev magnitude : ℤ → ℕ
magnitude (pos n) = n
magnitude (negsuc n) = n

none_remain-negated : (r n : ℕ) → 1 ≤ r → r + n < 2 ^ 63 → none_remain r (negated n) ≡ false
unfolding none_remain
none_remain-negated r zero h k = ground (arith, h)
none_remain-negated r (suc n) h k = ground (arith, k)

to_int-pos : (r n : ℕ) → r < 2 ^ 63 → none_remain r (to_int (pos n)) ≡ leb r n
unfolding none_remain
to_int-pos r n k = elim (Bool-cases (ltb n (2 ^ 63))) [
  | inl small ↦ rw small refl
  | inr large ↦ rw large (ground (arith, k, large))
]

to_int-negated : (r n : ℕ) → 1 ≤ r → r + n < 2 ^ 63 → none_remain r (to_int (negated n)) ≡ false
to_int-negated r zero h k = none_remain-negated r zero h k
to_int-negated r (suc n) h k =
    let small : ltb n (2 ^ 63) ≡ true = ground (arith, k) in
    rw small (none_remain-negated r (suc n) h k)

abbrev pub size : ℤ → ℕ
size (pos n) = n
size (negsuc n) = suc n

none_remain-share :
    (r : ℕ) (v : ℤ)
    → 1 ≤ r
    → r < 2 ^ 53
    → r * size v < 2 ^ 53
    → (none_remain r (floor_percent r v) ≡ true) ↔ ((q : ℕ) × (v ≡ pos q) × (100 ≤ q))
unfolding floor_percent
none_remain-share r (pos q) h k exact = rw (to_int-pos r ((r * q) / 100) (omega (arith, k))) (
  λ all. (q, refl, (share-all r q h).0 (ground (arith, all))),
  λ (p, same, much).
      let much' : 100 ≤ q = rw (ap magnitude same) much in
      ground (arith, (share-all r q h).1 much'),
)
none_remain-share r (negsuc n) h k exact = (
  λ all. cc (all, to_int-negated r ((r * suc n + 99) / 100) h (omega (arith, k, exact))),
  λ (p, same, much). cc same,
)

quarter-remains : (r : ℕ) → 1 ≤ r → none_remain r (pos (r / 4)) ≡ false
unfolding none_remain
quarter-remains r h = ground (arith, h)

-- A percentage takes down all pods of a workload, by the first loop's test, exactly when it is 100 or
-- more: any smaller percentage, a negative one and one that is no number leave a pod, as rounding is
-- downwards; and so does the default when nothing is set. The replicas, and the replicas times the
-- percentage, are below 2 ^ 53, where a float64 is exact.
pub percent_takes_all :
    (ms : String) (t : List ℕ) (replicas : ℕ)
    → 1 ≤ replicas
    → replicas < 2 ^ 53
    → replicas * size (atoi t) < 2 ^ 53
    → percent_of (reverse (codes ms)) ≡ some t
    → ((none_remain replicas (parse_max_unavailable ms replicas) ≡ true)
        ↔ ((q : ℕ) × (atoi t ≡ pos q) × (100 ≤ q)))
      × (none_remain replicas (parse_max_unavailable "" replicas) ≡ false)
unfolding parse_max_unavailable
percent_takes_all ms t replicas h few exact given =
    let set : (ms == "") ≡ false = elim (Bool-cases (ms == "")) [
      | inl unset ↦ cc (rw ((eq_iff ms "").0 unset) at given)
      | inr given ↦ given
    ] in
    (rw (set, given) (none_remain-share replicas (atoi t) h few exact), quarter-remains replicas h)
