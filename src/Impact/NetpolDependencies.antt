-- ===== src/Impact/NetpolDependencies.antt =====
-- The dependencies that the detector of network policies looks at (internal/impact/netpol.go), and lemmas on
-- the elements of a list that pass a test.
use architecture_rehearsal.Prelude.{
  ◌≡◌, ◌≢◌, ◌↔◌, ◌⊎◌, refl, inl, inr, Memᴰ, String, List, [], ◌∷◌, filter, is_nil, any, Bool, true,
  false, ◌&&◌, ◌==◌, arith, eq_iff, Bool-cases,
}
use mathlib.Core.List.Memᴰ.{head, tail}
use architecture_rehearsal.Graph.{Edge, ℤ}
use architecture_rehearsal.Impact.Context.{Context, edges_of, baseline_edges}
use architecture_rehearsal.Impact.Netpol.{dependencies}
use architecture_rehearsal.Impact.NetpolSteps.{filter-is_nil}

-- An edge of the proposed graph, or of the baseline where the proposed graph has none, that is a
-- dependency.
abbrev pub IsDependency : Context → Edge → Type 0
IsDependency ctx e =
    (Memᴰ e (edges_of ctx.proposed) × (e.rel ≡ "DEPENDS_ON"))
    ⊎ (((f : Edge) → Memᴰ f (edges_of ctx.proposed) → f.rel ≢ "DEPENDS_ON")
        × Memᴰ e (baseline_edges ctx.baseline)
        × (e.rel ≡ "DEPENDS_ON"))

module _ {ℓ} {A : Type ℓ} where
  pub any-mem : (p : A → Bool) (xs : List A) → any p xs ≡ true → (x : A) × Memᴰ x xs × (p x ≡ true)
  any-mem p [] h = cc h
  any-mem p (x ∷ xs) h = elim (Bool-cases (p x)) [
    | inl e ↦ (x, head refl, e)
    | inr e ↦ let (y, m, k) = any-mem p xs (rw e at h) in (y, tail m, k)
  ]

  pub mem-any : (p : A → Bool) (xs : List A) (y : A) → Memᴰ y xs → p y ≡ true → any p xs ≡ true
  mem-any p [] y m k = elim m [ ]
  mem-any p (x ∷ xs) y (head e) k = rw (rw e at k) refl
  mem-any p (x ∷ xs) y (tail m) k = ground (arith, mem-any p xs y m k)

  any-filter : (p q : A → Bool) (xs : List A) → any p (filter q xs) ≡ any (λ x. q x && p x) xs
  any-filter p q [] = refl
  any-filter p q (x ∷ xs) = ground (arith, any-filter p q xs)

module _ (decimal : ℤ → String) where
  pub dependencies_iff :
      (ctx : Context) (p : Edge → Bool)
      → (any p (dependencies decimal ctx) ≡ true) ↔ ((e : Edge) × IsDependency ctx e × (p e ≡ true))
  unfolding dependencies
  dependencies_iff ctx p =
      let depends : Edge → Bool = λ e. e.rel == "DEPENDS_ON" in
      let xs = edges_of ctx.proposed in
      let ys = baseline_edges ctx.baseline in
      elim (Bool-cases (any depends xs)) [
        | inl given ↦
            let some_given : is_nil (filter depends xs) ≡ false =
              rw (filter-is_nil decimal depends xs, given) refl in
            rw (some_given, any-filter p depends xs)
              (
                λ h.
                    let (e, m, k) = any-mem (λ x. depends x && p x) xs h in
                    (
                      e,
                      inl (m, (eq_iff e.rel "DEPENDS_ON").0 (ground (arith, k))),
                      ground (arith, k),
                    ),
                λ (e, d, k). elim d [
                  | inl (m, rel) ↦
                      mem-any (λ x. depends x && p x) xs e m
                        (ground (arith, k, (eq_iff e.rel "DEPENDS_ON").1 rel))
                  | inr (none_given, m, rel) ↦
                      let (f, m', rel) = any-mem depends xs given in
                      absurd (none_given f m' ((eq_iff f.rel "DEPENDS_ON").0 rel))
                ],
              )
        | inr none_given ↦
            let empty : is_nil (filter depends xs) ≡ true =
              rw (filter-is_nil decimal depends xs, none_given) refl in
            rw (empty, any-filter p depends ys)
              (
                λ h.
                    let (e, m, k) = any-mem (λ x. depends x && p x) ys h in
                    (
                      e,
                      inr (
                        λ f m' rel. cc (
                          none_given,
                          mem-any depends xs f m' ((eq_iff f.rel "DEPENDS_ON").1 rel),
                        ),
                        m,
                        (eq_iff e.rel "DEPENDS_ON").0 (ground (arith, k)),
                      ),
                      ground (arith, k),
                    ),
                λ (e, d, k). elim d [
                  | inl (m, rel) ↦
                      cc (none_given, mem-any depends xs e m ((eq_iff e.rel "DEPENDS_ON").1 rel))
                  | inr (none', m, rel) ↦
                      mem-any (λ x. depends x && p x) ys e m
                        (ground (arith, k, (eq_iff e.rel "DEPENDS_ON").1 rel))
                ],
              )
      ]
