-- ===== src/Prelude/Lists.antt =====
-- Lists measured by native numbers and tested by Boolean predicates.
use Prim.Native.Nat.{ℕ, zero, suc, ◌+◌, ◌≤◌}
use Prim.Native.String.{String}
use mathlib.Core.Path.{◌≡◌, refl, ap}
use mathlib.Core.Logic.{inl, inr}
use mathlib.Core.Bool.{Bool, true, false, ◌||◌}
use mathlib.Core.Option.{Option, none, some}
use mathlib.Core.List.{List, [], ◌∷◌, ◌++◌, map}
use mathlib.Core.List.Memᴰ.{Memᴰ, head, tail}
use native.Mathlib.Omega.{arith}
use text.Mathlib.Text.{◌==◌}
use text.Mathlib.TextEquality.{eq_iff}
use architecture_rehearsal.Prelude.Tests.{if◌then◌else◌, Bool-cases}

module _ {ℓ} {A : Type ℓ} where
  abbrev pub length : List A → ℕ
  length [] = 0
  length (x ∷ xs) = suc (length xs)

  abbrev pub any : (A → Bool) → List A → Bool
  any p [] = false
  any p (x ∷ xs) = p x || any p xs

  abbrev pub filter : (A → Bool) → List A → List A
  filter p [] = []
  filter p (x ∷ xs) = let rest = filter p xs in if p x then x ∷ rest else rest

  -- The first element that passes the test.
  abbrev pub find : (A → Bool) → List A → Option A
  find p [] = none
  find p (x ∷ xs) = if p x then some x else find p xs

  abbrev pub take : ℕ → List A → List A
  take zero xs = []
  take (suc n) [] = []
  take (suc n) (x ∷ xs) = x ∷ take n xs

  abbrev pub All {κ} : (A → Type κ) → List A → Type κ
  All P [] = Unit
  All P (x ∷ xs) = P x × All P xs

  pub length-append : (xs ys : List A) → length (xs ++ ys) ≡ length xs + length ys
  length-append [] ys = omega arith
  length-append (x ∷ xs) ys = omega (arith, length-append xs ys)

  pub length-filter : (p : A → Bool) (xs : List A) → length (filter p xs) ≤ length xs
  length-filter p [] = omega arith
  length-filter p (x ∷ xs) = ground (arith, length-filter p xs)

  pub All-append {κ} : (P : A → Type κ) (xs ys : List A) → All P xs → All P ys → All P (xs ++ ys)
  All-append P [] ys h k = k
  All-append P (x ∷ xs) ys h k = (h.0, All-append P xs ys h.1 k)

  pub All-mem {κ} : (P : A → Type κ) {x : A} (xs : List A) → All P xs → Memᴰ x xs → P x
  All-mem P [] h m = elim m [ ]
  All-mem P (y ∷ ys) h (head e) = rw e h.0
  All-mem P (y ∷ ys) h (tail m) = All-mem P ys h.1 m

  pub All-map {κ μ} :
      {P : A → Type κ} {Q : A → Type μ} (f : (x : A) → P x → Q x) (xs : List A)
      → All P xs
      → All Q xs
  All-map f [] h = tt
  All-map f (x ∷ xs) h = (f x h.0, All-map f xs h.1)

  pub All-zip {κ μ} :
      (P : A → Type κ) (Q : A → Type μ) (xs : List A)
      → All P xs
      → All Q xs
      → All (λ x. P x × Q x) xs
  All-zip P Q [] h k = tt
  All-zip P Q (x ∷ xs) h k = ((h.0, k.0), All-zip P Q xs h.1 k.1)

  pub mem-filter : (p : A → Bool) (xs : List A) → All (λ x. Memᴰ x xs) (filter p xs)
  mem-filter p [] = tt
  mem-filter p (x ∷ xs) =
      let rest = All-map (λ y m. tail m) (filter p xs) (mem-filter p xs) in
      elim (Bool-cases (p x)) [ inl e ↦ rw e (head refl, rest) | inr e ↦ rw e rest ]

  pub All-filter {κ} :
      (P : A → Type κ) (p : A → Bool) (xs : List A) → All P xs → All P (filter p xs)
  All-filter P p [] h = tt
  All-filter P p (x ∷ xs) h = elim (Bool-cases (p x)) [
    | inl e ↦ rw e (h.0, All-filter P p xs h.1)
    | inr e ↦ rw e (All-filter P p xs h.1)
  ]

  pub filter-passes : (p : A → Bool) (xs : List A) → All (λ x. p x ≡ true) (filter p xs)
  filter-passes p [] = tt
  filter-passes p (x ∷ xs) = elim (Bool-cases (p x)) [
    | inl e ↦ rw e (e, filter-passes p xs)
    | inr e ↦ rw e (filter-passes p xs)
  ]

-- The lists of all elements, one after the other.
abbrev pub gather {ℓ κ} : {A : Type ℓ} {B : Type κ} → (A → List B) → List A → List B
gather f [] = []
gather f (x ∷ xs) = f x ++ gather f xs

abbrev pub is_nil {ℓ} : {A : Type ℓ} → List A → Bool
is_nil [] = true
is_nil (x ∷ xs) = false

pub length-map {ℓ κ} :
    {A : Type ℓ} {B : Type κ} (f : A → B) (xs : List A) → length (map f xs) ≡ length xs
length-map f [] = refl
length-map f (x ∷ xs) = ap suc (length-map f xs)

-- Go's test for a string in a slice.
abbrev pub contains : List String → String → Bool
contains xs s = any (λ x. x == s) xs

pub contains-mem : (xs : List String) (s : String) → contains xs s ≡ true → Memᴰ s xs
contains-mem [] s h = cc
contains-mem (x ∷ xs) s h = elim (Bool-cases (x == s)) [
  | inl e ↦ head (rw ((eq_iff x s).0 e) refl)
  | inr e ↦ tail (contains-mem xs s (rw e at h))
]

pub mem-contains : (xs : List String) (s : String) → Memᴰ s xs → contains xs s ≡ true
mem-contains [] s m = elim m [ ]
mem-contains (x ∷ xs) s (head e) = rw ((eq_iff x s).1 (rw e refl)) refl
mem-contains (x ∷ xs) s (tail m) = ground (arith, mem-contains xs s m)

module _ {ℓ} {A : Type ℓ} (p : A → Bool) where
  pub any-append : (xs ys : List A) → any p (xs ++ ys) ≡ (any p xs || any p ys)
  any-append [] ys = refl
  any-append (x ∷ xs) ys = ground (arith, any-append xs ys)

  pub none_passes : (xs : List A) → any p xs ≡ false → All (λ x. p x ≡ false) xs
  none_passes [] h = tt
  none_passes (x ∷ xs) h = ground (arith, none_passes xs)

pub any-map {ℓ κ} :
    {A : Type ℓ} {B : Type κ} (p : B → Bool) (f : A → B) (xs : List A)
    → any p (map f xs) ≡ any (λ x. p (f x)) xs
any-map p f [] = refl
any-map p f (x ∷ xs) = ground (arith, any-map p f xs)

pub any-gather {ℓ κ} :
    {A : Type ℓ} {B : Type κ} (p : B → Bool) (f : A → List B) (xs : List A)
    → any p (gather f xs) ≡ any (λ x. any p (f x)) xs
any-gather p f [] = refl
any-gather p f (x ∷ xs) = ground (arith, any-gather p f xs, any-append p (f x) (gather f xs))
