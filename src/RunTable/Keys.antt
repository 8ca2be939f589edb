-- ===== src/RunTable/Keys.antt =====
-- The primary key of the table `runs` (internal/persist/schema.go): a tenant has one row of an
-- identifier at most.
use architecture_rehearsal.Prelude.{
  ℕ, ◌+◌, ◌≤◌, ◌≡◌, refl, String, List, [], ◌∷◌, ◌++◌, map, Bool, true, false, not, ◌||◌, eqb,
  arith, Bool-cases, inl, inr, length, filter, if◌then◌else◌, any, All, eq_iff,
}
use architecture_rehearsal.Run.{RehearsalRun}
use architecture_rehearsal.RunTable.{
  Row, first_version, next_version, new_row, violates, is_current, updated_row, update_row, run_org,
  has_key,
}
use architecture_rehearsal.RunTable.Calls.{
  Call, creates, updates, puts, run_calls, Created, Updated, MayWrite, run_calls-keeps,
}

module _ {ℓ} {A : Type ℓ} where
  abbrev pub count : (A → Bool) → List A → ℕ
  count p xs = length (filter p xs)

  count-none : (p : A → Bool) (xs : List A) → any p xs ≡ false → count p xs ≡ 0
  count-none p [] h = refl
  count-none p (x ∷ xs) h = ground (arith, count-none p xs)

  pub count-snoc :
      (p : A → Bool) (xs : List A) (x : A)
      → count p (xs ++ x ∷ []) ≡ count p xs + (if p x then 1 else 0)
  count-snoc p [] x = ground arith
  count-snoc p (y ∷ ys) x = ground (arith, count-snoc p ys x)

  pub count-map :
      (p : A → Bool) (f : A → A) (xs : List A)
      → ((x : A) → p (f x) ≡ p x)
      → count p (map f xs) ≡ count p xs
  count-map p f [] h = refl
  count-map p f (x ∷ xs) h = ground (arith, h x, count-map p f xs h)

  none_of :
      (p : A → Bool) (q : A → Bool) (xs : List A)
      → ((x : A) → q x ≡ true → p x ≡ true)
      → count p xs ≡ 0
      → (count q xs ≡ 0) × All (λ x. (not (p x) || q x) ≡ true) xs
  none_of p q [] sub h = (refl, tt)
  none_of p q (x ∷ xs) sub h =
      let rest = none_of p q xs sub (ground arith) in
      (ground (arith, sub x, rest.0), (ground arith, rest.1))

  -- Where one element at most passes `p`, and one passes the narrower `q`, all that pass `p` pass `q`.
  pub only_one :
      (p : A → Bool) (q : A → Bool) (xs : List A)
      → ((x : A) → q x ≡ true → p x ≡ true)
      → count p xs ≤ 1
      → eqb (count q xs) 0 ≡ false
      → (1 ≤ count p xs) × All (λ x. (not (p x) || q x) ≡ true) xs
  only_one p q [] sub u h = cc
  only_one p q (x ∷ xs) sub u h = elim (Bool-cases (p x)) [
    | inl here ↦
        let rest = none_of p q xs sub (ground arith) in
        (rw here (omega arith), (ground (arith, sub x, rest.0), rest.1))
    | inr other ↦
        let rest = only_one p q xs sub (ground arith) (ground (arith, sub x)) in
        (rw other rest.0, (rw other refl, rest.1))
  ]

abbrev pub UniqueKeys : List Row → Type 0
UniqueKeys rows = (org id : String) → count (has_key org id) rows ≤ 1

pub violates-has_key :
    (r : RehearsalRun) (rows : List Row) (now : ℕ) (org id : String)
    → violates r rows ≡ false
    → has_key org id (new_row r now) ≡ true
    → count (has_key org id) rows ≡ 0
unfolding violates has_key
violates-has_key r rows now org id v h =
    let same_org : run_org r ≡ org = (eq_iff (run_org r) org).0 (ground arith) in
    let same_id : r.id ≡ id = (eq_iff r.id id).0 (ground arith) in
    count-none (has_key org id) rows (rw (← same_org, ← same_id) (ground arith))

Created-UniqueKeys :
    (rows rows' : List Row) (r : RehearsalRun)
    → Created rows r rows'
    → UniqueKeys rows
    → UniqueKeys rows'
Created-UniqueKeys rows rows' r (inl same) u org id = rw same (u org id)
Created-UniqueKeys rows rows' r (inr (now, free, new)) u org id =
    rw (new, count-snoc (has_key org id) rows (new_row (first_version r) now))
      (elim (Bool-cases (has_key org id (new_row (first_version r) now))) [
        | inl here ↦
            rw (here, violates-has_key (first_version r) rows now org id free here) (omega arith)
        | inr other ↦ rw other (omega (arith, u org id))
      ])

-- An update keeps the keys of the rows.
pub count-updated :
    (org id : String) (r : RehearsalRun) (now : ℕ) (rows : List Row)
    → count
        (has_key org id)
        (map (update_row (is_current r) (updated_row (next_version r) now)) rows)
      ≡ count (has_key org id) rows
count-updated org id r now rows =
    count-map (has_key org id) (update_row (is_current r) (updated_row (next_version r) now)) rows
      (λ row. unfold has_key in ground arith)

Updated-UniqueKeys :
    (rows rows' : List Row) (r : RehearsalRun)
    → Updated rows r rows'
    → UniqueKeys rows
    → UniqueKeys rows'
Updated-UniqueKeys rows rows' r (inl same) u org id = rw same (u org id)
Updated-UniqueKeys rows rows' r (inr (now, new)) u org id =
    rw (new, count-updated org id r now rows) (u org id)

any_write : (cs : List Call) → All (MayWrite (λ r. Unit)) cs
any_write [] = tt
any_write (creates r now ∷ cs) = (tt, any_write cs)
any_write (updates r now ∷ cs) = (tt, any_write cs)
any_write (puts r now ∷ cs) = (tt, any_write cs)

-- Whatever runs are created, updated and put, the keys of the table stay distinct.
pub run_calls-UniqueKeys :
    (rows : List Row) (cs : List Call) → UniqueKeys rows → UniqueKeys (run_calls rows cs)
run_calls-UniqueKeys rows cs u =
    run_calls-keeps UniqueKeys (λ r. Unit) Created-UniqueKeys
      (λ rows rows' r t. Updated-UniqueKeys rows rows' r) rows cs (any_write cs) u
