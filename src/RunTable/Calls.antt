-- ===== src/RunTable/Calls.antt =====
-- The methods that write the table `runs` (internal/persist/store.go) in any order.
use architecture_rehearsal.Prelude.{
  ℕ, ◌≡◌, refl, ◌⊎◌, Option, none, some, List, [], ◌∷◌, ◌++◌, map, false, ◌==◌, eqb, Bool-cases,
  All, inl, inr, length, filter,
}
use architecture_rehearsal.Run.{RehearsalRun}
use architecture_rehearsal.RunTable.{
  Row, create_run, update_run, put_run, put_over, get_run, first_version, next_version, new_row,
  violates, is_current, updated_row, update_row, run_org,
}

pub data Call : Type 0 where
  creates : RehearsalRun → ℕ → Call
  updates : RehearsalRun → ℕ → Call
  puts : RehearsalRun → ℕ → Call

-- The runs that are written over others pass a test.
abbrev pub MayWrite : (RehearsalRun → Type 0) → Call → Type 0
MayWrite May (creates r now) = Unit
MayWrite May (updates r now) = May r
MayWrite May (puts r now) = May r

unfoldable pub step : List Row → Call → List Row
step rows (creates r now) = (create_run rows r now).rows
step rows (updates r now) = (update_run rows r now).rows
step rows (puts r now) = (put_run rows r now).rows

unfoldable pub run_calls : List Row → List Call → List Row
unfolding step
run_calls rows [] = rows
run_calls rows (c ∷ cs) = run_calls (step rows c) cs

-- What a creation and an update do to the table with the run `r`.
abbrev pub Created : List Row → RehearsalRun → List Row → Type 0
Created rows r rows' =
    (rows' ≡ rows)
    ⊎ ((now : ℕ) × (violates (first_version r) rows ≡ false)
        × (rows' ≡ rows ++ new_row (first_version r) now ∷ []))

abbrev pub Updated : List Row → RehearsalRun → List Row → Type 0
Updated rows r rows' =
    (rows' ≡ rows)
    ⊎ ((now : ℕ) × (rows'
          ≡ map (update_row (is_current r) (updated_row (next_version r) now)) rows))

pub create_run-Created :
    (rows : List Row) (r : RehearsalRun) (now : ℕ) → Created rows r (create_run rows r now).rows
unfolding create_run
create_run-Created rows r now = elim (Bool-cases (r.id == "")) [
  | inl no_id ↦ rw no_id (inl refl)
  | inr id ↦ rw id (elim (Bool-cases (run_org r == "")) [
    | inl no_org ↦ rw no_org (inl refl)
    | inr org ↦ rw org (elim (Bool-cases (violates (first_version r) rows)) [
      | inl clash ↦ rw clash (inl refl)
      | inr free ↦ rw free (inr (now, refl, refl))
    ])
  ])
]

pub update_run-Updated :
    (rows : List Row) (r : RehearsalRun) (now : ℕ) → Updated rows r (update_run rows r now).rows
unfolding update_run
update_run-Updated rows r now = elim (Bool-cases (r.id == "")) [
  | inl no_id ↦ rw no_id (inl refl)
  | inr id ↦ rw id (elim (Bool-cases (run_org r == "")) [
    | inl no_org ↦ rw no_org (inl refl)
    | inr org ↦ rw org (elim (Bool-cases (eqb (length (filter (is_current r) rows)) 0)) [
      | inl stale ↦ rw stale (inl refl)
      | inr met ↦ rw met (inr (now, refl))
    ])
  ])
]

put_over-Written :
    (existing : Option RehearsalRun) (rows : List Row) (r : RehearsalRun) (now : ℕ)
    → let rows' = (put_over existing rows r now).rows in Created rows r rows' ⊎ Updated rows r rows'
put_over-Written none rows r now = inl (create_run-Created rows r now)
put_over-Written (some old) rows r now = elim (Bool-cases (run_org old == run_org r)) [
  | inl same ↦ rw (same, put_over) (inr (update_run-Updated rows r now))
  | inr other ↦ rw (other, put_over) (inl (inl refl))
]

pub put_run-Written :
    (rows : List Row) (r : RehearsalRun) (now : ℕ)
    → let rows' = (put_run rows r now).rows in Created rows r rows' ⊎ Updated rows r rows'
unfolding put_run
put_run-Written rows r now = put_over-Written (get_run rows (run_org r) r.id) rows r now

-- A property of the table that creations keep, and updates where they may write, all calls keep.
pub run_calls-keeps :
    (P : List Row → Type 0) (May : RehearsalRun → Type 0)
    → ((rows rows' : List Row) (r : RehearsalRun) → Created rows r rows' → P rows → P rows')
    → ((rows rows' : List Row) (r : RehearsalRun) → May r → Updated rows r rows' → P rows → P rows')
    → (rows : List Row) (cs : List Call) → All (MayWrite May) cs
    → P rows
    → P (run_calls rows cs)
unfolding run_calls step
run_calls-keeps P May c u rows [] m h = h
run_calls-keeps P May c u rows (creates r now ∷ cs) m h =
    run_calls-keeps P May c u (create_run rows r now).rows cs m.1
      (c rows _ r (create_run-Created rows r now) h)
run_calls-keeps P May c u rows (updates r now ∷ cs) m h =
    run_calls-keeps P May c u (update_run rows r now).rows cs m.1
      (u rows _ r m.0 (update_run-Updated rows r now) h)
run_calls-keeps P May c u rows (puts r now ∷ cs) m h =
    run_calls-keeps P May c u (put_run rows r now).rows cs m.1 (elim (put_run-Written rows r now) [
      | inl created ↦ c rows _ r created h
      | inr updated ↦ u rows _ r m.0 updated h
    ])
