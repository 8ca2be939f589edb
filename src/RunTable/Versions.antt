-- ===== src/RunTable/Versions.antt =====
-- The optimistic versions of UpdateRun (internal/persist/store.go).
use architecture_rehearsal.Prelude.{
  ℕ, ◌≤◌, ◌≡◌, refl, ap, ◌∙◌, String, none, some, List, [], ◌∷◌, ◌++◌, map, Bool, true, false, not,
  ◌||◌, ◌==◌, eqb, ltb, arith, Bool-cases, inl, inr, All,
}
use architecture_rehearsal.Run.{RehearsalRun}
use architecture_rehearsal.RunTable.{
  Row, conflict, first_version, next_version, new_row, violates, is_current, updated_row,
  update_row, run_org, has_key, update_run,
}
use architecture_rehearsal.RunTable.Calls.{
  Call, run_calls, Created, Updated, MayWrite, run_calls-keeps,
}
use architecture_rehearsal.RunTable.Keys.{
  count, only_one, UniqueKeys, count-snoc, count-updated, violates-has_key,
}

-- A run that was read with its version, which is not 0.
abbrev pub IsVersioned : RehearsalRun → Type 0
IsVersioned r = eqb r.version 0 ≡ false

-- The row is of another run, or of a later version than `version`.
unfoldable newer : String → String → ℕ → Row → Bool
unfolding has_key
newer org id version row = not (has_key org id row) || ltb version row.version

-- The run is in the table, at a later version than `version`.
abbrev IsPast : String → String → ℕ → List Row → Type 0
IsPast org id version rows =
    (1 ≤ count (has_key org id) rows) × All (λ row. newer org id version row ≡ true) rows

All-snoc :
    (P : Row → Type 0) (rows : List Row) (row : Row) → All P rows → P row → All P (rows ++ row ∷ [])
All-snoc P [] row h p = (p, tt)
All-snoc P (k ∷ ks) row h p = (h.0, All-snoc P ks row h.1 p)

All-map :
    (P Q : Row → Type 0) (f : Row → Row) (rows : List Row)
    → ((row : Row) → P row → Q (f row))
    → All P rows
    → All Q (map f rows)
All-map P Q f [] k h = tt
All-map P Q f (row ∷ rows) k h = (k row h.0, All-map P Q f rows k h.1)

violates-other :
    (r : RehearsalRun) (rows : List Row) (now : ℕ) (org id : String)
    → violates r rows ≡ false
    → 1 ≤ count (has_key org id) rows
    → has_key org id (new_row r now) ≡ false
violates-other r rows now org id v n = elim (Bool-cases (has_key org id (new_row r now))) [
  | inl here ↦ absurd (omega (arith, n, violates-has_key r rows now org id v here))
  | inr other ↦ other
]

updated_row-newer :
    (r : RehearsalRun) (now : ℕ) (org id : String) (version : ℕ) (row : Row)
    → eqb r.version 0 ≡ false
    → newer org id version row ≡ true
    → newer org id version (update_row (is_current r) (updated_row (next_version r) now) row) ≡ true
unfolding newer has_key is_current
updated_row-newer r now org id version row nz h = ground arith

Created-IsPast :
    (org id : String) (version : ℕ) (rows rows' : List Row) (r : RehearsalRun)
    → Created rows r rows'
    → IsPast org id version rows
    → IsPast org id version rows'
unfolding newer
Created-IsPast org id version rows rows' r (inl same) h = rw same h
Created-IsPast org id version rows rows' r (inr (now, free, new)) h = rw new (
  rw (count-snoc (has_key org id) rows (new_row (first_version r) now)) (omega (arith, h.0)),
  All-snoc (λ row. newer org id version row ≡ true) rows (new_row (first_version r) now) h.1
      (rw (violates-other (first_version r) rows now org id free h.0) refl),
)

Updated-IsPast :
    (org id : String) (version : ℕ) (rows rows' : List Row) (r : RehearsalRun)
    → IsVersioned r
    → Updated rows r rows'
    → IsPast org id version rows
    → IsPast org id version rows'
Updated-IsPast org id version rows rows' r nz (inl same) h = rw same h
Updated-IsPast org id version rows rows' r nz (inr (now, new)) h = rw new (
  rw (count-updated org id r now rows) h.0,
  All-map (λ row. newer org id version row ≡ true) (λ row. newer org id version row ≡ true) _ rows
      (λ row. updated_row-newer r now org id version row nz) h.1,
)

accepted :
    (rows : List Row) (r : RehearsalRun) (now : ℕ)
    → (update_run rows r now).error ≡ none
    → ((r.id == "") ≡ false)
      × ((run_org r == "") ≡ false)
      × (eqb (count (is_current r) rows) 0 ≡ false)
      × ((update_run rows r now).rows
          ≡ map (update_row (is_current r) (updated_row (next_version r) now)) rows)
unfolding update_run
accepted rows r now h = elim (Bool-cases (r.id == "")) [
  | inl no_id ↦ cc (rw no_id at h)
  | inr id ↦ elim (Bool-cases (run_org r == "")) [
    | inl no_org ↦ cc (rw (id, no_org) at h)
    | inr org ↦ elim (Bool-cases (eqb (count (is_current r) rows) 0)) [
      | inl stale ↦ cc (rw (id, org, stale) at h)
      | inr met ↦ (id, org, met, rw (id, org, met) refl)
    ]
  ]
]

accepted-IsPast :
    (rows : List Row) (r : RehearsalRun) (now : ℕ)
    → UniqueKeys rows
    → IsVersioned r
    → (update_run rows r now).error ≡ none
    → IsPast (run_org r) r.id r.version (update_run rows r now).rows
accepted-IsPast rows r now u nz h =
    let (id, org, met, new) = accepted rows r now h in
    let only =
      only_one (has_key (run_org r) r.id) (is_current r) rows
        (λ row q. unfold is_current in ground arith) (u (run_org r) r.id) met in
    rw new (
      rw (count-updated (run_org r) r.id r now rows) only.0,
      All-map (λ row. (not (has_key (run_org r) r.id row) || is_current r row) ≡ true)
          (λ row. newer (run_org r) r.id r.version row ≡ true) _ rows
          (λ row q. unfold newer has_key is_current in ground arith) only.1,
    )

no_current :
    (s : RehearsalRun) (version : ℕ) (rows : List Row)
    → IsVersioned s
    → s.version ≤ version
    → All (λ row. newer (run_org s) s.id version row ≡ true) rows
    → count (is_current s) rows ≡ 0
unfolding newer is_current
no_current s version [] nz le h = refl
no_current s version (row ∷ rows) nz le h = ground (arith, no_current s version rows nz le h.1)

refused :
    (rows : List Row) (r : RehearsalRun) (now : ℕ)
    → (r.id == "") ≡ false
    → (run_org r == "") ≡ false
    → eqb (count (is_current r) rows) 0 ≡ true
    → update_run rows r now ≡ record { error = some conflict; rows = rows; run = r }
unfolding update_run
refused rows r now id org stale = rw (id, org, stale) refl

-- No update is lost: where keys are distinct, after an update from a version that is not 0 was
-- accepted, and after any creations, updates and puts of whatever runs that do not write with the
-- version 0, every further update of the same run from that version or an earlier one, but 0, is
-- refused as a conflict and changes nothing.
pub update_run_once :
    (rows : List Row) (r s : RehearsalRun) (now later : ℕ) (cs : List Call)
    → UniqueKeys rows
    → IsVersioned r
    → (update_run rows r now).error ≡ none
    → All (MayWrite IsVersioned) cs
    → run_org s ≡ run_org r
    → s.id ≡ r.id
    → IsVersioned s
    → s.version ≤ r.version
    → let table = run_calls (update_run rows r now).rows cs in
      update_run table s later ≡ record { error = some conflict; rows = table; run = s }
update_run_once rows r s now later cs u nz h m same_org same_id nz' le =
    let (id, org, met, new) = accepted rows r now h in
    let table = run_calls (update_run rows r now).rows cs in
    let past : IsPast (run_org r) r.id r.version table =
      run_calls-keeps (IsPast (run_org r) r.id r.version) IsVersioned
        (Created-IsPast (run_org r) r.id r.version) (Updated-IsPast (run_org r) r.id r.version)
        (update_run rows r now).rows cs m (accepted-IsPast rows r now u nz h) in
    let none_left : eqb (count (is_current s) table) 0 ≡ true =
      rw (no_current s r.version table nz' le (rw (same_org, same_id) past.1)) refl in
    refused table s later (ap (λ x. x == "") same_id ∙ id) (ap (λ x. x == "") same_org ∙ org)
      none_left
