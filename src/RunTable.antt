-- ===== src/RunTable.antt =====
-- The table `runs` of internal/persist/store.go and ops.go: the list of its rows. The payload of a row
-- is the JSON text of a run, here the run itself. As for the jobs, an SQL statement is the function
-- that its text describes; a driver error and the statement for databases that have no column
-- `version` yet are not modelled, nor is a run without a number or with a negative version.
pub mod Calls
pub mod Versions
pub mod Keys
use architecture_rehearsal.Prelude.{
  ℕ, suc, ◌+◌, String, Option, none, some, List, [], ◌∷◌, ◌++◌, map, Bool, true, false, not, ◌&&◌,
  ◌||◌, ◌==◌, eqb, any, length, filter, find, take, lookup, or_empty, non_empty, if◌then◌else◌,
}
use architecture_rehearsal.Run.{Phase, RehearsalRun}

pub data StoreError : Type 0 where
  id_required org_required conflict : StoreError

pub record Row : Type 0 where
  pub org : String
  pub id : String
  pub idempotency_key : Option String
  pub project : String
  pub environment : String
  pub payload : RehearsalRun
  pub phase : Phase
  pub version : ℕ
  pub updated_at : ℕ
  pub created_at : ℕ

-- The table and the run of the caller after a method, and its error.
pub record Stored : Type 0 where
  pub error : Option StoreError
  pub rows : List Row
  pub run : RehearsalRun

abbrev pub label : String → RehearsalRun → String
label key r = or_empty (lookup key r.labels)

abbrev pub run_org : RehearsalRun → String
run_org r = label "org" r

-- `nullStr`
abbrev pub null_str : String → Option String
null_str s = if s == "" then none else some s

abbrev pub key_is : Option String → String → Bool
key_is none key = false
key_is (some k) key = k == key

unfoldable pub has_key : String → String → Row → Bool
has_key org id row = row.org == org && row.id == id

-- The unique index over the organisation and the key, where the key is not empty.
unfoldable pub same_idempotency : String → String → Row → Bool
same_idempotency org key row = non_empty key && (row.org == org && key_is row.idempotency_key key)

-- `if r.Version == 0 { r.Version = 1 }`
abbrev pub first_version : RehearsalRun → RehearsalRun
first_version r = if eqb r.version 0 then record r { version = 1 } else r

abbrev pub new_row : RehearsalRun → ℕ → Row
new_row r now = record {
  org = run_org r;
  id = r.id;
  idempotency_key = null_str r.idempotency_key;
  project = label "project" r;
  environment = label "environment" r;
  payload = r;
  phase = r.status.phase;
  version = r.version;
  updated_at = now;
  created_at = r.created_at;
}

-- The primary key or the unique index refuses the row.
unfoldable pub violates : RehearsalRun → List Row → Bool
unfolding has_key same_idempotency
violates r rows =
    any (has_key (run_org r) r.id) rows || any (same_idempotency (run_org r) r.idempotency_key) rows

unfoldable pub create_run : List Row → RehearsalRun → ℕ → Stored
unfolding violates
create_run rows r now =
    let s = first_version r in
    if r.id == ""
    then record { error = some id_required; rows = rows; run = r }
    else if run_org r == ""
    then record { error = some org_required; rows = rows; run = r }
    else if violates s rows
    then record { error = some conflict; rows = rows; run = s }
    else record { error = none; rows = rows ++ new_row s now ∷ []; run = s }

-- `WHERE org=? AND id=? AND version=?`, without the version if it is 0.
unfoldable pub is_current : RehearsalRun → Row → Bool
unfolding has_key
is_current r row = has_key (run_org r) r.id row && (eqb r.version 0 || eqb row.version r.version)

abbrev pub next_version : RehearsalRun → RehearsalRun
next_version r = record r { version = suc r.version }

abbrev pub updated_row : RehearsalRun → ℕ → Row → Row
updated_row r now row = record row {
  payload = r;
  phase = r.status.phase;
  project = label "project" r;
  environment = label "environment" r;
  version = r.version;
  updated_at = now;
}

abbrev pub update_row : (Row → Bool) → (Row → Row) → Row → Row
update_row test set row = if test row then set row else row

unfoldable pub update_run : List Row → RehearsalRun → ℕ → Stored
unfolding is_current
update_run rows r now =
    if r.id == ""
    then record { error = some id_required; rows = rows; run = r }
    else if run_org r == ""
    then record { error = some org_required; rows = rows; run = r }
    else if eqb (length (filter (is_current r) rows)) 0
    then record { error = some conflict; rows = rows; run = r }
    else record {
      error = none;
      rows = map (update_row (is_current r) (updated_row (next_version r) now)) rows;
      run = next_version r;
    }

abbrev payload_of : Option Row → Option RehearsalRun
payload_of none = none
payload_of (some row) = some row.payload

unfoldable pub get_run : List Row → String → String → Option RehearsalRun
unfolding has_key
get_run rows org id =
    if org == "" || id == "" then none else payload_of (find (has_key org id) rows)

unfoldable pub get_run_by_idempotency : List Row → String → String → Option RehearsalRun
get_run_by_idempotency rows org key =
    if org == "" || key == ""
    then none
    else payload_of (find (λ row. row.org == org && key_is row.idempotency_key key) rows)

abbrev pub put_over : Option RehearsalRun → List Row → RehearsalRun → ℕ → Stored
put_over none rows r now = create_run rows r now
put_over (some existing) rows r now =
    if not (run_org existing == run_org r)
    then record { error = some conflict; rows = rows; run = r }
    else update_run rows r now

unfoldable pub put_run : List Row → RehearsalRun → ℕ → Stored
unfolding create_run update_run get_run
put_run rows r now = put_over (get_run rows (run_org r) r.id) rows r now

module _ (stamp_lt : ℕ → ℕ → Bool) where
  -- `ORDER BY updated_at DESC`; rows of equal stamps keep their order.
  abbrev insert_desc : Row → List Row → List Row
  insert_desc row [] = row ∷ []
  insert_desc row (k ∷ ks) =
      let rest = insert_desc row ks in
      if stamp_lt row.updated_at k.updated_at then k ∷ rest else row ∷ k ∷ ks

  abbrev sort_desc : List Row → List Row
  sort_desc [] = []
  sort_desc (row ∷ rows) = insert_desc row (sort_desc rows)

  unfoldable pub list_runs : List Row → String → List RehearsalRun
  list_runs rows org =
      if org == ""
      then []
      else map (λ row. row.payload) (take 500 (sort_desc (filter (λ row. row.org == org) rows)))

  -- `cutoff` is the stamp of the present less the retention; the number counts the deleted rows.
  unfoldable pub purge_old_runs : List Row → String → ℕ → List Row × ℕ
  purge_old_runs rows org cutoff =
      let is_old : Row → Bool = λ row. row.org == org && stamp_lt row.updated_at cutoff in
      (filter (λ row. not (is_old row)) rows, length (filter is_old rows))
