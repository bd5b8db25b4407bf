-- ===== src/Queue.antt =====
-- files/infrastructure/repositories.py, under src/s3mp/: how a file operation claims file rows and
-- destination names when it is created, starts once for each delivery, and gives them back.
pub mod Free
pub mod Names
pub mod Claims
pub mod Releases
mod Examples
use s3mp_backend.Prelude.{
  ℕ, suc, ◌+◌, Bool, true, false, not, ◌&&◌, ◌||◌, Option, none, some, List, [], ◌∷◌, ◌++◌, map,
  Result, ok, err, ◌>>=◌, ◌>>◌, if◌then◌else◌, ◌==◌, leb, any, filter, find, map_where, is_some,
}
use s3mp_backend.Prelude.Text.{Text, codes, text_eq}

-- `FileOperationModel.status`
pub data OperationStatus : Type 0 where
  pending queued processing retry_scheduled : OperationStatus
  succeeded failed cancelled partial_failure dead_lettered : OperationStatus

-- The statuses and phases of a file row that these functions read or write.
pub data FileState : Type 0 where
  available deleted rename_failed other_state : FileState

pub data Phase : Type 0 where
  phase_queued phase_processing : Phase

-- The columns of `FileObjectModel` that these functions read or write.
pub record FileRow : Type 0 where
  pub id : ℕ
  pub tenant_id : ℕ
  pub storage_space_id : ℕ
  pub object_key : Text
  pub state : FileState
  pub deleted_at : Option ℕ
  pub soft_deleted : Bool
  pub active_operation_id : Option ℕ
  pub operation_phase : Option Phase
  pub processing_started_at : Option ℕ

-- The columns of `FileOperationModel`.
pub record OperationRow : Type 0 where
  pub id : ℕ
  pub tenant_id : ℕ
  pub is_rename : Bool
  pub status : OperationStatus
  pub source_file_id : Option ℕ
  pub result_file_id : Option ℕ
  pub failure_reason : Option Text
  pub attempt_count : ℕ
  pub recovery_attempt_count : ℕ
  pub completed_at : Option ℕ

-- `FileOperationResourceReservationModel`
pub record NameReservation : Type 0 where
  pub tenant_id : ℕ
  pub storage_space_id : ℕ
  pub object_key : Text
  pub operation_id : ℕ

pub record QueueTables : Type 0 where
  pub operations : List OperationRow
  pub files : List FileRow
  pub reservations : List NameReservation

-- The `ApiError`s.
pub data QueueError : Type 0 where
  resource_not_found file_operation_in_progress duplicate_resource : QueueError

abbrev pub is_available : FileState → Bool
is_available available = true
is_available deleted = false
is_available rename_failed = false
is_available other_state = false

-- The last row of a list that passes the test: what a dictionary that is filled in order keeps.
abbrev pub find_last : (FileRow → Bool) → List FileRow → Option FileRow
find_last p [] = none
find_last p (f ∷ fs) =
    let later = find_last p fs in if is_some later then later else if p f then some f else none

abbrev pub at_key : ℕ → ℕ → Text → FileRow → Bool
at_key tenant_id space_id key f =
    f.tenant_id == tenant_id && (f.storage_space_id == space_id && text_eq f.object_key key)

-- `rows_by_key.get(key)`
abbrev pub row_at : ℕ → ℕ → Text → List FileRow → Option FileRow
row_at tenant_id space_id key files = find_last (at_key tenant_id space_id key) files

-- The checks on one occupied key.
unfoldable pub free_row : ℕ → ℕ → List FileRow → Text → Result QueueError FileRow
free_row tenant_id space_id files key = elim (row_at tenant_id space_id key files) [
  | none ↦ err resource_not_found
  | some f ↦
      if not (is_available f.state) || f.soft_deleted
      then err resource_not_found
      else if is_some f.active_operation_id
      then err file_operation_in_progress
      else ok f
]

unfoldable pub free_rows : ℕ → ℕ → List FileRow → List Text → Result QueueError (List FileRow)
unfolding free_row
free_rows tenant_id space_id files [] = ok []
free_rows tenant_id space_id files (key ∷ keys) = do
  f ← free_row tenant_id space_id files key
  fs ← free_rows tenant_id space_id files keys
  ok (f ∷ fs)

-- The checks on the destinations.
unfoldable pub no_rows : ℕ → ℕ → List FileRow → List Text → Result QueueError (Unit {0})
no_rows tenant_id space_id files [] = ok tt
no_rows tenant_id space_id files (key ∷ keys) =
    if is_some (row_at tenant_id space_id key files)
    then err duplicate_resource
    else no_rows tenant_id space_id files keys

abbrev pub hold : ℕ → FileRow → FileRow
hold operation_id f = record f {
  active_operation_id = some operation_id;
  operation_phase = some phase_queued;
}

abbrev pub is_one_of : List FileRow → FileRow → Bool
is_one_of rows f = any (λ r. f.id == r.id) rows

abbrev pub reserves : ℕ → ℕ → Text → NameReservation → Bool
reserves tenant_id space_id key r =
    r.tenant_id == tenant_id && (r.storage_space_id == space_id && text_eq r.object_key key)

-- The rows of the reservations, under the unique constraint.
unfoldable pub reserve_all :
    ℕ → ℕ → ℕ → List Text → List NameReservation → Result QueueError (List NameReservation)
reserve_all tenant_id space_id operation_id [] rs = ok rs
reserve_all tenant_id space_id operation_id (key ∷ keys) rs =
    if any (reserves tenant_id space_id key) rs
    then err file_operation_in_progress
    else reserve_all tenant_id space_id operation_id keys (
        record {
          tenant_id = tenant_id;
          storage_space_id = space_id;
          object_key = key;
          operation_id = operation_id;
        }
        ∷ rs)

-- `_occupy_operation_resources`
unfoldable pub occupy :
    ℕ → ℕ → ℕ → List Text → List Text → QueueTables → Result QueueError QueueTables
unfolding free_rows no_rows reserve_all
occupy tenant_id space_id operation_id occupied destinations t = do
  rows ← free_rows tenant_id space_id t.files occupied
  no_rows tenant_id space_id t.files destinations
  reservations ← reserve_all tenant_id space_id operation_id destinations t.reservations
  ok (record t {
    files = map_where (is_one_of rows) (hold operation_id) t.files;
    reservations = reservations;
  })

abbrev pub is_operation : ℕ → ℕ → OperationRow → Bool
is_operation tenant_id operation_id o = o.tenant_id == tenant_id && o.id == operation_id

abbrev pub opt_eq : Option ℕ → ℕ → Bool
opt_eq none n = false
opt_eq (some m) n = m == n

-- `tenant_id == … and active_operation_id == …`
abbrev pub is_held_by : ℕ → ℕ → FileRow → Bool
is_held_by tenant_id operation_id f =
    f.tenant_id == tenant_id && opt_eq f.active_operation_id operation_id

abbrev pub may_start : OperationStatus → Bool
may_start pending = false
may_start queued = true
may_start processing = false
may_start retry_scheduled = true
may_start succeeded = false
may_start failed = false
may_start cancelled = false
may_start partial_failure = false
may_start dead_lettered = false

abbrev pub start_row : OperationRow → OperationRow
start_row o = record o { status = processing; attempt_count = suc o.attempt_count }

abbrev pub start_file : ℕ → FileRow → FileRow
start_file now f = record f {
  operation_phase = some phase_processing;
  processing_started_at = some now;
}

-- `start_broker_operation`: the tables after a start, or nothing where it answers `None`.
unfoldable pub start_broker_operation : ℕ → ℕ → ℕ → QueueTables → Option QueueTables
start_broker_operation now tenant_id operation_id t =
    elim (find (is_operation tenant_id operation_id) t.operations) [
      | none ↦ none
      | some o ↦
          if may_start o.status
          then some (record t {
            operations = map_where (is_operation tenant_id operation_id) start_row t.operations;
            files = map_where (is_held_by tenant_id operation_id) (start_file now) t.files;
          })
          else none
    ]

-- `status in terminal`
abbrev pub is_terminal : OperationStatus → Bool
is_terminal pending = false
is_terminal queued = false
is_terminal processing = false
is_terminal retry_scheduled = false
is_terminal succeeded = true
is_terminal failed = true
is_terminal cancelled = true
is_terminal partial_failure = true
is_terminal dead_lettered = true

abbrev pub is_success : OperationStatus → Bool
is_success succeeded = true
is_success _ = false

-- `status in {"failed", "cancelled", "dead_lettered"}`
abbrev pub undoes_rename : OperationStatus → Bool
undoes_rename failed = true
undoes_rename cancelled = true
undoes_rename dead_lettered = true
undoes_rename _ = false

abbrev pub file_with : Option ℕ → List FileRow → Option FileRow
file_with id files = find (λ f. opt_eq id f.id) files

abbrev pub rename_source : ℕ → OperationRow → FileRow → FileRow
rename_source now o f =
    if opt_eq o.source_file_id f.id then record f { state = deleted; deleted_at = some now } else f

abbrev pub rename_destination : OperationRow → FileRow → FileRow
rename_destination o f = if opt_eq o.result_file_id f.id then record f { state = available } else f

-- The part for a rename, on one held row. `both`: source and destination are held.
abbrev pub rename_file : ℕ → OperationRow → OperationStatus → Bool → FileRow → FileRow
rename_file now o status both f =
    if is_success status && both
    then rename_destination o (rename_source now o f)
    else if opt_eq o.result_file_id f.id && undoes_rename status
    then record f { state = rename_failed }
    else f

abbrev pub let_go : FileRow → FileRow
let_go f = record f {
  active_operation_id = none;
  operation_phase = none;
  processing_started_at = none;
}

abbrev pub settle_file : ℕ → OperationRow → OperationStatus → Bool → FileRow → FileRow
settle_file now o status both f =
    let renamed = if o.is_rename then rename_file now o status both f else f in
    if is_terminal status then let_go renamed else renamed

abbrev pub settle_operation : ℕ → OperationStatus → Option Text → OperationRow → OperationRow
settle_operation now status reason o = record o {
  status = status;
  failure_reason = reason;
  completed_at = if is_terminal status then some now else o.completed_at;
}

-- `settle_broker_operation`
unfoldable pub settle_broker_operation :
    ℕ → ℕ → ℕ → OperationStatus → Option Text → QueueTables → QueueTables
settle_broker_operation now tenant_id operation_id status reason t =
    elim (find (is_operation tenant_id operation_id) t.operations) [
      | none ↦ t
      | some o ↦
          let held = filter (is_held_by tenant_id operation_id) t.files in
          let both =
            is_some (file_with o.source_file_id held)
            && is_some (file_with o.result_file_id held) in
          record {
            operations =
                map_where (is_operation tenant_id operation_id) (settle_operation now status reason)
                  t.operations;
            files =
                map_where (is_held_by tenant_id operation_id) (settle_file now o status both)
                  t.files;
            reservations =
                if is_terminal status
                then filter (λ r. not (r.operation_id == operation_id)) t.reservations
                else t.reservations;
          }
    ]

-- The body of the loop of `recover_timed_out_operations`, for one operation that it has selected.
abbrev pub recover_row : ℕ → ℕ → OperationRow → OperationRow
recover_row now max_recoveries o =
    if leb max_recoveries o.recovery_attempt_count
    then record o {
      status = dead_lettered;
      failure_reason = some (codes "processing_timeout");
      completed_at = some now;
    }
    else record o {
      status = queued;
      failure_reason = some (codes "processing_timeout_recovery");
      recovery_attempt_count = suc o.recovery_attempt_count;
    }

unfoldable pub recover_operation : ℕ → ℕ → OperationRow → QueueTables → QueueTables
recover_operation now max_recoveries o t = record t {
  operations =
      map_where (is_operation o.tenant_id o.id) (recover_row now max_recoveries) t.operations;
  files =
      if leb max_recoveries o.recovery_attempt_count
      then t.files
      else map_where (λ f. opt_eq f.active_operation_id o.id)
          (λ f. record f { operation_phase = some phase_queued; processing_started_at = none })
          t.files;
}

abbrev pub may_replay : OperationStatus → Bool
may_replay dead_lettered = true
may_replay partial_failure = true
may_replay _ = false

-- `replay_dead_letter_operation`
unfoldable pub replay_dead_letter_operation : ℕ → ℕ → QueueTables → Option QueueTables
replay_dead_letter_operation tenant_id operation_id t =
    elim (find (λ o. is_operation tenant_id operation_id o && may_replay o.status) t.operations) [
      | none ↦ none
      | some o ↦ some (record t {
        operations =
            map_where (is_operation tenant_id operation_id)
              (λ x. record x { status = queued; failure_reason = none; completed_at = none })
              t.operations;
      })
    ]
