-- ===== src/Queue/Examples.antt =====
-- The theorems on the queue of file operations at concrete inputs.
use s3mp_backend.Prelude.{
  ℕ, true, false, ◌≡◌, ◌≢◌, refl, inl, inr, Option, none, some, List, [], ◌∷◌, Result, ok, err, In,
  map,
}
use s3mp_backend.Prelude.Text.{Text, codes}
use s3mp_backend.Queue.{
  queued, processing, failed, dead_lettered, FileRow, available, OperationRow, QueueTables,
  QueueError, file_operation_in_progress, duplicate_resource, occupy, start_broker_operation,
  settle_broker_operation, recover_operation, replay_dead_letter_operation,
}
use s3mp_backend.Queue.Claims.{UniqueIds, IsClaimed, occupy-IsClaimed, occupy_apart}
use s3mp_backend.Queue.Releases.{IsReleased, settle-IsReleased, start_once}

abbrev file : FileRow
file = record {
  id = 1;
  tenant_id = 8;
  storage_space_id = 7;
  object_key = codes "a";
  state = available;
  deleted_at = none;
  soft_deleted = false;
  active_operation_id = none;
  operation_phase = none;
  processing_started_at = none;
}

abbrev operation : ℕ → OperationRow
operation id = record {
  id = id;
  tenant_id = 8;
  is_rename = false;
  status = queued;
  source_file_id = none;
  result_file_id = none;
  failure_reason = none;
  attempt_count = 0;
  recovery_attempt_count = 0;
  completed_at = none;
}

abbrev tables : QueueTables
tables = record {
  operations = operation 20 ∷ operation 21 ∷ [];
  files = file ∷ [];
  reservations = [];
}

abbrev or_tables : Result QueueError QueueTables → QueueTables
or_tables (ok t) = t
or_tables (err e) = tables

abbrev or_same : Option QueueTables → QueueTables
or_same (some t) = t
or_same none = tables

abbrev claimed_tables : QueueTables
claimed_tables = or_tables (occupy 8 7 20 (codes "a" ∷ []) (codes "b" ∷ []) tables)

claimed_once : occupy 8 7 20 (codes "a" ∷ []) (codes "b" ∷ []) tables ≡ ok claimed_tables
unfolding occupy s3mp_backend.Prelude.Text.text_eq
claimed_once = refl

-- A second operation on the same file, or to the same name, is refused.
claimed_twice : occupy 8 7 21 (codes "a" ∷ []) [] claimed_tables ≡ err file_operation_in_progress
unfolding occupy s3mp_backend.Prelude.Text.text_eq
claimed_twice = refl

named_twice : occupy 8 7 21 [] (codes "b" ∷ []) claimed_tables ≡ err file_operation_in_progress
unfolding occupy s3mp_backend.Prelude.Text.text_eq
named_twice = refl

-- A move of a file to its own name is refused.
moved_to_itself : occupy 8 7 20 (codes "a" ∷ []) (codes "a" ∷ []) tables ≡ err duplicate_resource
unfolding occupy s3mp_backend.Prelude.Text.text_eq
moved_to_itself = refl

only_file : UniqueIds tables.files
only_file f g (inl i) (inl j) e = cc
only_file f g (inl i) (inr j) e = absurd j
only_file f g (inr i) j e = absurd i

occupy-IsClaimed_example : IsClaimed 8 7 20 (codes "a" ∷ []) (codes "b" ∷ []) tables claimed_tables
occupy-IsClaimed_example =
    occupy-IsClaimed 8 7 20 (codes "a" ∷ []) (codes "b" ∷ []) tables claimed_tables only_file
      claimed_once

abbrev started_tables : QueueTables
started_tables = or_same (start_broker_operation 100 8 20 claimed_tables)

started : start_broker_operation 100 8 20 claimed_tables ≡ some started_tables
unfolding start_broker_operation occupy s3mp_backend.Prelude.Text.text_eq
started = refl

start_once_example : start_broker_operation 101 8 20 started_tables ≡ none
start_once_example = start_once 100 101 8 20 claimed_tables started_tables started

abbrev running : OperationRow
running = record (operation 20) { status = processing; attempt_count = 1 }

settle-IsReleased_example :
    IsReleased 8 20 started_tables (settle_broker_operation 102 8 20 failed none started_tables)
unfolding start_broker_operation occupy s3mp_backend.Prelude.Text.text_eq
settle-IsReleased_example = settle-IsReleased 102 8 20 failed none started_tables running refl refl

-- An operation that a recovery gives up keeps its file.
given_up :
    map
      (λ (f : FileRow). f.active_operation_id)
      (recover_operation 103 0 running started_tables).files
    ≡ some 20 ∷ []
unfolding recover_operation start_broker_operation occupy s3mp_backend.Prelude.Text.text_eq
given_up = refl

abbrev dead_tables : QueueTables
dead_tables = settle_broker_operation 102 8 20 dead_lettered none started_tables

abbrev replayed_tables : QueueTables
replayed_tables = or_same (replay_dead_letter_operation 8 20 dead_tables)

-- An operation that is replayed after a settlement has no claim on its file: another may take it, and
-- the first may start all the same.
abbrev shared_tables : QueueTables
shared_tables = or_tables (occupy 8 7 21 (codes "a" ∷ []) [] replayed_tables)

shared : occupy 8 7 21 (codes "a" ∷ []) [] replayed_tables ≡ ok shared_tables
unfolding occupy replay_dead_letter_operation settle_broker_operation start_broker_operation
    s3mp_backend.Prelude.Text.text_eq
shared = refl

both_run :
    map
      (λ (o : OperationRow). o.status)
      (or_same (
        start_broker_operation 105 8 20
          (or_same (start_broker_operation 104 8 21 shared_tables)))).operations
    ≡ processing ∷ processing ∷ []
unfolding start_broker_operation occupy replay_dead_letter_operation settle_broker_operation
    s3mp_backend.Prelude.Text.text_eq
both_run = refl

occupy_apart_example : codes "a" ≢ codes "b"
occupy_apart_example =
    occupy_apart 8 7 20 (codes "a") (codes "b") tables claimed_tables only_file claimed_once
