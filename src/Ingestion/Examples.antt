-- ===== src/Ingestion/Examples.antt =====
-- The theorems on the ingestion store at concrete inputs.
use s3mp_backend.Prelude.{
  inl, ℕ, Bool, true, false, ◌≡◌, refl, Option, none, some, List, [], ◌∷◌, ◌+◌, Result, ok, err,
}
use s3mp_backend.Prelude.Int.{pos}
use s3mp_backend.Prelude.Text.{Text, codes}
use s3mp_backend.Ledger.Sound.{IsSound}
use s3mp_backend.Ingestion.Reaping.{reap_orphan_reservations}
use s3mp_backend.Ledger.Examples.{books, books-IsBalanced, granted}
use s3mp_backend.Ingestion
use s3mp_backend.Ingestion.Steps.{
  Reach, start, next, uploads, records, commits, Later, Reach-IsSound, Reach-Later, fails, reaps,
}
use s3mp_backend.Ingestion.{
  IngestionRow, Tables, StoreError, initiated, verified, failed, reconciliation_required,
}
use s3mp_backend.Ingestion.Tasks.{Environment}
use s3mp_backend.Ingestion.Commit.{ProviderResult, record_provider_result, commit_verified_file}
use s3mp_backend.Ingestion.Endings.{fail_or_quarantine, expire}
use s3mp_backend.Ingestion.Intents.{
  build_row, NewIds, SessionData, fresh, create_upload_intent, create_multipart_intent,
}
use s3mp_backend.Ingestion.Replay.{begin_again, create_upload_again}
use s3mp_backend.Ingestion.Intents.{begin_or_replay, replayed}

-- JSON values as numbers, and printings of the values that the source leaves to libraries.
abbrev encoded : Text → List ℕ
encoded s = s

abbrev printed : Option ℕ → Text
printed none = codes "null"
printed (some n) = (n + 48) ∷ []

abbrev show_id : ℕ → Text
show_id n = (n + 200) ∷ []

abbrev hashed : List ℕ → Text
hashed bytes = bytes

abbrev lowered : Text → Text
lowered s = s

abbrev environment : Environment
environment = record {
  now = 77;
  new_file_id = 30;
  new_task_id = 40;
  knowledge_extraction_enabled = true;
  manifest_hash = codes "m";
}

abbrev row : IngestionRow ℕ
row = record {
  id = 20;
  tenant_id = 8;
  upload_session_id = none;
  multipart_session_id = none;
  quota_reservation_id = some 9;
  file_object_id = none;
  creator_principal_id = 4;
  acting_principal_id = 4;
  membership_id = none;
  storage_space_id = 3;
  application_id = some 5;
  storage_namespace = some (codes "apps/one");
  profile_version = 1;
  bucket = codes "data";
  relative_key = codes "a.txt";
  physical_key = codes "apps/one/a.txt";
  provider_target_version = 1;
  provider_etag = none;
  provider_version_id = none;
  actual_size = some (pos 40);
  actual_content_type = none;
  checksum = none;
  metadata = none;
  authorization_evidence = 0;
  authorization_version = 1;
  request_id = none;
  idempotency_key = some (codes "k");
  idempotency_fingerprint = some (codes "f");
  status = initiated;
  committed_at = none;
}

abbrev tables : Tables ℕ
tables = record {
  books = granted;
  records = row ∷ [];
  files = [];
  uploads = [];
  multiparts = [];
  tasks = [];
  rules = [];
  outbox = [];
  events = [];
  audit = [];
}

abbrev verified_tables : Tables ℕ
verified_tables = record tables { records = record row { status = verified } ∷ [] }

abbrev empty_tables : Tables ℕ
empty_tables = record tables { books = books; records = [] }

-- What a call returned, or the default.
abbrev returned : {A : Type 0} → A → Result StoreError A → A
returned d (ok a) = a
returned d (err e) = d

abbrev result : ProviderResult
result = record {
  provider_etag = some (codes "e");
  provider_version_id = none;
  actual_size = some (pos 40);
  actual_content_type = some (codes "text/plain");
  checksum = none;
}

abbrev recorded : Tables ℕ
recorded = returned tables (record_provider_result 8 20 result tables)

record_returned : record_provider_result 8 20 result tables ≡ ok recorded
unfolding record_provider_result Ingestion.lock_row Ingestion.validate_transition
    Ingestion.may_become
record_returned = refl

abbrev failed_tables : Tables ℕ
failed_tables = returned tables (fail_or_quarantine 77 8 20 failed (codes "gone") tables)

fail_returned : fail_or_quarantine 77 8 20 failed (codes "gone") tables ≡ ok failed_tables
unfolding fail_or_quarantine Ingestion.lock_row Ingestion.validate_transition Ingestion.may_become
fail_returned = refl

abbrev expired_tables : Tables ℕ
expired_tables = returned tables (expire 77 8 20 tables)

expire_returned : expire 77 8 20 tables ≡ ok expired_tables
unfolding expire Ingestion.lock_row Ingestion.validate_transition Ingestion.may_become
expire_returned = refl

abbrev committed_tables : Tables ℕ
committed_tables =
    returned tables
      (commit_verified_file encoded printed show_id hashed lowered environment 8 20 verified_tables)

commit_returned :
    commit_verified_file encoded printed show_id hashed lowered environment 8 20 verified_tables
    ≡ ok committed_tables
unfolding commit_verified_file Ingestion.lock_row Ingestion.validate_transition Ingestion.may_become
    s3mp_backend.Ingestion.Commit.insert_file s3mp_backend.Ledger.settle_quota
    s3mp_backend.Prelude.Int.◌+ℤ◌ s3mp_backend.Ingestion.Commit.complete
    s3mp_backend.Ingestion.Tasks.enqueue_knowledge_task Ingestion.add_event
    s3mp_backend.Ingestion.Commit.settle_sessions Ingestion.write_row
commit_returned = refl

abbrev ids : NewIds
ids = record { session_id = 50; reservation_id = 9; ingestion_id = 20 }

abbrev session_data : SessionData
session_data = record { storage_space_id = 3; object_key = codes "a.txt"; content_length = pos 50 }

abbrev opened : Tables ℕ
opened =
    (returned (fresh 50 20, tables) (create_upload_intent ids 8 session_data row empty_tables)).1

upload_opened : create_upload_intent ids 8 session_data row empty_tables ≡ ok (fresh 50 20, opened)
unfolding create_upload_intent Ingestion.find_replay_or_conflict s3mp_backend.Ledger.reserve_quota
    s3mp_backend.Prelude.Int.◌+ℤ◌
upload_opened = refl

abbrev opened_multipart : Tables ℕ
opened_multipart =
    (returned (fresh 50 20, tables) (create_multipart_intent ids 8 session_data row empty_tables)).1

multipart_opened :
    create_multipart_intent ids 8 session_data row empty_tables ≡ ok (fresh 50 20, opened_multipart)
unfolding create_multipart_intent Ingestion.find_replay_or_conflict
    s3mp_backend.Ledger.reserve_quota s3mp_backend.Prelude.Int.◌+ℤ◌
multipart_opened = refl

abbrev begun_tables : Tables ℕ
begun_tables = (returned (20, tables) (begin_or_replay 20 8 row empty_tables)).1

row_begun : begin_or_replay 20 8 row empty_tables ≡ ok (20, begun_tables)
unfolding begin_or_replay Ingestion.find_replay_or_conflict
row_begun = refl

begin_again_example : begin_or_replay 21 8 row begun_tables ≡ ok (20, begun_tables)
begin_again_example = begin_again 8 b'f' [] row refl 20 21 20 empty_tables begun_tables row_begun

abbrev other_ids : NewIds
other_ids = record { session_id = 51; reservation_id = 10; ingestion_id = 21 }

create_upload_again_example :
    create_upload_intent other_ids 8 session_data row opened ≡ ok (replayed 50 20, opened)
create_upload_again_example =
    create_upload_again 8 b'f' [] row refl ids other_ids session_data session_data (fresh 50 20)
      empty_tables opened upload_opened

-- An upload from its intent to its commit.
abbrev uploaded : Tables ℕ
uploaded = returned tables (record_provider_result 8 20 result opened)

upload_recorded : record_provider_result 8 20 result opened ≡ ok uploaded
unfolding record_provider_result Ingestion.lock_row create_upload_intent
    Ingestion.find_replay_or_conflict s3mp_backend.Ledger.reserve_quota
    s3mp_backend.Prelude.Int.◌+ℤ◌ Ingestion.add_event Ingestion.validate_transition
    Ingestion.may_become
upload_recorded = refl

abbrev kept_tables : Tables ℕ
kept_tables =
    returned tables
      (commit_verified_file encoded printed show_id hashed lowered environment 8 20 uploaded)

upload_committed :
    commit_verified_file encoded printed show_id hashed lowered environment 8 20 uploaded
    ≡ ok kept_tables
unfolding commit_verified_file Ingestion.lock_row record_provider_result create_upload_intent
    Ingestion.find_replay_or_conflict s3mp_backend.Ledger.reserve_quota
    s3mp_backend.Prelude.Int.◌+ℤ◌ Ingestion.add_event Ingestion.validate_transition
    Ingestion.may_become Ingestion.write_row s3mp_backend.Ingestion.Commit.insert_file
    s3mp_backend.Ledger.settle_quota s3mp_backend.Ingestion.Commit.complete
    s3mp_backend.Ingestion.Tasks.enqueue_knowledge_task
    s3mp_backend.Ingestion.Commit.settle_sessions
upload_committed = refl

from_opened : Reach encoded printed show_id hashed lowered opened kept_tables
from_opened =
    next (next start (records 8 20 result upload_recorded))
      (commits environment 8 20 upload_committed)

from_empty : Reach encoded printed show_id hashed lowered empty_tables kept_tables
from_empty =
    next
      (next (next start (uploads ids 8 session_data row (fresh 50 20) upload_opened))
        (records 8 20 result upload_recorded))
      (commits environment 8 20 upload_committed)

abbrev stuck : Tables ℕ
stuck = returned tables (fail_or_quarantine 77 8 20 reconciliation_required (codes "lost") opened)

upload_stuck : fail_or_quarantine 77 8 20 reconciliation_required (codes "lost") opened ≡ ok stuck
unfolding fail_or_quarantine Ingestion.lock_row create_upload_intent
    Ingestion.find_replay_or_conflict s3mp_backend.Ledger.reserve_quota
    s3mp_backend.Prelude.Int.◌+ℤ◌ Ingestion.add_event Ingestion.validate_transition
    Ingestion.may_become
upload_stuck = refl

-- The reservation of the upload is released.
abbrev reaped : Tables ℕ
reaped = (reap_orphan_reservations 99 (some 8) (pos 10) ((8, 9) ∷ []) stuck).1

reaping : (reap_orphan_reservations 99 (some 8) (pos 10) ((8, 9) ∷ []) stuck).0 ≡ 9 ∷ []
unfolding reap_orphan_reservations fail_or_quarantine Ingestion.lock_row create_upload_intent
    Ingestion.find_replay_or_conflict s3mp_backend.Ledger.reserve_quota
    s3mp_backend.Prelude.Int.◌+ℤ◌ Ingestion.add_event Ingestion.validate_transition
    Ingestion.may_become Ingestion.write_row
reaping = refl

reaped_from_empty : Reach encoded printed show_id hashed lowered empty_tables reaped
reaped_from_empty =
    next
      (next (next start (uploads ids 8 session_data row (fresh 50 20) upload_opened))
        (fails 77 8 20 reconciliation_required (codes "lost") upload_stuck))
      (reaps 99 (some 8) (pos 10) ((8, 9) ∷ []))

Reach-IsSound_example : IsSound reaped.books
Reach-IsSound_example =
    Reach-IsSound encoded printed show_id hashed lowered reaped_from_empty (books-IsBalanced, tt)

abbrev opened_row : IngestionRow ℕ
opened_row = build_row 20 8 (some 50) none (some 9) row

Reach-Later_example : Later encoded printed show_id hashed lowered kept_tables opened_row
unfolding create_upload_intent Ingestion.find_replay_or_conflict s3mp_backend.Ledger.reserve_quota
    s3mp_backend.Prelude.Int.◌+ℤ◌ Ingestion.add_event
Reach-Later_example =
    Reach-Later encoded printed show_id hashed lowered opened_row from_opened (inl refl)
