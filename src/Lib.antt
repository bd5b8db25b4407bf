-- ===== src/Lib.antt =====
-- A verification library for the core of the S3MP backend (src/s3mp): who may do what on which
-- object key, where an object is stored, how storage quotas are reserved and charged, and how an
-- uploaded file becomes a committed one.
--
-- How the parts interact. A request has the context of a principal, from a membership or from an
-- application. It names a permission and a relative object key; the evaluator decides it from the
-- bindings of the principal. The key is put below the namespace of its storage
-- space by the provider target. An upload intent reserves quota and opens an ingestion; when the
-- object is stored, the provider's result is recorded and the ingestion is committed: the file row
-- is inserted with its public reference, the reservation is settled, and a task of knowledge
-- extraction is queued, or skipped with a reason. An ingestion that ends otherwise fails, expires or
-- waits for reconciliation. A file operation is authorized as a command, which carries the evidence
-- of its authorization, claims its file rows and destination names in the queue, and gives them back
-- when it is settled; a worker carries it out in between, after it has validated the subject and the
-- space once more and asked the evaluator again.
--
-- The files and what they model:
--   Prelude        shared names, lists, integers, texts as lists of code points, results with
--                  exceptions
--   Keys           authorization/domain/evaluator.py: validate_canonical_prefix, _scope_matches;
--                  storage/domain/policy.py: canonical_object_key, derive_provider_target
--   Authorization  authorization/domain/evaluator.py: evaluate; delegation.py
--   Ledger         governance/domain/allocation.py; the functions _reserve_quota,
--                  _settle_quota_reservation and _release_quota_reservation of
--                  files/infrastructure/ingestion_repository.py
--   FileRef        files/domain/file_reference.py
--   Knowledge      knowledge/domain/exclusions.py, source_hash.py and state_machine.py; chunk_text and
--                  chunk_segments of knowledge/application/text_extraction.py
--   Ingestion      files/domain/ingestion.py and the transactions of
--                  files/infrastructure/ingestion_repository.py: create_upload_intent,
--                  create_multipart_intent, begin_or_replay, record_provider_result,
--                  commit_verified_file with _enqueue_knowledge_task, fail_or_quarantine,
--                  expire, reap_orphan_reservations and append_event
--   Identity       identity/domain/context.py, with the records of identity/domain/entities.py
--   RateLimit      InMemoryLoginRateLimiter of identity/application/security.py
--   Command        files/application/authorized_command.py
--   Subject        files/application/delayed_subject_validator.py
--   Credentials    applications/domain/credentials.py: parse_credential
--   Queue          files/infrastructure/repositories.py: _occupy_operation_resources,
--                  start_broker_operation, settle_broker_operation,
--                  replay_dead_letter_operation and the body of
--                  recover_timed_out_operations
--   Worker         files/application/operation_worker.py: Effects has the body of the try block of
--                  _execute, Execution the checks before it
--
-- How the state is modelled. The tables are lists of rows; a select that locks a row is a search, and
-- a change of the row is an update of the first row that the search finds. A transaction is a
-- function from the tables to a result: an exception rolls back, so it returns no tables. A text is
-- the list of its code points, and `codes` writes one down. A byte count is an integer of any size,
-- as in Python; a date is an instant in microseconds, with or without an offset. Every loop is
-- structural recursion on a list, except the inner loop of chunk_text, which cuts pieces of the
-- limit's length off a paragraph: its fuel is one more than the length of the paragraph, which is
-- enough since each pass shortens the paragraph. The transactions of the ingestion store are
-- the steps of one system, which may follow each other in any order. The worker runs in a world of
-- its stores and its object storage: each call may change the world, and may fail at any point.
--
-- Parameters. What the code takes from libraries is an argument: the text of an id (show_uuid),
-- the encoding of a text (encode), canonical JSON, the hash with its base64 text (digest_text)
-- and lower-casing. The ids of new rows and the clock are arguments too, since the database and
-- the system give them. The object storage is a parameter with laws: what head answers is what
-- is stored, a copy may change its destination alone, a deletion its target alone; that an
-- execution is carried out needs also that each call answers and that a copy has the length and
-- the checksum of its source. The rows that a query finds, in their order and without the locked
-- ones, are an argument of reap_orphan_reservations. A theorem that needs a fact of these, such
-- as that different ids have different texts, has it as a hypothesis.
--
-- Not modelled: the queries of the ingestion store; create_rename_operation of the queue, which
-- does not use _occupy_operation_resources; the file service, the broker, identity services,
-- applications, governance services, the reading of document formats and the rest of the
-- knowledge pipeline; the HTTP interfaces, the object storage client, logging and migrations,
-- which hold input and output and little logic. The concurrency of transactions is not modelled:
-- the code locks the rows that it changes, and the model runs one transaction at a time. Nor are
-- other writers to the object storage while the worker runs.
pub mod Prelude
pub mod Keys
pub mod Authorization
pub mod Ledger
pub mod FileRef
pub mod Knowledge
pub mod Ingestion
pub mod Identity
pub mod RateLimit
pub mod Command
pub mod Subject
pub mod Worker
pub mod Queue
pub mod Credentials
