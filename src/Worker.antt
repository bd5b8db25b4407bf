-- ===== src/Worker.antt =====
-- files/application/operation_worker.py, under src/s3mp/: the data of a queued file operation, of
-- the object storage and of the stores, and how an effect returns early or raises. An id and its text
-- are one number.
pub mod Effects
pub mod Execution
pub mod Storage
pub mod Granted
pub mod Calls
pub mod Removal
pub mod Targets
pub mod Verified
pub mod Relocation
pub mod Deletion
pub mod Performance
pub mod Authority
pub mod Progress
pub mod Completion
mod Examples
use s3mp_backend.Prelude.{ℕ, Bool, true, false, Option, none, some, List, Result, ok, err}
use s3mp_backend.Prelude.Int.{ℤ}
use s3mp_backend.Prelude.Text.{Text}
use s3mp_backend.Keys.{ProviderTarget}
use s3mp_backend.Authorization.{Datetime, Binding}
use s3mp_backend.Identity.{SubjectKind, ContextError}
use s3mp_backend.Subject.{PrincipalStore, ApiKeyStore, SubjectEvidence, SubjectError}

-- `operation["operation_type"]`; `other` is every text but the four that the code names.
pub data OperationType : Type 0 where
  copying moving renaming deleting other : OperationType

-- `evidence["rename_integrity"]`
pub record RenameIntegrity : Type 0 where
  pub content_length : Option ℕ
  pub checksum : Option Text

-- What the worker reads of the operation. A key that the dictionary may lack is an option.
pub record Operation : Type 0 where
  pub id : ℕ
  pub tenant_id : ℕ
  pub principal_id : ℕ
  pub storage_space_id : Option ℕ
  pub membership_id : Option ℕ
  pub authorization_version : Option ℤ
  pub provider_target_version : Option ℕ
  pub profile_version : Option ℕ
  pub application_id : Option ℕ
  pub storage_namespace : Option Text
  pub operation_type : OperationType
  pub source_key : Option Text
  pub destination_key : Option Text
  pub keys : List Text
  pub evidence : SubjectEvidence
  pub rename_integrity : Option RenameIntegrity

pub record Space : Type 0 where
  pub bucket : Option Text
  pub root_prefix : Option Text
  pub storage_namespace : Option Text
  pub provider_target_version : Option ℕ
  pub application_id : Option ℕ
  pub profile_version : Option ℕ

-- The attributes that the worker reads of the answer of `head`.
pub record ObjectState : Type 0 where
  pub content_length : Option ℕ
  pub checksum_sha256 : Option Text
  pub etag : Option Text

pub data Status : Type 0 where
  cancelled failed retry_wait partial_failure succeeded : Status

pub data Reason : Type 0 where
  legacy_operation_missing_storage_space subject_inactive_or_stale storage_space_missing : Reason
  legacy_provider_target application_namespace_mismatch application_namespace_changed : Reason
  storage_profile_changed operation_keys_missing authorization_revoked : Reason
  storage_target_unverifiable source_object_missing copy_verification_failed : Reason
  rename_content_length_mismatch rename_checksum_mismatch : Reason
  source_delete_authorization_revoked source_delete_failed unsupported_operation : Reason
  object_storage_unavailable : Reason

-- The pair that `execute` returns.
pub record Outcome : Type 0 where
  pub status : Status
  pub reason : Option Reason

abbrev pub because : Status → Reason → Outcome
because s r = record { status = s; reason = some r }

abbrev pub done : Outcome
done = record { status = succeeded; reason = none }

-- What leaves `execute` as an exception.
pub data WorkerError : Type 0 where
  subject_error : SubjectError → WorkerError
  context_error : ContextError → WorkerError

-- A call of a service in the world `W`: it answers or raises (`none`), and may change the world.
abbrev pub Call : Type 0 → Type 0 → Type 0
Call W A = W → Option A × W

-- The services that the worker is given. What a store answers is read off the world.
pub record Services (W : Type 0) : Type 0 where
  pub get_space : ℕ → ℕ → W → Option Space
  pub bindings_for : ℕ → ℕ → ℕ → SubjectKind → W → Option (List Binding)
  pub principals : W → PrincipalStore
  pub api_keys : W → Option ApiKeyStore
  pub clock : W → Datetime
  pub head : ProviderTarget → Call W (Option ObjectState)
  pub copy : ProviderTarget → ProviderTarget → Call W (Unit {0})
  pub delete : ProviderTarget → Call W (Unit {0})
  pub record_rename_provider_result : Option (ℕ → ℕ → Option Text → Call W (Unit {0}))

-- How a statement leaves the `try` block before its end.
pub data Stop : Type 0 where
  returns : Outcome → Stop
  raises : Stop

abbrev pub Act : Type 0 → Type 0 → Type 0
Act W A = W → Result Stop A × W

-- The next statement, unless the first one stops.
infixl 5 ◌>>=◌ ◌>>◌
unfoldable pub ◌>>=◌ : {W A B : Type 0} → Act W A → (A → Act W B) → Act W B
(m >>= k) w = let (r, u) = m w in elim r [ err s ↦ (err s, u) | ok a ↦ k a u ]

unfoldable pub ◌>>◌ : {W A B : Type 0} → Act W A → Act W B → Act W B
unfolding ◌>>=◌
m >> k = m >>= λ _. k

abbrev pub pure : {W A : Type 0} → A → Act W A
pure a w = (ok a, w)

-- `if test: return outcome`
unfoldable pub return_if : {W : Type 0} → Bool → Outcome → Act W (Unit {0})
return_if true o w = (err (returns o), w)
return_if false o w = (ok tt, w)

-- `await call`
unfoldable pub wait_for : {W A : Type 0} → Call W A → Act W A
wait_for call w =
    let (answer, u) = call w in elim answer [ none ↦ (err raises, u) | some a ↦ (ok a, u) ]

-- `try: await call`, `except Exception: return outcome`
unfoldable pub wait_or_return : {W A : Type 0} → Outcome → Call W A → Act W A
wait_or_return o call w =
    let (answer, u) = call w in elim answer [ none ↦ (err (returns o), u) | some a ↦ (ok a, u) ]
