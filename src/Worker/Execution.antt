-- ===== src/Worker/Execution.antt =====
-- `FileOperationWorker.execute` of files/application/operation_worker.py: the checks on the subject and
-- the space that come before the effects, and the outcome.
use s3mp_backend.Prelude.{
  ℕ, Bool, false, not, Option, none, some, List, [], ◌∷◌, Result, ok, err, if◌then◌else◌, ◌==◌,
}
use s3mp_backend.Prelude.Int.{ℤ, pos}
use s3mp_backend.Prelude.Text.{Text}
use s3mp_backend.Authorization.{as_utc}
use s3mp_backend.Identity.{
  PrincipalContext, human, application, ContextError, checked, human_context, for_application,
}
use s3mp_backend.Subject.{DelayedSubject, SubjectError, opt_is, same_text, validate_delayed_subject}
use s3mp_backend.Worker.{
  Operation, Space, Reason, Outcome, because, done, WorkerError, subject_error, context_error,
  Services, Stop, returns, raises, cancelled, retry_wait, legacy_operation_missing_storage_space,
  subject_inactive_or_stale, storage_space_missing, legacy_provider_target,
  application_namespace_mismatch, application_namespace_changed, storage_profile_changed,
  object_storage_unavailable,
}
use s3mp_backend.Worker.Effects.{default_to, perform}

abbrev pub version_or : ℤ → Option ℤ → ℤ
version_or d none = d
version_or d (some v) = v

-- `subject.api_key_scopes or frozenset()`
abbrev scopes_of : DelayedSubject → List Text
scopes_of s = elim s.api_key_scopes [ none ↦ [] | some scopes ↦ scopes ]

-- The context of the operation's subject; a missing membership is the id 1.
unfoldable pub context_of : Operation → DelayedSubject → Result ContextError PrincipalContext
context_of op s = elim s.subject_kind [
  | application ↦
      for_application op.tenant_id op.principal_id (version_or (pos 1) op.authorization_version)
        op.evidence.application_id op.evidence.api_key_id (some (scopes_of s))
        s.api_key_directory_prefix
  | human ↦ checked (
      human_context op.tenant_id op.principal_id (default_to 1 op.membership_id)
        (version_or (pos 1) op.authorization_version))
]

-- `operation.get("application_id") and str(operation["application_id"]) != str(space.get("application_id"))`
abbrev other_application : Option ℕ → Option ℕ → Bool
other_application none current = false
other_application (some a) current = not (opt_is current a)

abbrev other_namespace : Option Text → Option Text → Bool
other_namespace none current = false
other_namespace (some []) current = false
other_namespace (some (c ∷ n)) current = not (same_text (some (c ∷ n)) current)

-- The checks of the operation against the space as it is now.
unfoldable pub stale_reason : Operation → Space → Option Reason
stale_reason op space =
    if not (default_to 0 op.provider_target_version == default_to 1 space.provider_target_version)
    then some legacy_provider_target
    else if other_application op.application_id space.application_id
    then some application_namespace_mismatch
    else if other_namespace op.storage_namespace space.storage_namespace
    then some application_namespace_changed
    else if not (default_to 1 op.profile_version == default_to 1 space.profile_version)
    then some storage_profile_changed
    else none

-- The outer `try`, its `except` and the last `return`.
abbrev pub outcome_of : Result Stop (Unit {0}) → Outcome
outcome_of (ok _) = done
outcome_of (err (returns outcome)) = outcome
outcome_of (err raises) = because retry_wait object_storage_unavailable

-- The statements of `_execute` up to its `try`: each takes what the one before has computed.
module _ {W : Type 0} (show_uuid : ℕ → Text) (services : Services W) where
  unfoldable pub if_current :
      Option Reason → Operation → PrincipalContext → Space → ℕ → W → Result WorkerError Outcome × W
  unfolding perform
  if_current (some reason) op ctx space space_id w = (ok (because cancelled reason), w)
  if_current none op ctx space space_id w =
      let (r, u) = perform show_uuid services op.operation_type op ctx space space_id w in
      (ok (outcome_of r), u)

  unfoldable pub on_space :
      Option Space → Operation → PrincipalContext → ℕ → W → Result WorkerError Outcome × W
  unfolding if_current stale_reason
  on_space none op ctx space_id w = (ok (because cancelled storage_space_missing), w)
  on_space (some space) op ctx space_id w =
      if_current (stale_reason op space) op ctx space space_id w

  unfoldable pub in_context :
      Result ContextError PrincipalContext → Operation → ℕ → W → Result WorkerError Outcome × W
  unfolding on_space
  in_context (err e) op space_id w = (err (context_error e), w)
  in_context (ok ctx) op space_id w =
      on_space (services.get_space op.tenant_id space_id w) op ctx space_id w

  unfoldable pub for_subject :
      Result SubjectError (Option DelayedSubject)
      → Operation
      → ℕ
      → W
      → Result WorkerError Outcome × W
  unfolding in_context context_of
  for_subject (err e) op space_id w = (err (subject_error e), w)
  for_subject (ok none) op space_id w = (ok (because cancelled subject_inactive_or_stale), w)
  for_subject (ok (some subject)) op space_id w = in_context (context_of op subject) op space_id w

  abbrev pub subject_of : Operation → W → Result SubjectError (Option DelayedSubject)
  subject_of op w =
      validate_delayed_subject (some (services.principals w)) (services.api_keys w) op.tenant_id
        op.principal_id op.membership_id (version_or (pos 0) op.authorization_version)
        (as_utc (services.clock w)) op.evidence none

  unfoldable pub in_space : Option ℕ → Operation → W → Result WorkerError Outcome × W
  unfolding for_subject
  in_space none op w = (ok (because cancelled legacy_operation_missing_storage_space), w)
  in_space (some space_id) op w = for_subject (subject_of op w) op space_id w

  unfoldable pub execute : Operation → W → Result WorkerError Outcome × W
  unfolding in_space
  execute op w = in_space op.storage_space_id op w
