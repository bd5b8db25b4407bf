-- ===== src/Command.antt =====
-- files/application/authorized_command.py, under src/s3mp/: the command that every file operation
-- carries, with its canonical key, its provider target and the evidence of its authorization.
pub mod Scope
pub mod Authority
mod Examples
use s3mp_backend.Prelude.{
  ℕ, Bool, true, false, not, ◌&&◌, ◌||◌, Option, none, some, List, [], ◌∷◌, ◌++◌, map, Result, ok,
  err, ◌>>=◌, ◌>>◌, raise_if, if◌then◌else◌, any, is_none,
}
use s3mp_backend.Prelude.Int.{ℤ, pos}
use s3mp_backend.Prelude.Text.{Text, codes, text_eq}
use s3mp_backend.Keys.{
  slash, PrefixError, PolicyError, ProviderTarget, validate_canonical_prefix, canonical_object_key,
  scope_matches, derive_provider_target,
}
use s3mp_backend.Authorization.{
  Datetime, Decision, allow, deny, ReasonCode, Binding, DecisionSource, AuthorizationDecision,
  evaluate, text_in,
}
use s3mp_backend.Identity.{PrincipalContext, SubjectKind, human, application}

-- What the command reads of a storage space.
pub record StorageSpace : Type 0 where
  pub id : ℕ
  pub bucket : Text
  pub root_prefix : Option Text
  pub storage_namespace : Option Text
  pub provider_target_version : Option ℕ

-- What `create` raises: the errors of the keys, and the `ApiError`s, one for each message.
pub data CommandError : Type 0 where
  policy : PolicyError → CommandError
  prefix : PrefixError → CommandError
  outside_directory scope_denied role_not_configured : CommandError
  permission_denied : ReasonCode → CommandError

-- The evidence of the authorization. The ids are those of the context.
pub record Evidence : Type 0 where
  pub decision : Decision
  pub reason : ReasonCode
  pub sources : List DecisionSource
  pub evaluated_at : Datetime
  pub authorization_version : ℤ
  pub subject_kind : SubjectKind
  pub target_principal_id : ℕ
  pub membership_id : Option ℕ
  pub application_id : Option ℕ
  pub actor_application_id : Option ℕ
  pub actor_principal_id : Option ℕ
  pub actor_application_code : Option Text
  pub api_key_id : Option ℕ
  pub api_key_scopes : List Text
  pub api_key_directory_prefix : Option Text

-- The payload of the fingerprint; `Json` is the type of the semantics.
pub record Payload (Json : Type 0) : Type 0 where
  pub tenant_id : ℕ
  pub principal_id : ℕ
  pub subject_kind : SubjectKind
  pub action : Text
  pub storage_space_id : ℕ
  pub relative_key : Text
  pub idempotency_key : Text
  pub semantics : Option Json

pub record AuthorizedFileCommand : Type 0 where
  pub tenant_id : ℕ
  pub acting_principal_id : ℕ
  pub storage_space_id : ℕ
  pub bucket : Text
  pub relative_key : Text
  pub physical_key : Text
  pub provider_target_version : ℕ
  pub action : Text
  pub authorization_version : ℤ
  pub authorization_evidence : Evidence
  pub request_id : Text
  pub idempotency_fingerprint : Text

-- The request, without the context and the bindings.
pub record Request (Json : Type 0) : Type 0 where
  pub relative_key : Text
  pub action : Text
  pub request_id : Text
  pub idempotency_key : Text
  pub semantics : Option Json
  pub resolved_relative_key : Bool

abbrev pub as_policy : {A : Type 0} → Result PolicyError A → Result CommandError A
as_policy (ok a) = ok a
as_policy (err e) = err (policy e)

abbrev pub as_prefix : {A : Type 0} → Result PrefixError A → Result CommandError A
as_prefix (ok a) = ok a
as_prefix (err e) = err (prefix e)

abbrev pub is_application : PrincipalContext → Bool
is_application c = elim c.subject_kind [ human ↦ false | application ↦ true ]

-- `ctx.api_key_directory_prefix if ctx.subject_kind == "application" else None`
abbrev pub directory_of : PrincipalContext → Option Text
directory_of c = if is_application c then c.api_key_directory_prefix else none

-- f"{key_prefix}/{rel}" if rel else key_prefix
abbrev pub under : Text → Text → Text
under key_prefix [] = key_prefix
under key_prefix (c ∷ rel) = key_prefix ++ (slash ∷ (c ∷ rel))

-- The part under `if key_prefix:`, on the canonical relative key.
unfoldable pub scoped_key : Option Text → Bool → Text → Result CommandError Text
scoped_key none resolved rel = ok rel
scoped_key (some []) resolved rel = ok rel
scoped_key (some (c ∷ p)) resolved rel = do
  key_prefix ← as_policy (canonical_object_key (c ∷ p) false)
  if resolved
      then (raise_if (not (scope_matches (some key_prefix) rel)) outside_directory >> ok rel)
      else ok (under key_prefix rel)

-- `ctx.api_key_scopes is None or action not in ctx.api_key_scopes`, for an application.
abbrev pub scope_missing : PrincipalContext → Text → Bool
scope_missing c action =
    is_application c
    && elim c.api_key_scopes [ none ↦ true | some scopes ↦ not (text_in action scopes) ]

abbrev text_or_empty : Option Text → Text
text_or_empty none = []
text_or_empty (some s) = s

abbrev version_of : Option ℕ → ℕ
version_of none = 1
version_of (some v) = v

abbrev acting : PrincipalContext → ℕ
acting c = elim c.actor_principal_id [ none ↦ c.principal_id | some p ↦ p ]

abbrev is_empty_list : List Binding → Bool
is_empty_list [] = true
is_empty_list (_ ∷ _) = false

-- `if decision.decision is not Decision.ALLOW`
unfoldable pub require_allow :
    PrincipalContext → List Binding → AuthorizationDecision → Result CommandError (Unit {0})
require_allow c bindings d = elim d.decision [
  | allow ↦ ok tt
  | deny ↦
      if is_application c && is_empty_list bindings
      then err role_not_configured
      else err (permission_denied d.reason_code)
]

-- `sorted` and the text of the payload's hash are the standard library's.
module _ {Json : Type 0} (show_uuid : ℕ → Text) (sorted : List Text → List Text)
    (digest_json : Payload Json → Text) where
  abbrev evidence_of : PrincipalContext → AuthorizationDecision → Datetime → Option Text → Evidence
  evidence_of c d now key_prefix = record {
    decision = d.decision;
    reason = d.reason_code;
    sources = d.sources;
    evaluated_at = now;
    authorization_version = c.authorization_version;
    subject_kind = c.subject_kind;
    target_principal_id = c.principal_id;
    membership_id = c.membership_id;
    application_id = c.application_id;
    actor_application_id = c.actor_application_id;
    actor_principal_id = c.actor_principal_id;
    actor_application_code = c.actor_application_code;
    api_key_id = c.api_key_id;
    api_key_scopes = sorted (elim c.api_key_scopes [ none ↦ [] | some scopes ↦ scopes ]);
    api_key_directory_prefix = key_prefix;
  }

  -- `if idempotency_key:`
  abbrev fingerprint_of : PrincipalContext → StorageSpace → Request Json → Text → Text → Text
  fingerprint_of c space request rel [] = []
  fingerprint_of c space request rel (k ∷ ks) = digest_json (record {
    tenant_id = c.tenant_id;
    principal_id = c.principal_id;
    subject_kind = c.subject_kind;
    action = request.action;
    storage_space_id = space.id;
    relative_key = rel;
    idempotency_key = k ∷ ks;
    semantics = request.semantics;
  })

  abbrev pub command_of :
      PrincipalContext
      → StorageSpace
      → Request Json
      → Datetime
      → Text
      → ProviderTarget
      → AuthorizationDecision
      → AuthorizedFileCommand
  command_of c space request now rel target d = record {
    tenant_id = c.tenant_id;
    acting_principal_id = acting c;
    storage_space_id = space.id;
    bucket = target.bucket;
    relative_key = rel;
    physical_key = target.key;
    provider_target_version = target.version;
    action = request.action;
    authorization_version = c.authorization_version;
    authorization_evidence = evidence_of c d now (directory_of c);
    request_id = request.request_id;
    idempotency_fingerprint = fingerprint_of c space request rel request.idempotency_key;
  }

  -- Steps 2 to 4, on the key in the directory of the API key.
  unfoldable pub authorize :
      PrincipalContext
      → StorageSpace
      → List Binding
      → Request Json
      → Datetime
      → Text
      → Result CommandError AuthorizedFileCommand
  unfolding require_allow
  authorize c space bindings request now rel = do
    target ← as_policy (
        derive_provider_target show_uuid c.tenant_id space.id space.bucket rel
          (text_or_empty space.root_prefix) space.storage_namespace
          (version_of space.provider_target_version))
    raise_if (scope_missing c request.action) scope_denied
    d ← as_prefix (evaluate request.action bindings (some space.id) rel now)
    require_allow c bindings d
    ok (command_of c space request now rel target d)

  -- `AuthorizedFileCommand.create`
  unfoldable pub create :
      PrincipalContext
      → StorageSpace
      → List Binding
      → Request Json
      → Datetime
      → Result CommandError AuthorizedFileCommand
  unfolding scoped_key authorize
  create c space bindings request now = do
    canonical ←
        as_policy
          (canonical_object_key request.relative_key (text_eq request.action (codes "files.list")))
    rel ← scoped_key (directory_of c) request.resolved_relative_key canonical
    as_prefix (validate_canonical_prefix rel)
    authorize c space bindings request now rel
