-- ===== src/Subject/Entitlement.antt =====
-- On `validate_delayed_subject` of files/application/delayed_subject_validator.py: what entitles a
-- subject.
use s3mp_backend.Prelude.{ℕ, true, false, ◌≡◌, Option, none, some}
use s3mp_backend.Prelude.Int.{ℤ, ◌<ℤ◌, ◌≤ℤ◌}
use s3mp_backend.Prelude.Text.{Text}
use s3mp_backend.Identity.{human, application}
use s3mp_backend.Subject.{
  MembershipState, KeyState, MembershipBinding, PrincipalStore, ApiKeyStore, SubjectEvidence,
  DelayedSubject, active, says_application, permits,
}

-- Neither over nor about to be over.
abbrev pub OpenAt : ℤ → Option ℤ → Type 0
OpenAt now expires_at = (e : ℤ) → expires_at ≡ some e → now <ℤ e

pub record IsCurrent (now : ℤ) (m : MembershipState) : Type 0 where
  pub is_active : m.status ≡ active
  pub tenant_active : (s : Text) → m.tenant_status ≡ some s → s ≡ active
  pub user_active : (s : Text) → m.user_status ≡ some s → s ≡ active
  pub not_disabled : ¬ (m.principal_enabled ≡ some false)
  pub not_expired : OpenAt now m.expires_at

-- A human's entitlement.
pub record IsMember (store : PrincipalStore) (tenant_id principal_id : ℕ) (version now : ℤ)
    (membership_id : ℕ) : Type 0 where
  pub membership : MembershipState
  pub found : store.get_membership_state tenant_id membership_id ≡ some membership
  pub current : IsCurrent now membership
  pub own : membership.principal_id ≡ some principal_id
  pub version_same : membership.authorization_version ≡ version

-- An API key's entitlement: its own state, and the membership that its application is bound to.
pub record IsKey (store : PrincipalStore) (api : ApiKeyStore) (tenant_id principal_id : ℕ)
    (version now : ℤ) (evidence : SubjectEvidence) (required : Option Text) (s : DelayedSubject)
    : Type 0 where
  pub key_id : ℕ
  pub application_id : ℕ
  pub key : KeyState
  pub evidence_key : evidence.api_key_id ≡ some key_id
  pub evidence_application : evidence.application_id ≡ some application_id
  pub found : api.get_key_state tenant_id key_id ≡ some key
  pub is_active : key.status ≡ active
  pub application_active : key.application_status ≡ active
  pub enabled : key.principal_enabled ≡ true
  pub own : key.principal_id ≡ principal_id
  pub same_application : key.application_id ≡ some application_id
  pub not_expired : OpenAt now key.expires_at
  pub not_older : version ≤ℤ key.application_authorization_version
  pub same_directory : key.directory_prefix ≡ evidence.api_key_directory_prefix
  pub scopes_now : s.api_key_scopes ≡ some key.scopes
  pub directory_now : s.api_key_directory_prefix ≡ key.directory_prefix
  pub permitted : permits required key.scopes ≡ true
  pub reader : ℕ → ℕ → Option MembershipBinding
  pub reads_bindings : api.get_membership_binding ≡ some reader
  pub binding : MembershipBinding
  pub bound : reader tenant_id application_id ≡ some binding
  pub binding_active : binding.status ≡ active
  pub membership : MembershipState
  pub membership_found :
      store.get_membership_state tenant_id binding.membership_id ≡ some membership
  pub current : IsCurrent now membership

-- What entitles a subject: a human's membership or an API key's.
pub data IsLive (store : PrincipalStore) (keys : Option ApiKeyStore) (tenant_id principal_id : ℕ)
    (membership_id : Option ℕ) (version now : ℤ) (evidence : SubjectEvidence)
    (required : Option Text) (s : DelayedSubject) : Type 0 where
  by_human :
      (i : ℕ)
      → membership_id ≡ some i
      → IsMember store tenant_id principal_id version now i
      → says_application evidence.subject_kind ≡ false
      → s.subject_kind ≡ human
      → s.api_key_scopes ≡ none
      → IsLive store keys tenant_id principal_id membership_id version now evidence required s
  by_api_key :
      (api : ApiKeyStore)
      → keys ≡ some api
      → IsKey store api tenant_id principal_id version now evidence required s
      → says_application evidence.subject_kind ≡ true
      → s.subject_kind ≡ application
      → IsLive store keys tenant_id principal_id membership_id version now evidence required s
