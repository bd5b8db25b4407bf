-- ===== src/Subject.antt =====
-- files/application/delayed_subject_validator.py, under src/s3mp/: whether the subject that asked for
-- work is still entitled to it when the work is done. An id and its text are one number. The stores'
-- answers are functions; a store or a reader that is not there is `none`.
mod Examples
pub mod Entitlement
pub mod Live
use s3mp_backend.Prelude.{
  ℕ, Bool, true, false, not, ◌&&◌, ◌||◌, Option, none, some, List, [], ◌∷◌, Result, ok, err,
  if◌then◌else◌, ◌==◌, is_none,
}
use s3mp_backend.Prelude.Int.{ℤ, pos, ltb_ℤ, leb_ℤ}
use s3mp_backend.Prelude.Text.{Text, codes, text_eq}
use s3mp_backend.Authorization.{text_in}
use s3mp_backend.Identity.{SubjectKind, human, application, same_version}

-- The state of a membership. A key that the store's dictionary may lack is an option.
pub record MembershipState : Type 0 where
  pub status : Text
  pub tenant_status : Option Text
  pub principal_enabled : Option Bool
  pub user_status : Option Text
  pub principal_id : Option ℕ
  pub expires_at : Option ℤ
  pub authorization_version : ℤ

pub record KeyState : Type 0 where
  pub status : Text
  pub application_status : Text
  pub principal_enabled : Bool
  pub principal_id : ℕ
  pub application_id : Option ℕ
  pub expires_at : Option ℤ
  pub application_authorization_version : ℤ
  pub directory_prefix : Option Text
  pub scopes : List Text

pub record MembershipBinding : Type 0 where
  pub status : Text
  pub membership_id : ℕ

-- `PrincipalState`; a principal is given by whether it is enabled.
pub record PrincipalStore : Type 0 where
  pub get_principal : ℕ → ℕ → Option Bool
  pub get_membership_state : ℕ → ℕ → Option MembershipState

pub record ApiKeyStore : Type 0 where
  pub get_key_state : ℕ → ℕ → Option KeyState
  pub get_membership_binding : Option (ℕ → ℕ → Option MembershipBinding)

-- What the validation reads of the evidence.
pub record SubjectEvidence : Type 0 where
  pub subject_kind : Option Text
  pub api_key_id : Option ℕ
  pub application_id : Option ℕ
  pub api_key_directory_prefix : Option Text

pub record DelayedSubject : Type 0 where
  pub subject_kind : SubjectKind
  pub api_key_scopes : Option (List Text)
  pub api_key_directory_prefix : Option Text

-- `UUID("None")` raises a `ValueError`.
pub data SubjectError : Type 0 where
  badly_formed_id : SubjectError

abbrev pub active : Text
active = codes "active"

-- `"k" in d and d.get("k") != "active"` does not hold.
abbrev pub active_if_given : Option Text → Bool
active_if_given none = true
active_if_given (some s) = text_eq s active

abbrev pub true_if_given : Option Bool → Bool
true_if_given none = true
true_if_given (some b) = b

-- `expires_at is not None and expires_at <= now` does not hold.
abbrev pub lasts_beyond : ℤ → Option ℤ → Bool
lasts_beyond now none = true
lasts_beyond now (some e) = not (leb_ℤ e now)

abbrev pub opt_is : Option ℕ → ℕ → Bool
opt_is none n = false
opt_is (some m) n = m == n

abbrev pub same_id : Option ℕ → Option ℕ → Bool
same_id none none = true
same_id none (some n) = false
same_id (some m) none = false
same_id (some m) (some n) = m == n

abbrev pub same_text : Option Text → Option Text → Bool
same_text none none = true
same_text none (some t) = false
same_text (some s) none = false
same_text (some s) (some t) = text_eq s t

-- The tests on a membership that both kinds of subject share.
abbrev pub is_current : ℤ → MembershipState → Bool
is_current now m =
    text_eq m.status active
    && (active_if_given m.tenant_status
        && (true_if_given m.principal_enabled
            && (active_if_given m.user_status && lasts_beyond now m.expires_at)))

abbrev pub human_subject : DelayedSubject
human_subject = record {
  subject_kind = human;
  api_key_scopes = none;
  api_key_directory_prefix = none;
}

-- The part for a subject that is no application.
unfoldable pub validate_human : PrincipalStore → ℕ → ℕ → Option ℕ → ℤ → ℤ → Option DelayedSubject
validate_human store tenant_id principal_id none version now = none
validate_human store tenant_id principal_id (some membership_id) version now =
    elim (store.get_membership_state tenant_id membership_id) [
      | none ↦ none
      | some m ↦
          if is_current now m
            && (opt_is m.principal_id principal_id && same_version m.authorization_version version)
          then some human_subject
          else none
    ]

-- The tests on the state of the API key.
abbrev pub key_is_current : ℕ → ℤ → ℤ → SubjectEvidence → KeyState → Bool
key_is_current principal_id version now evidence key =
    text_eq key.status active
    && (text_eq key.application_status active
        && (key.principal_enabled
            && (key.principal_id == principal_id
                && (same_id key.application_id evidence.application_id
                    && (lasts_beyond now key.expires_at
                        && (not (ltb_ℤ key.application_authorization_version version)
                            && same_text key.directory_prefix
                                evidence.api_key_directory_prefix))))))

-- `required_permission and required_permission not in scopes` does not hold.
abbrev pub permits : Option Text → List Text → Bool
permits none scopes = true
permits (some []) scopes = true
permits (some (c ∷ p)) scopes = text_in (c ∷ p) scopes

abbrev pub application_subject : KeyState → DelayedSubject
application_subject key = record {
  subject_kind = application;
  api_key_scopes = some key.scopes;
  api_key_directory_prefix = key.directory_prefix;
}

-- The part of the membership that is bound to the application.
unfoldable pub validate_bound :
    PrincipalStore
    → (ℕ → ℕ → Option MembershipBinding)
    → ℕ
    → ℕ
    → ℤ
    → KeyState
    → Option DelayedSubject
validate_bound store binding_of tenant_id application_id now key =
    elim (binding_of tenant_id application_id) [
      | none ↦ none
      | some b ↦
          if not (text_eq b.status active)
          then none
          else elim (store.get_membership_state tenant_id b.membership_id) [
            | none ↦ none
            | some m ↦ if is_current now m then some (application_subject key) else none
          ]
    ]

abbrev pub bound_reader :
    PrincipalStore
    → Option (ℕ → ℕ → Option MembershipBinding)
    → ℕ
    → Option ℕ
    → ℤ
    → KeyState
    → Result SubjectError (Option DelayedSubject)
bound_reader store none tenant_id application_id now key = ok none
bound_reader store (some reader) tenant_id none now key = err badly_formed_id
bound_reader store (some reader) tenant_id (some a) now key =
    ok (validate_bound store reader tenant_id a now key)

unfoldable pub validate_application :
    PrincipalStore
    → Option ApiKeyStore
    → ℕ
    → ℕ
    → ℤ
    → ℤ
    → SubjectEvidence
    → Option Text
    → Result SubjectError (Option DelayedSubject)
unfolding validate_bound
validate_application store keys tenant_id principal_id version now evidence required =
    elim evidence.api_key_id [
      | none ↦ ok none
      | some key_id ↦ elim keys [
        | none ↦ ok none
        | some api ↦ elim (api.get_key_state tenant_id key_id) [
          | none ↦ ok none
          | some key ↦
              if key_is_current principal_id version now evidence key && permits required key.scopes
              then bound_reader store api.get_membership_binding tenant_id evidence.application_id
                  now key
              else ok none
        ]
      ]
    ]

-- `str(evidence.get("subject_kind", "human")) == "application"`
abbrev pub says_application : Option Text → Bool
says_application none = false
says_application (some kind) = text_eq kind (codes "application")

-- `principal is None or not principal.get("enabled", False)` does not hold.
abbrev pub is_enabled : Option Bool → Bool
is_enabled none = false
is_enabled (some b) = b

unfoldable pub validate_delayed_subject :
    Option PrincipalStore
    → Option ApiKeyStore
    → ℕ
    → ℕ
    → Option ℕ
    → ℤ
    → ℤ
    → SubjectEvidence
    → Option Text
    → Result SubjectError (Option DelayedSubject)
unfolding validate_human validate_application
validate_delayed_subject none keys tenant_id principal_id membership_id version now evidence
      required =
    ok none
validate_delayed_subject (some store) keys tenant_id principal_id membership_id version now evidence
      required =
    if not (is_enabled (store.get_principal tenant_id principal_id))
    then ok none
    else if says_application evidence.subject_kind
    then validate_application store keys tenant_id principal_id version now evidence required
    else ok (validate_human store tenant_id principal_id membership_id version now)
