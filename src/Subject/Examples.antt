-- ===== src/Subject/Examples.antt =====
-- The theorem on subjects at a concrete input.
use s3mp_backend.Prelude.{ℕ, ◌≡◌, refl, none, some, true, [], ◌∷◌, ok}
use s3mp_backend.Prelude.Int.{pos}
use s3mp_backend.Prelude.Text.{codes}
use s3mp_backend.Identity.{application}
use s3mp_backend.Subject.{
  MembershipState, KeyState, PrincipalStore, ApiKeyStore, SubjectEvidence, DelayedSubject, active,
  validate_delayed_subject,
}
use s3mp_backend.Subject.Entitlement.{IsLive}
use s3mp_backend.Subject.Live.{validate_delayed_subject-IsLive}

abbrev membership : MembershipState
membership = record {
  status = active;
  tenant_status = some active;
  principal_enabled = some true;
  user_status = none;
  principal_id = some 3;
  expires_at = some (pos 90);
  authorization_version = pos 2;
}

abbrev store : PrincipalStore
store = record { get_principal = λ _ _. some true; get_membership_state = λ _ _. some membership }

abbrev key : KeyState
key = record {
  status = active;
  application_status = active;
  principal_enabled = true;
  principal_id = 3;
  application_id = some 5;
  expires_at = none;
  application_authorization_version = pos 2;
  directory_prefix = some (codes "team");
  scopes = codes "files.read" ∷ [];
}

abbrev keys : ApiKeyStore
keys = record {
  get_key_state = λ _ _. some key;
  get_membership_binding = some (λ _ _. some (record { status = active; membership_id = 4 }));
}

abbrev evidence : SubjectEvidence
evidence = record {
  subject_kind = some (codes "application");
  api_key_id = some 6;
  application_id = some 5;
  api_key_directory_prefix = some (codes "team");
}

abbrev subject : DelayedSubject
subject = record {
  subject_kind = application;
  api_key_scopes = some (codes "files.read" ∷ []);
  api_key_directory_prefix = some (codes "team");
}

validated :
    validate_delayed_subject
      (some store)
      (some keys)
      8
      3
      none
      (pos 2)
      (pos 20)
      evidence
      (some (codes "files.read"))
    ≡ ok (some subject)
unfolding validate_delayed_subject s3mp_backend.Prelude.Text.text_eq
validated = refl

validate_delayed_subject-IsLive_example :
    (store.get_principal 8 3 ≡ some true)
    × IsLive store
        (some keys)
        8
        3
        none
        (pos 2)
        (pos 20)
        evidence
        (some (codes "files.read"))
        subject
validate_delayed_subject-IsLive_example =
    validate_delayed_subject-IsLive store (some keys) 8 3 none (pos 2) (pos 20) evidence
      (some (codes "files.read")) subject validated
