-- ===== src/Subject/Live.antt =====
-- On `validate_delayed_subject` of files/application/delayed_subject_validator.py: what holds of a
-- subject that it returns.
use s3mp_backend.Prelude.{
  ℕ, Bool, true, false, ◌≡◌, refl, Option, none, some, ◌&&◌, Result, ok, inl, inr, arith,
  Bool-cases, Option-cases,
}
use s3mp_backend.Prelude.Int.{ℤ, eq_of_parts}
use s3mp_backend.Prelude.Text.{Text, text_eq, text_eq_sound}
use s3mp_backend.Identity.{human, application, same_version}
use s3mp_backend.Subject.{
  MembershipState, KeyState, MembershipBinding, PrincipalStore, ApiKeyStore, SubjectEvidence,
  DelayedSubject, SubjectError, active, lasts_beyond, opt_is, same_id, same_text, is_current,
  active_if_given, true_if_given, key_is_current, validate_human, validate_bound,
  validate_application, human_subject, application_subject, bound_reader, validate_delayed_subject,
  says_application, permits, is_enabled,
}
use s3mp_backend.Subject.Entitlement.{
  OpenAt, IsCurrent, IsMember, IsKey, IsLive, by_human, by_api_key,
}

lasts_beyond-OpenAt : (now : ℤ) (o : Option ℤ) → lasts_beyond now o ≡ true → OpenAt now o
lasts_beyond-OpenAt now none h e q = absurd (cc)
lasts_beyond-OpenAt now (some x) h e q = ground arith

given-active : (o : Option Text) → active_if_given o ≡ true → (s : Text) → o ≡ some s → s ≡ active
given-active none h s q = absurd (cc)
given-active (some x) h s q = text_eq_sound s active (ground arith)

true_given : (o : Option Bool) → true_if_given o ≡ true → ¬ (o ≡ some false)
true_given o h q = absurd (cc (rw q at h))

enabled-some : (o : Option Bool) → is_enabled o ≡ true → o ≡ some true
enabled-some o h = ground arith

ok-injective :
    {x y : Option DelayedSubject} (r : Result SubjectError (Option DelayedSubject))
    → r ≡ ok x
    → r ≡ ok y
    → x ≡ y
ok-injective r h k = cc

same-id : (o : Option ℕ) (n : ℕ) → opt_is o n ≡ true → o ≡ some n
same-id o n h = ground arith

same_id-some : (o : Option ℕ) (n : ℕ) → same_id o (some n) ≡ true → o ≡ some n
same_id-some o n h = ground arith

same_text_sound : (o p : Option Text) → same_text o p ≡ true → o ≡ p
same_text_sound none none h = refl
same_text_sound none (some t) h = absurd (cc)
same_text_sound (some s) none h = absurd (cc)
same_text_sound (some s) (some t) h = rw (text_eq_sound s t h)

is_current-IsCurrent : (now : ℤ) (m : MembershipState) → is_current now m ≡ true → IsCurrent now m
is_current-IsCurrent now m h = record {
  is_active = text_eq_sound m.status active (ground arith);
  tenant_active = given-active m.tenant_status (ground arith);
  user_active = given-active m.user_status (ground arith);
  not_disabled = true_given m.principal_enabled (ground arith);
  not_expired = lasts_beyond-OpenAt now m.expires_at (ground arith);
}

same_version_sound : (a b : ℤ) → same_version a b ≡ true → a ≡ b
same_version_sound a b h = eq_of_parts a b (ground arith)

validate_human_sound :
    (store : PrincipalStore) (tenant_id principal_id : ℕ) (membership_id : Option ℕ)
    (version now : ℤ) (s : DelayedSubject)
    → validate_human store tenant_id principal_id membership_id version now ≡ some s
    → (s.subject_kind ≡ human)
      × (s.api_key_scopes ≡ none)
      × (i : ℕ) × (membership_id ≡ some i)
      × IsMember store tenant_id principal_id version now i
unfolding validate_human
validate_human_sound store tenant_id principal_id none version now s h = absurd (cc)
validate_human_sound store tenant_id principal_id (some i) version now s h =
    elim (Option-cases (store.get_membership_state tenant_id i)) [
      | inl e ↦ absurd (cc (rw (e, validate_human) at h))
      | inr (m, e) ↦
          elim (Bool-cases (
            is_current now m
            && (opt_is m.principal_id principal_id
                && same_version m.authorization_version version))) [
                  | inr f ↦ absurd (cc (rw (e, f, validate_human) at h))
                  | inl f ↦
                      let q : human_subject ≡ s = cc (rw (e, f, validate_human) at h) in
                      (
                        rw (← q) refl,
                        rw (← q) refl,
                        i,
                        refl,
                        record {
                          membership = m;
                          found = e;
                          current = is_current-IsCurrent now m (ground arith);
                          own = same-id m.principal_id principal_id (ground arith);
                          version_same =
                              same_version_sound m.authorization_version version (ground arith);
                        },
                      )
                ]
    ]

-- The membership that the application is bound to.
record IsBound (store : PrincipalStore) (bindings : Option (ℕ → ℕ → Option MembershipBinding))
    (tenant_id application_id : ℕ) (now : ℤ) (s : DelayedSubject) (key : KeyState) : Type 0 where
  reader : ℕ → ℕ → Option MembershipBinding
  reads : bindings ≡ some reader
  binding : MembershipBinding
  bound : reader tenant_id application_id ≡ some binding
  binding_active : binding.status ≡ active
  membership : MembershipState
  found : store.get_membership_state tenant_id binding.membership_id ≡ some membership
  current : IsCurrent now membership
  subject : application_subject key ≡ s

validate_bound_sound :
    (store : PrincipalStore) (reader : ℕ → ℕ → Option MembershipBinding)
    (tenant_id application_id : ℕ) (now : ℤ) (key : KeyState) (s : DelayedSubject)
    → validate_bound store reader tenant_id application_id now key ≡ some s
    → IsBound store (some reader) tenant_id application_id now s key
unfolding validate_bound
validate_bound_sound store reader tenant_id application_id now key s h =
    elim (Option-cases (reader tenant_id application_id)) [
      | inl e ↦ absurd (cc (rw (e, validate_bound) at h))
      | inr (b, e) ↦ elim (Bool-cases (text_eq b.status active)) [
        | inr f ↦ absurd (cc (rw (e, f, validate_bound) at h))
        | inl f ↦ elim (Option-cases (store.get_membership_state tenant_id b.membership_id)) [
          | inl g ↦ absurd (cc (rw (e, f, g, validate_bound) at h))
          | inr (m, g) ↦ elim (Bool-cases (is_current now m)) [
            | inr k ↦ absurd (cc (rw (e, f, g, k, validate_bound) at h))
            | inl k ↦ record {
              reader = reader;
              reads = refl;
              binding = b;
              bound = e;
              binding_active = text_eq_sound b.status active f;
              membership = m;
              found = g;
              current = is_current-IsCurrent now m k;
              subject = cc (rw (e, f, g, k, validate_bound) at h);
            }
          ]
        ]
      ]
    ]

bound_reader_sound :
    (store : PrincipalStore) (reader : Option (ℕ → ℕ → Option MembershipBinding)) (tenant_id : ℕ)
    (application_id : Option ℕ) (now : ℤ) (key : KeyState) (s : DelayedSubject)
    → bound_reader store reader tenant_id application_id now key ≡ ok (some s)
    → (a : ℕ) × (application_id ≡ some a) × IsBound store reader tenant_id a now s key
bound_reader_sound store none tenant_id a now key s h = absurd (cc)
bound_reader_sound store (some reader) tenant_id none now key s h = absurd (cc)
bound_reader_sound store (some reader) tenant_id (some a) now key s h =
    (a, refl, validate_bound_sound store reader tenant_id a now key s (cc))

key_is_current-IsKey :
    (store : PrincipalStore) (api : ApiKeyStore) (tenant_id principal_id : ℕ) (version now : ℤ)
    (evidence : SubjectEvidence) (required : Option Text) (s : DelayedSubject)
    (key_id application_id : ℕ) (key : KeyState)
    → evidence.api_key_id ≡ some key_id
    → evidence.application_id ≡ some application_id
    → api.get_key_state tenant_id key_id ≡ some key
    → (key_is_current principal_id version now evidence key && permits required key.scopes) ≡ true
    → IsBound store api.get_membership_binding tenant_id application_id now s key
    → IsKey store api tenant_id principal_id version now evidence required s
key_is_current-IsKey store api tenant_id principal_id version now evidence required s key_id
      application_id key e f g k b =
    record {
      key_id = key_id;
      application_id = application_id;
      key = key;
      evidence_key = e;
      evidence_application = f;
      found = g;
      is_active = text_eq_sound key.status active (ground arith);
      application_active = text_eq_sound key.application_status active (ground arith);
      enabled = ground arith;
      own = ground arith;
      same_application = same_id-some key.application_id application_id (rw (← f) (ground arith));
      not_expired = lasts_beyond-OpenAt now key.expires_at (ground arith);
      not_older = ground arith;
      same_directory =
          same_text_sound key.directory_prefix evidence.api_key_directory_prefix (ground arith);
      scopes_now = rw (← b.subject) refl;
      directory_now = rw (← b.subject) refl;
      permitted = ground arith;
      reader = b.reader;
      reads_bindings = b.reads;
      binding = b.binding;
      bound = b.bound;
      binding_active = b.binding_active;
      membership = b.membership;
      membership_found = b.found;
      current = b.current;
    }

validate_application_sound :
    (store : PrincipalStore) (keys : Option ApiKeyStore) (tenant_id principal_id : ℕ)
    (version now : ℤ) (evidence : SubjectEvidence) (required : Option Text) (s : DelayedSubject)
    → validate_application store keys tenant_id principal_id version now evidence required
      ≡ ok (some s)
    → (api : ApiKeyStore) × (keys ≡ some api)
      × IsKey store api tenant_id principal_id version now evidence required s
      × (s.subject_kind ≡ application)
unfolding validate_application
validate_application_sound store keys tenant_id principal_id version now evidence required s h =
    elim (Option-cases evidence.api_key_id) [
      | inl e ↦ absurd (cc (rw (e, validate_application) at h))
      | inr (key_id, e) ↦ elim (Option-cases keys) [
        | inl f ↦ absurd (cc (rw (e, f, validate_application) at h))
        | inr (api, f) ↦ elim (Option-cases (api.get_key_state tenant_id key_id)) [
          | inl g ↦ absurd (cc (rw (e, f, g, validate_application) at h))
          | inr (key, g) ↦
              elim (Bool-cases (
                key_is_current principal_id version now evidence key
                && permits required key.scopes)) [
                  | inr k ↦ absurd (cc (rw (e, f, g, k, validate_application) at h))
                  | inl k ↦
                      let (a, q, bound) =
                        bound_reader_sound store api.get_membership_binding tenant_id
                          evidence.application_id now key s
                          (rw (e, f, g, k, validate_application) at h) in
                      (
                        api,
                        f,
                        key_is_current-IsKey store api tenant_id principal_id version now evidence
                            required s key_id a key e q g k bound,
                        rw (← bound.subject) refl,
                      )
                ]
        ]
      ]
    ]

-- A subject is returned only where the principal exists and is enabled, and where either the evidence
-- names a human, whose membership is active, belongs to the principal, has not expired and has the
-- version of the authorization; or the evidence names an application, whose API key is active, belongs
-- to the principal and to the application of the evidence, has not expired, is no older than the
-- authorization, has the directory of the evidence and the required permission among its scopes, and
-- whose binding, as the key store answers it for the application of the evidence, is active and names a
-- membership that is active and has not expired; the scopes and the directory of the subject
-- are then those of the key.
pub validate_delayed_subject-IsLive :
    (store : PrincipalStore) (keys : Option ApiKeyStore) (tenant_id principal_id : ℕ)
    (membership_id : Option ℕ) (version now : ℤ) (evidence : SubjectEvidence)
    (required : Option Text) (s : DelayedSubject)
    → validate_delayed_subject
        (some store)
        keys
        tenant_id
        principal_id
        membership_id
        version
        now
        evidence
        required
      ≡ ok (some s)
    → (store.get_principal tenant_id principal_id ≡ some true)
      × IsLive store keys tenant_id principal_id membership_id version now evidence required s
unfolding validate_delayed_subject
validate_delayed_subject-IsLive store keys tenant_id principal_id membership_id version now evidence
      required s h =
    elim (Bool-cases (is_enabled (store.get_principal tenant_id principal_id))) [
      | inr e ↦ absurd (cc (rw (e, validate_delayed_subject) at h))
      | inl e ↦ (
        enabled-some (store.get_principal tenant_id principal_id) e,
        elim (Bool-cases (says_application evidence.subject_kind)) [
          | inl f ↦
              let (api, q, key, kind) =
                validate_application_sound store keys tenant_id principal_id version now evidence
                  required s (rw (e, f, validate_delayed_subject) at h) in
              by_api_key api q key f kind
          | inr f ↦
              let (kind, scopes, i, q, m) =
                validate_human_sound store tenant_id principal_id membership_id version now s
                  (ok-injective (ok _) refl (rw (e, f, validate_delayed_subject) at h)) in
              by_human i q m f kind scopes
        ],
      )
    ]
