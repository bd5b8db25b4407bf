-- ===== src/Identity.antt =====
-- identity/domain/context.py, under src/s3mp/, with the records of identity/domain/entities.py: the
-- principal of a request, and when a browser session is accepted. An id is a number, nil is 0; an
-- instant is in microseconds.
pub mod Selection
mod Examples
use s3mp_backend.Prelude.{
  ℕ, Bool, true, false, ◌&&◌, ◌||◌, Option, none, some, List, [], ◌∷◌, Result, ok, err, ◌>>◌,
  raise_if, if◌then◌else◌, ◌==◌, is_none, is_some,
}
use s3mp_backend.Prelude.Int.{ℤ, pos, ltb_ℤ}
use s3mp_backend.Prelude.Text.{Text, codes, text_eq}

pub record Membership : Type 0 where
  pub id : ℕ
  pub tenant_id : ℕ
  pub user_id : ℕ
  pub principal_id : ℕ
  pub status : Text
  pub authorization_version : ℤ
  pub expires_at : Option ℤ

pub record Session : Type 0 where
  pub id : ℕ
  pub tenant_id : ℕ
  pub membership_id : ℕ
  pub principal_id : ℕ
  pub authorization_version : ℤ
  pub expires_at : ℤ
  pub revoked_at : Option ℤ

-- `Literal["human", "application"]`, so that the test of the kind holds by the type.
pub data SubjectKind : Type 0 where
  human application : SubjectKind

pub record PrincipalContext : Type 0 where
  pub tenant_id : ℕ
  pub principal_id : ℕ
  pub membership_id : Option ℕ
  pub authorization_version : ℤ
  pub subject_kind : SubjectKind
  pub application_id : Option ℕ
  pub api_key_id : Option ℕ
  pub api_key_scopes : Option (List Text)
  pub api_key_directory_prefix : Option Text
  pub actor_application_id : Option ℕ
  pub actor_principal_id : Option ℕ
  pub actor_application_code : Option Text

-- The `ValueError`s, one for each message.
pub data ContextError : Type 0 where
  nil_tenant nil_principal nil_membership unexpected_membership human_with_key no_application
        version_not_positive membership_not_active :
      ContextError

abbrev is_human : PrincipalContext → Bool
is_human c = elim c.subject_kind [ human ↦ true | application ↦ false ]

abbrev is_nil : Option ℕ → Bool
is_nil none = true
is_nil (some i) = i == 0

abbrev has_key : PrincipalContext → Bool
has_key c =
    is_some c.application_id
    || (is_some c.api_key_id || (is_some c.api_key_scopes || is_some c.api_key_directory_prefix))

abbrev check_membership : PrincipalContext → Result ContextError (Unit {0})
check_membership c =
    if is_human c
    then raise_if (is_nil c.membership_id) nil_membership
    else raise_if (is_some c.membership_id) unexpected_membership

-- `__post_init__`, after which the context is there.
unfoldable pub checked : PrincipalContext → Result ContextError PrincipalContext
checked c = do
  raise_if (c.tenant_id == 0) nil_tenant
  raise_if (c.principal_id == 0) nil_principal
  check_membership c
  raise_if (is_human c && has_key c) human_with_key
  raise_if (if is_human c then false else is_none c.application_id) no_application
  raise_if (ltb_ℤ c.authorization_version (pos 1)) version_not_positive
  ok c

-- `application_id or principal_id`; an id object is true even if it is nil.
abbrev pub or_principal : Option ℕ → ℕ → ℕ
or_principal none p = p
or_principal (some a) p = a

abbrev pub application_context :
    ℕ → ℕ → ℤ → Option ℕ → Option ℕ → Option (List Text) → Option Text → PrincipalContext
application_context tenant_id principal_id version application_id key_id scopes prefix = record {
  tenant_id = tenant_id;
  principal_id = principal_id;
  membership_id = none;
  authorization_version = version;
  subject_kind = application;
  application_id = some (or_principal application_id principal_id);
  api_key_id = key_id;
  api_key_scopes = scopes;
  api_key_directory_prefix = prefix;
  actor_application_id = none;
  actor_principal_id = none;
  actor_application_code = none;
}

unfoldable pub for_application :
    ℕ
    → ℕ
    → ℤ
    → Option ℕ
    → Option ℕ
    → Option (List Text)
    → Option Text
    → Result ContextError PrincipalContext
unfolding checked
for_application tenant_id principal_id version application_id key_id scopes prefix =
    checked (application_context tenant_id principal_id version application_id key_id scopes prefix)

abbrev pub human_context : ℕ → ℕ → ℕ → ℤ → PrincipalContext
human_context tenant_id principal_id membership_id version = record {
  tenant_id = tenant_id;
  principal_id = principal_id;
  membership_id = some membership_id;
  authorization_version = version;
  subject_kind = human;
  application_id = none;
  api_key_id = none;
  api_key_scopes = none;
  api_key_directory_prefix = none;
  actor_application_id = none;
  actor_principal_id = none;
  actor_application_code = none;
}

-- `expires_at is None or expires_at > current`
abbrev pub lasts : Option ℤ → ℤ → Bool
lasts none current = true
lasts (some e) current = ltb_ℤ current e

-- The loop does not skip the membership.
abbrev pub is_eligible : ℕ → ℤ → Membership → Bool
is_eligible tenant_id current m =
    m.tenant_id == tenant_id && (text_eq m.status (codes "active") && lasts m.expires_at current)

unfoldable pub select_membership : List Membership → ℕ → ℤ → Result ContextError PrincipalContext
unfolding checked
select_membership [] tenant_id current = err membership_not_active
select_membership (m ∷ ms) tenant_id current =
    let rest = select_membership ms tenant_id current in
    if is_eligible tenant_id current m
    then checked (human_context m.tenant_id m.principal_id m.id m.authorization_version)
    else rest

-- `session.authorization_version == membership.authorization_version`
abbrev pub same_version : ℤ → ℤ → Bool
same_version a b = if ltb_ℤ a b then false else if ltb_ℤ b a then false else true

unfoldable pub is_session_usable : Session → Membership → Text → ℤ → Bool
is_session_usable session m user_status current =
    session.tenant_id == m.tenant_id
    && (session.membership_id == m.id
        && (session.principal_id == m.principal_id
            && (same_version session.authorization_version m.authorization_version
                && (is_none session.revoked_at
                    && (ltb_ℤ current session.expires_at
                        && (text_eq m.status (codes "active")
                            && (lasts m.expires_at current
                                && text_eq user_status (codes "active"))))))))
