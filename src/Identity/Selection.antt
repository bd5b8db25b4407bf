-- ===== src/Identity/Selection.antt =====
-- On identity/domain/context.py: the membership that gives the context of a request, and sessions.
use s3mp_backend.Prelude.{
  ℕ, true, ◌≡◌, ◌≢◌, refl, sym, ap, subst, ◌↔◌, Option, none, some, List, [], ◌∷◌, ok, inl, inr, In,
  arith, Bool-cases,
}
use s3mp_backend.Prelude.Int.{ℤ, pos, ◌<ℤ◌, ◌≤ℤ◌, eq_of_parts}
use s3mp_backend.Prelude.Text.{Text, codes, text_eq_sound, text_eq_refl}
use s3mp_backend.Identity.{
  Membership, Session, PrincipalContext, checked, for_application, application_context,
  human_context, lasts, is_eligible, same_version, select_membership, is_session_usable,
}

abbrev pub Lasts : Option ℤ → ℤ → Type 0
Lasts none current = Unit
Lasts (some e) current = current <ℤ e

-- A membership that may be selected.
pub record IsEligible (tenant_id : ℕ) (current : ℤ) (m : Membership) : Type 0 where
  pub own_tenant : m.tenant_id ≡ tenant_id
  pub is_active : m.status ≡ codes "active"
  pub unexpired : Lasts m.expires_at current

lasts-Lasts : (e : Option ℤ) (current : ℤ) → lasts e current ≡ true → Lasts e current
lasts-Lasts none current h = tt
lasts-Lasts (some e) current h = ground arith

is_eligible_sound :
    (tenant_id : ℕ) (current : ℤ) (m : Membership)
    → is_eligible tenant_id current m ≡ true
    → IsEligible tenant_id current m
is_eligible_sound tenant_id current m h = record {
  own_tenant = ground arith;
  is_active = text_eq_sound m.status (codes "active") (ground arith);
  unexpired = lasts-Lasts m.expires_at current (ground arith);
}

-- What holds of a context of a person.
pub record IsPerson (c : PrincipalContext) (m : Membership) : Type 0 where
  pub from_membership : c ≡ human_context m.tenant_id m.principal_id m.id m.authorization_version
  pub tenant_set : m.tenant_id ≢ 0
  pub principal_set : m.principal_id ≢ 0
  pub membership_set : m.id ≢ 0
  pub positive : pos 1 ≤ℤ m.authorization_version

checked-IsPerson :
    (m : Membership) (c : PrincipalContext)
    → checked (human_context m.tenant_id m.principal_id m.id m.authorization_version) ≡ ok c
    → IsPerson c m
unfolding checked
checked-IsPerson m c h = record {
  from_membership = ground arith;
  tenant_set = ground arith;
  principal_set = ground arith;
  membership_set = ground arith;
  positive = ground arith;
}

-- A context that is selected is that of a membership in the list which is of the tenant, active and
-- not expired, with ids that are set and a positive version.
pub select-IsPerson :
    (ms : List Membership) (tenant_id : ℕ) (current : ℤ) (c : PrincipalContext)
    → select_membership ms tenant_id current ≡ ok c
    → (m : Membership) × In m ms × IsEligible tenant_id current m × IsPerson c m
unfolding select_membership
select-IsPerson [] tenant_id current c h = absurd (cc)
select-IsPerson (m ∷ ms) tenant_id current c h =
    elim (Bool-cases (is_eligible tenant_id current m)) [
      | inl e ↦ (
        m,
        inl refl,
        is_eligible_sound tenant_id current m e,
        checked-IsPerson m c (rw (e, select_membership) at h),
      )
      | inr e ↦
          let (n, i, q, p) =
            select-IsPerson ms tenant_id current c (rw (e, select_membership) at h) in
          (n, inr i, q, p)
    ]

same_version_eq : (a b : ℤ) → same_version a b ≡ true → a ≡ b
same_version_eq a b h = eq_of_parts a b (ground arith)

eligible_selected :
    (s : Session) (m : Membership) (current : ℤ)
    → s.tenant_id ≢ 0
    → s.principal_id ≢ 0
    → s.membership_id ≢ 0
    → pos 1 ≤ℤ s.authorization_version
    → is_eligible s.tenant_id current m ≡ true
    → m.tenant_id ≡ s.tenant_id
    → m.principal_id ≡ s.principal_id
    → m.id ≡ s.membership_id
    → m.authorization_version ≡ s.authorization_version
    → select_membership (m ∷ []) s.tenant_id current
      ≡ ok (human_context s.tenant_id s.principal_id s.membership_id s.authorization_version)
unfolding select_membership checked
eligible_selected s m current t p i v eligible tenant principal membership version =
    rw (eligible, select_membership)
      (rw tenant (rw principal (rw membership (rw version (ground arith)))))

-- What makes a session usable: it is not revoked and not expired, its user is active, and the membership
-- is the one that is selected for its tenant, with the session's ids and version.
pub record IsValidSession (s : Session) (m : Membership) (user_status : Text) (current : ℤ)
    : Type 0 where
  pub unrevoked : s.revoked_at ≡ none
  pub unexpired : current <ℤ s.expires_at
  pub user_active : user_status ≡ codes "active"
  pub selected :
      select_membership (m ∷ []) s.tenant_id current
      ≡ ok (human_context s.tenant_id s.principal_id s.membership_id s.authorization_version)

usable-IsValidSession :
    (s : Session) (m : Membership) (user_status : Text) (current : ℤ)
    → s.tenant_id ≢ 0
    → s.principal_id ≢ 0
    → s.membership_id ≢ 0
    → pos 1 ≤ℤ s.authorization_version
    → is_session_usable s m user_status current ≡ true
    → IsValidSession s m user_status current
unfolding is_session_usable
usable-IsValidSession s m user_status current t p i v h =
    let eligible : is_eligible s.tenant_id current m ≡ true = ground arith in
    let version = same_version_eq s.authorization_version m.authorization_version (ground arith) in
    record {
      unrevoked = ground arith;
      unexpired = ground arith;
      user_active = text_eq_sound user_status (codes "active") (ground arith);
      selected =
          eligible_selected s m current t p i v eligible (ground arith) (ground arith)
            (ground arith) (sym version);
    }

lasts-true : (e : Option ℤ) (current : ℤ) → Lasts e current → lasts e current ≡ true
lasts-true none current h = refl
lasts-true (some e) current h = ground arith

IsValidSession-usable :
    (s : Session) (m : Membership) (user_status : Text) (current : ℤ)
    → IsValidSession s m user_status current
    → is_session_usable s m user_status current ≡ true
unfolding is_session_usable
IsValidSession-usable s m user_status current h =
    let (n, i, eligible, person) =
      select-IsPerson (m ∷ []) s.tenant_id current
        (human_context s.tenant_id s.principal_id s.membership_id s.authorization_version)
        h.selected in
    let e : m ≡ n = elim i [ inl q ↦ q | inr q ↦ absurd q ] in
    let eligible_m = subst (IsEligible s.tenant_id current) {x = n} {y = m} (sym e) eligible in
    let same =
      subst
        (IsPerson
          (human_context s.tenant_id s.principal_id s.membership_id s.authorization_version))
        {x = n} {y = m} (sym e) person in
    let tenant : s.tenant_id ≡ m.tenant_id = ap (λ c. c.tenant_id) same.from_membership in
    let principal : s.principal_id ≡ m.principal_id =
      ap (λ c. c.principal_id) same.from_membership in
    let membership : some s.membership_id ≡ some m.id =
      ap (λ c. c.membership_id) same.from_membership in
    let version : s.authorization_version ≡ m.authorization_version =
      ap (λ c. c.authorization_version) same.from_membership in
    let membership_id : s.membership_id ≡ m.id = cc in
    let active = eligible_m.is_active in
    let lasting = lasts-true m.expires_at current eligible_m.unexpired in
    rw (tenant, principal, membership_id, version, h.unrevoked, h.user_active, active)
      (ground (arith, text_eq_refl (codes "active")))

-- A session whose ids are set and whose version is positive is usable with a membership exactly when it
-- is not revoked and not expired, its user is active, and the membership is the one that is selected for
-- the session's tenant, with the session's ids and version.
pub usable_iff :
    (s : Session) (m : Membership) (user_status : Text) (current : ℤ)
    → s.tenant_id ≢ 0
    → s.principal_id ≢ 0
    → s.membership_id ≢ 0
    → pos 1 ≤ℤ s.authorization_version
    → (is_session_usable s m user_status current ≡ true) ↔ IsValidSession s m user_status current
usable_iff s m user_status current t p i v = (
  usable-IsValidSession s m user_status current t p i v,
  IsValidSession-usable s m user_status current,
)

-- An application's context is made exactly when tenant and principal are set and the version is
-- positive; it has no membership, and its application is the given one, or else the principal.
pub for_application_iff :
    (t p : ℕ) (v : ℤ) (a k : Option ℕ) (scopes : Option (List Text)) (prefix : Option Text)
    (c : PrincipalContext)
    → (for_application t p v a k scopes prefix ≡ ok c)
      ↔ ((t ≢ 0) × (p ≢ 0) × (pos 1 ≤ℤ v) × (application_context t p v a k scopes prefix ≡ c))
unfolding for_application checked
for_application_iff t p v a k scopes prefix c =
    (λ h. (ground arith, ground arith, ground arith, ground arith), λ (x, y, z, e). ground arith)
