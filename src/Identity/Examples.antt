-- ===== src/Identity/Examples.antt =====
-- The theorems on principals at concrete inputs.
use s3mp_backend.Prelude.{ℕ, arith, true, ◌≡◌, ◌≢◌, ◌↔◌, refl, none, some, List, [], ◌∷◌, ok, In}
use s3mp_backend.Prelude.Int.{pos, ◌≤ℤ◌}
use s3mp_backend.Prelude.Text.{codes}
use s3mp_backend.Identity.{
  Membership, Session, PrincipalContext, for_application, application_context, human_context,
  select_membership, is_session_usable,
}
use s3mp_backend.Identity.Selection.{
  IsEligible, IsPerson, select-IsPerson, IsValidSession, usable_iff, for_application_iff,
}

abbrev expired : Membership
expired = record {
  id = 4;
  tenant_id = 8;
  user_id = 2;
  principal_id = 3;
  status = codes "active";
  authorization_version = pos 1;
  expires_at = some (pos 10);
}

abbrev current : Membership
current = record expired { id = 5; expires_at = some (pos 90) }

abbrev person : PrincipalContext
person = human_context 8 3 5 (pos 1)

selected : select_membership (expired ∷ (current ∷ [])) 8 (pos 20) ≡ ok person
unfolding select_membership s3mp_backend.Prelude.Text.text_eq
selected = refl

select-IsPerson_example :
    (m : Membership) × In m (expired ∷ (current ∷ [])) × IsEligible 8 (pos 20) m × IsPerson person m
select-IsPerson_example = select-IsPerson (expired ∷ (current ∷ [])) 8 (pos 20) person selected

abbrev session : Session
session = record {
  id = 6;
  tenant_id = 8;
  membership_id = 5;
  principal_id = 3;
  authorization_version = pos 1;
  expires_at = pos 50;
  revoked_at = none;
}

usable : is_session_usable session current (codes "active") (pos 20) ≡ true
unfolding is_session_usable s3mp_backend.Prelude.Text.text_eq
usable = refl

usable_iff_example :
    (is_session_usable session current (codes "active") (pos 20) ≡ true)
    ↔ IsValidSession session current (codes "active") (pos 20)
usable_iff_example =
    usable_iff session current (codes "active") (pos 20) (λ e. absurd (cc e)) (λ e. absurd (cc e))
      (λ e. absurd (cc e)) (omega arith)

for_application_iff_example :
    (for_application 8 3 (pos 1) none none none none
      ≡ ok (application_context 8 3 (pos 1) none none none none))
    ↔ ((◌≢◌ {A = ℕ} 8 0)
        × (◌≢◌ {A = ℕ} 3 0)
        × (pos 1 ≤ℤ pos 1)
        × (application_context 8 3 (pos 1) none none none none
            ≡ application_context 8 3 (pos 1) none none none none))
for_application_iff_example =
    for_application_iff 8 3 (pos 1) none none none none
      (application_context 8 3 (pos 1) none none none none)
