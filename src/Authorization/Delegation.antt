-- ===== src/Authorization/Delegation.antt =====
-- On authorization/domain/delegation.py: the scopes that a delegation may hand on, and direct grants.
use s3mp_backend.Prelude.{
  true, ◌≡◌, refl, Option, none, some, List, [], ◌∷◌, ok, arith, In, any→In, all→In, Result-cases,
  inl, inr,
}
use s3mp_backend.Prelude.Text.{Text, text_eq, text_eq_sound, starts_with}
use s3mp_backend.Keys.{validate_canonical_prefix, scope_matches}
use s3mp_backend.Keys.Scope.{scope_trans}
use s3mp_backend.Authorization.{
  DelegationScope, prefix_contains, text_in, subset, validate_delegated_scope, or_empty,
}

-- A scope authorises a permission on a key.
abbrev pub Authorises : DelegationScope → Text → Text → Type 0
Authorises s permission key =
    In permission s.permissions × (scope_matches s.canonical_prefix key ≡ true)

prefix_contains-scope :
    (parent child : Option Text) (key : Text)
    → prefix_contains parent child ≡ true
    → scope_matches child key ≡ true
    → scope_matches parent key ≡ true
unfolding prefix_contains
prefix_contains-scope none child key h k = unfold scope_matches in refl
prefix_contains-scope (some []) child key h k = unfold scope_matches in refl
prefix_contains-scope (some (c ∷ p)) none key h k = absurd (cc)
prefix_contains-scope (some (c ∷ p)) (some []) key h k = absurd (unfold text_eq starts_with in cc)
prefix_contains-scope (some (c ∷ p)) (some (d ∷ q)) key h k =
    scope_trans (some (c ∷ p)) (d ∷ q) key (λ e. cc) (unfold scope_matches in h) k

subset-In : (xs ys : List Text) (t : Text) → subset xs ys ≡ true → In t xs → In t ys
subset-In xs ys t h m =
    let (u, i, e) = any→In (λ u. text_eq u t) ys (all→In (λ x. text_in x ys) t xs h m) in
    rw (← text_eq_sound u t e) i

delegated-inv :
    (grant delegator : DelegationScope)
    → validate_delegated_scope grant delegator ≡ ok tt
    → (subset grant.permissions delegator.permissions ≡ true)
      × (prefix_contains delegator.canonical_prefix grant.canonical_prefix ≡ true)
unfolding validate_delegated_scope
delegated-inv grant delegator h =
    elim (Result-cases (validate_canonical_prefix (or_empty grant.canonical_prefix))) [
      | inl e ↦ (ground arith, ground arith)
      | inr e ↦ absurd (ground arith)
    ]

-- Whatever permission on whatever key an accepted delegated scope authorises, the delegator's scope
-- authorises.
pub delegation_narrows :
    (grant delegator : DelegationScope) (permission key : Text)
    → validate_delegated_scope grant delegator ≡ ok tt
    → Authorises grant permission key
    → Authorises delegator permission key
delegation_narrows grant delegator permission key h (allowed, covered) =
    let (permissions, prefix) = delegated-inv grant delegator h in
    (
      subset-In grant.permissions delegator.permissions permission permissions allowed,
      prefix_contains-scope delegator.canonical_prefix grant.canonical_prefix key prefix covered,
    )

-- Delegations compose: a scope accepted from a delegate stays within the first delegator's scope.
pub delegation_chain :
    (c b a : DelegationScope) (permission key : Text)
    → validate_delegated_scope c b ≡ ok tt
    → validate_delegated_scope b a ≡ ok tt
    → Authorises c permission key
    → Authorises a permission key
delegation_chain c b a permission key h k m =
    delegation_narrows b a permission key k (delegation_narrows c b permission key h m)
