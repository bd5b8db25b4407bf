-- ===== src/Authorization/Examples.antt =====
-- The theorems on authorization at concrete inputs.
use s3mp_backend.Prelude.{
  ℕ, true, ◌≡◌, ◌≢◌, ◌↔◌, refl, Option, none, some, List, [], ◌∷◌, ok, err, In, inl, inr,
}
use s3mp_backend.Prelude.Int.{ℤ, pos, ◌<ℤ◌}
use s3mp_backend.Prelude.Text.{Text, codes, strip}
use s3mp_backend.Authorization.{
  Datetime, naive, aware, Decision, allow, deny, Binding, AuthorizationDecision, DelegationScope,
  binding_allow, explicit_deny, source_of, evaluate, validate_direct_grant,
  validate_delegated_scope, not_future, not_comparable,
}
use s3mp_backend.Authorization.Decisions.{MatchIn, evaluate_allows, evaluate_order}
use s3mp_backend.Authorization.Delegation.{Authorises, delegation_narrows}

abbrev read : Text
read = codes "object.read"

abbrev report : Text
report = codes "a/report.txt"

abbrev reader : Binding
reader = record {
  id = 1;
  permission = read;
  effect = allow;
  canonical_prefix = some (codes "a");
  starts_at = naive (pos 10);
  expires_at = aware (pos 40) (pos 10);
  reason = codes "team";
  storage_space_id = some 7;
}

abbrev blocked : Binding
blocked = record reader { id = 2; effect = deny; canonical_prefix = some (codes "b") }

abbrev allowed : AuthorizationDecision
allowed = record { decision = allow; reason_code = binding_allow; sources = source_of reader ∷ [] }

abbrev allowed_twice : AuthorizationDecision
allowed_twice = record allowed { sources = source_of reader ∷ (source_of reader ∷ []) }

evaluated : evaluate read (reader ∷ (blocked ∷ [])) (some 7) report (naive (pos 20)) ≡ ok allowed
unfolding evaluate s3mp_backend.Keys.validate_canonical_prefix s3mp_backend.Prelude.Text.starts_with
    s3mp_backend.Prelude.Text.split s3mp_backend.Authorization.decide_on
    s3mp_backend.Authorization.applies s3mp_backend.Prelude.Text.text_eq
    s3mp_backend.Authorization.as_utc s3mp_backend.Prelude.Int.◌-ℤ◌ s3mp_backend.Keys.scope_matches
evaluated = refl

evaluated_again :
    evaluate read (blocked ∷ (reader ∷ (reader ∷ []))) (some 7) report (naive (pos 20))
    ≡ ok allowed_twice
unfolding evaluate s3mp_backend.Keys.validate_canonical_prefix s3mp_backend.Prelude.Text.starts_with
    s3mp_backend.Prelude.Text.split s3mp_backend.Authorization.decide_on
    s3mp_backend.Authorization.applies s3mp_backend.Prelude.Text.text_eq
    s3mp_backend.Authorization.as_utc s3mp_backend.Prelude.Int.◌-ℤ◌ s3mp_backend.Keys.scope_matches
evaluated_again = refl

evaluate_allows_example : (allowed.decision ≡ allow) ↔ (
    MatchIn read (some 7) report (naive (pos 20)) allow (reader ∷ (blocked ∷ []))
    × ¬ MatchIn read (some 7) report (naive (pos 20)) deny (reader ∷ (blocked ∷ [])))
evaluate_allows_example =
    evaluate_allows read (some 7) report (naive (pos 20)) (reader ∷ (blocked ∷ [])) allowed
      evaluated

same_members :
    (b : Binding) → In b (reader ∷ (blocked ∷ [])) ↔ In b (blocked ∷ (reader ∷ (reader ∷ [])))
same_members b = (
  λ m. elim m [ inl e ↦ inr (inl e) | inr (inl e) ↦ inl e | inr (inr e) ↦ absurd e ],
  λ m. elim m [
    | inl e ↦ inr (inl e)
    | inr (inl e) ↦ inl e
    | inr (inr (inl e)) ↦ inl e
    | inr (inr (inr e)) ↦ absurd e
  ],
)

evaluate_order_example :
    (allowed.decision ≡ allowed_twice.decision) × (allowed.reason_code ≡ allowed_twice.reason_code)
evaluate_order_example =
    evaluate_order read (some 7) report (naive (pos 20)) (reader ∷ (blocked ∷ []))
      (blocked ∷ (reader ∷ (reader ∷ []))) allowed allowed_twice same_members evaluated
      evaluated_again

abbrev write : Text
write = codes "object.write"

abbrev whole : DelegationScope
whole = record { permissions = read ∷ (write ∷ []); canonical_prefix = some (codes "a") }

abbrev half : DelegationScope
half = record { permissions = read ∷ []; canonical_prefix = some (codes "a/b") }

abbrev third : DelegationScope
third = record { permissions = read ∷ []; canonical_prefix = some (codes "a/b/c") }

half_of_whole : validate_delegated_scope half whole ≡ ok tt
unfolding validate_delegated_scope s3mp_backend.Keys.validate_canonical_prefix
    s3mp_backend.Prelude.Text.starts_with s3mp_backend.Prelude.Text.split
    s3mp_backend.Prelude.Text.text_eq s3mp_backend.Authorization.prefix_contains
half_of_whole = refl

third_of_half : validate_delegated_scope third half ≡ ok tt
unfolding validate_delegated_scope s3mp_backend.Keys.validate_canonical_prefix
    s3mp_backend.Prelude.Text.starts_with s3mp_backend.Prelude.Text.split
    s3mp_backend.Prelude.Text.text_eq s3mp_backend.Authorization.prefix_contains
third_of_half = refl

half-Authorises : Authorises half read (codes "a/b/c/d")
unfolding s3mp_backend.Keys.scope_matches s3mp_backend.Prelude.Text.text_eq
    s3mp_backend.Prelude.Text.starts_with
half-Authorises = (inl refl, refl)

third-Authorises : Authorises third read (codes "a/b/c/d")
unfolding s3mp_backend.Keys.scope_matches s3mp_backend.Prelude.Text.text_eq
    s3mp_backend.Prelude.Text.starts_with
third-Authorises = (inl refl, refl)

delegation_narrows_example : Authorises whole read (codes "a/b/c/d")
delegation_narrows_example =
    delegation_narrows half whole read (codes "a/b/c/d") half_of_whole half-Authorises

direct_grant :
    validate_direct_grant 1 2 read (codes " on call ") (naive (pos 20)) (naive (pos 10)) ≡ ok tt
unfolding validate_direct_grant s3mp_backend.Prelude.Text.rstrip s3mp_backend.Prelude.Text.lstrip
    s3mp_backend.Prelude.Text.text_eq
direct_grant = refl

expired_grant :
    validate_direct_grant 1 2 read (codes "x") (aware (pos 20) (pos 15)) (aware (pos 10) (pos 0))
    ≡ err not_future
unfolding validate_direct_grant s3mp_backend.Prelude.Text.rstrip s3mp_backend.Prelude.Text.lstrip
    s3mp_backend.Prelude.Int.◌-ℤ◌
expired_grant = refl

mixed_grant :
    validate_direct_grant 1 2 read (codes "x") (naive (pos 20)) (aware (pos 10) (pos 0))
    ≡ err not_comparable
unfolding validate_direct_grant s3mp_backend.Prelude.Text.rstrip s3mp_backend.Prelude.Text.lstrip
mixed_grant = refl
