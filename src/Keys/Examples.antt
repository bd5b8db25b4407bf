-- ===== src/Keys/Examples.antt =====
-- The theorems on keys at concrete inputs.
use s3mp_backend.Prelude.{
  ℕ, Bool, true, false, ◌≡◌, ◌≢◌, refl, ◌↔◌, Option, none, some, List, [], ◌∷◌, ◌++◌, ok, arith,
  ◌+◌, inl, inr,
}
use s3mp_backend.Prelude.Text.{Text, codes, split, has}
use s3mp_backend.Keys.{slash, scope_matches, ProviderTarget, namespace_of, derive_provider_target}
use s3mp_backend.Keys.Canonical.{IsCanonical}
use s3mp_backend.Keys.Scope.{Extends, Extends-scope, scope-by-segments}
use s3mp_backend.Keys.Target.{IsAccepted, target_at, below, derive_iff, derive-IsContained}
use s3mp_backend.Keys.Isolation.{derive-injective, derive_isolated, legacy_isolated}

-- A printing of ids without slashes: one character, above the special ones.
abbrev show_id : ℕ → Text
show_id n = (n + 200) ∷ []

show_id-no_slash : (x : ℕ) → has slash (show_id x) ≡ false
show_id-no_slash x = ground arith

show_id_injective : (x y : ℕ) → show_id x ≡ show_id y → x ≡ y
show_id_injective x y h = let e : x + 200 ≡ y + 200 = cc h in omega (arith, e)

abbrev bucket : Text
bucket = codes "data"

abbrev report : Text
report = codes "a/report.txt"

abbrev team : Text
team = codes "team"

abbrev other_namespace : Text
other_namespace = codes "apps/two"

abbrev one_namespace : Text
one_namespace = codes "apps/one"

abbrev target_one : ProviderTarget
target_one = record { bucket = bucket; key = codes "apps/one/team/a/report.txt"; version = 1 }

abbrev target_two : ProviderTarget
target_two = record { bucket = bucket; key = codes "apps/two/team/a/report.txt"; version = 1 }

abbrev target_legacy : ProviderTarget
target_legacy = target_at show_id 1 2 bucket report team none

derived_one :
    derive_provider_target show_id 1 2 bucket report team (some one_namespace) 1 ≡ ok target_one
unfolding derive_provider_target s3mp_backend.Prelude.Text.text_eq
    s3mp_backend.Keys.canonical_object_key s3mp_backend.Keys.validate_canonical_prefix
    s3mp_backend.Prelude.Text.starts_with split namespace_of s3mp_backend.Prelude.Text.join
derived_one = refl

derived_two :
    derive_provider_target show_id 1 3 bucket report team (some other_namespace) 1 ≡ ok target_two
unfolding derive_provider_target s3mp_backend.Prelude.Text.text_eq
    s3mp_backend.Keys.canonical_object_key s3mp_backend.Keys.validate_canonical_prefix
    s3mp_backend.Prelude.Text.starts_with split namespace_of s3mp_backend.Prelude.Text.join
derived_two = refl

derived_legacy : derive_provider_target show_id 1 2 bucket report team none 1 ≡ ok target_legacy
unfolding derive_provider_target s3mp_backend.Prelude.Text.text_eq
    s3mp_backend.Keys.canonical_object_key s3mp_backend.Keys.validate_canonical_prefix
    s3mp_backend.Prelude.Text.starts_with split namespace_of s3mp_backend.Keys.legacy_namespace
    s3mp_backend.Prelude.Text.join
derived_legacy = refl

scope-by-segments_example :
    (scope_matches (some (codes "a/b")) (codes "a/b/c") ≡ true)
    ↔ ((rest : List Text) × (split slash (codes "a/b/c") ≡ split slash (codes "a/b") ++ rest))
scope-by-segments_example = scope-by-segments b'a' (codes "/b") (codes "a/b/c")

derive_iff_example :
    (derive_provider_target show_id 1 2 bucket report team (some one_namespace) 1 ≡ ok target_one)
    ↔ (IsAccepted show_id 1 2 bucket report team (some one_namespace) 1
        × (target_at show_id 1 2 bucket report team (some one_namespace) ≡ target_one))
derive_iff_example = derive_iff show_id 1 2 bucket report team (some one_namespace) 1 target_one

derive-IsContained_example :
    IsCanonical target_one.key
    × Extends (namespace_of show_id 1 2 (some one_namespace)) target_one.key
    × Extends (below (namespace_of show_id 1 2 (some one_namespace)) team) target_one.key
derive-IsContained_example =
    derive-IsContained show_id 1 2 bucket report team (some one_namespace) 1 target_one derived_one

derive-injective_example : report ≡ report
derive-injective_example =
    derive-injective show_id 1 2 bucket team (some one_namespace) 1 report report target_one
      target_one derived_one derived_one refl

one_two_apart : scope_matches (some one_namespace) other_namespace ≡ false
unfolding scope_matches s3mp_backend.Prelude.Text.text_eq s3mp_backend.Prelude.Text.starts_with
one_two_apart = refl

two_one_apart : scope_matches (some other_namespace) one_namespace ≡ false
unfolding scope_matches s3mp_backend.Prelude.Text.text_eq s3mp_backend.Prelude.Text.starts_with
two_one_apart = refl

not_nested : (a b : Text) → scope_matches (some a) b ≡ false → ¬ Extends a b
not_nested a b h e = let k = Extends-scope a b e in cc

derive_isolated_example : target_one.key ≢ target_two.key
unfolding namespace_of
derive_isolated_example =
    derive_isolated show_id 1 2 bucket report team (some one_namespace) 1 1 3 bucket report team
      (some other_namespace) 1 target_one target_two
      (not_nested one_namespace other_namespace one_two_apart)
      (not_nested other_namespace one_namespace two_one_apart) derived_one derived_two

legacy_isolated_example : (◌≡◌ {A = ℕ} 1 1) × (◌≡◌ {A = ℕ} 2 2)
legacy_isolated_example =
    legacy_isolated show_id show_id-no_slash show_id_injective 1 2 bucket report team 1 1 2 bucket
      report team 1 target_legacy target_legacy derived_legacy derived_legacy refl
