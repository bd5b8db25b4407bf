-- ===== src/Keys/Canonical.antt =====
-- On `validate_canonical_prefix` of authorization/domain/evaluator.py: canonical keys and slashes.
use s3mp_backend.Prelude.{
  false, ◌≡◌, refl, ◌||◌, ◌∷◌, [], ◌++◌, ◌⊎◌, ok, any, any-append, arith, ◌==◌,
}
use s3mp_backend.Prelude.Text.{Text, has, starts_with, split, split-append}
use s3mp_backend.Keys.{slash, is_control, is_special, validate_canonical_prefix}

abbrev pub IsCanonical : Text → Type 0
IsCanonical s = validate_canonical_prefix s ≡ ok s

-- The tests of `validate_canonical_prefix` on a key that is not empty, without the first one, which
-- the empty first segment repeats.
pub record HasPlainSegments (s : Text) : Type 0 where
  pub no_backslash : has 92 s ≡ false
  pub no_percent : has b'%' s ≡ false
  pub no_control : any is_control s ≡ false
  pub no_special : any is_special (split slash s) ≡ false

pub validate-eq : (s t : Text) → validate_canonical_prefix s ≡ ok t → s ≡ t
unfolding validate_canonical_prefix
validate-eq [] t h = ground arith
validate-eq (c ∷ s) t h = ground arith

pub canonical_parts : (s : Text) → IsCanonical s → (s ≡ []) ⊎ HasPlainSegments s
unfolding validate_canonical_prefix
canonical_parts [] h = ground arith
canonical_parts (c ∷ s) h = ground arith

-- A first segment that is not empty is no leading slash.
starts_with-slash :
    (s : Text) → any is_special (split slash s) ≡ false → starts_with s (slash ∷ []) ≡ false
unfolding split starts_with
starts_with-slash [] h = refl
starts_with-slash (c ∷ s) h = ground arith

pub parts-IsCanonical : (s : Text) → HasPlainSegments s → IsCanonical s
unfolding validate_canonical_prefix
parts-IsCanonical [] h = refl
parts-IsCanonical (c ∷ s) h = ground (arith, starts_with-slash (c ∷ s))

has-append : (d : _) (s t : Text) → has d (s ++ t) ≡ (has d s || has d t)
has-append d s t = any-append (λ c. c == d) s t

pub plain-append :
    (s t : Text) → HasPlainSegments s → HasPlainSegments t → HasPlainSegments (s ++ (slash ∷ t))
plain-append s t h k = record {
  no_backslash = ground (arith, has-append 92 s (slash ∷ t));
  no_percent = ground (arith, has-append b'%' s (slash ∷ t));
  no_control = ground (arith, any-append is_control s (slash ∷ t));
  no_special =
      rw (split-append slash s t)
        (ground (arith, any-append is_special (split slash s) (split slash t)));
}
