-- ===== src/Keys.antt =====
-- Object keys: authorization/domain/evaluator.py (`validate_canonical_prefix`, `_scope_matches`),
-- and storage/domain/policy.py (`canonical_object_key`, `derive_provider_target`), under src/s3mp/.
pub mod Canonical
pub mod Scope
pub mod Target
pub mod Isolation
mod Examples
use s3mp_backend.Prelude.{
  ℕ, Bool, true, false, not, ◌&&◌, ◌||◌, Option, none, some, List, [], ◌∷◌, ◌++◌, Result, ok, err,
  ◌>>=◌, ◌>>◌, raise_if, reraise, if◌then◌else◌, ltb, ◌==◌, any,
}
use s3mp_backend.Prelude.Text.{Text, codes, text_eq, starts_with, split, join, has}

abbrev pub slash : ℕ
slash = b'/'

-- The `ValueError`s of `validate_canonical_prefix`, one for each message.
pub data PrefixError : Type 0 where
  not_relative control_character invalid_segment : PrefixError

-- `ord(character) < 32 or ord(character) == 127`
abbrev pub is_control : ℕ → Bool
is_control c = ltb c 32 || c == 127

-- `segment in {"", ".", ".."}`
abbrev pub is_special : Text → Bool
is_special [] = true
is_special (c ∷ []) = c == b'.'
is_special (c ∷ (d ∷ [])) = c == b'.' && d == b'.'
is_special (c ∷ (d ∷ (e ∷ s))) = false

unfoldable pub validate_canonical_prefix : Text → Result PrefixError Text
validate_canonical_prefix [] = ok []
validate_canonical_prefix (c ∷ s) = do
  raise_if (starts_with (c ∷ s) (slash ∷ []) || (has 92 (c ∷ s) || has b'%' (c ∷ s))) not_relative
  raise_if (any is_control (c ∷ s)) control_character
  raise_if (any is_special (split slash (c ∷ s))) invalid_segment
  ok (c ∷ s)

-- `StoragePolicyError`, one for each message.
pub data PolicyError : Type 0 where
  key_required key_not_canonical unsupported_version bad_bucket namespace_not_canonical :
      PolicyError

-- `isinstance(key, str)` holds by the argument's type.
unfoldable pub canonical_object_key : Text → Bool → Result PolicyError Text
canonical_object_key [] allow_empty =
    if allow_empty
    then reraise key_not_canonical (validate_canonical_prefix [])
    else err key_required
canonical_object_key (c ∷ s) allow_empty =
    reraise key_not_canonical (validate_canonical_prefix (c ∷ s)) >> ok (c ∷ s)

-- `prefix is None or prefix == "" or key == prefix or key.startswith(prefix + "/")`
unfoldable pub scope_matches : Option Text → Text → Bool
scope_matches none key = true
scope_matches (some []) key = true
scope_matches (some (c ∷ p)) key = text_eq key (c ∷ p) || starts_with key ((c ∷ p) ++ (slash ∷ []))

pub record ProviderTarget : Type 0 where
  pub bucket : Text
  pub key : Text
  pub version : ℕ

-- `parts.append(s)` unless `s` is empty.
abbrev pub part : Text → List Text
part [] = []
part (c ∷ s) = (c ∷ s) ∷ []

-- `str(uuid)` is not this program's: the printing of an id is a parameter.
module _ (show_uuid : ℕ → Text) where
  -- f"v{version}/tenants/{tenant_id}/spaces/{storage_space_id}", for the only version, 1.
  unfoldable pub legacy_namespace : ℕ → ℕ → Text
  legacy_namespace tenant_id space_id = join slash (
      codes "v1" ∷ codes "tenants" ∷ show_uuid tenant_id ∷ codes "spaces" ∷ show_uuid space_id ∷ [])

  -- `storage_namespace or f"…"`
  unfoldable pub namespace_of : ℕ → ℕ → Option Text → Text
  namespace_of tenant_id space_id none = legacy_namespace tenant_id space_id
  namespace_of tenant_id space_id (some []) = legacy_namespace tenant_id space_id
  namespace_of tenant_id space_id (some (c ∷ n)) = c ∷ n

  unfoldable pub derive_provider_target :
      ℕ → ℕ → Text → Text → Text → Option Text → ℕ → Result PolicyError ProviderTarget
  derive_provider_target tenant_id space_id bucket relative_key operator_prefix storage_namespace
        version =
      do
        raise_if (not (version == 1)) unsupported_version
        raise_if (text_eq bucket [] || (has slash bucket || has 92 bucket)) bad_bucket
        relative ← canonical_object_key relative_key true
        prefix ← canonical_object_key operator_prefix true
        namespace ←
            reraise namespace_not_canonical
              (validate_canonical_prefix (namespace_of tenant_id space_id storage_namespace))
        ok (record {
          bucket = bucket;
          key = join slash (namespace ∷ (part prefix ++ part relative));
          version = version;
        })
