-- ===== src/Credentials.antt =====
-- applications/domain/credentials.py, under src/s3mp/: the text of an API key's credential and its
-- parts.
pub mod Parsing
mod Examples
use s3mp_backend.Prelude.{
  ℕ, Bool, true, false, not, ◌||◌, Option, none, some, List, [], ◌∷◌, ◌++◌, Result, ok, err,
  if◌then◌else◌, ◌==◌, length, drop,
}
use s3mp_backend.Prelude.Text.{Text, codes, starts_with, is_empty}

-- The messages of `parse_credential`.
pub data CredentialError : Type 0 where
  invalid_scheme invalid_credential : CredentialError

abbrev pub dot : ℕ
dot = b'.'

abbrev pub scheme : Text
scheme = codes "S3MP-Key "

-- The `credential` that `issue` makes of a key id and a secret.
abbrev pub credential_of : Text → Text → Text
credential_of key_id secret = key_id ++ (dot ∷ secret)

abbrev pub with_first : ℕ → Option (Text × Text) → Option (Text × Text)
with_first c none = none
with_first c (some (before, after)) = some (c ∷ before, after)

-- `credential.partition(".")`, if the separator is there.
unfoldable pub partition_dot : Text → Option (Text × Text)
partition_dot [] = none
partition_dot (c ∷ s) = elim (c == dot) [
  | true ↦ some ([], s)
  | false ↦ with_first c (partition_dot s)
]

-- `if not separator or not key_id or not secret`
unfoldable pub checked_parts : Option (Text × Text) → Result CredentialError (Text × Text)
checked_parts none = err invalid_credential
checked_parts (some (key_id, secret)) =
    if is_empty key_id || is_empty secret then err invalid_credential else ok (key_id, secret)

unfoldable pub parse_credential : Text → Result CredentialError (Text × Text)
unfolding partition_dot checked_parts
parse_credential value =
    if starts_with value scheme
    then checked_parts (partition_dot (drop (length scheme) value))
    else err invalid_scheme
