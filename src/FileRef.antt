-- ===== src/FileRef.antt =====
-- files/domain/file_reference.py, under src/s3mp/: the public reference of a file, a hash of its
-- tenant, application, key, metadata and content digest.
pub mod Preimage
mod Examples
use s3mp_backend.Prelude.{
  ℕ, zero, suc, ◌+◌, ◌/◌, ◌%◌, Bool, true, false, ◌&&◌, ◌||◌, Option, none, some, List, [], ◌∷◌,
  ◌++◌, map, if◌then◌else◌, leb, ◌==◌, all, length, drop,
}
use s3mp_backend.Prelude.Text.{Text, codes, strip, starts_with}

-- `[0-9a-fA-F]`
abbrev pub is_hex : ℕ → Bool
is_hex c = leb b'0' c && leb c b'9' || (leb b'a' c && leb c b'f' || leb b'A' c && leb c b'F')

-- `lower()` of a hexadecimal digit.
abbrev pub lower_hex : ℕ → ℕ
lower_hex c = if leb b'A' c && leb c b'F' then c + 32 else c

-- `(?:sha256:)?`: what the optional group leaves. No hexadecimal digit is an `s`, so the group is
-- taken whenever it can be.
abbrev pub after_scheme : Text → Text
after_scheme s = if starts_with s (codes "sha256:") then drop 7 s else s

-- `_SHA256.fullmatch`, group 1.
unfoldable pub match_sha256 : Text → Option Text
match_sha256 s =
    let digits = after_scheme s in
    if length digits == 64 && all is_hex digits then some digits else none

unfoldable pub normalized_sha256 : Option Text → Option Text
unfolding match_sha256
normalized_sha256 none = none
normalized_sha256 (some value) = elim (match_sha256 (strip value)) [
  | none ↦ none
  | some digits ↦ some (map lower_hex digits)
]

-- `n.to_bytes(width, "big")`
unfoldable pub to_bytes : ℕ → ℕ → List ℕ
to_bytes zero n = []
to_bytes (suc w) n = to_bytes w (n / 256) ++ (n % 256 ∷ [])

-- UTF-8 is the standard library's.
module _ (encode : Text → List ℕ) where
  -- `len(item).to_bytes(8, "big") + item`
  pub framed : Text → List ℕ
  framed item = to_bytes 8 (length (encode item)) ++ encode item

  -- `b"".join(…)`
  pub frames : List Text → List ℕ
  unfolding framed
  frames [] = []
  frames (item ∷ items) = framed item ++ frames items

-- JSON by value, the texts of ids, and the hash with its base64 text are the standard library's too.
module _ {Json : Type 0} (canonical_json : Option Json → Text) (show_uuid : ℕ → Text) where
  abbrev pub fields : ℕ → ℕ → Text → Option Json → Text → List Text
  fields tenant_id application_id relative_key metadata digest =
      codes "s3mp-file-ref:v1"
      ∷ show_uuid tenant_id
      ∷ show_uuid application_id
      ∷ relative_key
      ∷ canonical_json metadata
      ∷ digest
      ∷ []

module _ {Json : Type 0} (encode : Text → List ℕ) (canonical_json : Option Json → Text)
    (show_uuid : ℕ → Text) (digest_text : List ℕ → Text) where
  -- `digest_text` is `base64.urlsafe_b64encode(sha256(…).digest()).rstrip(b"=").decode()`.
  unfoldable pub generate_file_ref : ℕ → Option ℕ → Text → Option Json → Option Text → Option Text
  unfolding frames normalized_sha256
  generate_file_ref tenant_id none relative_key metadata checksum = none
  generate_file_ref tenant_id (some a) relative_key metadata checksum =
      elim (normalized_sha256 checksum) [
        | none ↦ none
        | some digest ↦ some (
            codes "s3mpf1_"
            ++ digest_text (
                frames encode
                  (fields canonical_json show_uuid tenant_id a relative_key metadata digest)))
      ]

unfoldable pub is_file_ref : Text → Bool
is_file_ref value = starts_with value (codes "s3mpf1_")
