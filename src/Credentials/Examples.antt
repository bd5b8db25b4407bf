-- ===== src/Credentials/Examples.antt =====
-- The theorem on credentials at a concrete input.
use s3mp_backend.Prelude.{true, false, ◌≡◌, refl, ◌↔◌, ◌++◌, ok, err}
use s3mp_backend.Prelude.Text.{Text, codes}
use s3mp_backend.Credentials.{parse_credential, invalid_credential, scheme, credential_of}
use s3mp_backend.Credentials.Parsing.{IsCredential, parse_credential_iff}

abbrev presented : Text
presented = scheme ++ credential_of (codes "sk_a") (codes "s.t")

parsed : parse_credential presented ≡ ok (codes "sk_a", codes "s.t")
unfolding parse_credential s3mp_backend.Prelude.Text.starts_with
parsed = refl

no_secret : parse_credential (codes "S3MP-Key sk_a.") ≡ err invalid_credential
unfolding parse_credential s3mp_backend.Prelude.Text.starts_with
no_secret = refl

parse_credential_iff_example :
    (parse_credential presented ≡ ok (codes "sk_a", codes "s.t"))
    ↔ IsCredential presented (codes "sk_a") (codes "s.t")
parse_credential_iff_example = parse_credential_iff presented (codes "sk_a") (codes "s.t")
