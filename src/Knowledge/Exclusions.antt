-- ===== src/Knowledge/Exclusions.antt =====
-- On `is_excluded` of knowledge/domain/exclusions.py: directory rules and segments.
use s3mp_backend.Prelude.{true, ◌≡◌, refl, sym, ap, ◌∙◌, ◌↔◌, some, [], ◌∷◌, ok}
use s3mp_backend.Prelude.Text.{Text}
use s3mp_backend.Keys.{scope_matches}
use s3mp_backend.Authorization.Decisions.{Covers, scope-Covers}
use s3mp_backend.Knowledge.{covers, normalize_directory_path, is_excluded}

covers-scope : (rule key : Text) → covers rule key ≡ scope_matches (some rule) key
unfolding scope_matches
covers-scope [] key = refl
covers-scope (c ∷ rule) key = refl

is_excluded-eq :
    (object_key directory_path key rule : Text)
    → normalize_directory_path object_key ≡ ok key
    → normalize_directory_path directory_path ≡ ok rule
    → is_excluded object_key directory_path ≡ ok (covers rule key)
unfolding is_excluded
is_excluded-eq object_key directory_path key rule h k = rw (h, is_excluded) (rw (k) refl)

-- For a key and a rule that both normalize, the file is excluded exactly when the normalized rule is
-- the root, or its segments begin the segments of the normalized key.
pub excluded-by-segments :
    (object_key directory_path key rule : Text)
    → normalize_directory_path object_key ≡ ok key
    → normalize_directory_path directory_path ≡ ok rule
    → (is_excluded object_key directory_path ≡ ok true) ↔ Covers (some rule) key
excluded-by-segments object_key directory_path key rule h k =
    let e = is_excluded-eq object_key directory_path key rule h k in
    let (from, to) = scope-Covers (some rule) key in
    let s = covers-scope rule key in (λ q. from (sym s ∙ cc (e, q)), λ c. e ∙ ap ok (s ∙ to c))
