-- ===== src/FileRef/Examples.antt =====
-- The theorems on file references at concrete inputs.
use s3mp_backend.Prelude.{ℕ, ◌≡◌, refl, Option, none, some, List, [], ◌∷◌, ◌+◌, ◌++◌, All, arith}
use s3mp_backend.Prelude.Text.{Text, codes}
use s3mp_backend.FileRef.{frames, fields, normalized_sha256, generate_file_ref}
use s3mp_backend.FileRef.Preimage.{IsShort, frames-injective, generate_file_ref-injective}

-- Byte strings for texts, one JSON value for each number, and a hash without collisions.
abbrev encoded : Text → List ℕ
encoded s = s

abbrev printed : Option ℕ → Text
printed none = codes "null"
printed (some n) = (n + 48) ∷ []

abbrev show_id : ℕ → Text
show_id n = (n + 200) ∷ []

abbrev hashed : List ℕ → Text
hashed bytes = bytes

show_id_injective : (x y : ℕ) → show_id x ≡ show_id y → x ≡ y
show_id_injective x y h = let e : x + 200 ≡ y + 200 = cc h in omega (arith, e)

abbrev digest : Text
digest = codes "0123456789abcdef0123456789abcdef0123456789abcdef0123456789abcdef"

abbrev declared : Text
declared = codes "sha256:0123456789ABCDEF0123456789abcdef0123456789abcdef0123456789abcdef"

abbrev key : Text
key = codes "a/b.txt"

abbrev reference : Text
reference =
    hashed (codes "s3mpf1_" ++ frames encoded (fields printed show_id 1 2 key (some 5) digest))

IsShort-pair : All (IsShort encoded) (codes "ab" ∷ (codes "c" ∷ []))
IsShort-pair = (omega arith, (omega arith, tt))

frames-injective_example : (codes "ab" ∷ (codes "c" ∷ [])) ≡ (codes "ab" ∷ (codes "c" ∷ []))
frames-injective_example =
    frames-injective encoded (λ s t h. h) (codes "ab" ∷ (codes "c" ∷ []))
      (codes "ab" ∷ (codes "c" ∷ [])) IsShort-pair IsShort-pair refl

normalized : normalized_sha256 (some declared) ≡ some digest
unfolding normalized_sha256 s3mp_backend.Prelude.Text.starts_with s3mp_backend.Prelude.Text.rstrip
    s3mp_backend.Prelude.Text.lstrip
normalized = refl

IsShort-fields : All (IsShort encoded) (fields printed show_id 1 2 key (some 5) digest)
IsShort-fields =
    (omega arith, (omega arith, (omega arith, (omega arith, (omega arith, (omega arith, tt))))))

generated_reference :
    generate_file_ref encoded printed show_id hashed 1 (some 2) key (some 5) (some declared)
    ≡ some reference
unfolding generate_file_ref s3mp_backend.Prelude.Text.starts_with s3mp_backend.Prelude.Text.rstrip
    s3mp_backend.Prelude.Text.lstrip
generated_reference = refl

generate_file_ref-injective_example :
    (◌≡◌ {A = ℕ} 1 1)
    × (◌≡◌ {A = ℕ} 2 2)
    × (key ≡ key)
    × (printed (some 5) ≡ printed (some 5))
    × (digest ≡ digest)
generate_file_ref-injective_example =
    generate_file_ref-injective encoded printed show_id hashed (λ s t h. h) show_id_injective 1 1 2
      2 key key (some 5) (some 5) declared declared digest digest reference normalized normalized
      IsShort-fields IsShort-fields (λ h. h) generated_reference generated_reference
