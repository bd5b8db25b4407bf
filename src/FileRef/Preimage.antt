-- ===== src/FileRef/Preimage.antt =====
-- On `generate_file_ref` of files/domain/file_reference.py: the bytes that are hashed.
use mathlib.Core.List.{append_assoc, append_cancel_left}
use Prim.Native.Nat.{◌^◌}
use s3mp_backend.Prelude.{
  ℕ, zero, suc, ◌/◌, ◌%◌, ◌<◌, ap, ◌≡◌, ◌≢◌, refl, sym, ◌∙◌, Option, some, List, [], ◌∷◌, ◌++◌,
  arith, length, length-append, append_inj, All,
}
use s3mp_backend.Prelude.Text.{Text, codes}
use s3mp_backend.FileRef.{to_bytes, framed, frames, fields, normalized_sha256, generate_file_ref}

-- `n` has at most `w` bytes.
abbrev FitsBytes : ℕ → ℕ → Type 0
FitsBytes zero n = n ≡ 0
FitsBytes (suc w) n = FitsBytes w (n / 256)

FitsBytes-eight : (n : ℕ) → n < 2 ^ 64 → FitsBytes 8 n
FitsBytes-eight n h = omega arith

length-to_bytes : (w n : ℕ) → length (to_bytes w n) ≡ w
unfolding to_bytes
length-to_bytes zero n = refl
length-to_bytes (suc w) n =
    length-append (to_bytes w (n / 256)) (n % 256 ∷ []) ∙ omega (arith, length-to_bytes w (n / 256))

to_bytes-injective :
    (w n m : ℕ) → FitsBytes w n → FitsBytes w m → to_bytes w n ≡ to_bytes w m → n ≡ m
unfolding to_bytes
to_bytes-injective zero n m h k e = h ∙ sym k
to_bytes-injective (suc w) n m h k e =
    let (high, low) =
      append_inj (to_bytes w (n / 256)) (to_bytes w (m / 256)) (n % 256 ∷ []) (m % 256 ∷ [])
        (length-to_bytes w (n / 256) ∙ sym (length-to_bytes w (m / 256))) e in
    let q = to_bytes-injective w (n / 256) (m / 256) h k high in
    let r : n % 256 ≡ m % 256 = cc low in omega (arith, q, r)

module _ (encode : Text → List ℕ) where
  -- A text whose encoding has a length of at most eight bytes.
  abbrev pub IsShort : Text → Type 0
  IsShort s = length (encode s) < 2 ^ 64

  framed-append :
      (s : Text) (r : List ℕ)
      → framed encode s ++ r ≡ to_bytes 8 (length (encode s)) ++ (encode s ++ r)
  unfolding framed
  framed-append s r = append_assoc (to_bytes 8 (length (encode s))) (encode s) r

  framed-injective :
      (s t : Text) (r q : List ℕ)
      → IsShort s
      → IsShort t
      → framed encode s ++ r ≡ framed encode t ++ q
      → (encode s ≡ encode t) × (r ≡ q)
  framed-injective s t r q h k e =
      let n = length (encode s) in
      let m = length (encode t) in
      let (heads, rest) =
        append_inj (to_bytes 8 n) (to_bytes 8 m) (encode s ++ r) (encode t ++ q)
          (length-to_bytes 8 n ∙ sym (length-to_bytes 8 m))
          (sym (framed-append s r) ∙ e ∙ framed-append t q) in
      append_inj (encode s) (encode t) r q
        (to_bytes-injective 8 n m (FitsBytes-eight n h) (FitsBytes-eight m k) heads) rest

  frame-ne-nil : (s : Text) (r : List ℕ) → framed encode s ++ r ≢ []
  frame-ne-nil s r e = absurd (
      omega (
        arith,
        ap length (sym (framed-append s r) ∙ e),
        length-append (to_bytes 8 (length (encode s))) (encode s ++ r),
        length-to_bytes 8 (length (encode s)),
      ))

  module _ (encode_injective : (s t : Text) → encode s ≡ encode t → s ≡ t) where
    -- Two lists of texts, each shorter than 2^64 bytes, are equal if their framed encodings joined
    -- together are, where the encoding of a text is injective.
    pub frames-injective :
        (xs ys : List Text)
        → All IsShort xs
        → All IsShort ys
        → frames encode xs ≡ frames encode ys
        → xs ≡ ys
    unfolding frames
    frames-injective [] [] h k e = refl
    frames-injective [] (y ∷ ys) h k e = absurd (frame-ne-nil y (frames encode ys) (sym e))
    frames-injective (x ∷ xs) [] h k e = absurd (frame-ne-nil x (frames encode xs) e)
    frames-injective (x ∷ xs) (y ∷ ys) h k e =
        let (head, tail) = framed-injective x y (frames encode xs) (frames encode ys) h.0 k.0 e in
        let p = encode_injective x y head in let q = frames-injective xs ys h.1 k.1 tail in cc

module _ {Json : Type 0} (encode : Text → List ℕ) (canonical_json : Option Json → Text)
    (show_uuid : ℕ → Text) (digest_text : List ℕ → Text)
    (encode_injective : (s t : Text) → encode s ≡ encode t → s ≡ t)
    (show_injective : (a b : ℕ) → show_uuid a ≡ show_uuid b → a ≡ b) where
  abbrev preimage : ℕ → ℕ → Text → Option Json → Text → List ℕ
  preimage t a key metadata digest =
      frames encode (fields canonical_json show_uuid t a key metadata digest)

  generated :
      (t a : ℕ) (key : Text) (metadata : Option Json) (sum digest ref : Text)
      → normalized_sha256 (some sum) ≡ some digest
      → generate_file_ref encode canonical_json show_uuid digest_text t
          (some a)
          key
          metadata
          (some sum)
        ≡ some ref
      → ref ≡ codes "s3mpf1_" ++ digest_text (preimage t a key metadata digest)
  unfolding generate_file_ref
  generated t a key metadata sum digest ref n g = cc (rw (n, generate_file_ref) at g)

  -- Two files with equal references have the same tenant, application, key, metadata as JSON and
  -- content digest, where encodings and id texts are injective, the hashed texts of the two files do
  -- not collide, and the fields are shorter than 2^64 bytes.
  pub generate_file_ref-injective :
      (t t' a a' : ℕ) (key key' : Text) (metadata metadata' : Option Json)
      (sum sum' digest digest' ref : Text)
      → normalized_sha256 (some sum) ≡ some digest
      → normalized_sha256 (some sum') ≡ some digest'
      → All (IsShort encode) (fields canonical_json show_uuid t a key metadata digest)
      → All (IsShort encode) (fields canonical_json show_uuid t' a' key' metadata' digest')
      → (digest_text (preimage t a key metadata digest)
            ≡ digest_text (preimage t' a' key' metadata' digest')
          → preimage t a key metadata digest ≡ preimage t' a' key' metadata' digest')
      → generate_file_ref encode canonical_json show_uuid digest_text t
          (some a)
          key
          metadata
          (some sum)
        ≡ some ref
      → generate_file_ref encode canonical_json show_uuid digest_text t'
          (some a')
          key'
          metadata'
          (some sum')
        ≡ some ref
      → (t ≡ t')
        × (a ≡ a')
        × (key ≡ key')
        × (canonical_json metadata ≡ canonical_json metadata')
        × (digest ≡ digest')
  generate_file_ref-injective t t' a a' key key' metadata metadata' sum sum' digest digest' ref n n'
        short short' no_collision g g' =
      let e = generated t a key metadata sum digest ref n g in
      let e' = generated t' a' key' metadata' sum' digest' ref n' g' in
      let same = append_cancel_left (codes "s3mpf1_") _ _ (sym e ∙ e') in
      let q =
        frames-injective encode encode_injective
          (fields canonical_json show_uuid t a key metadata digest)
          (fields canonical_json show_uuid t' a' key' metadata' digest') short short'
          (no_collision same) in
      (show_injective t t' (cc q), show_injective a a' (cc q), cc q, cc q, cc q)
