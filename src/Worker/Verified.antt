-- ===== src/Worker/Verified.antt =====
-- On the checks of `_execute` in files/application/operation_worker.py that come after a copy, and on
-- the copy itself.
use s3mp_backend.Prelude.{
  ℕ, true, false, not, ◌&&◌, ◌≡◌, ◌≢◌, refl, ap, ◌∙◌, Option, none, some, ◌∷◌, Result, ok, err, inl,
  inr, arith, Bool-cases, Option-cases,
}
use s3mp_backend.Prelude.Text.{Text, text_eq_sound}
use s3mp_backend.Keys.{ProviderTarget}
use s3mp_backend.Subject.{same_text}
use s3mp_backend.Worker.{
  Operation, ObjectState, because, Services, Stop, returns, raises, ◌>>=◌, ◌>>◌, return_if,
  wait_for, succeeded, retry_wait, rename_checksum_mismatch, rename_content_length_mismatch,
  copy_verification_failed,
}
use s3mp_backend.Worker.Effects.{
  is_renaming, size_of, checksum_of, is_unlike, is_unlike_text, sizes_differ, expected_size,
  expected_checksum, misses, found_or_stop, ensure_copied, record_result, verify_rename, verify,
}
use s3mp_backend.Worker.Storage.{
  IsStorage, Ends, check-Ends, wait_for-Ends, wait-Ends, wait_then-Ends,
}

-- The operation is not reported as done.
abbrev pub Unfinished : Stop → Type 0
Unfinished raises = Unit
Unfinished (returns o) = o.status ≢ succeeded

-- The destination's object is as the source's, as far as the storage tells, and as the request wants it.
pub record IsVerified (op : Operation) (s : Option ObjectState) (d : ObjectState) : Type 0 where
  pub same_size : (m n : ℕ) → size_of s ≡ some m → d.content_length ≡ some n → m ≡ n
  pub same_checksum :
      is_renaming op.operation_type ≡ true
      → (c : Text) → checksum_of s ≡ some c
      → d.checksum_sha256 ≡ some c
  pub wanted_size :
      is_renaming op.operation_type ≡ true
      → (n : ℕ) → expected_size op ≡ some n
      → d.content_length ≡ some n
  pub wanted_checksum :
      is_renaming op.operation_type ≡ true
      → (c : ℕ) (t : Text) → expected_checksum op ≡ some (c ∷ t)
      → d.checksum_sha256 ≡ some (c ∷ t)

sizes_same :
    (a b : Option ℕ) → sizes_differ a b ≡ false → (m n : ℕ) → a ≡ some m → b ≡ some n → m ≡ n
sizes_same a b h m n e f = ground (arith, rw (e, f) at h)

unlike-same : (a b : Option ℕ) → is_unlike a b ≡ false → (n : ℕ) → a ≡ some n → b ≡ some n
unlike-same a b h n e = ground (arith, rw e at h)

same_text-some : (a : Option Text) (t : Text) → not (same_text a (some t)) ≡ false → a ≡ some t
same_text-some none t h = absurd (cc)
same_text-some (some s) t h = rw (text_eq_sound s t (ground arith))

unlike_text-same :
    (a b : Option Text) → is_unlike_text a b ≡ false → (t : Text) → a ≡ some t → b ≡ some t
unlike_text-same a b h t e = same_text-some b t (rw e at h)

misses-same :
    (a b : Option Text)
    → misses a b ≡ false
    → (c : ℕ) (t : Text) → a ≡ some (c ∷ t)
    → b ≡ some (c ∷ t)
misses-same a b h c t e = same_text-some b (c ∷ t) (rw e at h)

module _ {W : Type 0} (objects : W → ProviderTarget → Option ObjectState) where
  -- How the checks end: with the objects as they were, and verified if they pass.
  abbrev pub Checked :
      (Option ObjectState → ObjectState → Type 0)
      → Option ObjectState
      → ObjectState
      → W
      → Result Stop (Unit {0})
      → W
      → Type 0
  Checked V s d w (err stop) u = Unfinished stop × (objects u ≡ objects w)
  Checked V s d w (ok _) u = V s d × (objects u ≡ objects w)

  -- How the copy ends: the other objects are as they were, and the answer is what the destination holds.
  abbrev pub Copied : ProviderTarget → W → Result Stop ObjectState → W → Type 0
  Copied destination w (err stop) u =
      Unfinished stop × ((t : ProviderTarget) → t ≢ destination → objects u t ≡ objects w t)
  Copied destination w (ok d) u =
      (objects u destination ≡ some d)
      × ((t : ProviderTarget) → t ≢ destination → objects u t ≡ objects w t)

module _ {W : Type 0} (show_uuid : ℕ → Text) (services : Services W)
    (objects : W → ProviderTarget → Option ObjectState) (storage : IsStorage services objects) where
  record_result-Ends :
      (op : Operation) (s : Option ObjectState) (d : ObjectState)
      (V : Option ObjectState → ObjectState → Type 0) (w : W)
      → V s d
      → Ends (record_result show_uuid services op d) w (Checked objects V s d w)
  unfolding record_result
  record_result-Ends op s d V w v = elim (Option-cases services.record_rename_provider_result) [
    | inl e ↦ rw e (v, refl)
    | inr (recorder, e) ↦ rw e (
        wait_for-Ends (recorder op.tenant_id op.id d.etag) w (Checked objects V s d w)
          (tt, storage.recorder_keeps recorder op.tenant_id op.id d.etag w e)
          (λ a q. (v, storage.recorder_keeps recorder op.tenant_id op.id d.etag w e)))
  ]

  verify_rename-Ends :
      (op : Operation) (s : Option ObjectState) (d : ObjectState) (w : W)
      → ((m n : ℕ) → size_of s ≡ some m → d.content_length ≡ some n → m ≡ n)
      → (is_renaming op.operation_type ≡ true
          → (n : ℕ) → expected_size op ≡ some n
          → d.content_length ≡ some n)
      → Ends (verify_rename show_uuid services op s d) w (Checked objects (IsVerified op) s d w)
  unfolding verify_rename
  verify_rename-Ends op s d w same wanted = elim (Bool-cases (is_renaming op.operation_type)) [
    | inr e ↦ rw e (
      record {
        same_size = same;
        same_checksum = λ f. absurd (cc (rw e at f));
        wanted_size = wanted;
        wanted_checksum = λ f. absurd (cc (rw e at f));
      },
      refl,
    )
    | inl e ↦ rw e (
        check-Ends (misses (expected_checksum op) d.checksum_sha256)
          (because retry_wait rename_checksum_mismatch)
          (return_if (is_unlike_text (checksum_of s) d.checksum_sha256)
              (because retry_wait rename_checksum_mismatch)
            >> record_result show_uuid services op d)
          w (Checked objects (IsVerified op) s d w) (λ f. ((λ q. absurd (cc q)), refl))
          (λ f.
            check-Ends (is_unlike_text (checksum_of s) d.checksum_sha256)
              (because retry_wait rename_checksum_mismatch) (record_result show_uuid services op d)
              w (Checked objects (IsVerified op) s d w) (λ g. ((λ q. absurd (cc q)), refl))
              (λ g. record_result-Ends op s d (IsVerified op) w (record {
                same_size = same;
                same_checksum = λ h. unlike_text-same (checksum_of s) d.checksum_sha256 g;
                wanted_size = wanted;
                wanted_checksum = λ h. misses-same (expected_checksum op) d.checksum_sha256 f;
              }))))
  ]

  pub verify-Ends :
      (op : Operation) (s : Option ObjectState) (d : ObjectState) (w : W)
      → Ends (verify show_uuid services op s d) w (Checked objects (IsVerified op) s d w)
  unfolding verify
  verify-Ends op s d w =
      check-Ends (is_renaming op.operation_type && is_unlike (expected_size op) d.content_length)
        (because retry_wait rename_content_length_mismatch)
        (return_if (sizes_differ (size_of s) d.content_length)
            (because retry_wait copy_verification_failed)
          >> verify_rename show_uuid services op s d)
        w (Checked objects (IsVerified op) s d w) (λ f. ((λ q. absurd (cc q)), refl))
        (λ f.
          check-Ends (sizes_differ (size_of s) d.content_length)
            (because retry_wait copy_verification_failed) (verify_rename show_uuid services op s d)
            w (Checked objects (IsVerified op) s d w) (λ g. ((λ q. absurd (cc q)), refl))
            (λ g.
              verify_rename-Ends op s d w (sizes_same (size_of s) d.content_length g)
                (λ h. unlike-same (expected_size op) d.content_length (ground (arith, rw h at f)))))

  found_or_stop-Ends :
      (destination : ProviderTarget) (w u : W) (o : Option ObjectState)
      → objects u destination ≡ o
      → ((t : ProviderTarget) → t ≢ destination → objects u t ≡ objects w t)
      → Ends (found_or_stop o) u (Copied objects destination w)
  found_or_stop-Ends destination w u none h others = ((λ q. absurd (cc q)), others)
  found_or_stop-Ends destination w u (some d) h others = (h, others)

  pub ensure_copied-Ends :
      (source destination : ProviderTarget) (s d : Option ObjectState) (w : W)
      → objects w destination ≡ d
      → Ends
          (ensure_copied show_uuid services source destination s d)
          w
          (Copied objects destination w)
  unfolding ensure_copied
  ensure_copied-Ends source destination s (some d) w h = (h, λ t n. refl)
  ensure_copied-Ends source destination none none w h = ((λ q. absurd (cc q)), λ t n. refl)
  ensure_copied-Ends source destination (some s) none w h =
      wait_then-Ends (services.copy source destination)
        (wait_for (services.head destination) >>= found_or_stop) w (Copied objects destination w)
        (tt, λ t n. storage.copy_keeps source destination t w n)
        (λ a q.
          let u = (services.copy source destination w).1 in
          wait-Ends (services.head destination) found_or_stop u (Copied objects destination w)
            (
              tt,
              λ t n.
                  ap (λ f. f t) (storage.head_keeps destination u)
                  ∙ storage.copy_keeps source destination t w n,
            )
            (λ o e.
              found_or_stop-Ends destination w (services.head destination u).1 o
                (ap (λ f. f destination) (storage.head_keeps destination u)
                  ∙ storage.head_answers destination u o e)
                (λ t n.
                  ap (λ f. f t) (storage.head_keeps destination u)
                  ∙ storage.copy_keeps source destination t w n)))
