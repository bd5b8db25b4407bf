-- ===== src/Worker/Removal.antt =====
-- On the calls of the branch of `_execute` in files/application/operation_worker.py that copies, moves or
-- renames: what it copies, and what it deletes with which permission.
use s3mp_backend.Prelude.{ℕ, ◌≡◌, refl, Option, none, some, Result, ok, is_none, ◌&&◌}
use s3mp_backend.Prelude.Text.{Text, codes}
use s3mp_backend.Keys.{ProviderTarget}
use s3mp_backend.Identity.{PrincipalContext}
use s3mp_backend.Worker.{
  Operation, ObjectState, because, done, Services, Stop, Act, Call, ◌>>=◌, ◌>>◌, pure, return_if,
  wait_for, partial_failure, source_delete_authorization_revoked, source_delete_failed, retry_wait,
  rename_checksum_mismatch, rename_content_length_mismatch, copy_verification_failed,
}
use s3mp_backend.Worker.Effects.{
  is_renaming, removes_source, size_of, checksum_of, is_unlike, is_unlike_text, sizes_differ,
  expected_size, expected_checksum, misses, found_or_stop, ensure_copied, record_result,
  verify_rename, verify, require, delete_source, remove_source, relocate,
}
use s3mp_backend.Worker.Storage.{Ends, if-Ends, wait_for-Ends, wait_or_return-Ends}
use s3mp_backend.Worker.Granted.{IsGranted, require_then-Ends}
use s3mp_backend.Worker.Calls.{
  Run, begun, headed, copied, removed, recorded, Keeps, Keeps-bind, Keeps-then, Keeps-check,
  Keeps-call,
}

module _ {W : Type 0} (show_uuid : ℕ → Text) (services : Services W) (op : Operation)
    (ctx : PrincipalContext) (space_id : ℕ) (key : Text) (source destination : ProviderTarget) where
  -- The one copy of the branch.
  pub IsCopy : ProviderTarget → ProviderTarget → Type 0
  IsCopy s d = (s ≡ source) × (d ≡ destination)

  -- The one deletion of the branch, in a world in which the subject holds `files.delete`.
  pub MayRemove : W → ProviderTarget → Type 0
  MayRemove v t = (t ≡ source) × IsGranted services op ctx space_id (codes "files.delete") key v

  abbrev Stays : {A : Type 0} → Act W A → Type 0
  Stays m = Keeps services IsCopy MayRemove m

  head-Stays : (t : ProviderTarget) → Stays (wait_for (services.head t))
  head-Stays t = Keeps-call services IsCopy MayRemove (services.head t) (λ w. headed t begun)

  found-Stays : (o : Option ObjectState) → Stays (found_or_stop o)
  unfolding Keeps
  found-Stays none w = begun
  found-Stays (some d) w = begun

  ensure_copied-Stays :
      (s d : Option ObjectState) → Stays (ensure_copied show_uuid services source destination s d)
  unfolding ensure_copied Keeps IsCopy
  ensure_copied-Stays s (some d) w = begun
  ensure_copied-Stays none none w = begun
  ensure_copied-Stays (some s) none w =
      Keeps-then services IsCopy MayRemove (wait_for (services.copy source destination))
        (wait_for (services.head destination) >>= found_or_stop)
        (Keeps-call services IsCopy MayRemove (services.copy source destination)
          (λ w. copied source destination (refl, refl) begun))
        (Keeps-bind services IsCopy MayRemove (wait_for (services.head destination)) found_or_stop
          (head-Stays destination) found-Stays)
        w

  record_result-Stays : (d : ObjectState) → Stays (record_result show_uuid services op d)
  unfolding record_result Keeps
  record_result-Stays d w = by_recorder services.record_rename_provider_result refl
    where
      by_recorder :
          (o : Option (ℕ → ℕ → Option Text → Call W (Unit {0})))
          → services.record_rename_provider_result ≡ o
          → Ends {A = Unit {0}}
              (λ (v : W). elim o [
                | none ↦ (ok tt, v)
                | some recorder ↦ wait_for (recorder op.tenant_id op.id d.etag) v
              ])
              w
              (λ _ u. Run services IsCopy MayRemove w u)
      by_recorder none e = begun
      by_recorder (some recorder) e =
          wait_for-Ends (recorder op.tenant_id op.id d.etag) w
            (λ _ u. Run services IsCopy MayRemove w u)
            (recorded recorder op.tenant_id op.id d.etag e begun)
            (λ _ _. recorded recorder op.tenant_id op.id d.etag e begun)

  verify-Stays :
      (s : Option ObjectState) (d : ObjectState) → Stays (verify show_uuid services op s d)
  unfolding verify verify_rename Keeps
  verify-Stays s d =
      let mismatch = because retry_wait rename_checksum_mismatch in
      let record_it = record_result show_uuid services op d in
      let second =
        return_if (is_unlike_text (checksum_of s) d.checksum_sha256) mismatch >> record_it in
      let first = return_if (misses (expected_checksum op) d.checksum_sha256) mismatch >> second in
      let last = verify_rename show_uuid services op s d in
      Keeps-check services IsCopy MayRemove
        (is_renaming op.operation_type && is_unlike (expected_size op) d.content_length)
        (because retry_wait rename_content_length_mismatch)
        (return_if (sizes_differ (size_of s) d.content_length)
            (because retry_wait copy_verification_failed)
          >> last)
        (Keeps-check services IsCopy MayRemove (sizes_differ (size_of s) d.content_length)
          (because retry_wait copy_verification_failed) last
          (λ w.
            if-Ends (is_renaming op.operation_type) first (pure tt) w
              (λ _ u. Run services IsCopy MayRemove w u)
              (λ _.
                Keeps-check services IsCopy MayRemove
                  (misses (expected_checksum op) d.checksum_sha256) mismatch second
                  (Keeps-check services IsCopy MayRemove
                    (is_unlike_text (checksum_of s) d.checksum_sha256) mismatch record_it
                    (record_result-Stays d))
                  w)
              (λ _. begun)))

  remove_source-Stays :
      (s : Option ObjectState)
      → Stays (remove_source show_uuid services op ctx space_id key source s)
  unfolding remove_source delete_source Keeps MayRemove
  remove_source-Stays s w =
      let revoked = because partial_failure source_delete_authorization_revoked in
      let remove = delete_source show_uuid services source in
      let ask =
        require show_uuid services op ctx space_id (codes "files.delete") key revoked >> remove in
      let Q = λ (_ : Result Stop (Unit {0})) (u : W). Run services IsCopy MayRemove w u in
      if-Ends (removes_source op.operation_type) (return_if (is_none s) done >> ask) (pure tt) w Q
        (λ _.
          Keeps-check services IsCopy MayRemove (is_none s) done ask
            (λ v.
              let P = λ (_ : Result Stop (Unit {0})) (u : W). Run services IsCopy MayRemove v u in
              require_then-Ends show_uuid services op ctx space_id (codes "files.delete") key
                revoked remove v P begun begun
                (λ granted.
                  wait_or_return-Ends (because partial_failure source_delete_failed)
                    (services.delete source) v P (removed source (refl, granted) begun)
                    (λ _ _. removed source (refl, granted) begun)))
            w)
        (λ _. begun)

  -- All calls of the branch: it copies nothing but the source, and that to the destination, and deletes
  -- nothing but the source, and that only in a world in which the subject holds `files.delete` on it.
  pub relocate-Keeps :
      Keeps services IsCopy MayRemove
        (relocate show_uuid services op ctx space_id key source destination)
  unfolding relocate
  relocate-Keeps =
      let removal =
        λ (s : Option ObjectState). remove_source show_uuid services op ctx space_id key source s in
      let finish = λ (s : Option ObjectState) (d : ObjectState).
        verify show_uuid services op s d >> removal s in
      let rest = λ (s d : Option ObjectState).
        ensure_copied show_uuid services source destination s d >>= finish s in
      Keeps-bind services IsCopy MayRemove (wait_for (services.head source))
        (λ s. wait_for (services.head destination) >>= rest s) (head-Stays source)
        (λ s.
          Keeps-bind services IsCopy MayRemove (wait_for (services.head destination)) (rest s)
            (head-Stays destination)
            (λ d.
              Keeps-bind services IsCopy MayRemove
                (ensure_copied show_uuid services source destination s d) (finish s)
                (ensure_copied-Stays s d)
                (λ o.
                  Keeps-then services IsCopy MayRemove (verify show_uuid services op s o)
                    (removal s) (verify-Stays s o) (remove_source-Stays s))))
