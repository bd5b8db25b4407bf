-- ===== src/Worker/Progress.antt =====
-- On the branch of `_execute` in files/application/operation_worker.py that copies, moves or renames,
-- where every call of the object storage answers: its parts succeed.
use s3mp_backend.Prelude.{
  ℕ, Bool, true, false, not, ◌&&◌, ◌≡◌, refl, sym, ap, ◌∙◌, Option, none, some, Result, ok, err,
  arith, Option-cases, inl, inr, subst,
}
use s3mp_backend.Prelude.Text.{Text, codes, text_eq_refl}
use s3mp_backend.Keys.{ProviderTarget}
use s3mp_backend.Identity.{PrincipalContext}
use s3mp_backend.FileRef.{normalized_sha256}
use s3mp_backend.Worker.{
  Operation, ObjectState, Outcome, because, done, Services, Stop, raises, retry_wait,
  rename_checksum_mismatch, rename_content_length_mismatch, copy_verification_failed, Act, Call,
  ◌>>=◌, ◌>>◌, pure, return_if, wait_for, wait_or_return, partial_failure,
  source_delete_authorization_revoked,
}
use s3mp_backend.Worker.Effects.{
  is_renaming, removes_source, sizes_differ, is_unlike_text, is_unlike, misses, expected_size,
  expected_checksum, record_result, verify_rename, verify, authorize, require, delete_source,
  remove_source,
}
use s3mp_backend.Worker.Storage.{IsStorage, Ends, After, >>=-After, >>-After, if-Ends, check-Ends}

-- An object that a storage makes of `s` when it copies it; its entity tag need not be that of `s`.
pub record IsCopyOf (s d : ObjectState) : Type 0 where
  pub same_length : d.content_length ≡ s.content_length
  pub same_checksum : (c : Text) → s.checksum_sha256 ≡ some c → d.checksum_sha256 ≡ some c

-- Every call answers, and a copy copies.
pub record IsWorking {W : Type 0} (services : Services W)
    (objects : W → ProviderTarget → Option ObjectState) : Type 0 where
  pub head_works : (t : ProviderTarget) (w : W) → (services.head t w).0 ≡ some (objects w t)
  pub copy_works : (s d : ProviderTarget) (w : W) → (services.copy s d w).0 ≡ some tt
  pub copied :
      (s d : ProviderTarget) (w : W) (o : ObjectState)
      → objects w s ≡ some o
      → (c : ObjectState) × (objects (services.copy s d w).1 d ≡ some c) × IsCopyOf o c
  pub delete_works : (t : ProviderTarget) (w : W) → (services.delete t w).0 ≡ some tt
  pub recorder_works :
      (recorder : ℕ → ℕ → Option Text → Call W (Unit {0})) (a b : ℕ) (tag : Option Text) (w : W)
      → services.record_rename_provider_result ≡ some recorder
      → (recorder a b tag w).0 ≡ some tt

sizes_same : (a b : Option ℕ) → b ≡ a → sizes_differ a b ≡ false
sizes_same a b e =
    subst (λ (x : Option ℕ). sizes_differ a x ≡ false) {x = a} {y = b} (sym e) (ground arith)

checksums_same :
    (a b : Option Text) → ((c : Text) → a ≡ some c → b ≡ some c) → is_unlike_text a b ≡ false
checksums_same none b h = refl
checksums_same (some t) b h =
    subst (λ (x : Option Text). is_unlike_text (some t) x ≡ false) {x = some t} {y = b}
      (sym (h t refl)) (ap not (text_eq_refl t))

unexpected : (b : Bool) (o : Option ℕ) (l : Option ℕ) → o ≡ none → ¬ ((b && is_unlike o l) ≡ true)
unexpected false o l e f = absurd (cc f)
unexpected true o l e f = absurd (cc (rw e at f))

size-none : (op : Operation) → op.rename_integrity ≡ none → expected_size op ≡ none
size-none op e = rw e refl

checksum-none : (op : Operation) → op.rename_integrity ≡ none → expected_checksum op ≡ none
unfolding normalized_sha256
checksum-none op e = rw e refl

nothing_missed : (o t : Option Text) → o ≡ none → ¬ (misses o t ≡ true)
nothing_missed o t e f = absurd (cc (rw e at f))

module _ {W : Type 0} where
  answer-Ends :
      {A : Type 0} (call : Call W A) (w : W) (a : A) (Q : Result Stop A → W → Type 0)
      → (call w).0 ≡ some a
      → Q (ok a) (call w).1
      → Ends (wait_for call) w Q
  unfolding wait_for
  answer-Ends {A = A} call w a Q e h = by_answer (call w).0 (call w).1 e h
    where
      by_answer :
          (answer : Option A) (u : W)
          → answer ≡ some a
          → Q (ok a) u
          → Ends (λ (v : W). elim answer [ none ↦ (err raises, u) | some b ↦ (ok b, u) ]) w Q
      by_answer none u f g = absurd (cc)
      by_answer (some b) u f g = let same : a ≡ b = cc in subst (λ (x : A). Q (ok x) u) same g

  pub answered-Ends :
      {A B : Type 0} (call : Call W A) (k : A → Act W B) (w : W) (a : A)
      (Q : Result Stop B → W → Type 0)
      → (call w).0 ≡ some a
      → Ends (k a) (call w).1 Q
      → Ends (wait_for call >>= k) w Q
  answered-Ends call k w a Q e h =
      >>=-After (wait_for call) k w Q (answer-Ends call w a (After k Q) e h)

  pub answered_then-Ends :
      {A B : Type 0} (call : Call W A) (k : Act W B) (w : W) (a : A)
      (Q : Result Stop B → W → Type 0)
      → (call w).0 ≡ some a
      → Ends k (call w).1 Q
      → Ends (wait_for call >> k) w Q
  answered_then-Ends call k w a Q e h =
      >>-After (wait_for call) k w Q (answer-Ends call w a (After (λ _. k) Q) e h)

module _ {W : Type 0} (show_uuid : ℕ → Text) (services : Services W)
    (objects : W → ProviderTarget → Option ObjectState) (storage : IsStorage services objects)
    (working : IsWorking services objects) (op : Operation)
    (no_integrity : op.rename_integrity ≡ none) where
  abbrev pub Good : Result Stop (Unit {0}) → W → Type 0
  Good r u = r ≡ ok tt

  record_result-Good :
      (d : ObjectState) (w : W) → Ends (record_result show_uuid services op d) w Good
  unfolding record_result
  record_result-Good d w = elim (Option-cases services.record_rename_provider_result) [
    | inl e ↦ rw e refl
    | inr (recorder, e) ↦ rw e (
        answer-Ends (recorder op.tenant_id op.id d.etag) w tt Good
          (working.recorder_works recorder op.tenant_id op.id d.etag w e) refl)
  ]

  verify_rename-Good :
      (s d : ObjectState) (w : W)
      → IsCopyOf s d
      → Ends (verify_rename show_uuid services op (some s) d) w Good
  unfolding verify_rename
  verify_rename-Good s d w same =
      let mismatch = because retry_wait rename_checksum_mismatch in
      let record_it = record_result show_uuid services op d in
      let second =
        return_if (is_unlike_text s.checksum_sha256 d.checksum_sha256) mismatch >> record_it in
      if-Ends (is_renaming op.operation_type)
        (return_if (misses (expected_checksum op) d.checksum_sha256) mismatch >> second) (pure tt) w
        Good
        (λ e.
          check-Ends (misses (expected_checksum op) d.checksum_sha256) mismatch second w Good
            (λ f. absurd (
              nothing_missed (expected_checksum op) d.checksum_sha256
                (checksum-none op no_integrity) f))
            (λ f.
              check-Ends (is_unlike_text s.checksum_sha256 d.checksum_sha256) mismatch record_it w
                Good
                (λ g. absurd (
                  cc (
                    sym g ∙ checksums_same s.checksum_sha256 d.checksum_sha256 same.same_checksum)))
                (λ g. record_result-Good d w)))
        (λ e. refl)

  pub verify-Good :
      (s d : ObjectState) (w : W)
      → IsCopyOf s d
      → Ends (verify show_uuid services op (some s) d) w Good
  unfolding verify
  verify-Good s d w same =
      let rest = verify_rename show_uuid services op (some s) d in
      let second =
        return_if (sizes_differ s.content_length d.content_length)
          (because retry_wait copy_verification_failed)
        >> rest in
      check-Ends (is_renaming op.operation_type && is_unlike (expected_size op) d.content_length)
        (because retry_wait rename_content_length_mismatch) second w Good
        (λ f. absurd (
          unexpected (is_renaming op.operation_type) (expected_size op) d.content_length
            (size-none op no_integrity) f))
        (λ f.
          check-Ends (sizes_differ s.content_length d.content_length)
            (because retry_wait copy_verification_failed) rest w Good
            (λ g.
              absurd (cc (sym g ∙ sizes_same s.content_length d.content_length same.same_length)))
            (λ g. verify_rename-Good s d w same))

  Good-then :
      (m k : Act W (Unit {0})) (v : W)
      → Ends m v Good
      → ((u : W) → Ends k u Good)
      → Ends (m >> k) v Good
  Good-then m k v h next =
      >>-After m k v Good (
        subst (λ (r : Result Stop (Unit {0})). After (λ _. k) Good r (m v).1) (sym h)
          (next (m v).1))

  module _ (ctx : PrincipalContext) (space_id : ℕ) (key : Text)
      (may_delete : (v : W)
        → authorize show_uuid services op ctx space_id (codes "files.delete") key v
          ≡ (ok true, v)) where
    require-Good :
        (o : Outcome) (v : W)
        → Ends (require show_uuid services op ctx space_id (codes "files.delete") key o) v Good
    unfolding require return_if
    require-Good o v =
        >>=-After (authorize show_uuid services op ctx space_id (codes "files.delete") key)
          (λ g. return_if (not g) o) v Good
          (subst (λ (x : Result Stop Bool × W). After (λ g. return_if (not g) o) Good x.0 x.1)
            (sym (may_delete v)) refl)

    delete_source-Good :
        (t : ProviderTarget) (v : W) → Ends (delete_source show_uuid services t) v Good
    unfolding delete_source wait_or_return
    delete_source-Good t v = rw (working.delete_works t v, delete_source, wait_or_return) refl

    pub remove_source-Good :
        (t : ProviderTarget) (s : ObjectState) (v : W)
        → Ends (remove_source show_uuid services op ctx space_id key t (some s)) v Good
    unfolding remove_source
    remove_source-Good t s v =
        let revoked = because partial_failure source_delete_authorization_revoked in
        let ask = require show_uuid services op ctx space_id (codes "files.delete") key revoked in
        let remove = delete_source show_uuid services t in
        if-Ends (removes_source op.operation_type) (return_if false done >> (ask >> remove))
          (pure tt) v Good
          (λ e.
            check-Ends false done (ask >> remove) v Good (λ f. absurd (cc f))
              (λ f. Good-then ask remove v (require-Good revoked v) (delete_source-Good t)))
          (λ e. refl)
