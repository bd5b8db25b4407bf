-- ===== src/Worker/Relocation.antt =====
-- On the branch of `_execute` in files/application/operation_worker.py that copies, moves or renames.
use s3mp_backend.Prelude.{
  ℕ, true, false, ◌≡◌, ◌≢◌, refl, sym, ap, ◌∙◌, ◌⊎◌, inl, inr, Option, none, some, Result, ok, err,
  arith, subst, is_none,
}
use s3mp_backend.Prelude.Text.{Text, codes}
use s3mp_backend.Keys.{ProviderTarget}
use s3mp_backend.Identity.{PrincipalContext}
use s3mp_backend.Worker.{
  Operation, ObjectState, because, done, Services, Stop, returns, raises, Act, ◌>>=◌, ◌>>◌, pure,
  return_if, wait_for, succeeded, partial_failure, source_delete_authorization_revoked,
  source_delete_failed,
}
use s3mp_backend.Worker.Effects.{
  removes_source, ensure_copied, verify, require, delete_source, remove_source, relocate,
}
use s3mp_backend.Worker.Storage.{
  IsStorage, Ends, After, >>=-After, >>-After, check-Ends, if-Ends, wait-Ends, wait_or_return-Ends,
}
use s3mp_backend.Worker.Granted.{require-Ends}
use s3mp_backend.Worker.Verified.{
  Unfinished, IsVerified, Checked, verify-Ends, Copied, ensure_copied-Ends,
}

-- `succeeded` is returned.
abbrev pub IsDone : Result Stop (Unit {0}) → Type 0
IsDone (ok _) = Unit
IsDone (err raises) = ⊥
IsDone (err (returns o)) = o.status ≡ succeeded

unfinished_lem : (s : Stop) → Unfinished s → ¬ IsDone (err s)
unfinished_lem raises h d = d
unfinished_lem (returns o) h d = h d

module _ {W : Type 0} (objects : W → ProviderTarget → Option ObjectState) where
  -- The destination holds a verified object, and the source is as the operation wants it.
  pub record IsPlaced (op : Operation) (source destination : ProviderTarget) (w : W)
      (r : Result Stop (Unit {0})) (u : W) : Type 0 where
    pub object : ObjectState
    pub placed : objects u destination ≡ some object
    pub verified : IsVerified op (objects w source) object
    pub source_gone : removes_source op.operation_type ≡ true → IsDone r → objects u source ≡ none
    pub source_kept : removes_source op.operation_type ≡ false → objects u source ≡ objects w source

  -- How the branch ends: no other object has changed, and if the source has changed, the destination
  -- holds its object; that it does is also what success means.
  pub record IsRelocated (op : Operation) (source destination : ProviderTarget) (w : W)
      (r : Result Stop (Unit {0})) (u : W) : Type 0 where
    pub others : (t : ProviderTarget) → t ≢ source → t ≢ destination → objects u t ≡ objects w t
    pub source_safe : (objects u source ≡ objects w source) ⊎ IsPlaced op source destination w r u
    pub succeeds : IsDone r → IsPlaced op source destination w r u

  -- How the deletion of the source ends.
  unfoldable pub Removed : Operation → ProviderTarget → W → Result Stop (Unit {0}) → W → Type 0
  Removed op source w r u =
      ((t : ProviderTarget) → t ≢ source → objects u t ≡ objects w t)
      × (removes_source op.operation_type ≡ true → IsDone r → objects u source ≡ none)
      × (removes_source op.operation_type ≡ false → objects u source ≡ objects w source)

module _ {W : Type 0} (show_uuid : ℕ → Text) (services : Services W)
    (objects : W → ProviderTarget → Option ObjectState) (storage : IsStorage services objects) where
  delete_source-Ends :
      (op : Operation) (source : ProviderTarget) (w : W)
      → removes_source op.operation_type ≡ true
      → Ends (delete_source show_uuid services source) w (Removed objects op source w)
  unfolding delete_source Removed
  delete_source-Ends op source w e =
      wait_or_return-Ends (because partial_failure source_delete_failed) (services.delete source) w
        (Removed objects op source w)
        (deleted_other source w, (λ _ d. absurd (cc d)), λ g. absurd (cc (rw e at g)))
        (λ x f. (
          deleted_other source w,
          (λ _ d. storage.delete_removes source w x f),
          λ g. absurd (cc (rw e at g)),
        ))
    where
      deleted_other :
          (s : ProviderTarget) (w : W) (t : ProviderTarget)
          → t ≢ s
          → objects (services.delete s w).1 t ≡ objects w t
      deleted_other s w t n = elim (storage.delete_effect s t w) [
        | inl same ↦ same
        | inr (e, _) ↦ absurd (n e)
      ]

  pub remove_source-Ends :
      (op : Operation) (ctx : PrincipalContext) (space_id : ℕ) (source : Text)
      (target : ProviderTarget) (s : Option ObjectState) (w : W)
      → objects w target ≡ s
      → Ends
          (remove_source show_uuid services op ctx space_id source target s)
          w
          (Removed objects op target w)
  unfolding remove_source Removed
  remove_source-Ends op ctx space_id source target s w h =
      if-Ends (removes_source op.operation_type)
        (return_if (is_none s) done
          >> (require show_uuid services op ctx space_id (codes "files.delete") source
                (because partial_failure source_delete_authorization_revoked)
              >> delete_source show_uuid services target))
        (pure tt) w (Removed objects op target w)
        (λ e.
          check-Ends (is_none s) done
            (require show_uuid services op ctx space_id (codes "files.delete") source
                (because partial_failure source_delete_authorization_revoked)
              >> delete_source show_uuid services target)
            w (Removed objects op target w)
            (λ f. ((λ t n. refl), (λ _ d. h ∙ ground arith), λ g. absurd (cc (rw e at g))))
            (λ f.
              >>-After
                (require show_uuid services op ctx space_id (codes "files.delete") source
                  (because partial_failure source_delete_authorization_revoked))
                (delete_source show_uuid services target) w (Removed objects op target w)
                (require-Ends show_uuid services op ctx space_id (codes "files.delete") source
                  (because partial_failure source_delete_authorization_revoked) w
                  (After (λ _. delete_source show_uuid services target)
                    (Removed objects op target w))
                  ((λ t n. refl), (λ _ d. absurd d), λ g. absurd (cc (rw e at g)))
                  ((λ t n. refl), (λ _ d. absurd (cc d)), λ g. absurd (cc (rw e at g)))
                  (λ granted. delete_source-Ends op target w e))))
        (λ e. ((λ t n. refl), (λ f. absurd (cc (rw e at f))), λ f. refl))

  module _ (op : Operation) (ctx : PrincipalContext) (space_id : ℕ) (key : Text)
      (source destination : ProviderTarget) (apart : source ≢ destination) (w : W) where
    -- Only the destination has changed.
    Elsewhere : W → Type 0
    Elsewhere u = (t : ProviderTarget) → t ≢ destination → objects u t ≡ objects w t

    stopped-IsRelocated :
        (stop : Stop) (u : W)
        → Unfinished stop
        → Elsewhere u
        → IsRelocated objects op source destination w (err stop) u
    unfolding Elsewhere
    stopped-IsRelocated stop u h same = record {
      others = λ t m n. same t n;
      source_safe = inl (same source apart);
      succeeds = λ d. absurd (unfinished_lem stop h d);
    }

    relocates_on_removal :
        (d : ObjectState) (v : W) (r : Result Stop (Unit {0})) (u : W)
        → Elsewhere v
        → objects v destination ≡ some d
        → IsVerified op (objects w source) d
        → Removed objects op source v r u
        → IsRelocated objects op source destination w r u
    unfolding Elsewhere Removed
    relocates_on_removal d v r u same placed verified (others, gone, kept) =
        let p : IsPlaced objects op source destination w r u = record {
          object = d;
          placed = others destination (λ e. apart (sym e)) ∙ placed;
          verified = verified;
          source_gone = gone;
          source_kept = λ e. kept e ∙ same source apart;
        } in
        record { others = λ t m n. others t m ∙ same t n; source_safe = inr p; succeeds = λ _. p }

    removal : Option ObjectState → Act W (Unit {0})
    removal s = remove_source show_uuid services op ctx space_id key source s

    relocates_on_checks :
        (d : ObjectState) (v : W) (r : Result Stop (Unit {0})) (u : W)
        → Elsewhere v
        → objects v destination ≡ some d
        → Checked objects (IsVerified op) (objects w source) d v r u
        → After (λ _. removal (objects w source)) (IsRelocated objects op source destination w) r u
    unfolding Elsewhere removal
    relocates_on_checks d v (err stop) u same placed (h, e) =
        stopped-IsRelocated stop u h (λ t n. ap (λ f. f t) e ∙ same t n)
    relocates_on_checks d v (ok _) u same placed (h, e) =
        let held =
          λ (t : ProviderTarget). ap (λ (f : ProviderTarget → Option ObjectState). f t) e in
        relocates_on_removal d u (removal (objects w source) u).0 (removal (objects w source) u).1
          (λ t n. held t ∙ same t n) (held destination ∙ placed) h
          (remove_source-Ends op ctx space_id key source (objects w source) u
            (held source ∙ same source apart))

    finishing : Option ObjectState → ObjectState → Act W (Unit {0})
    finishing s d = verify show_uuid services op s d >> removal s

    relocates_on_copy :
        (v : W) (r : Result Stop ObjectState) (u : W)
        → objects v ≡ objects w
        → Copied objects destination v r u
        → After (finishing (objects w source)) (IsRelocated objects op source destination w) r u
    unfolding Elsewhere finishing
    relocates_on_copy v (err stop) u e (h, others) =
        stopped-IsRelocated stop u h (λ t n. others t n ∙ ap (λ f. f t) e)
    relocates_on_copy v (ok d) u e (placed, others) =
        >>-After (verify show_uuid services op (objects w source) d) (removal (objects w source)) u
          (IsRelocated objects op source destination w)
          (relocates_on_checks d u (verify show_uuid services op (objects w source) d u).0
            (verify show_uuid services op (objects w source) d u).1
            (λ t n. others t n ∙ ap (λ f. f t) e) placed
            (verify-Ends show_uuid services objects storage op (objects w source) d u))

    -- However the branch ends, and whatever call fails, a source and a destination that differ end as
    -- follows: no other object has changed; if the source has changed, the destination holds an
    -- object that has passed the checks against it; success is returned only if the destination
    -- holds such an object, and if then the source of a move or a rename is gone and that of a copy is
    -- as it was.
    pub relocate-IsRelocated :
        Ends
          (relocate show_uuid services op ctx space_id key source destination)
          w
          (IsRelocated objects op source destination w)
    unfolding relocate removal finishing Elsewhere
    relocate-IsRelocated =
        let first = (services.head source w).1 in
        let second = (services.head destination first).1 in
        let same_first = storage.head_keeps source w in
        let same_second = storage.head_keeps destination first ∙ same_first in
        let Q = IsRelocated objects op source destination w in
        wait-Ends (services.head source)
          (λ s. wait_for (services.head destination) >>= λ d.
            ensure_copied show_uuid services source destination s d >>= finishing s)
          w Q (stopped-IsRelocated raises first tt (λ t n. ap (λ f. f t) same_first))
          (λ s e.
            wait-Ends (services.head destination)
              (λ d. ensure_copied show_uuid services source destination s d >>= finishing s) first Q
              (stopped-IsRelocated raises second tt (λ t n. ap (λ f. f t) same_second))
              (λ d f.
                >>=-After (ensure_copied show_uuid services source destination s d) (finishing s)
                  second Q
                  (subst
                    (λ (x : Option ObjectState).
                      After (finishing x) Q
                        (ensure_copied show_uuid services source destination x d second).0
                        (ensure_copied show_uuid services source destination x d second).1)
                    {x = objects w source} {y = s} (storage.head_answers source w s e)
                    (relocates_on_copy second
                      (ensure_copied show_uuid services source destination (objects w source) d
                        second).0
                      (ensure_copied show_uuid services source destination (objects w source) d
                        second).1
                      same_second
                      (ensure_copied-Ends show_uuid services objects storage source destination
                        (objects w source) d second
                        (ap (λ g. g destination) (storage.head_keeps destination first)
                          ∙ storage.head_answers destination first d f))))))
