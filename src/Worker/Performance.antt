-- ===== src/Worker/Performance.antt =====
-- On the body of the outer `try` of `_execute` in files/application/operation_worker.py: what it has
-- checked before an effect.
use s3mp_backend.Prelude.{
  ℕ, true, ◌≡◌, ◌≢◌, refl, Option, none, some, [], ◌∷◌, Result, err, if◌then◌else◌,
}
use s3mp_backend.Prelude.Text.{Text, codes}
use s3mp_backend.Keys.{ProviderTarget}
use s3mp_backend.Identity.{PrincipalContext}
use s3mp_backend.Worker.{
  OperationType, copying, moving, renaming, deleting, other, Operation, Space, ObjectState, Outcome,
  because, Services, Stop, returns, raises, ◌>>=◌, ◌>>◌, pure, cancelled, authorization_revoked,
  storage_target_unverifiable,
}
use s3mp_backend.Worker.Effects.{
  is_renaming, target_of, require, require_target, relocate, authorize_move, relocate_keys,
  transfer, transfer_keys, perform,
}
use s3mp_backend.Worker.Storage.{IsStorage, Ends, After, >>-After, if-Ends}
use s3mp_backend.Worker.Granted.{IsGranted, require-Ends, require_then-Ends}
use s3mp_backend.Worker.Calls.{Run, Keeps}
use s3mp_backend.Worker.Removal.{IsCopy, MayRemove, relocate-Keeps}
use s3mp_backend.Worker.Relocation.{IsDone, IsRelocated, relocate-IsRelocated}
use s3mp_backend.Worker.Targets.{require_target_then-Ends}
use s3mp_backend.Worker.Deletion.{IsDeleted, delete_keys-IsDeleted}

module _ {W : Type 0} (show_uuid : ℕ → Text) (services : Services W)
    (objects : W → ProviderTarget → Option ObjectState) (op : Operation) (ctx : PrincipalContext)
    (space : Space) (space_id : ℕ) where
  -- A copy, a move or a rename of one key to another that the subject may carry out: its calls copy
  -- nothing but the source to the destination, and delete nothing but the source, in a world in which the
  -- subject holds `files.delete` on it.
  pub record IsTransferred (source destination : Text) (w : W) (r : Result Stop (Unit {0})) (u : W)
      : Type 0 where
    pub source_target : ProviderTarget
    pub destination_target : ProviderTarget
    pub targets_source : target_of show_uuid services op space space_id source ≡ some source_target
    pub targets_destination :
        target_of show_uuid services op space space_id destination ≡ some destination_target
    pub may_read : IsGranted services op ctx space_id (codes "files.read") source w
    pub may_write : IsGranted services op ctx space_id (codes "files.write") destination w
    pub may_move :
        is_renaming op.operation_type ≡ true
        → IsGranted services op ctx space_id (codes "files.move") source w
    pub calls :
        Run services
          (IsCopy show_uuid services op ctx space_id source source_target destination_target)
          (MayRemove show_uuid services op ctx space_id source source_target destination_target)
          w
          u
    pub relocated :
        source_target ≢ destination_target
        → IsRelocated objects op source_target destination_target w r u

  pub data Performed (w : W) (r : Result Stop (Unit {0})) (u : W) : Type 0 where
    idle : u ≡ w → ¬ IsDone r → Performed w r u
    transferred :
        (source destination : Text)
        → op.source_key ≡ some source
        → op.destination_key ≡ some destination
        → IsTransferred source destination w r u
        → Performed w r u
    deleted :
        op.operation_type ≡ deleting
        → IsDeleted show_uuid services objects op ctx space space_id op.keys w r u
        → Performed w r u

  module _ (storage : IsStorage services objects) where
    revoked : Outcome
    revoked = because cancelled authorization_revoked

    relocate_keys-Ends :
        (source destination : Text) (w : W) (Q : Result Stop (Unit {0}) → W → Type 0)
        → IsGranted services op ctx space_id (codes "files.read") source w
        → IsGranted services op ctx space_id (codes "files.write") destination w
        → (is_renaming op.operation_type ≡ true
            → IsGranted services op ctx space_id (codes "files.move") source w)
        → ((s : Stop) → ¬ IsDone (err s) → Q (err s) w)
        → ((r : Result Stop (Unit {0})) (u : W) → IsTransferred source destination w r u → Q r u)
        → Ends (relocate_keys show_uuid services op ctx space space_id source destination) w Q
    unfolding relocate_keys Keeps
    relocate_keys-Ends source destination w Q may_read may_write may_move stop next =
        let unverifiable =
          stop (returns (because cancelled storage_target_unverifiable)) (λ d. absurd (cc d)) in
        require_target_then-Ends show_uuid services op space space_id source
          (λ s. require_target show_uuid services op space space_id destination >>= λ d.
            relocate show_uuid services op ctx space_id source s d)
          w Q unverifiable
          (λ s e.
            require_target_then-Ends show_uuid services op space space_id destination
              (λ d. relocate show_uuid services op ctx space_id source s d) w Q unverifiable
              (λ d f.
                next (relocate show_uuid services op ctx space_id source s d w).0
                  (relocate show_uuid services op ctx space_id source s d w).1
                  (record {
                    source_target = s;
                    destination_target = d;
                    targets_source = e;
                    targets_destination = f;
                    may_read = may_read;
                    may_write = may_write;
                    may_move = may_move;
                    calls = relocate-Keeps show_uuid services op ctx space_id source s d w;
                    relocated = λ apart.
                        relocate-IsRelocated show_uuid services objects storage op ctx space_id
                          source s d apart w;
                  })))

    transfer-Ends :
        (source destination : Text) (w : W) (Q : Result Stop (Unit {0}) → W → Type 0)
        → ((s : Stop) → ¬ IsDone (err s) → Q (err s) w)
        → ((r : Result Stop (Unit {0})) (u : W) → IsTransferred source destination w r u → Q r u)
        → Ends (transfer show_uuid services op ctx space space_id source destination) w Q
    unfolding transfer revoked authorize_move
    transfer-Ends source destination w Q stop next =
        let raised = stop raises (λ d. d) in
        let refused = stop (returns revoked) (λ d. absurd (cc d)) in
        let last = relocate_keys show_uuid services op ctx space space_id source destination in
        let move = require show_uuid services op ctx space_id (codes "files.move") source revoked in
        let moved = if is_renaming op.operation_type then move else pure tt in
        require_then-Ends show_uuid services op ctx space_id (codes "files.read") source revoked
          (require show_uuid services op ctx space_id (codes "files.write") destination revoked
            >> (moved >> last))
          w Q raised refused
          (λ may_read.
            require_then-Ends show_uuid services op ctx space_id (codes "files.write") destination
              revoked (moved >> last) w Q raised refused
              (λ may_write. >>-After moved last w Q (
                if-Ends (is_renaming op.operation_type) move (pure tt) w (After (λ _. last) Q)
                  (λ e.
                    require-Ends show_uuid services op ctx space_id (codes "files.move") source
                      revoked w (After (λ _. last) Q) raised refused
                      (λ may_move.
                        relocate_keys-Ends source destination w Q may_read may_write (λ _. may_move)
                          stop next))
                  (λ e.
                    relocate_keys-Ends source destination w Q may_read may_write
                      (λ f. absurd (cc (rw e at f))) stop next))))

    transfer_keys-Ends :
        (a b : Option Text) (w : W)
        → op.source_key ≡ a
        → op.destination_key ≡ b
        → Ends (transfer_keys show_uuid services op ctx space space_id a b) w (Performed w)
    unfolding transfer_keys
    transfer_keys-Ends none b w e f = idle refl (λ d. absurd (cc d))
    transfer_keys-Ends (some []) b w e f = idle refl (λ d. absurd (cc d))
    transfer_keys-Ends (some (c ∷ s)) none w e f = idle refl (λ d. absurd (cc d))
    transfer_keys-Ends (some (c ∷ s)) (some []) w e f = idle refl (λ d. absurd (cc d))
    transfer_keys-Ends (some (c ∷ s)) (some (d ∷ t)) w e f =
        transfer-Ends (c ∷ s) (d ∷ t) w (Performed w) (λ stop h. idle refl h)
          (λ r u h. transferred (c ∷ s) (d ∷ t) e f h)

    pub perform-Performed :
        (kind : OperationType) (w : W)
        → op.operation_type ≡ kind
        → Ends (perform show_uuid services kind op ctx space space_id) w (Performed w)
    unfolding perform
    perform-Performed copying w e = transfer_keys-Ends op.source_key op.destination_key w refl refl
    perform-Performed moving w e = transfer_keys-Ends op.source_key op.destination_key w refl refl
    perform-Performed renaming w e = transfer_keys-Ends op.source_key op.destination_key w refl refl
    perform-Performed deleting w e =
        deleted e
          (delete_keys-IsDeleted show_uuid services objects op ctx space space_id storage op.keys w)
    perform-Performed other w e = idle refl (λ d. absurd (cc d))
