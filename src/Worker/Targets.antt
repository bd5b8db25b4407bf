-- ===== src/Worker/Targets.antt =====
-- On the local `target` of `_execute` in files/application/operation_worker.py.
use s3mp_backend.Prelude.{ℕ, ◌≡◌, refl, Option, none, some, Result, ok, err}
use s3mp_backend.Prelude.Text.{Text}
use s3mp_backend.Keys.{ProviderTarget}
use s3mp_backend.Worker.{
  Operation, Space, because, Services, Stop, returns, Act, ◌>>=◌, cancelled,
  storage_target_unverifiable,
}
use s3mp_backend.Worker.Effects.{target_of, require_target}
use s3mp_backend.Worker.Storage.{Ends, After, >>=-After}

module _ {W : Type 0} (show_uuid : ℕ → Text) (services : Services W) where
  pub require_target-Ends :
      (op : Operation) (space : Space) (space_id : ℕ) (key : Text) (w : W)
      (Q : Result Stop ProviderTarget → W → Type 0)
      → Q (err (returns (because cancelled storage_target_unverifiable))) w
      → ((t : ProviderTarget)
          → target_of show_uuid services op space space_id key ≡ some t
          → Q (ok t) w)
      → Ends (require_target show_uuid services op space space_id key) w Q
  unfolding require_target
  require_target-Ends op space space_id key w Q stop next =
      by_target (target_of show_uuid services op space space_id key) stop next
    where
      by_target :
          (o : Option ProviderTarget)
          → Q (err (returns (because cancelled storage_target_unverifiable))) w
          → ((t : ProviderTarget) → o ≡ some t → Q (ok t) w)
          → Ends
              (λ (v : W). elim o [
                | none ↦ (err (returns (because cancelled storage_target_unverifiable)), w)
                | some t ↦ (ok t, w)
              ])
              w
              Q
      by_target none f g = f
      by_target (some t) f g = g t refl

  -- `if target(key) is None: return …`, and what is done with the target.
  pub require_target_then-Ends :
      {A : Type 0} (op : Operation) (space : Space) (space_id : ℕ) (key : Text)
      (k : ProviderTarget → Act W A) (w : W) (Q : Result Stop A → W → Type 0)
      → Q (err (returns (because cancelled storage_target_unverifiable))) w
      → ((t : ProviderTarget)
          → target_of show_uuid services op space space_id key ≡ some t
          → Ends (k t) w Q)
      → Ends (require_target show_uuid services op space space_id key >>= k) w Q
  require_target_then-Ends op space space_id key k w Q stop next =
      >>=-After (require_target show_uuid services op space space_id key) k w Q
        (require_target-Ends op space space_id key w (After k Q) stop next)
