-- ===== src/Worker/Calls.antt =====
-- On the calls that `_execute` of files/application/operation_worker.py makes to its object storage:
-- which copies and deletions they are, and in which world each is made.
use s3mp_backend.Prelude.{ℕ, Bool, ◌≡◌, Option, some, Result, ok, err}
use s3mp_backend.Prelude.Text.{Text}
use s3mp_backend.Keys.{ProviderTarget}
use s3mp_backend.Worker.{Outcome, Services, Stop, Act, Call, ◌>>=◌, ◌>>◌, return_if, wait_for}
use s3mp_backend.Worker.Storage.{After, >>=-After, return_if-Ends, wait_for-Ends}

-- The worlds that calls lead to, one after the other: only the copies of `Copies` are made and, in a
-- world `v`, only the deletions of `Deletes v`.
pub data Run {W : Type 0} (services : Services W)
    (Copies : ProviderTarget → ProviderTarget → Type 0) (Deletes : W → ProviderTarget → Type 0)
    (w : W) : W → Type 0 where
  begun : Run services Copies Deletes w w
  headed :
      {v : W} (t : ProviderTarget)
      → Run services Copies Deletes w v
      → Run services Copies Deletes w (services.head t v).1
  copied :
      {v : W} (s d : ProviderTarget)
      → Copies s d
      → Run services Copies Deletes w v
      → Run services Copies Deletes w (services.copy s d v).1
  removed :
      {v : W} (t : ProviderTarget)
      → Deletes v t
      → Run services Copies Deletes w v
      → Run services Copies Deletes w (services.delete t v).1
  recorded :
      {v : W} (recorder : ℕ → ℕ → Option Text → Call W (Unit {0})) (a b : ℕ) (tag : Option Text)
      → services.record_rename_provider_result ≡ some recorder
      → Run services Copies Deletes w v
      → Run services Copies Deletes w (recorder a b tag v).1

-- Where more calls are allowed.
pub Run-mono :
    {W : Type 0} (services : Services W) (C C' : ProviderTarget → ProviderTarget → Type 0)
    (D D' : W → ProviderTarget → Type 0) {w u : W}
    → ((s d : ProviderTarget) → C s d → C' s d)
    → ((v : W) (t : ProviderTarget) → D v t → D' v t)
    → Run services C D w u
    → Run services C' D' w u
Run-mono services C C' D D' f g begun = begun
Run-mono services C C' D D' f g (headed t r) = headed t (Run-mono services C C' D D' f g r)
Run-mono services C C' D D' f g (copied s d h r) =
    copied s d (f s d h) (Run-mono services C C' D D' f g r)
Run-mono services C C' D D' f g (removed {v} t h r) =
    removed t (g v t h) (Run-mono services C C' D D' f g r)
Run-mono services C C' D D' f g (recorded recorder a b tag e r) =
    recorded recorder a b tag e (Run-mono services C C' D D' f g r)

module _ {W : Type 0} (services : Services W) (Copies : ProviderTarget → ProviderTarget → Type 0)
    (Deletes : W → ProviderTarget → Type 0) where
  pub Run-join :
      {w v u : W}
      → Run services Copies Deletes w v
      → Run services Copies Deletes v u
      → Run services Copies Deletes w u
  Run-join r begun = r
  Run-join r (headed t q) = headed t (Run-join r q)
  Run-join r (copied s d h q) = copied s d h (Run-join r q)
  Run-join r (removed t h q) = removed t h (Run-join r q)
  Run-join r (recorded recorder a b tag e q) = recorded recorder a b tag e (Run-join r q)

  -- An effect makes no other calls.
  unfoldable pub Keeps : {A : Type 0} → Act W A → Type 0
  Keeps m = (w : W) → Run services Copies Deletes w (m w).1

  pub Keeps-bind :
      {A B : Type 0} (m : Act W A) (k : A → Act W B)
      → Keeps m
      → ((a : A) → Keeps (k a))
      → Keeps (m >>= k)
  unfolding Keeps
  Keeps-bind {A = A} {B = B} m k f g w =
      >>=-After m k w (λ _ u. Run services Copies Deletes w u) (by_result (m w).0 (m w).1 (f w))
    where
      by_result :
          (r : Result Stop A) (u : W)
          → Run services Copies Deletes w u
          → After k (λ (_ : Result Stop B) (v : W). Run services Copies Deletes w v) r u
      by_result (err s) u q = q
      by_result (ok a) u q = Run-join q (g a u)

  pub Keeps-then : {A B : Type 0} (m : Act W A) (k : Act W B) → Keeps m → Keeps k → Keeps (m >> k)
  unfolding ◌>>◌
  Keeps-then m k f g = Keeps-bind m (λ _. k) f (λ _. g)

  pub Keeps-check :
      {A : Type 0} (b : Bool) (o : Outcome) (k : Act W A) → Keeps k → Keeps (return_if b o >> k)
  unfolding Keeps
  Keeps-check b o k g =
      Keeps-then (return_if b o) k
        (λ w.
          return_if-Ends b o w (λ _ u. Run services Copies Deletes w u) (λ _. begun) (λ _. begun))
        g

  -- A call that may be made.
  pub Keeps-call :
      {A : Type 0} (call : Call W A)
      → ((w : W) → Run services Copies Deletes w (call w).1)
      → Keeps (wait_for call)
  unfolding Keeps
  Keeps-call call f w =
      wait_for-Ends call w (λ _ u. Run services Copies Deletes w u) (f w) (λ _ _. f w)
