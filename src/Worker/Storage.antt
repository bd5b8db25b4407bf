-- ===== src/Worker/Storage.antt =====
-- What files/application/operation_worker.py relies on in its object storage, and what the effects of
-- `_execute` do when they run one after the other.
use s3mp_backend.Prelude.{
  ℕ, Bool, true, false, ◌≡◌, ◌≢◌, refl, ◌⊎◌, Option, none, some, Result, ok, err, if◌then◌else◌,
}
use s3mp_backend.Prelude.Text.{Text}
use s3mp_backend.Keys.{ProviderTarget}
use s3mp_backend.Worker.{
  ObjectState, Outcome, Services, Stop, returns, raises, Act, Call, ◌>>=◌, ◌>>◌, return_if,
  wait_for, wait_or_return,
}

-- The documented behaviour of an object storage: `objects` is what it holds. A call may fail at any
-- point; a copy may change its destination alone and a deletion its target alone.
pub record IsStorage {W : Type 0} (services : Services W)
    (objects : W → ProviderTarget → Option ObjectState) : Type 0 where
  pub head_keeps : (t : ProviderTarget) (w : W) → objects (services.head t w).1 ≡ objects w
  pub head_answers :
      (t : ProviderTarget) (w : W) (o : Option ObjectState)
      → (services.head t w).0 ≡ some o
      → objects w t ≡ o
  pub copy_keeps :
      (s d t : ProviderTarget) (w : W) → t ≢ d → objects (services.copy s d w).1 t ≡ objects w t
  pub delete_effect :
      (s t : ProviderTarget) (w : W)
      → (objects (services.delete s w).1 t ≡ objects w t)
        ⊎ ((t ≡ s) × (objects (services.delete s w).1 t ≡ none))
  pub delete_removes :
      (s : ProviderTarget) (w : W) (u : Unit {0})
      → (services.delete s w).0 ≡ some u
      → objects (services.delete s w).1 s ≡ none
  pub recorder_keeps :
      (recorder : ℕ → ℕ → Option Text → Call W (Unit {0})) (a b : ℕ) (tag : Option Text) (w : W)
      → services.record_rename_provider_result ≡ some recorder
      → objects (recorder a b tag w).1 ≡ objects w

module _ {W : Type 0} where
  -- What holds of the result of an effect and of the world after it.
  abbrev pub Ends : {A : Type 0} → Act W A → W → (Result Stop A → W → Type 0) → Type 0
  Ends m w Q = Q (m w).0 (m w).1

  -- What an effect has to end in, for `Q` to hold after the next one.
  abbrev pub After :
      {A B : Type 0} → (A → Act W B) → (Result Stop B → W → Type 0) → Result Stop A → W → Type 0
  After k Q (err s) u = Q (err s) u
  After k Q (ok a) u = Ends (k a) u Q

  pub >>=-After :
      {A B : Type 0} (m : Act W A) (k : A → Act W B) (w : W) (Q : Result Stop B → W → Type 0)
      → Ends m w (After k Q)
      → Ends (m >>= k) w Q
  unfolding ◌>>=◌
  >>=-After {A = A} m k w Q h = by_result (m w).0 (m w).1 h
    where
      by_result :
          (r : Result Stop A) (u : W)
          → After k Q r u
          → Ends (λ (v : W). elim r [ err s ↦ (err s, u) | ok a ↦ k a u ]) w Q
      by_result (err s) u f = f
      by_result (ok a) u f = f

  pub >>-After :
      {A B : Type 0} (m : Act W A) (k : Act W B) (w : W) (Q : Result Stop B → W → Type 0)
      → Ends m w (After (λ _. k) Q)
      → Ends (m >> k) w Q
  unfolding ◌>>◌
  >>-After m k w Q h = >>=-After m (λ _. k) w Q h

  pub return_if-Ends :
      (b : Bool) (o : Outcome) (w : W) (Q : Result Stop (Unit {0}) → W → Type 0)
      → (b ≡ true → Q (err (returns o)) w)
      → (b ≡ false → Q (ok tt) w)
      → Ends (return_if b o) w Q
  unfolding return_if
  return_if-Ends true o w Q f g = f refl
  return_if-Ends false o w Q f g = g refl

  pub if-Ends :
      {A : Type 0} (b : Bool) (m k : Act W A) (w : W) (Q : Result Stop A → W → Type 0)
      → (b ≡ true → Ends m w Q)
      → (b ≡ false → Ends k w Q)
      → Ends (if b then m else k) w Q
  if-Ends true m k w Q f g = f refl
  if-Ends false m k w Q f g = g refl

  -- `if test: return outcome`, and the next statement.
  pub check-Ends :
      {A : Type 0} (b : Bool) (o : Outcome) (k : Act W A) (w : W) (Q : Result Stop A → W → Type 0)
      → (b ≡ true → Q (err (returns o)) w)
      → (b ≡ false → Ends k w Q)
      → Ends (return_if b o >> k) w Q
  check-Ends b o k w Q stop next =
      >>-After (return_if b o) k w Q (return_if-Ends b o w (After (λ _. k) Q) stop next)

  pub wait_for-Ends :
      {A : Type 0} (call : Call W A) (w : W) (Q : Result Stop A → W → Type 0)
      → Q (err raises) (call w).1
      → ((a : A) → (call w).0 ≡ some a → Q (ok a) (call w).1)
      → Ends (wait_for call) w Q
  unfolding wait_for
  wait_for-Ends {A = A} call w Q f g = by_answer (call w).0 (call w).1 f g
    where
      by_answer :
          (answer : Option A) (u : W)
          → Q (err raises) u
          → ((a : A) → answer ≡ some a → Q (ok a) u)
          → Ends (λ (v : W). elim answer [ none ↦ (err raises, u) | some a ↦ (ok a, u) ]) w Q
      by_answer none u f g = f
      by_answer (some a) u f g = g a refl

  -- `answer = await call`, and the next statement.
  pub wait-Ends :
      {A B : Type 0} (call : Call W A) (k : A → Act W B) (w : W) (Q : Result Stop B → W → Type 0)
      → Q (err raises) (call w).1
      → ((a : A) → (call w).0 ≡ some a → Ends (k a) (call w).1 Q)
      → Ends (wait_for call >>= k) w Q
  wait-Ends call k w Q raised next =
      >>=-After (wait_for call) k w Q (wait_for-Ends call w (After k Q) raised next)

  -- `await call`, and the next statement.
  pub wait_then-Ends :
      {A B : Type 0} (call : Call W A) (k : Act W B) (w : W) (Q : Result Stop B → W → Type 0)
      → Q (err raises) (call w).1
      → ((a : A) → (call w).0 ≡ some a → Ends k (call w).1 Q)
      → Ends (wait_for call >> k) w Q
  wait_then-Ends call k w Q raised next =
      >>-After (wait_for call) k w Q (wait_for-Ends call w (After (λ _. k) Q) raised next)

  pub wait_or_return-Ends :
      {A : Type 0} (o : Outcome) (call : Call W A) (w : W) (Q : Result Stop A → W → Type 0)
      → Q (err (returns o)) (call w).1
      → ((a : A) → (call w).0 ≡ some a → Q (ok a) (call w).1)
      → Ends (wait_or_return o call) w Q
  unfolding wait_or_return
  wait_or_return-Ends {A = A} o call w Q f g = by_answer (call w).0 (call w).1 f g
    where
      by_answer :
          (answer : Option A) (u : W)
          → Q (err (returns o)) u
          → ((a : A) → answer ≡ some a → Q (ok a) u)
          → Ends (λ (v : W). elim answer [ none ↦ (err (returns o), u) | some a ↦ (ok a, u) ]) w Q
      by_answer none u f g = f
      by_answer (some a) u f g = g a refl
