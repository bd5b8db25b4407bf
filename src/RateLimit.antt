-- ===== src/RateLimit.antt =====
-- `InMemoryLoginRateLimiter` of identity/application/security.py, under src/s3mp/: a count of the
-- attempts for a key in a window of time. An instant is a whole number of microseconds where the
-- source has a float of seconds.
pub mod Window
mod Examples
use s3mp_backend.Prelude.{ℕ, Bool, true, false, List, [], ◌∷◌, ◌++◌, length, leb, if◌then◌else◌}
use s3mp_backend.Prelude.Int.{ℤ, ◌-ℤ◌, leb_ℤ}
use s3mp_backend.Prelude.Text.{Text, text_eq}

pub record Limiter : Type 0 where
  pub limit : ℕ
  pub window_seconds : ℤ
  pub attempts : Text → List ℤ

-- `while attempts and attempts[0] <= cutoff: attempts.popleft()`
unfoldable pub drop_expired : ℤ → List ℤ → List ℤ
drop_expired cutoff [] = []
drop_expired cutoff (a ∷ attempts) =
    let rest = drop_expired cutoff attempts in if leb_ℤ a cutoff then rest else a ∷ attempts

-- `self._attempts[key]` changed in place.
abbrev pub set_attempts : Text → List ℤ → Limiter → Limiter
set_attempts key new l = record l { attempts = λ k. if text_eq k key then new else l.attempts k }

unfoldable pub allow : Text → ℤ → Limiter → Bool × Limiter
unfolding drop_expired
allow key current l =
    let recent = drop_expired (current -ℤ l.window_seconds) (l.attempts key) in
    if leb l.limit (length recent)
    then (false, set_attempts key recent l)
    else (true, set_attempts key (recent ++ (current ∷ [])) l)
