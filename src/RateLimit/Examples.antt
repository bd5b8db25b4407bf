-- ===== src/RateLimit/Examples.antt =====
-- The theorems on the limiter at concrete inputs.
use s3mp_backend.Prelude.{true, ◌≡◌, ◌≤◌, ◌<◌, ◌↔◌, [], ◌∷◌, ◌++◌, length, if◌then◌else◌, arith}
use s3mp_backend.Prelude.Int.{pos}
use s3mp_backend.Prelude.Text.{codes}
use s3mp_backend.RateLimit.{Limiter, allow}
use s3mp_backend.RateLimit.Window.{
  IsSorted, in_window, allow_iff, allow-attempts, allow-attempts-le,
}

abbrev limiter : Limiter
limiter = record { limit = 2; window_seconds = pos 100; attempts = λ key. pos 10 ∷ (pos 150 ∷ []) }

limiter-IsSorted : IsSorted (limiter.attempts (codes "a"))
limiter-IsSorted = ((ground arith, tt), (tt, tt))

allow_iff_example :
    ((allow (codes "a") (pos 200) limiter).0 ≡ true)
    ↔ (length (in_window (codes "a") (pos 200) limiter) < 2)
allow_iff_example = allow_iff (codes "a") (pos 200) limiter limiter-IsSorted

allow-attempts_example : (allow (codes "a") (pos 200) limiter).1.attempts (codes "a") ≡ (
    if (allow (codes "a") (pos 200) limiter).0
    then in_window (codes "a") (pos 200) limiter ++ (pos 200 ∷ [])
    else in_window (codes "a") (pos 200) limiter)
allow-attempts_example = allow-attempts (codes "a") (pos 200) limiter limiter-IsSorted

allow-attempts-le_example :
    length ((allow (codes "a") (pos 200) limiter).1.attempts (codes "a")) ≤ 2
allow-attempts-le_example = allow-attempts-le (codes "a") (pos 200) limiter (ground arith)
