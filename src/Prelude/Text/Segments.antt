-- ===== src/Prelude/Text/Segments.antt =====
-- `s.split(sep)` and `sep.join(parts)` for a separator of one character.
use Prim.Native.Nat.{ℕ}
use mathlib.Core.Path.{◌≡◌, refl, sym}
use mathlib.Core.Logic.{◌≢◌}
use mathlib.Core.Bool.{Bool, false}
use mathlib.Core.List.{List, [], ◌∷◌, ◌++◌, append_assoc}
use native.Mathlib.Omega.{arith}
use s3mp_backend.Prelude.Tests.{◌==◌, if◌then◌else◌}
use s3mp_backend.Prelude.Lists.{any}

-- `c` put in front of the first segment.
abbrev push_front : ℕ → List (List ℕ) → List (List ℕ)
push_front c [] = (c ∷ []) ∷ []
push_front c (s ∷ ss) = (c ∷ s) ∷ ss

-- `s.split(sep)`; it is never empty.
unfoldable pub split : ℕ → List ℕ → List (List ℕ)
split sep [] = [] ∷ []
split sep (c ∷ s) = let rest = split sep s in if c == sep then [] ∷ rest else push_front c rest

-- `sep.join(parts)`
unfoldable pub join : ℕ → List (List ℕ) → List ℕ
join sep [] = []
join sep (s ∷ []) = s
join sep (s ∷ (t ∷ ts)) = s ++ (sep ∷ join sep (t ∷ ts))

-- `sep in s`, for a character.
abbrev pub has : ℕ → List ℕ → Bool
has sep s = any (λ c. c == sep) s

module _ (sep : ℕ) where
  pub split-ne-nil : (s : List ℕ) → split sep s ≢ []
  unfolding split
  split-ne-nil [] h = cc
  split-ne-nil (c ∷ s) h = ground (arith, split-ne-nil s)

  push_front-append :
      (c : ℕ) (ss ts : List (List ℕ)) → ss ≢ [] → push_front c (ss ++ ts) ≡ push_front c ss ++ ts
  push_front-append c [] ts h = absurd (h refl)
  push_front-append c (s ∷ ss) ts h = refl

  -- A separator ends a run of segments.
  pub split-append : (s t : List ℕ) → split sep (s ++ (sep ∷ t)) ≡ split sep s ++ split sep t
  unfolding split
  split-append [] t = ground arith
  split-append (c ∷ s) t =
      rw (split-append s t)
        (ground (arith, split-ne-nil s, push_front-append c (split sep s) (split sep t)))

  join-push_front :
      (c : ℕ) (ss : List (List ℕ)) → ss ≢ [] → join sep (push_front c ss) ≡ c ∷ join sep ss
  unfolding join
  join-push_front c [] h = absurd (h refl)
  join-push_front c (s ∷ []) h = refl
  join-push_front c (s ∷ (t ∷ ts)) h = refl

  join-cons_nil : (ss : List (List ℕ)) → ss ≢ [] → join sep ([] ∷ ss) ≡ sep ∷ join sep ss
  unfolding join
  join-cons_nil [] h = absurd (h refl)
  join-cons_nil (t ∷ ts) h = refl

  -- Joining the segments of a text gives the text back.
  pub join-split : (s : List ℕ) → join sep (split sep s) ≡ s
  unfolding split
  join-split [] = unfold join in refl
  join-split (c ∷ s) = ground (
    arith,
    split-ne-nil s,
    join-split s,
    join-push_front c (split sep s),
    join-cons_nil (split sep s),
  )

  pub split-single : (s : List ℕ) → has sep s ≡ false → split sep s ≡ s ∷ []
  unfolding split
  split-single [] h = refl
  split-single (c ∷ s) h = ground (arith, split-single s)

  pub join-append :
      (ss ts : List (List ℕ))
      → ss ≢ []
      → ts ≢ []
      → join sep (ss ++ ts) ≡ join sep ss ++ (sep ∷ join sep ts)
  unfolding join
  join-append [] ts h k = absurd (h refl)
  join-append (s ∷ []) [] h k = absurd (k refl)
  join-append (s ∷ []) (t ∷ ts) h k = refl
  join-append (s ∷ (u ∷ ss)) ts h k =
      rw (join-append (u ∷ ss) ts (λ e. cc) k)
        (sym (append_assoc s (sep ∷ join sep (u ∷ ss)) (sep ∷ join sep ts)))
