-- ===== src/RateLimit/Window.antt =====
-- On `InMemoryLoginRateLimiter` of identity/application/security.py: the attempts in the window.
use s3mp_backend.Prelude.{
  true, false, ◌≡◌, ◌≤◌, ◌<◌, refl, sym, ap, ◌↔◌, List, [], ◌∷◌, ◌++◌, length, length-append, leb,
  filter, All, inl, inr, arith, Bool-cases, if◌then◌else◌,
}
use s3mp_backend.Prelude.Int.{ℤ, ◌≤ℤ◌, ◌-ℤ◌, leb_ℤ, ltb_ℤ}
use s3mp_backend.Prelude.Text.{Text, text_eq_refl}
use s3mp_backend.RateLimit.{Limiter, drop_expired, allow}

-- Instants in the order in which they were recorded.
abbrev pub IsSorted : List ℤ → Type 0
IsSorted [] = Unit
IsSorted (a ∷ xs) = All (λ b. a ≤ℤ b) xs × IsSorted xs

-- The attempts after an instant.
abbrev pub since : ℤ → List ℤ → List ℤ
since cutoff xs = filter (λ a. ltb_ℤ cutoff a) xs

All-since :
    (cutoff a : ℤ) (xs : List ℤ)
    → ltb_ℤ cutoff a ≡ true
    → All (λ b. a ≤ℤ b) xs
    → since cutoff xs ≡ xs
All-since cutoff a [] h k = refl
All-since cutoff a (b ∷ xs) h (first, rest) =
    let later : ltb_ℤ cutoff b ≡ true = ground arith in
    rw later (ap (λ (ys : List ℤ). b ∷ ys) (All-since cutoff a xs h rest))

drop_expired-since :
    (cutoff : ℤ) (xs : List ℤ) → IsSorted xs → drop_expired cutoff xs ≡ since cutoff xs
unfolding drop_expired
drop_expired-since cutoff [] h = refl
drop_expired-since cutoff (a ∷ xs) (first, rest) = elim (Bool-cases (leb_ℤ a cutoff)) [
  | inl e ↦
      let old : ltb_ℤ cutoff a ≡ false = ground arith in
      rw (e, drop_expired) (rw old (drop_expired-since cutoff xs rest))
  | inr e ↦
      let recent : ltb_ℤ cutoff a ≡ true = ground arith in
      rw (e, drop_expired)
        (rw recent (ap (λ (ys : List ℤ). a ∷ ys) (sym (All-since cutoff a xs recent first))))
]

length-drop_expired : (cutoff : ℤ) (xs : List ℤ) → length (drop_expired cutoff xs) ≤ length xs
unfolding drop_expired
length-drop_expired cutoff [] = ground arith
length-drop_expired cutoff (a ∷ xs) = elim (Bool-cases (leb_ℤ a cutoff)) [
  | inl e ↦ rw (e, drop_expired) (omega (arith, length-drop_expired cutoff xs))
  | inr e ↦ rw (e, drop_expired) (omega arith)
]

module _ (key : Text) (current : ℤ) (l : Limiter) where
  -- The attempts for the key that are in the window.
  abbrev pub in_window : List ℤ
  in_window = since (current -ℤ l.window_seconds) (l.attempts key)

  -- Where the attempts for the key are in the order of time, one more is allowed exactly when fewer
  -- than the limit are in the window.
  pub allow_iff :
      IsSorted (l.attempts key) → ((allow key current l).0 ≡ true) ↔ (length in_window < l.limit)
  unfolding allow
  allow_iff sorted =
      let e = drop_expired-since (current -ℤ l.window_seconds) (l.attempts key) sorted in
      elim (Bool-cases
        (leb l.limit (length (drop_expired (current -ℤ l.window_seconds) (l.attempts key))))) [
          | inl g ↦
              let full = rw e at g in
              (λ h. absurd (cc (rw (g, allow) at h)), λ h. absurd (ground arith))
          | inr g ↦ let room = rw e at g in (λ h. ground arith, λ h. rw (g, allow) refl)
        ]

  -- Where the attempts for the key are in the order of time, those recorded after the call are the
  -- ones in the window, and this one after them if it is allowed.
  pub allow-attempts :
      IsSorted (l.attempts key)
      → (allow key current l).1.attempts key
        ≡ (if (allow key current l).0 then in_window ++ (current ∷ []) else in_window)
  unfolding allow
  allow-attempts sorted =
      let e = drop_expired-since (current -ℤ l.window_seconds) (l.attempts key) sorted in
      elim (Bool-cases
        (leb l.limit (length (drop_expired (current -ℤ l.window_seconds) (l.attempts key))))) [
          | inl g ↦ rw (g, allow) (rw (text_eq_refl key) e)
          | inr g ↦
              rw (g, allow) (rw (text_eq_refl key) (ap (λ (ys : List ℤ). ys ++ (current ∷ [])) e))
        ]

  -- No call, allowed or not, leaves more attempts than the limit for the key, if there were none
  -- more before.
  pub allow-attempts-le :
      length (l.attempts key) ≤ l.limit → length ((allow key current l).1.attempts key) ≤ l.limit
  unfolding allow
  allow-attempts-le h =
      elim (Bool-cases
        (leb l.limit (length (drop_expired (current -ℤ l.window_seconds) (l.attempts key))))) [
          | inl g ↦
              rw (g, allow)
                (rw (text_eq_refl key) (
                  omega
                    (arith, h, length-drop_expired (current -ℤ l.window_seconds) (l.attempts key))))
          | inr g ↦
              let room : length (drop_expired (current -ℤ l.window_seconds) (l.attempts key))
                  < l.limit =
                ground arith in
              rw (g, allow)
                (rw (text_eq_refl key) (
                  omega (
                    arith,
                    room,
                    length-append (drop_expired (current -ℤ l.window_seconds) (l.attempts key))
                        (current ∷ []),
                  )))
        ]
