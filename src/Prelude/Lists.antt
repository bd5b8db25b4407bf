-- ===== src/Prelude/Lists.antt =====
-- Lists: measured by native numbers, filtered and searched by Boolean tests.
use Prim.Native.Nat.{ℕ, zero, suc, ◌+◌}
use mathlib.Core.Path.{◌≡◌, refl, sym, subst}
use mathlib.Core.Logic.{◌⊎◌, inl, inr}
use mathlib.Core.Option.{Option, none, some}
use mathlib.Core.Bool.{Bool, true, false, ◌&&◌, ◌||◌}
use mathlib.Core.List.{List, [], ◌∷◌, ◌++◌}
use native.Mathlib.Omega.{arith}
use s3mp_backend.Prelude.Tests.{if◌then◌else◌, Bool-cases}

module _ {ℓ} {A : Type ℓ} where
  -- `len(xs)`
  abbrev pub length : List A → ℕ
  length [] = 0
  length (x ∷ xs) = suc (length xs)

  -- `any(p(x) for x in xs)`
  abbrev pub any : (A → Bool) → List A → Bool
  any p [] = false
  any p (x ∷ xs) = p x || any p xs

  -- `all(p(x) for x in xs)`
  abbrev pub all : (A → Bool) → List A → Bool
  all p [] = true
  all p (x ∷ xs) = p x && all p xs

  -- `[x for x in xs if p(x)]`
  abbrev pub filter : (A → Bool) → List A → List A
  filter p [] = []
  filter p (x ∷ xs) = if p x then x ∷ filter p xs else filter p xs

-- Membership, by recursion.
abbrev pub In : {A : Type 0} → A → List A → Type 0
In a [] = ⊥
In a (x ∷ xs) = (x ≡ a) ⊎ In a xs

module _ {ℓ} {A : Type ℓ} where
  pub any-append : (p : A → Bool) (xs ys : List A) → any p (xs ++ ys) ≡ (any p xs || any p ys)
  any-append p [] ys = refl
  any-append p (x ∷ xs) ys = ground (arith, any-append p xs ys)

pub any→In :
    {A : Type 0} (p : A → Bool) (xs : List A) → any p xs ≡ true → (a : A) × In a xs × (p a ≡ true)
any→In p [] h = absurd (cc)
any→In p (x ∷ xs) h = elim (Bool-cases (p x)) [
  | inl e ↦ (x, inl refl, e)
  | inr e ↦ let (a, m, q) = any→In p xs (ground arith) in (a, inr m, q)
]

pub In→any :
    {A : Type 0} (p : A → Bool) (a : A) (xs : List A) → In a xs → p a ≡ true → any p xs ≡ true
In→any p a [] m h = absurd m
In→any p a (x ∷ xs) (inl e) h = rw e (rw h)
In→any p a (x ∷ xs) (inr m) h = ground (arith, In→any p a xs m h)

pub In→filter :
    {A : Type 0} (p : A → Bool) (a : A) (xs : List A) → In a xs → p a ≡ true → In a (filter p xs)
In→filter p a [] m h = absurd m
In→filter p a (x ∷ xs) (inl e) h = rw (e, h) (inl refl)
In→filter p a (x ∷ xs) (inr m) h = elim (Bool-cases (p x)) [
  | inl e ↦ rw e (inr (In→filter p a xs m h))
  | inr e ↦ rw e (In→filter p a xs m h)
]

pub filter→In :
    {A : Type 0} (p : A → Bool) (a : A) (xs : List A) → In a (filter p xs) → In a xs × (p a ≡ true)
filter→In p a [] m = absurd m
filter→In p a (x ∷ xs) m = elim (Bool-cases (p x)) [
  | inl e ↦ elim (rw e at m) [
    | inl q ↦ (inl q, rw (← q) e)
    | inr q ↦ let (i, h) = filter→In p a xs q in (inr i, h)
  ]
  | inr e ↦ let (i, h) = filter→In p a xs (rw e at m) in (inr i, h)
]

pub all→In :
    {A : Type 0} (p : A → Bool) (a : A) (xs : List A) → all p xs ≡ true → In a xs → p a ≡ true
all→In p a [] h m = absurd m
all→In p a (x ∷ xs) h (inl e) = rw (← e) (ground arith)
all→In p a (x ∷ xs) h (inr m) = all→In p a xs (ground arith) m

module _ {A : Type 0} where
  -- The first row of a query, or `None`.
  abbrev pub find : (A → Bool) → List A → Option A
  find p [] = none
  find p (x ∷ xs) = if p x then some x else find p xs

  -- That row changed in place.
  abbrev pub update_first : (A → Bool) → (A → A) → List A → List A
  update_first p f [] = []
  update_first p f (x ∷ xs) = if p x then f x ∷ xs else x ∷ update_first p f xs

  -- Every row of a query changed in place.
  abbrev pub map_where : (A → Bool) → (A → A) → List A → List A
  map_where p f [] = []
  map_where p f (x ∷ xs) = (if p x then f x else x) ∷ map_where p f xs

  pub find-In : (p : A → Bool) (a : A) (xs : List A) → find p xs ≡ some a → In a xs × (p a ≡ true)
  find-In p a [] h = absurd (cc)
  find-In p a (x ∷ xs) h = elim (Bool-cases (p x)) [
    | inl e ↦ let q : x ≡ a = ground arith in (inl q, rw (← q) e)
    | inr e ↦ let (m, q) = find-In p a xs (ground arith) in (inr m, q)
  ]

-- Every element satisfies `P`.
abbrev pub All {ℓ} : {A : Type 0} → (A → Type ℓ) → List A → Type ℓ
All P [] = Unit
All P (x ∷ xs) = P x × All P xs

pub All-In : {A : Type 0} (P : A → Type 0) (a : A) (xs : List A) → All P xs → In a xs → P a
All-In P a [] h m = absurd m
All-In P a (x ∷ xs) h (inl e) = subst P e h.0
All-In P a (x ∷ xs) h (inr m) = All-In P a xs h.1 m

pub All-map :
    {A : Type 0} (P Q : A → Type 0) (xs : List A) → ((a : A) → P a → Q a) → All P xs → All Q xs
All-map P Q [] f h = tt
All-map P Q (x ∷ xs) f h = (f x h.0, All-map P Q xs f h.1)

pub In-All : {A : Type 0} (P : A → Type 0) (xs : List A) → ((a : A) → In a xs → P a) → All P xs
In-All P [] f = tt
In-All P (x ∷ xs) f = (f x (inl refl), In-All P xs (λ a m. f a (inr m)))

choose-elim :
    {A : Type 0} (Q : A → Type 0) (b : Bool) (x y : A)
    → (b ≡ true → Q x)
    → (b ≡ false → Q y)
    → Q (if b then x else y)
choose-elim Q true x y f g = f refl
choose-elim Q false x y f g = g refl

-- A row of the changed table is a row of the old one, changed if the query selects it.
pub In-map_where :
    {A : Type 0} (p : A → Bool) (f : A → A) (a : A) (xs : List A)
    → In a (map_where p f xs)
    → (x : A) × In x xs × ((if p x then f x else x) ≡ a)
In-map_where p f a [] m = absurd m
In-map_where p f a (x ∷ xs) (inl e) = (x, inl refl, e)
In-map_where p f a (x ∷ xs) (inr m) = let (y, i, e) = In-map_where p f a xs m in (y, inr i, e)

-- A table changed by a query: one case for the rows that it selects, one for the others.
pub All-map_where :
    {A : Type 0} (P Q : A → Type 0) (p : A → Bool) (f : A → A) (xs : List A)
    → ((x : A) → In x xs → p x ≡ true → P x → Q (f x))
    → ((x : A) → In x xs → p x ≡ false → P x → Q x)
    → All P xs
    → All Q (map_where p f xs)
All-map_where P Q p f [] hit miss h = tt
All-map_where P Q p f (x ∷ xs) hit miss h = (
  choose-elim Q (p x) (f x) x (λ e. hit x (inl refl) e h.0) (λ e. miss x (inl refl) e h.0),
  All-map_where P Q p f xs (λ y m. hit y (inr m)) (λ y m. miss y (inr m)) h.1,
)

module _ {ℓ} {A : Type ℓ} where
  abbrev pub take : ℕ → List A → List A
  take zero xs = []
  take (suc n) [] = []
  take (suc n) (x ∷ xs) = x ∷ take n xs

  -- `xs[n:]`
  abbrev pub drop : ℕ → List A → List A
  drop zero xs = xs
  drop (suc n) [] = []
  drop (suc n) (x ∷ xs) = drop n xs

  pub take-append : (xs ys : List A) → take (length xs) (xs ++ ys) ≡ xs
  take-append [] ys = refl
  take-append (x ∷ xs) ys = rw (take-append xs ys)

  pub drop-append : (xs ys : List A) → drop (length xs) (xs ++ ys) ≡ ys
  drop-append [] ys = refl
  drop-append (x ∷ xs) ys = drop-append xs ys

  pub length-append : (xs ys : List A) → length (xs ++ ys) ≡ length xs + length ys
  length-append [] ys = omega arith
  length-append (x ∷ xs) ys = omega (arith, length-append xs ys)

  pub append_inj :
      (xs ys r q : List A) → length xs ≡ length ys → xs ++ r ≡ ys ++ q → (xs ≡ ys) × (r ≡ q)
  append_inj [] [] r q e h = (refl, h)
  append_inj [] (y ∷ ys) r q e h = absurd (omega arith)
  append_inj (x ∷ xs) [] r q e h = absurd (omega arith)
  append_inj (x ∷ xs) (y ∷ ys) r q e h =
      let (a, b) = append_inj xs ys r q (omega arith) (cc) in (cc (a), b)

-- Two tables with the same number of rows, related row by row.
abbrev pub Pointwise : {A : Type 0} → (A → A → Type 0) → List A → List A → Type 0
Pointwise R [] [] = Unit
Pointwise R [] (_ ∷ _) = ⊥
Pointwise R (_ ∷ _) [] = ⊥
Pointwise R (x ∷ xs) (y ∷ ys) = R x y × Pointwise R xs ys

pub Pointwise-In :
    {A : Type 0} (R : A → A → Type 0) (a : A) (xs ys : List A)
    → Pointwise R xs ys
    → In a xs
    → (b : A) × In b ys × R a b
Pointwise-In R a [] ys h m = absurd m
Pointwise-In R a (x ∷ xs) [] h m = absurd h
Pointwise-In R a (x ∷ xs) (y ∷ ys) (r, h) (inl e) = (y, inl refl, subst (λ z. R z y) e r)
Pointwise-In R a (x ∷ xs) (y ∷ ys) (r, h) (inr m) =
    let (b, i, q) = Pointwise-In R a xs ys h m in (b, inr i, q)

module _ {A : Type 0} (R : A → A → Type 0) (same : (x : A) → R x x) where
  pub Pointwise-refl : (xs : List A) → Pointwise R xs xs
  Pointwise-refl [] = tt
  Pointwise-refl (x ∷ xs) = (same x, Pointwise-refl xs)

  pub Pointwise-update_first :
      (p : A → Bool) (f : A → A) (r : A) (xs : List A)
      → find p xs ≡ some r
      → R r (f r)
      → Pointwise R xs (update_first p f xs)
  Pointwise-update_first p f r [] h k = tt
  Pointwise-update_first p f r (x ∷ xs) h k = elim (Bool-cases (p x)) [
    | inl e ↦
        let q : x ≡ r = cc (rw e at h) in
        rw e (subst (λ (y : A). R y (f y)) {x = r} {y = x} (sym q) k, Pointwise-refl xs)
    | inr e ↦ rw e (same x, Pointwise-update_first p f r xs (rw e at h) k)
  ]

module _ {A : Type 0} where
  -- Two changes of the row that a query selects make one change, if the first leaves it selected.
  pub update_first-update_first :
      (p : A → Bool) (f g : A → A) (xs : List A)
      → ((x : A) → p x ≡ true → p (f x) ≡ true)
      → update_first p g (update_first p f xs) ≡ update_first p (λ x. g (f x)) xs
  update_first-update_first p f g [] h = refl
  update_first-update_first p f g (x ∷ xs) h = elim (Bool-cases (p x)) [
    | inl e ↦ rw e (rw (h x e))
    | inr e ↦ rw e (rw e (rw (update_first-update_first p f g xs h)))
  ]

  pub find-update_first :
      (p : A → Bool) (f : A → A) (r : A) (xs : List A)
      → find p xs ≡ some r
      → p (f r) ≡ true
      → find p (update_first p f xs) ≡ some (f r)
  find-update_first p f r [] h k = absurd (cc)
  find-update_first p f r (x ∷ xs) h k = elim (Bool-cases (p x)) [
    | inl e ↦ let q : x ≡ r = cc (rw e at h) in rw (e, q) (rw k)
    | inr e ↦ rw e (rw e (find-update_first p f r xs (rw e at h) k))
  ]
