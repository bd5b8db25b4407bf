-- ===== src/Ledger/Examples.antt =====
-- The theorems on the quota ledger at concrete inputs.
use s3mp_backend.Prelude.{
  ℕ, Bool, true, false, ◌≡◌, refl, sym, ap, ◌∙◌, Option, none, some, List, [], ◌∷◌, ok, inl, inr,
  All, arith,
}
use s3mp_backend.Prelude.Int.{ℤ, pos, int_laws}
use s3mp_backend.Ledger.{
  Quota, Reservation, Books, active, reserved, application_reserved, reserve_quota, settle_quota,
  release_quota,
}
use s3mp_backend.Ledger.Balance.{
  IsBalanced, reserve-IsBalanced, settle-IsBalanced, release-IsBalanced,
}
use s3mp_backend.Ledger.Limits.{
  Fits, IsNonneg, IsKeyed, UsesWithin, reserve-Fits, settle-UsesWithin,
}
use s3mp_backend.Ledger.Once.{IsClosed, settle_once, release_once}

abbrev tenant_quota : Quota
tenant_quota = record {
  id = 1;
  tenant_id = 8;
  application_id = none;
  storage_space_id = none;
  status = active;
  limit_bytes = pos 1000;
  used_bytes = pos 300;
  reserved_bytes = pos 0;
}

abbrev application_quota : Quota
application_quota = record tenant_quota {
  id = 2;
  application_id = some 5;
  limit_bytes = pos 400;
  used_bytes = pos 100;
}

abbrev pub books : Books
books = record {
  spaces = record { id = 3; tenant_id = 8; application_id = some 5 } ∷ [];
  quotas = tenant_quota ∷ (application_quota ∷ []);
  reservations = [];
}

abbrev reservation : Reservation
reservation = record {
  id = 9;
  tenant_id = 8;
  quota_id = 2;
  application_quota_id = some 2;
  tenant_quota_id = some 1;
  allocation_mode = application_reserved;
  requested_bytes = pos 50;
  actual_bytes = none;
  status = reserved;
  settled_at = none;
}

abbrev pub granted : Books
granted = record books {
  quotas =
      record tenant_quota { reserved_bytes = pos 50 }
      ∷ (record application_quota { reserved_bytes = pos 50 } ∷ []);
  reservations = reservation ∷ [];
}

reserved_books : reserve_quota 9 8 3 (pos 50) books ≡ ok (9, granted)
unfolding reserve_quota s3mp_backend.Prelude.Int.◌+ℤ◌
reserved_books = refl

pub books-IsBalanced : IsBalanced books
books-IsBalanced = (refl, (refl, tt))

pub granted-IsBalanced : IsBalanced granted
unfolding s3mp_backend.Prelude.Int.◌+ℤ◌
granted-IsBalanced = (refl, (refl, tt))

reserve-IsBalanced_example : IsBalanced granted
reserve-IsBalanced_example =
    reserve-IsBalanced 9 8 3 9 (pos 50) books granted reserved_books books-IsBalanced

settle-IsBalanced_example : IsBalanced (settle_quota 8 (some 9) (pos 40) 77 granted).1
settle-IsBalanced_example = settle-IsBalanced 8 (some 9) 77 granted (pos 40) granted-IsBalanced

release-IsBalanced_example : IsBalanced (release_quota 8 (some 9) 77 granted)
release-IsBalanced_example = release-IsBalanced 8 (some 9) 77 granted granted-IsBalanced

books-IsKeyed : IsKeyed books.quotas
books-IsKeyed q q' (inl a) (inl b) e = sym a ∙ b
books-IsKeyed q q' (inl a) (inr (inl b)) e =
    let k : ◌≡◌ {A = ℕ} 1 2 = ap (λ (x : Quota). x.id) a ∙ e ∙ sym (ap (λ (x : Quota). x.id) b) in
    absurd (omega (arith, k))
books-IsKeyed q q' (inr (inl a)) (inl b) e =
    let k : ◌≡◌ {A = ℕ} 2 1 = ap (λ (x : Quota). x.id) a ∙ e ∙ sym (ap (λ (x : Quota). x.id) b) in
    absurd (omega (arith, k))
books-IsKeyed q q' (inr (inl a)) (inr (inl b)) e = sym a ∙ b
books-IsKeyed q q' (inl a) (inr (inr b)) e = absurd b
books-IsKeyed q q' (inr (inl a)) (inr (inr b)) e = absurd b
books-IsKeyed q q' (inr (inr a)) m' e = absurd a

books-Fits : All Fits books.quotas
books-Fits = (omega int_laws, (omega int_laws, tt))

books-IsNonneg : All IsNonneg books.quotas
books-IsNonneg =
    ((ground arith, ground arith, ground arith), ((ground arith, ground arith, ground arith), tt))

reserve-Fits_example : All Fits granted.quotas
reserve-Fits_example =
    reserve-Fits 9 8 3 9 (pos 50) books granted books-IsKeyed books-Fits books-IsNonneg
      reserved_books

granted-UsesWithin : All UsesWithin granted.quotas
granted-UsesWithin = (ground arith, (ground arith, tt))

settle-UsesWithin_example : All UsesWithin (settle_quota 8 (some 9) (pos 40) 77 granted).1.quotas
settle-UsesWithin_example = settle-UsesWithin 8 (some 9) (pos 40) 77 granted granted-UsesWithin

settled_granted :
    settle_quota 8 (some 9) (pos 40) 77 granted
    ≡ (true, (settle_quota 8 (some 9) (pos 40) 77 granted).1)
unfolding settle_quota s3mp_backend.Prelude.Int.◌+ℤ◌
settled_granted = refl

settle_once_example : IsClosed 8 (some 9) (settle_quota 8 (some 9) (pos 40) 77 granted).1
settle_once_example =
    settle_once 8 (some 9) 77 granted (pos 40) (settle_quota 8 (some 9) (pos 40) 77 granted).1
      settled_granted

release_once_example : IsClosed 8 (some 9) (release_quota 8 (some 9) 77 granted)
release_once_example = release_once 8 (some 9) 77 granted
