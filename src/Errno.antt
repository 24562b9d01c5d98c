-- ===== src/Errno.antt =====
-- Error numbers, and a result as kernel functions return it: 0 or a positive value, or `-errno`.
use tux.Base.{◌≡◌, ◌⊎◌, inl, inr, refl}

pub data Errno : Type 0 where
  eio enomem einval enospc enoent eexist enotempty erange enoattr : Errno

pub data Result {ℓ} (A : Type ℓ) : Type ℓ where
  ok : A → Result A
  err : Errno → Result A

pub Result-cases {ℓ} :
    {A : Type ℓ} (r : Result A) → ((e : Errno) × (r ≡ err e)) ⊎ ((a : A) × (r ≡ ok a))
Result-cases (ok a) = inr (a, refl)
Result-cases (err e) = inl (e, refl)
