-- ===== src/Core/Record/Order.antt =====
-- The order of serials (RFC 1982) that `serial_cmp` decides.
use bind9_sdk.Common.{ℕ, ◌≤◌, ◌<◌, ◌^◌, ◌≡◌, ◌↔◌, true, none, some, arith}
use bind9_sdk.Core.Record.{less, equal, greater, wrapping_sub, serial_cmp, serial_gt, serial_add}

-- For serials below 2 ^ 32, `a` is greater than `b` exactly when it is `b` plus some number from 1 to
-- 2 ^ 31 - 1, wrapping.
pub serial_cmp-greater :
    (a b : ℕ)
    → a < 2 ^ 32
    → b < 2 ^ 32
    → (serial_cmp a b ≡ some greater) ↔ ((n : ℕ) × (1 ≤ n) × (n < 2 ^ 31) × (a ≡ serial_add b n))
unfolding serial_cmp serial_add
serial_cmp-greater a b ha hb = (
  λ h. (wrapping_sub a b, ground arith, ground arith, ground arith),
  λ (n, lo, hi, e). ground arith,
)

-- For serials below 2 ^ 32: one is greater than the other exactly when the other is less, undefined
-- against it exactly when the other is, and equal exactly when they are the same.
serial_cmp-swap :
    (a b : ℕ)
    → a < 2 ^ 32
    → b < 2 ^ 32
    → ((serial_cmp a b ≡ some greater) ↔ (serial_cmp b a ≡ some less))
      × ((serial_cmp a b ≡ none) ↔ (serial_cmp b a ≡ none))
      × ((serial_cmp a b ≡ some equal) ↔ (a ≡ b))
unfolding serial_cmp
serial_cmp-swap a b ha hb = ground arith

pub serial_add-greater :
    (s n : ℕ) → s < 2 ^ 32 → 1 ≤ n → n < 2 ^ 31 → serial_cmp (serial_add s n) s ≡ some greater
unfolding serial_cmp serial_add
serial_add-greater s n hs lo hi = ground arith

pub serial_gt-greater : (a b : ℕ) → serial_gt a b ≡ true → serial_cmp a b ≡ some greater
unfolding serial_gt serial_cmp
serial_gt-greater a b h = ground arith

pub serial_cmp_self : (s : ℕ) → serial_cmp s s ≡ some equal
unfolding serial_cmp
serial_cmp_self s = ground arith
