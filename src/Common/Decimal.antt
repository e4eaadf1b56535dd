-- ===== src/Common/Decimal.antt =====
-- Numbers as decimal texts: `to_string` of an unsigned integer and `str::parse::<u64>` of Rust's
-- standard library.
use Prim.Native.Nat.{ℕ, zero, suc, ◌+◌, ◌-◌, ◌*◌, ◌/◌, ◌%◌, ◌^◌, ◌≤◌, ◌<◌}
use mathlib.Core.Path.{◌≡◌, refl, sym, ap, ◌∙◌}
use mathlib.Core.Logic.{◌≢◌, inl, inr}
use mathlib.Core.Bool.{◌&&◌}
use mathlib.Core.Option.{Option, none, some, some-injective}
use mathlib.Core.List.{[], ◌∷◌, ◌++◌, append_assoc}
use native.Mathlib.Omega.{arith}
use bind9_sdk.Common.Tests.{ltb, ◌==◌, if◌then◌else◌, Option-cases, ltb→lt, Bool-cases}
use bind9_sdk.Common.Lists.{All, All-append}
use bind9_sdk.Common.Bytes.{Bytes, is_ascii_digit}

-- The digits of a number below 10 ^ fuel.
unfoldable pub digits : ℕ → ℕ → Bytes
digits zero n = []
digits (suc fuel) n =
    let front = digits fuel (n / 10) in
    if ltb n 10 then (48 + n) ∷ [] else front ++ ((48 + n % 10) ∷ [])

-- `to_string` of a u32 or a u64, which has 20 digits at most.
unfoldable pub to_decimal : ℕ → Bytes
to_decimal n = digits 20 n

-- One digit more, if the number still fits.
unfoldable pub push_digit : ℕ → ℕ → Option ℕ
unfolding is_ascii_digit
push_digit n c =
    if is_ascii_digit c && ltb (n * 10 + (c - 48)) (2 ^ 64) then some (n * 10 + (c - 48)) else none

unfoldable pub parse_digits : ℕ → Bytes → Option ℕ
parse_digits n [] = some n
parse_digits n (c ∷ text) = elim (push_digit n c) [ some m ↦ parse_digits m text | none ↦ none ]

-- A plus sign may stand in front of the digits.
unfoldable pub after_sign : ℕ → Bytes → Bytes
after_sign c [] = c ∷ []
after_sign c (d ∷ text) = if c == b'+' then d ∷ text else c ∷ d ∷ text

-- `str::parse::<u64>`
unfoldable pub parse_u64 : Bytes → Option ℕ
unfolding after_sign
parse_u64 [] = none
parse_u64 (c ∷ text) = parse_digits 0 (after_sign c text)

parse_digits-one : (n c : ℕ) → parse_digits n (c ∷ []) ≡ push_digit n c
unfolding parse_digits
parse_digits-one n c =
    elim (push_digit n c) as (λ o. elim o [ some m ↦ some m | none ↦ none ] ≡ o) [
      | some m ↦ refl
      | none ↦ refl
    ]

parse_digits-some :
    (n c : ℕ) (text : Bytes) {m : ℕ}
    → push_digit n c ≡ some m
    → parse_digits n (c ∷ text) ≡ parse_digits m text
unfolding parse_digits
parse_digits-some n c text e = ap (λ o. elim o [ some m ↦ parse_digits m text | none ↦ none ]) e

parse_digits-none :
    (n c : ℕ) (text : Bytes) → push_digit n c ≡ none → parse_digits n (c ∷ text) ≡ none
unfolding parse_digits
parse_digits-none n c text e = ap (λ o. elim o [ some m ↦ parse_digits m text | none ↦ none ]) e

none≢some : (m : ℕ) → ◌≢◌ {A = Option ℕ} none (some m)
none≢some m h = cc

parse_digits-snoc :
    (n : ℕ) (text : Bytes) (c : ℕ) {m : ℕ}
    → parse_digits n text ≡ some m
    → parse_digits n (text ++ (c ∷ [])) ≡ push_digit m c
unfolding parse_digits
parse_digits-snoc n [] c h = parse_digits-one n c ∙ ap (λ k. push_digit k c) (some-injective _ _ h)
parse_digits-snoc n (d ∷ text) c h = elim (Option-cases (push_digit n d)) [
  | inl e ↦ absurd (none≢some _ (sym (parse_digits-none n d text e) ∙ h))
  | inr (k, e) ↦
      parse_digits-some n d (text ++ (c ∷ [])) e
      ∙ parse_digits-snoc k text c (sym (parse_digits-some n d text e) ∙ h)
]

-- The least number that has more digits.
abbrev limit : ℕ → ℕ
limit zero = 1
limit (suc fuel) = 10 * limit fuel

push_digit-last : (n : ℕ) → n < 2 ^ 64 → push_digit (n / 10) (48 + n % 10) ≡ some n
unfolding push_digit is_ascii_digit
push_digit-last n h = ground arith

push_digit-first : (n : ℕ) → n < 10 → push_digit 0 (48 + n) ≡ some n
unfolding push_digit is_ascii_digit
push_digit-first n h = ground arith

some_digits : (fuel n : ℕ) → 10 ≤ n → n < limit (suc fuel) → 1 ≤ fuel
some_digits zero n h k = absurd (omega arith)
some_digits (suc fuel) n h k = omega arith

parse_digits-digits :
    (fuel n : ℕ) → n < limit fuel → n < 2 ^ 64 → 1 ≤ fuel → parse_digits 0 (digits fuel n) ≡ some n
unfolding digits parse_digits
parse_digits-digits zero n h small some_fuel = absurd (omega arith)
parse_digits-digits (suc fuel) n h small some_fuel = elim (Bool-cases (ltb n 10)) [
  | inl e ↦ rw e (parse_digits-one 0 (48 + n) ∙ push_digit-first n (ltb→lt _ _ e))
  | inr e ↦
      let long : 10 ≤ n = ground (arith, e) in
      let front =
        parse_digits-digits fuel (n / 10) (omega arith) (omega arith) (some_digits fuel n long h) in
      rw e
        (parse_digits-snoc 0 (digits fuel (n / 10)) (48 + n % 10) front ∙ push_digit-last n small)
]

digits-ascii : (fuel n : ℕ) → All (λ b. b ≤ 0x7f) (digits fuel n)
unfolding digits
digits-ascii zero n = tt
digits-ascii (suc fuel) n = elim (Bool-cases (ltb n 10)) [
  | inl e ↦ rw e (omega (arith, ltb→lt _ _ e), tt)
  | inr e ↦ rw e (
      All-append (λ b. b ≤ 0x7f) (digits fuel (n / 10)) _ (digits-ascii fuel (n / 10))
        (omega arith, tt))
]

pub to_decimal-ascii : (n : ℕ) → All (λ b. b ≤ 0x7f) (to_decimal n)
unfolding to_decimal
to_decimal-ascii n = digits-ascii 20 n

-- The first octet of a decimal is a digit, and no sign.
digits_start :
    (fuel n c : ℕ) (rest : Bytes)
    → 48 ≤ c
    → (c' : ℕ) × (text : Bytes) × (digits fuel n ++ (c ∷ rest) ≡ c' ∷ text) × (48 ≤ c')
unfolding digits
digits_start zero n c rest h = (c, rest, refl, h)
digits_start (suc fuel) n c rest h = elim (Bool-cases (ltb n 10)) [
  | inl e ↦ (48 + n, c ∷ rest, rw e refl, omega arith)
  | inr e ↦
      let last = 48 + n % 10 in
      let (c', text, e', h') = digits_start fuel (n / 10) last (c ∷ rest) (omega arith) in
      (c', text, rw e (append_assoc (digits fuel (n / 10)) (last ∷ []) (c ∷ rest) ∙ e'), h')
]

to_decimal_start : (n : ℕ) → (c : ℕ) × (text : Bytes) × (to_decimal n ≡ c ∷ text) × (48 ≤ c)
unfolding to_decimal digits
to_decimal_start n = elim (Bool-cases (ltb n 10)) [
  | inl e ↦ (48 + n, [], rw e refl, omega arith)
  | inr e ↦
      let (c, text, e', h) = digits_start 19 (n / 10) (48 + n % 10) [] (omega arith) in
      (c, text, rw e e', h)
]

after_sign-digit : (c : ℕ) (text : Bytes) → 48 ≤ c → after_sign c text ≡ c ∷ text
unfolding after_sign
after_sign-digit c [] h = refl
after_sign-digit c (d ∷ text) h = ground arith

-- A number of 64 bits is read back from its decimal.
pub parse_u64-to_decimal : (n : ℕ) → n < 2 ^ 64 → parse_u64 (to_decimal n) ≡ some n
unfolding parse_u64
parse_u64-to_decimal n h =
    let (c, text, e, start) = to_decimal_start n in
    let read : parse_digits 0 (to_decimal n) ≡ some n =
      unfold to_decimal in parse_digits-digits 20 n (omega arith) h (omega arith) in
    rw e (ap (parse_digits 0) (after_sign-digit c text start ∙ sym e) ∙ read)

-- Two numbers with the same decimal are the same.
pub to_decimal-injective : (m n : ℕ) → m < 2 ^ 64 → n < 2 ^ 64 → to_decimal m ≡ to_decimal n → m ≡ n
to_decimal-injective m n hm hn e =
    some-injective _ _
      (sym (parse_u64-to_decimal m hm) ∙ ap parse_u64 e ∙ parse_u64-to_decimal n hn)
