-- ===== src/Net/Rndc/Padding.antt =====
-- The padding of the `_auth.hsha` value: `verify_isccc_hmac` and `sign_rndc_body` in
-- crates/bind9-sdk-net/src/rndc/mod.rs.
use bind9_sdk.Common.{
  ℕ, zero, suc, ◌-◌, ◌≤◌, ◌≡◌, refl, ap, false, [], ◌∷◌, ◌++◌, arith, ◌==◌, length, take, drop, All,
  Bool-cases, inl, inr,
}
use bind9_sdk.Common.Bytes.{Bytes}
use bind9_sdk.Net.Rndc.Session.{zeros, until_nul, any_nonzero, resize}

abbrev pub HasNoNul : Bytes → Type 0
HasNoNul = All λ b. 1 ≤ b

pub until_nul-HasNoNul : (bytes : Bytes) → HasNoNul (until_nul bytes)
unfolding until_nul
until_nul-HasNoNul [] = tt
until_nul-HasNoNul (b ∷ bytes) = elim (Bool-cases (b == 0)) [
  | inl e ↦ rw e tt
  | inr e ↦ rw e (ground (arith, e), until_nul-HasNoNul bytes)
]

pub until_nul-drop :
    (bytes : Bytes) → until_nul bytes ++ drop (length (until_nul bytes)) bytes ≡ bytes
unfolding until_nul
until_nul-drop [] = refl
until_nul-drop (b ∷ bytes) = elim (Bool-cases (b == 0)) [
  | inl e ↦ rw e refl
  | inr e ↦ rw e (ap (λ rest. b ∷ rest) (until_nul-drop bytes))
]

pub any_nonzero-zeros : (bytes : Bytes) → any_nonzero bytes ≡ false → bytes ≡ zeros (length bytes)
unfolding any_nonzero
any_nonzero-zeros [] h = refl
any_nonzero-zeros (b ∷ bytes) h = ground (arith, any_nonzero-zeros bytes)

pub until_nul-append : (text : Bytes) (n : ℕ) → HasNoNul text → until_nul (text ++ zeros n) ≡ text
unfolding until_nul
until_nul-append [] zero h = refl
until_nul-append [] (suc n) h = refl
until_nul-append (b ∷ text) n h = ground (arith, h.0, until_nul-append text n h.1)

pub zeros-any_nonzero : (n : ℕ) → any_nonzero (zeros n) ≡ false
unfolding any_nonzero
zeros-any_nonzero zero = refl
zeros-any_nonzero (suc n) = zeros-any_nonzero n

pub length-zeros : (n : ℕ) → length (zeros n) ≡ n
length-zeros zero = refl
length-zeros (suc n) = ap suc (length-zeros n)

take-short : (n : ℕ) (bytes : Bytes) → length bytes ≤ n → take n bytes ≡ bytes
take-short zero [] h = refl
take-short (suc n) [] h = refl
take-short zero (b ∷ bytes) h = absurd (omega arith)
take-short (suc n) (b ∷ bytes) h = ap (λ rest. b ∷ rest) (take-short n bytes (omega arith))

pub resize-short :
    (n : ℕ) (bytes : Bytes) → length bytes ≤ n → resize n bytes ≡ bytes ++ zeros (n - length bytes)
unfolding resize
resize-short n bytes h = ap (λ w. w ++ zeros (n - length bytes)) (take-short n bytes h)
