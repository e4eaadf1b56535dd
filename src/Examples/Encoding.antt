-- ===== src/Examples/Encoding.antt =====
-- An encoding that meets what the code relies on of base64, for the runs on concrete data: three
-- octets are four characters of six bits, from `0` on.
use bind9_sdk.Common.{
  ℕ, ◌+◌, ◌-◌, ◌*◌, ◌/◌, ◌%◌, ◌≤◌, ◌<◌, ◌≡◌, refl, ap, ◌∙◌, Option, none, some, [], ◌∷◌, arith,
  length, All,
}
use bind9_sdk.Common.Bytes.{Bytes, IsByte}
use bind9_sdk.Net.Rndc.Session.{Base64, IsBase64}

abbrev pub encoded : Bytes → Bytes
encoded [] = []
encoded (a ∷ []) = (48 + a / 4) ∷ (48 + a % 4 * 16) ∷ []
encoded (a ∷ b ∷ []) = (48 + a / 4) ∷ (48 + (a % 4 * 16 + b / 16)) ∷ (48 + b % 16 * 4) ∷ []
encoded (a ∷ b ∷ c ∷ rest) =
    (48 + a / 4)
    ∷ (48 + (a % 4 * 16 + b / 16))
    ∷ (48 + (b % 16 * 4 + c / 64))
    ∷ (48 + c % 64)
    ∷ encoded rest

abbrev three : ℕ → ℕ → ℕ → ℕ → Bytes → Bytes
three w x y z rest =
    ((w - 48) * 4 + (x - 48) / 16)
    ∷ ((x - 48) % 16 * 16 + (y - 48) / 4)
    ∷ ((y - 48) % 4 * 64 + (z - 48))
    ∷ rest

abbrev pub decoded : Bytes → Option Bytes
decoded [] = some []
decoded (w ∷ []) = none
decoded (w ∷ x ∷ []) = some (((w - 48) * 4 + (x - 48) / 16) ∷ [])
decoded (w ∷ x ∷ y ∷ []) =
    some (((w - 48) * 4 + (x - 48) / 16) ∷ ((x - 48) % 16 * 16 + (y - 48) / 4) ∷ [])
decoded (w ∷ x ∷ y ∷ z ∷ rest) = elim (decoded rest) [
  | some bytes ↦ some (three w x y z bytes)
  | none ↦ none
]

length-encoded : (bytes : Bytes) → 3 * length (encoded bytes) ≤ 4 * length bytes + 8
length-encoded [] = omega arith
length-encoded (a ∷ []) = omega arith
length-encoded (a ∷ b ∷ []) = omega arith
length-encoded (a ∷ b ∷ c ∷ rest) = omega (arith, length-encoded rest)

some-encoded : (bytes : Bytes) → 1 ≤ length bytes → 1 ≤ length (encoded bytes)
some-encoded [] h = h
some-encoded (a ∷ []) h = omega arith
some-encoded (a ∷ b ∷ []) h = omega arith
some-encoded (a ∷ b ∷ c ∷ rest) h = omega arith

printable-encoded :
    (bytes : Bytes) → All IsByte bytes → All (λ c. (1 ≤ c) × (c < 128)) (encoded bytes)
printable-encoded [] h = tt
printable-encoded (a ∷ []) h = omega (arith, h.0)
printable-encoded (a ∷ b ∷ []) h = omega (arith, h.0, h.1.0)
printable-encoded (a ∷ b ∷ c ∷ rest) h = (
  omega (arith, h.0),
  (
    omega (arith, h.0, h.1.0),
    (omega (arith, h.1.0, h.1.1.0), (omega (arith, h.1.1.0), printable-encoded rest h.1.1.1)),
  ),
)

three-encoded :
    (a b c : ℕ) (rest : Bytes)
    → IsByte a
    → IsByte b
    → IsByte c
    → three
        (48 + a / 4)
        (48 + (a % 4 * 16 + b / 16))
        (48 + (b % 16 * 4 + c / 64))
        (48 + c % 64)
        rest
      ≡ a ∷ b ∷ c ∷ rest
three-encoded a b c rest ha hb hc =
    let first : (48 + a / 4 - 48) * 4 + (48 + (a % 4 * 16 + b / 16) - 48) / 16 ≡ a = omega arith in
    let second : (48 + (a % 4 * 16 + b / 16) - 48) % 16 * 16 + (48 + (b % 16 * 4 + c / 64) - 48) / 4
        ≡ b =
      omega arith in
    let third : (48 + (b % 16 * 4 + c / 64) - 48) % 4 * 64 + (48 + c % 64 - 48) ≡ c = omega arith in
    λ i. first i ∷ second i ∷ third i ∷ rest

decoded-encoded : (bytes : Bytes) → All IsByte bytes → decoded (encoded bytes) ≡ some bytes
decoded-encoded [] h = refl
decoded-encoded (a ∷ []) h =
    let first : (48 + a / 4 - 48) * 4 + (48 + a % 4 * 16 - 48) / 16 ≡ a = omega (arith, h.0) in
    ap (λ x. some (x ∷ [])) first
decoded-encoded (a ∷ b ∷ []) h =
    let first : (48 + a / 4 - 48) * 4 + (48 + (a % 4 * 16 + b / 16) - 48) / 16 ≡ a =
      omega (arith, h.0, h.1.0) in
    let second : (48 + (a % 4 * 16 + b / 16) - 48) % 16 * 16 + (48 + b % 16 * 4 - 48) / 4 ≡ b =
      omega (arith, h.0, h.1.0) in
    λ i. some (first i ∷ second i ∷ [])
decoded-encoded (a ∷ b ∷ c ∷ rest) h =
    ap
      (λ o. elim o [
        | some bytes ↦ some (
            three (48 + a / 4) (48 + (a % 4 * 16 + b / 16)) (48 + (b % 16 * 4 + c / 64))
              (48 + c % 64) bytes)
        | none ↦ none
      ])
      (decoded-encoded rest h.1.1.1)
    ∙ ap (λ x. some x) (three-encoded a b c rest h.0 h.1.0 h.1.1.0)

abbrev pub six_bits : Base64
six_bits = record { encode = encoded; decode = decoded }

pub six_bits-IsBase64 : IsBase64 six_bits
six_bits-IsBase64 = record {
  sized = length-encoded;
  some_text = some-encoded;
  printable = printable-encoded;
  decoded = decoded-encoded;
}
