-- ===== src/Net/Rndc/Signing.antt =====
-- The `_auth.hsha` value of a request: `sign_rndc_body` in crates/bind9-sdk-net/src/rndc/mod.rs.
use bind9_sdk.Common.{
  ℕ, ◌-◌, ◌≤◌, ◌<◌, ◌≡◌, refl, sym, ap, ◌∙◌, some, [], ◌∷◌, ◌++◌, arith, length, length-append, All,
  ok, >>=-eq-ok, map_err-eq-ok, ok-injective,
}
use mathlib.Core.Path.{subst}
use bind9_sdk.Common.Bytes.{Bytes, IsByte, codes, lex_lt}
use bind9_sdk.Common.Utf8.{is_utf8, is_utf8-continuation, is_utf8-ascii}
use bind9_sdk.Errors.{core}
use bind9_sdk.Core.Tsig.{
  TsigAlgorithm, hmac_sha256, hmac_sha512, hmac_sha1, TsigKey, Hmac, IsHmac, sign, mac_length,
}
use bind9_sdk.Core.Tsig.Made.{sign-eq-ok}
use bind9_sdk.Core.Tsig.RoundTrip.{mac_length_bound}
use bind9_sdk.Net.Rndc.{
  binary, table, IscMap, nil, entry, string_or_binary, map_insert, encode_body,
}
use bind9_sdk.Net.Rndc.Session.{Base64, IsBase64, isccc_algorithm_byte, zeros}
use bind9_sdk.Net.Rndc.Connection.{sign_rndc_body}
use bind9_sdk.Net.Rndc.Padding.{HasNoNul, length-zeros, resize-short}
use bind9_sdk.Net.Rndc.Authentic.{IsSigned}

printable-HasNoNul : (text : Bytes) → All (λ c. (1 ≤ c) × (c < 128)) text → HasNoNul text
printable-HasNoNul [] h = tt
printable-HasNoNul (c ∷ text) h = (h.0.0, printable-HasNoNul text h.1)

printable-is_utf8 : (text : Bytes) → All (λ c. (1 ≤ c) × (c < 128)) text → All (λ c. c ≤ 0x7f) text
printable-is_utf8 [] h = tt
printable-is_utf8 (c ∷ text) h = (omega (arith, h.0.1), printable-is_utf8 text h.1)

mac_length_some : (a : TsigAlgorithm) → 1 ≤ mac_length a
unfolding mac_length
mac_length_some hmac_sha256 = omega arith
mac_length_some hmac_sha512 = omega arith
mac_length_some hmac_sha1 = omega arith

-- The body that is signed.
abbrev pub body_map : IscMap → IscMap → IscMap
body_map ctrl data' = entry (codes "_ctrl") (table ctrl) (entry (codes "_data") (table data') nil)

pub sign_rndc_body-IsSigned :
    (h : Hmac) (base64 : Base64) (key : TsigKey) (ctrl data' : IscMap) {v : Bytes}
    → IsHmac h
    → IsBase64 base64
    → sign_rndc_body h base64 key ctrl data' ≡ ok v
    → (body : Bytes) × (encode_body (body_map ctrl data') ≡ ok body) × IsSigned h base64 key body v
unfolding sign_rndc_body map_insert lex_lt
sign_rndc_body-IsSigned h base64 key ctrl data' {v} law plain e =
    let (body, e₁, e₂) = >>=-eq-ok (encode_body (body_map ctrl data')) _ e in
    let (digest, e₃, e₄) = >>=-eq-ok _ _ e₂ in
    let (algorithm, e₅, e₆) = >>=-eq-ok (isccc_algorithm_byte key.algorithm) _ e₄ in
    let (accepted, made) = sign-eq-ok h key body (map_err-eq-ok (sign h key body) core e₃) in
    let text = base64.encode digest in
    let size : length digest ≡ mac_length key.algorithm =
      ap length (sym made) ∙ law.sized key.algorithm key.key_material body in
    let octets = subst (All IsByte) made (law.octets key.algorithm key.key_material body) in
    let short : length text ≤ 88 =
      omega (arith, plain.sized digest, size, mac_length_bound key.algorithm) in
    let framed : v ≡ algorithm ∷ (text ++ zeros (88 - length text)) =
      sym (ok-injective e₆)
      ∙ resize-short 89 (algorithm ∷ text) (omega (arith, short))
      ∙ ap (λ n. algorithm ∷ (text ++ zeros n)) (omega arith) in
    (
      body,
      e₁,
      record {
        algorithm = algorithm;
        text = text;
        padding = 88 - length text;
        same_algorithm = e₅;
        framed = framed;
        sized = omega (
          arith,
          short,
          ap length framed,
          length-append text (zeros (88 - length text)),
          length-zeros (88 - length text),
        );
        some_text = plain.some_text digest (omega (arith, size, mac_length_some key.algorithm));
        no_nul = printable-HasNoNul text (plain.printable digest octets);
        readable = is_utf8-ascii text (printable-is_utf8 text (plain.printable digest octets));
        decoded = plain.decoded digest octets ∙ ap (λ m. some m) (sym made);
        key_accepted = accepted;
      },
    )

algorithm_byte-bounds :
    (a : TsigAlgorithm) {b : ℕ} → isccc_algorithm_byte a ≡ ok b → (0x80 ≤ b) × (b ≤ 0xbf)
unfolding isccc_algorithm_byte
algorithm_byte-bounds hmac_sha1 e = omega (arith, ok-injective e)
algorithm_byte-bounds hmac_sha256 e = omega (arith, ok-injective e)
algorithm_byte-bounds hmac_sha512 e = omega (arith, ok-injective e)

-- The signature is no text, so that a decoder reads it as `Binary`.
pub IsSigned-binary :
    (h : Hmac) (base64 : Base64) (key : TsigKey) (input v : Bytes)
    → IsSigned h base64 key input v
    → string_or_binary v ≡ binary v
unfolding string_or_binary
IsSigned-binary h base64 key input v s =
    let (low, high) = algorithm_byte-bounds key.algorithm s.same_algorithm in
    rw (ap is_utf8 s.framed ∙ is_utf8-continuation s.algorithm (s.text ++ zeros s.padding) low high)
      refl
