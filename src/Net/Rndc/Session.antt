-- ===== src/Net/Rndc/Session.antt =====
-- The session of an rndc connection: crates/bind9-sdk-net/src/rndc/mod.rs. The clock and the random
-- octets are arguments, base64 is a parameter. What is written to the connection and what is read
-- from it are values; the errors of the connection itself are left out.
use bind9_sdk.Common.{
  ℕ, zero, suc, ◌+◌, ◌-◌, ◌*◌, ◌^◌, ◌<◌, ◌≤◌, ◌≡◌, min, Bool, true, false, not, ◌&&◌, ◌||◌, Option,
  none, some, [], ◌∷◌, ◌++◌, leb, ◌==◌, if◌then◌else◌, length, take, drop, All, Result, ok, ◌>>=◌,
  ◌>>◌, ensure, ok_or, map_err,
}
use bind9_sdk.Common.Bytes.{Bytes, IsByte, codes, equal}
use bind9_sdk.Common.Decimal.{to_decimal, parse_u64}
use bind9_sdk.Common.Utf8.{is_utf8}
use bind9_sdk.Errors.{NetError, auth_failed}
use bind9_sdk.Core.Tsig.{TsigAlgorithm, hmac_sha256, hmac_sha512, hmac_sha1, TsigKey, Hmac, verify}
use bind9_sdk.Net.Rndc.{str, IscMap, nil, map_insert, get_string, get_binary, get_map, read_byte}

-- `base64::engine::general_purpose::STANDARD`
pub record Base64 : Type 0 where
  pub encode : Bytes → Bytes
  pub decode : Bytes → Option Bytes

-- The text has four characters for every three octets or part of them; it is ASCII without a NUL,
-- and is decoded to the octets.
pub record IsBase64 (b : Base64) : Type 0 where
  pub sized : (bytes : Bytes) → 3 * length (b.encode bytes) ≤ 4 * length bytes + 8
  pub some_text : (bytes : Bytes) → 1 ≤ length bytes → 1 ≤ length (b.encode bytes)
  pub printable :
      (bytes : Bytes) → All IsByte bytes → All (λ c. (1 ≤ c) × (c < 128)) (b.encode bytes)
  pub decoded : (bytes : Bytes) → All IsByte bytes → b.decode (b.encode bytes) ≡ some bytes

abbrev pub isccc_hmac_buf_size : ℕ
isccc_hmac_buf_size = 89

abbrev pub isccc_expiry_secs : ℕ
isccc_expiry_secs = 60

-- `u64::saturating_add`
unfoldable pub saturating_add : ℕ → ℕ → ℕ
saturating_add a b = min (a + b) (2 ^ 64 - 1)

-- A string field of a table: `map_string`.
unfoldable pub map_string : IscMap → Bytes → Option Bytes
unfolding get_string
map_string m key = get_string key m

-- `build_ctrl_table`. The clock is so far from the end of a u64 that the sum does not overflow.
unfoldable pub build_ctrl_table : ℕ → ℕ → Option Bytes → IscMap
build_ctrl_table serial now_secs nonce =
    let ctrl = map_insert (codes "_exp") (str (to_decimal (now_secs + isccc_expiry_secs))) (
      map_insert (codes "_tim") (str (to_decimal now_secs))
        (map_insert (codes "_ser") (str (to_decimal serial)) nil)) in
    elim nonce [ none ↦ ctrl | some n ↦ map_insert (codes "_nonce") (str n) ctrl ]

-- The last branch of the source is for algorithms that `TsigAlgorithm` does not have.
unfoldable pub isccc_algorithm_byte : TsigAlgorithm → Result NetError ℕ
isccc_algorithm_byte hmac_sha1 = ok 0xa1
isccc_algorithm_byte hmac_sha256 = ok 0xa3
isccc_algorithm_byte hmac_sha512 = ok 0xa5

-- `Vec::resize` with zeros.
abbrev pub zeros : ℕ → Bytes
zeros zero = []
zeros (suc n) = 0 ∷ zeros n

unfoldable pub resize : ℕ → Bytes → Bytes
resize n bytes = take n bytes ++ zeros (n - length bytes)

-- The octets in front of the first NUL.
unfoldable pub until_nul : Bytes → Bytes
until_nul [] = []
until_nul (b ∷ bytes) = if b == 0 then [] else b ∷ until_nul bytes

-- `iter().any(|byte| *byte != 0)`
unfoldable pub any_nonzero : Bytes → Bool
any_nonzero [] = false
any_nonzero (b ∷ bytes) = not (b == 0) || any_nonzero bytes

-- `if let Some(expected) = expected && actual != expected` does not hold.
unfoldable pub agrees : Option Bytes → Bytes → Bool
agrees none actual = true
agrees (some expected) actual = equal actual expected

-- The same, where the actual text may be missing as well.
unfoldable pub type_agrees : Option Bytes → Option Bytes → Bool
unfolding agrees
type_agrees expected none = true
type_agrees expected (some actual) = agrees expected actual

unfoldable pub validate_response_ctrl : IscMap → ℕ → ℕ → Option Bytes → Result NetError (Unit {0})
unfolding saturating_add map_string
validate_response_ctrl ctrl expected_serial expected_time expected_nonce = do
  serial ← ok_or (map_string ctrl (codes "_ser")) (auth_failed "server response missing _ctrl._ser")
  ensure (equal serial (to_decimal expected_serial)) (auth_failed "server response serial mismatch")
  tim ← ok_or (map_string ctrl (codes "_tim")) (auth_failed "server response missing _ctrl._tim")
  timestamp ← ok_or (parse_u64 tim) (auth_failed "server response has invalid _ctrl._tim")
  let latest_allowed = saturating_add expected_time isccc_expiry_secs
  ensure (leb expected_time timestamp && leb timestamp latest_allowed)
      (auth_failed "server response timestamp outside accepted window")
  exp ← ok_or (map_string ctrl (codes "_exp")) (auth_failed "server response missing _ctrl._exp")
  expiry ← ok_or (parse_u64 exp) (auth_failed "server response has invalid _ctrl._exp")
  ensure (expiry == saturating_add timestamp isccc_expiry_secs)
      (auth_failed "server response expiry mismatch")
  reply_flag ←
      ok_or (map_string ctrl (codes "_rpl")) (auth_failed "server response missing _ctrl._rpl")
  ensure (equal reply_flag (codes "1")) (auth_failed "server response has invalid _ctrl._rpl")
  nonce ←
      ok_or (map_string ctrl (codes "_nonce")) (auth_failed "server response missing _ctrl._nonce")
  ensure (agrees expected_nonce nonce) (auth_failed "server response nonce mismatch")

module _ (h : Hmac) (base64 : Base64) where
  unfoldable pub verify_isccc_hmac : TsigKey → Bytes → Bytes → Result NetError (Unit {0})
  verify_isccc_hmac key hmac_input received = do
    ensure (length received == isccc_hmac_buf_size)
        (auth_failed "server response _auth.hsha has invalid length")
    expected_algorithm ← isccc_algorithm_byte key.algorithm
    (algorithm, encoded_and_padding) ←
        ok_or (read_byte received) (auth_failed "server response _auth.hsha has invalid length")
    ensure (algorithm == expected_algorithm) (auth_failed "server response HMAC algorithm mismatch")
    let encoded = until_nul encoded_and_padding
    ensure (not (length encoded == 0 || any_nonzero (drop (length encoded) encoded_and_padding)))
        (auth_failed "server response _auth.hsha has invalid padding")
    ensure (is_utf8 encoded) (auth_failed "server response _auth.hsha is not valid base64 text")
    mac ←
        ok_or (base64.decode encoded)
          (auth_failed "server response _auth.hsha contains invalid base64")
    map_err (λ _. auth_failed "server response HMAC verification failed")
        (verify h key hmac_input mac)

  unfoldable pub verify_authenticated_response :
      TsigKey → IscMap → Bytes → ℕ → ℕ → Option Bytes → Option Bytes → Result NetError (Unit {0})
  unfolding map_string
  verify_authenticated_response key response hmac_raw_input expected_serial expected_time
        expected_nonce expected_type =
      do
        auth ←
            ok_or (get_map (codes "_auth") response)
              (auth_failed "server response missing _auth table")
        ctrl ←
            ok_or (get_map (codes "_ctrl") response)
              (auth_failed "server response missing _ctrl table")
        data' ←
            ok_or (get_map (codes "_data") response)
              (auth_failed "server response missing _data table")
        received_hmac ←
            ok_or (get_binary (codes "hsha") auth)
              (auth_failed "server response missing _auth.hsha binary field")
        verify_isccc_hmac key hmac_raw_input received_hmac
        validate_response_ctrl ctrl expected_serial expected_time expected_nonce
        ensure (type_agrees expected_type (map_string data' (codes "type")))
            (auth_failed "server response type mismatch")
