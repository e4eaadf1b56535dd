-- ===== src/Core/Tsig.antt =====
-- TSIG (RFC 8945), the algorithms and keys: crates/bind9-sdk-core/src/tsig/mod.rs and key.rs.
-- HMAC is a parameter, the record `Hmac`: what the code calls of the crates hmac and sha2, with
-- `IsHmac` for what it relies on. Warnings in the log and the clearing of memory are left out.
pub mod Record
pub mod Wire
pub mod Names
pub mod Response
pub mod Made
pub mod Fields
pub mod RoundTrip
use bind9_sdk.Common.{
  ℕ, ◌<◌, ◌≡◌, ◌↔◌, Bool, true, false, List, [], ◌∷◌, length, All, Result, ok, err, ◌>>=◌, ◌>>◌,
  ensure,
}
use bind9_sdk.Common.Bytes.{Bytes, IsByte, codes}
use bind9_sdk.Errors.{CoreError, tsig_error}
use bind9_sdk.Core.Domain.{DomainName}

pub data TsigAlgorithm : Type 0 where
  hmac_sha256 hmac_sha512 hmac_sha1 : TsigAlgorithm

unfoldable pub dns_name : TsigAlgorithm → Bytes
dns_name hmac_sha256 = codes "hmac-sha256."
dns_name hmac_sha512 = codes "hmac-sha512."
dns_name hmac_sha1 = codes "hmac-sha1."

unfoldable pub key_length : TsigAlgorithm → ℕ
key_length hmac_sha256 = 32
key_length hmac_sha512 = 64
key_length hmac_sha1 = 20

unfoldable pub mac_length : TsigAlgorithm → ℕ
unfolding key_length
mac_length a = key_length a

-- The derived `PartialEq`
unfoldable pub algorithm_eq : TsigAlgorithm → TsigAlgorithm → Bool
algorithm_eq hmac_sha256 hmac_sha256 = true
algorithm_eq hmac_sha512 hmac_sha512 = true
algorithm_eq hmac_sha1 hmac_sha1 = true
algorithm_eq _ _ = false

-- `Mac::new_from_slice` (whether it takes the key), `update` and `finalize` on the whole message,
-- and `verify_slice`, for each algorithm and key.
pub record Hmac : Type 0 where
  pub new_from_slice : TsigAlgorithm → Bytes → Bool
  pub finalize : TsigAlgorithm → Bytes → Bytes → Bytes
  pub verify_slice : TsigAlgorithm → Bytes → Bytes → Bytes → Bool

-- A digest has the octets of its algorithm, and `verify_slice` accepts the digest alone.
pub record IsHmac (h : Hmac) : Type 0 where
  pub sized :
      (a : TsigAlgorithm) (key message : Bytes) → length (h.finalize a key message) ≡ mac_length a
  pub octets : (a : TsigAlgorithm) (key message : Bytes) → All IsByte (h.finalize a key message)
  pub exact :
      (a : TsigAlgorithm) (key message mac : Bytes)
      → (h.verify_slice a key message mac ≡ true) ↔ (mac ≡ h.finalize a key message)

pub record TsigKey : Type 0 where
  pub name : DomainName
  pub algorithm : TsigAlgorithm
  pub key_material : Bytes

-- `TsigKey::new`
unfoldable pub key_new : DomainName → TsigAlgorithm → Bytes → Result CoreError TsigKey
key_new name algorithm [] = err (tsig_error "key material must not be empty")
key_new name algorithm (b ∷ bs) =
    ok (record { name = name; algorithm = algorithm; key_material = b ∷ bs })

-- The texts of the three arms of `sign` and `verify`.
unfoldable pub invalid_key : TsigAlgorithm → CoreError
invalid_key hmac_sha256 = tsig_error "invalid HMAC-SHA256 key length"
invalid_key hmac_sha512 = tsig_error "invalid HMAC-SHA512 key length"
invalid_key hmac_sha1 = tsig_error "invalid HMAC-SHA1 key length"

unfoldable pub verification_failed : TsigAlgorithm → CoreError
verification_failed hmac_sha256 = tsig_error "HMAC-SHA256 verification failed"
verification_failed hmac_sha512 = tsig_error "HMAC-SHA512 verification failed"
verification_failed hmac_sha1 = tsig_error "HMAC-SHA1 verification failed"

module _ (h : Hmac) where
  -- `TsigKey::sign`
  unfoldable pub sign : TsigKey → Bytes → Result CoreError Bytes
  sign key message = do
    ensure (h.new_from_slice key.algorithm key.key_material) (invalid_key key.algorithm)
    ok (h.finalize key.algorithm key.key_material message)

  -- `TsigKey::verify`
  unfoldable pub verify : TsigKey → Bytes → Bytes → Result CoreError (Unit {0})
  verify key message mac = do
    ensure (h.new_from_slice key.algorithm key.key_material) (invalid_key key.algorithm)
    ensure (h.verify_slice key.algorithm key.key_material message mac)
        (verification_failed key.algorithm)
