-- ===== src/Net/Transfer/Authentic.antt =====
-- What `XfrTsigVerifier` has checked when it lets a stream end
-- (crates/bind9-sdk-net/src/transfer/mod.rs).
use bind9_sdk.Common.{
  ℕ, ◌+◌, ◌≤◌, ◌≡◌, Bool, true, false, none, some, List, [], ◌∷◌, ◌++◌, length, ok,
}
use mathlib.Core.List.{flatten, Forall₂}
use bind9_sdk.Common.Bytes.{Bytes, u16_bytes}
use bind9_sdk.Core.Domain.{name_eq}
use bind9_sdk.Core.Tsig.{TsigKey, Hmac}
use bind9_sdk.Core.Tsig.Record.{TsigRecord, u48_bytes, counted, tsig_vars}
use bind9_sdk.Core.Tsig.Made.{algorithm_domain}
use bind9_sdk.Net.Wire.Header.{DnsHeader, parse_header}
use bind9_sdk.Net.Wire.Tsig.{split_final_tsig}

-- The messages of a stream, each with the time at which it is read.
abbrev pub Timed : Type 0
Timed = ℕ × Bytes

-- A message without a TSIG record, which holds the octets `u`.
pub record IsUnsigned (expected_id : ℕ) (m : Timed) (u : Bytes) : Type 0 where
  pub header : DnsHeader
  pub reads : parse_header m.1 ≡ ok header
  pub same_id : header.id ≡ expected_id
  pub splits : split_final_tsig m.1 ≡ ok (record { unsigned_message = u; tsig = none })

-- What is signed behind the messages: all TSIG variables in the first message, later the timers.
abbrev pub trailer : TsigKey → TsigRecord → Bool → Bytes
trailer key tsig true =
    tsig_vars key.name (algorithm_domain key.algorithm) tsig.time_signed tsig.fudge tsig.error
      tsig.other_data
trailer key tsig false = u48_bytes tsig.time_signed ++ u16_bytes tsig.fudge

-- A message with a TSIG record, behind messages without one that hold the octets `before`: its MAC
-- is the digest of the prior MAC behind its length, of all these octets, and of the trailer.
pub record IsSigned (h : Hmac) (key : TsigKey) (expected_id : ℕ) (prior_mac : Bytes) (first : Bool)
    (before : Bytes) (m : Timed) (u mac : Bytes) : Type 0 where
  pub header : DnsHeader
  pub tsig : TsigRecord
  pub reads : parse_header m.1 ≡ ok header
  pub same_id : header.id ≡ expected_id
  pub splits : split_final_tsig m.1 ≡ ok (record { unsigned_message = u; tsig = some tsig })
  pub same_key : name_eq tsig.key_name key.name ≡ true
  pub same_algorithm : tsig.algorithm ≡ key.algorithm
  pub original_id : tsig.original_id ≡ expected_id
  pub no_error : tsig.error ≡ 0
  pub not_early : m.0 ≤ tsig.time_signed + tsig.fudge
  pub not_late : tsig.time_signed ≤ m.0 + tsig.fudge
  pub kept : tsig.mac ≡ mac
  pub signed :
      mac
      ≡ h.finalize key.algorithm key.key_material
          (counted prior_mac ++ (before ++ (u ++ trailer key tsig first)))

-- Messages that hold `us`, cut into groups of at most 99 messages without a TSIG record and one
-- with it, the first group a single message: every octet is signed, and every MAC is signed again
-- by the next one.
pub data IsSignedStream (h : Hmac) (key : TsigKey) (expected_id : ℕ)
    : Bool → Bytes → List Timed → List Bytes → Type 0 where
  end : {prior_mac : Bytes} → IsSignedStream h key expected_id false prior_mac [] []
  group :
      {prior_mac : Bytes} {first : Bool} {plain rest : List Timed} {us later : List Bytes}
      {m : Timed} {u mac : Bytes}
      → Forall₂ (IsUnsigned expected_id) plain us
      → length plain ≤ 99
      → (first ≡ true → plain ≡ [])
      → IsSigned h key expected_id prior_mac first (flatten us) m u mac
      → IsSignedStream h key expected_id false mac rest later
      → IsSignedStream h key expected_id first prior_mac (plain ++ (m ∷ rest)) (us ++ (u ∷ later))
