-- ===== src/Core/Tsig/Record.antt =====
-- TSIG records, signing and verification: `TsigRecord::new`, `verify_time` and `verify_response` in
-- crates/bind9-sdk-core/src/tsig/record.rs. Times are u64 values.
use bind9_sdk.Common.{
  ℕ, ◌+◌, ◌-◌, ◌/◌, ◌%◌, ◌^◌, not, Bool, false, Option, none, some, [], ◌∷◌, ◌++◌, ltb, leb, ◌==◌,
  length, Result, ok, ◌>>=◌, ◌>>◌, ensure, map_err,
}
use bind9_sdk.Common.Bytes.{Bytes, u16_bytes, u32_bytes, u16_from}
use bind9_sdk.Errors.{CoreError, tsig_error}
use bind9_sdk.Core.Domain.{DomainName, domain_new, write_wire_canonical, name_eq}
use bind9_sdk.Core.Tsig.{TsigAlgorithm, TsigKey, Hmac, dns_name, algorithm_eq, sign, verify}

pub record TsigRecord : Type 0 where
  pub key_name : DomainName
  pub algorithm : TsigAlgorithm
  pub time_signed : ℕ
  pub fudge : ℕ
  pub mac : Bytes
  pub original_id : ℕ
  pub error : ℕ
  pub other_data : Bytes
  pub wire_bytes : Bytes

-- `timestamp.to_be_bytes()[2..8]`
abbrev pub u48_bytes : ℕ → Bytes
u48_bytes t =
    (t / 1099511627776 % 256)
    ∷ (t / 4294967296 % 256)
    ∷ (t / 16777216 % 256)
    ∷ (t / 65536 % 256)
    ∷ (t / 256 % 256)
    ∷ (t % 256)
    ∷ []

-- The first two octets of a message, or 0 if it has none.
unfoldable pub message_id : Bytes → ℕ
message_id (a ∷ b ∷ rest) = u16_from a b
message_id _ = 0

-- `DomainName::new(key.algorithm.dns_name())`
unfoldable pub algorithm_name : TsigAlgorithm → Result CoreError DomainName
algorithm_name a =
    map_err (λ e. tsig_error "invalid built-in TSIG algorithm name") (domain_new (dns_name a))

-- The TSIG variables of RFC 8945: name, class ANY, TTL 0, algorithm, time, fudge, error, and the
-- other data behind its length as a u16.
unfoldable pub tsig_vars : DomainName → DomainName → ℕ → ℕ → ℕ → Bytes → Bytes
tsig_vars name algorithm time fudge error other =
    write_wire_canonical name
    ++ (u16_bytes 255
        ++ (u32_bytes 0
            ++ (write_wire_canonical algorithm
                ++ (u48_bytes time
                    ++ (u16_bytes fudge
                        ++ (u16_bytes error ++ (u16_bytes (length other) ++ other)))))))

-- A MAC behind its length as a u16.
unfoldable pub counted : Bytes → Bytes
counted mac = u16_bytes (length mac) ++ mac

-- The prior MAC, if there is one, in front of the data that is signed.
unfoldable pub prior : Option Bytes → Bytes
unfolding counted
prior none = []
prior (some mac) = counted mac

-- The data of the record, `rdata_len` octets of it.
unfoldable pub tsig_rdata : DomainName → ℕ → ℕ → Bytes → ℕ → ℕ → Bytes
tsig_rdata algorithm time fudge mac original_id error =
    write_wire_canonical algorithm
    ++ (u48_bytes time
        ++ (u16_bytes fudge
            ++ (u16_bytes (length mac)
                ++ (mac ++ (u16_bytes original_id ++ (u16_bytes error ++ u16_bytes 0))))))

-- The whole record: name, type TSIG, class ANY, TTL 0, and the data behind its length.
unfoldable pub tsig_wire : DomainName → Bytes → Bytes
tsig_wire name rdata =
    write_wire_canonical name
    ++ (u16_bytes 250 ++ (u16_bytes 255 ++ (u32_bytes 0 ++ (u16_bytes (length rdata) ++ rdata))))

-- `request_mac.is_some_and(|mac| mac.len() > usize::from(u16::MAX))`
unfoldable pub mac_too_long : Option Bytes → Bool
mac_too_long none = false
mac_too_long (some mac) = ltb 65535 (length mac)

abbrev pub default_fudge : ℕ
default_fudge = 300

-- `now.abs_diff(self.time_signed)`
unfoldable pub abs_diff : ℕ → ℕ → ℕ
abs_diff a b = (a - b) + (b - a)

unfoldable pub verify_time : TsigRecord → ℕ → Result CoreError (Unit {0})
unfolding abs_diff
verify_time r now =
    ensure (leb (abs_diff now r.time_signed) r.fudge) (tsig_error "TSIG time outside fudge window")

module _ (h : Hmac) where
  -- `TsigRecord::new`
  unfoldable pub tsig_new : TsigKey → Bytes → ℕ → Option Bytes → Result CoreError TsigRecord
  unfolding message_id mac_too_long
  tsig_new key message timestamp request_mac = do
    ensure (ltb timestamp (2 ^ 48)) (tsig_error "TSIG timestamp exceeds the 48-bit wire field")
    ensure (not (mac_too_long request_mac))
        (tsig_error "TSIG prior MAC exceeds the 16-bit length field")
    algorithm ← algorithm_name key.algorithm
    mac ← sign h key (
        prior request_mac ++ (message ++ tsig_vars key.name algorithm timestamp default_fudge 0 []))
    let id = message_id message
    let rdata = tsig_rdata algorithm timestamp default_fudge mac id 0
    ok (record {
      key_name = key.name;
      algorithm = key.algorithm;
      time_signed = timestamp;
      fudge = default_fudge;
      mac = mac;
      original_id = id;
      error = 0;
      other_data = [];
      wire_bytes = tsig_wire key.name rdata;
    })

  -- `TsigRecord::verify_response`
  unfoldable pub verify_response :
      TsigKey → Bytes → TsigRecord → Bytes → ℕ → Result CoreError (Unit {0})
  unfolding message_id
  verify_response key response_message response_tsig request_mac now = do
    ensure (name_eq response_tsig.key_name key.name)
        (tsig_error "TSIG response key name does not match configured key")
    ensure (algorithm_eq response_tsig.algorithm key.algorithm)
        (tsig_error "TSIG response algorithm does not match configured key")
    ensure (leb 12 (length response_message))
        (tsig_error "TSIG response contains a truncated DNS header")
    ensure (response_tsig.original_id == message_id response_message)
        (tsig_error "TSIG original ID does not match DNS response ID")
    verify_time response_tsig now
    algorithm ← algorithm_name key.algorithm
    verify h key
        (counted request_mac
          ++ (response_message
              ++ tsig_vars key.name algorithm response_tsig.time_signed response_tsig.fudge
                  response_tsig.error response_tsig.other_data))
        response_tsig.mac
