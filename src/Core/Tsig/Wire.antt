-- ===== src/Core/Tsig/Wire.antt =====
-- TSIG records read from their wire form: `read_wire_name` in
-- crates/bind9-sdk-core/src/tsig/wire.rs and `TsigRecord::parse_from_wire` in record.rs.
-- The position only moves on, so a function takes the octets that are left and returns those behind
-- what it has read; `parse_from_wire` has checked that the data ends with the input.
use bind9_sdk.Common.{
  ℕ, zero, suc, ◌+◌, ◌*◌, true, false, List, [], ◌∷◌, ◌++◌, ltb, leb, ◌==◌, if◌then◌else◌, length,
  take, drop, map, Result, ok, err, stuck, ◌>>=◌, ◌>>◌, ensure, map_err, String,
}
use bind9_sdk.Common.Bytes.{Bytes, u16_from, u32_from, codes, equal, join_dots, to_ascii_lowercase}
use bind9_sdk.Common.Utf8.{is_utf8}
use bind9_sdk.Errors.{CoreError, tsig_error}
use bind9_sdk.Core.Domain.{DomainName, domain_new}
use bind9_sdk.Core.Tsig.{TsigAlgorithm, hmac_sha256, hmac_sha512, hmac_sha1}
use bind9_sdk.Core.Tsig.Record.{TsigRecord}

-- The loop of `read_wire_name`: each round takes an octet at least, so that the number of octets is
-- enough fuel. For an octet, `len & 0xC0 != 0` says that it is 64 at least.
unfoldable pub read_labels : ℕ → Bytes → List Bytes → Result CoreError (List Bytes × Bytes)
read_labels fuel [] labels = err (tsig_error "truncated wire name")
read_labels zero (len ∷ rest) labels = stuck
read_labels (suc fuel) (len ∷ rest) labels = elim (len == 0) [
  | true ↦ ok (labels, rest)
  | false ↦ do
    ensure (ltb len 64) (tsig_error "compressed names not supported in TSIG")
    ensure (leb len (length rest)) (tsig_error "truncated wire name label")
    ensure (is_utf8 (take len rest)) (tsig_error "invalid UTF-8 in wire name")
    read_labels fuel (drop len rest) (labels ++ (take len rest ∷ []))
]

unfoldable pub read_wire_name : Bytes → Result CoreError (Bytes × Bytes)
read_wire_name bs = do
  (labels, rest) ← read_labels (length bs) bs []
  ok (join_dots labels ++ (b'.' ∷ []), rest)

unfoldable pub read_u16 : String → Bytes → Result CoreError (ℕ × Bytes)
read_u16 text (a ∷ b ∷ rest) = ok (u16_from a b, rest)
read_u16 text _ = err (tsig_error text)

unfoldable pub read_u32 : String → Bytes → Result CoreError (ℕ × Bytes)
read_u32 text (a ∷ b ∷ c ∷ d ∷ rest) = ok (u32_from a b c d, rest)
read_u32 text _ = err (tsig_error text)

-- Six octets, behind two that are zero, as a u64.
unfoldable pub read_u48 : String → Bytes → Result CoreError (ℕ × Bytes)
read_u48 text (a ∷ b ∷ c ∷ d ∷ e ∷ f ∷ rest) =
    ok (u16_from a b * 4294967296 + u32_from c d e f, rest)
read_u48 text _ = err (tsig_error text)

unfoldable pub read_octets : String → ℕ → Bytes → Result CoreError (Bytes × Bytes)
read_octets text n bs = do ensure (leb n (length bs)) (tsig_error text); ok (take n bs, drop n bs)

-- The match on `alg_name_str.to_lowercase()`. The only character outside of ASCII whose lower case
-- is in ASCII is the sign of the kelvin, for which there is no `k` in the three names.
unfoldable pub algorithm_of : Bytes → Result CoreError TsigAlgorithm
algorithm_of text =
    let name = map to_ascii_lowercase text in
    if equal name (codes "hmac-sha256.")
    then ok hmac_sha256
    else if equal name (codes "hmac-sha512.")
    then ok hmac_sha512
    else if equal name (codes "hmac-sha1.")
    then ok hmac_sha1
    else err (tsig_error "unsupported TSIG algorithm")

-- What stands between the owner and the data: type, class and TTL are fixed, and the data ends with
-- the input.
unfoldable pub tsig_header : Bytes → Result CoreError Bytes
unfolding read_u16 read_u32
tsig_header after_name = do
  (rtype, after_type) ← read_u16 "truncated TSIG type" after_name
  ensure (rtype == 250) (tsig_error "expected TSIG type 250")
  (rclass, after_class) ← read_u16 "truncated TSIG class" after_type
  ensure (rclass == 255) (tsig_error "expected TSIG class ANY (255)")
  (ttl, after_ttl) ← read_u32 "truncated TSIG TTL" after_class
  ensure (ttl == 0) (tsig_error "TSIG TTL must be 0")
  (rdlength, rdata) ← read_u16 "truncated TSIG RDLENGTH" after_ttl
  ensure (leb rdlength (length rdata)) (tsig_error "TSIG RDATA truncated")
  ensure (rdlength == length rdata) (tsig_error "unexpected bytes after complete TSIG record")
  ok rdata

-- The fields behind the name of the algorithm. `wire` is kept in the record.
unfoldable pub tsig_fields :
    Bytes → DomainName → TsigAlgorithm → Bytes → Result CoreError TsigRecord
unfolding read_u16 read_u48
tsig_fields wire key_name algorithm after_algorithm = do
  (time_signed, after_time) ← read_u48 "truncated TSIG time_signed" after_algorithm
  (fudge, after_fudge) ← read_u16 "truncated TSIG fudge" after_time
  (mac_size, after_size) ← read_u16 "truncated TSIG MAC size" after_fudge
  (mac, after_mac) ← read_octets "truncated TSIG MAC" mac_size after_size
  (original_id, after_id) ← read_u16 "truncated TSIG original ID" after_mac
  (error, after_error) ← read_u16 "truncated TSIG error" after_id
  (other_len, after_len) ← read_u16 "truncated TSIG other_len" after_error
  (other_data, after_other) ← read_octets "truncated TSIG other_data" other_len after_len
  ensure (length after_other == 0) (tsig_error "TSIG RDATA contains unconsumed bytes")
  ok (record {
    key_name = key_name;
    algorithm = algorithm;
    time_signed = time_signed;
    fudge = fudge;
    mac = mac;
    original_id = original_id;
    error = error;
    other_data = other_data;
    wire_bytes = wire;
  })

-- `TsigRecord::parse_from_wire`
unfoldable pub parse_from_wire : Bytes → Result CoreError TsigRecord
parse_from_wire wire = do
  (key_text, after_name) ← read_wire_name wire
  key_name ← map_err (λ e. tsig_error "invalid TSIG key name") (domain_new key_text)
  rdata ← tsig_header after_name
  (algorithm_text, after_algorithm) ← read_wire_name rdata
  algorithm ← algorithm_of algorithm_text
  tsig_fields wire key_name algorithm after_algorithm
