-- ===== src/Net/Wire/Record.antt =====
-- Resource records in the wire format: `parse_rdata_wire`, `parse_resource_record` and
-- `resource_record_type_and_len` in crates/bind9-sdk-net/src/transfer/wire.rs.
use bind9_sdk.Common.{
  ℕ, zero, suc, ◌+◌, Option, none, some, List, [], ◌∷◌, leb, ◌==◌, length, take, drop, Result, ok,
  err, stuck, ◌>>=◌, ◌>>◌, ensure, ok_or, map_err,
}
use bind9_sdk.Common.Bytes.{Bytes, u16_from, u32_from}
use bind9_sdk.Common.Utf8.{is_utf8}
use bind9_sdk.Errors.{NetError, xfr_protocol_error}
use bind9_sdk.Core.Domain.{DomainName}
use bind9_sdk.Core.Rdata.{
  RecordData, a, aaaa, cname, ns, ptr, soa, mx, txt, srv, caa, unknown, txt_string_new,
}
use bind9_sdk.Core.Record.{ResourceRecord, ttl_new, class_from_value}
use bind9_sdk.Core.Protocol.{
  RecordType, a_type, aaaa_type, ns_type, cname_type, ptr_type, mx_type, txt_type, soa_type,
  srv_type, caa_type, type_from_value,
}
use bind9_sdk.Net.Wire.{parse_name}

-- The loop over the character-strings of a TXT record, on the octets that are left.
unfoldable pub txt_strings : ℕ → Bytes → Result NetError (List Bytes)
txt_strings fuel [] = ok []
txt_strings zero (b ∷ bs) = stuck
txt_strings (suc fuel) (str_len ∷ bs) = do
  ensure (leb str_len (length bs)) (xfr_protocol_error "truncated TXT string")
  string ← map_err (λ e. xfr_protocol_error "TXT string") (txt_string_new (take str_len bs))
  strings ← txt_strings fuel (drop str_len bs)
  ok (string ∷ strings)

-- The five numbers in the 20 octets behind the names of an SOA record.
unfoldable pub soa_numbers : Bytes → Option (ℕ × ℕ × ℕ × ℕ × ℕ)
soa_numbers
      (s ∷ s₁ ∷ s₂ ∷ s₃ ∷ r ∷ r₁ ∷ r₂ ∷ r₃ ∷ t ∷ t₁ ∷ t₂ ∷ t₃ ∷ e ∷ e₁ ∷ e₂ ∷ e₃ ∷ m ∷ m₁ ∷ m₂ ∷ m₃
        ∷ rest) =
    some (
      u32_from s s₁ s₂ s₃,
      u32_from r r₁ r₂ r₃,
      u32_from t t₁ t₂ t₃,
      u32_from e e₁ e₂ e₃,
      u32_from m m₁ m₂ m₃,
    )
soa_numbers _ = none

unfoldable pub soa_rdata : Bytes → ℕ → Result NetError RecordData
soa_rdata full_msg rdata_offset = do
  (mname, mname_len) ← parse_name full_msg rdata_offset
  (rname, rname_len) ← parse_name full_msg (rdata_offset + mname_len)
  (serial, refresh_value, retry_value, expire_value, minimum_value) ←
      ok_or (soa_numbers (drop (rdata_offset + mname_len + rname_len) full_msg))
        (xfr_protocol_error "SOA record RDATA too short for timers")
  refresh ← map_err (λ e. xfr_protocol_error "SOA refresh") (ttl_new refresh_value)
  retry ← map_err (λ e. xfr_protocol_error "SOA retry") (ttl_new retry_value)
  expire ← map_err (λ e. xfr_protocol_error "SOA expire") (ttl_new expire_value)
  minimum ← map_err (λ e. xfr_protocol_error "SOA minimum") (ttl_new minimum_value)
  ok (soa mname rname serial refresh retry expire minimum)

unfoldable pub mx_rdata : Bytes → Bytes → ℕ → Result NetError RecordData
mx_rdata (p ∷ p₁ ∷ x ∷ rest) full_msg rdata_offset = do
  (exchange, _) ← parse_name full_msg (rdata_offset + 2)
  ok (mx (u16_from p p₁) exchange)
mx_rdata _ full_msg rdata_offset = err (xfr_protocol_error "MX record RDATA too short")

unfoldable pub srv_rdata : Bytes → Bytes → ℕ → Result NetError RecordData
srv_rdata (p ∷ p₁ ∷ w ∷ w₁ ∷ o ∷ o₁ ∷ x ∷ rest) full_msg rdata_offset = do
  (target, _) ← parse_name full_msg (rdata_offset + 6)
  ok (srv (u16_from p p₁) (u16_from w w₁) (u16_from o o₁) target)
srv_rdata _ full_msg rdata_offset = err (xfr_protocol_error "SRV record RDATA too short")

unfoldable pub caa_rdata : Bytes → Result NetError RecordData
caa_rdata (flags ∷ tag_len ∷ rest) = do
  ensure (leb tag_len (length rest)) (xfr_protocol_error "truncated CAA tag")
  ensure (is_utf8 (take tag_len rest)) (xfr_protocol_error "CAA tag not UTF-8")
  ensure (is_utf8 (drop tag_len rest)) (xfr_protocol_error "CAA value not UTF-8")
  ok (caa flags (take tag_len rest) (drop tag_len rest))
caa_rdata _ = err (xfr_protocol_error "CAA record RDATA too short")

-- The data that is one name.
unfoldable pub name_rdata : (DomainName → RecordData) → Bytes → ℕ → Result NetError RecordData
name_rdata wrap full_msg rdata_offset = do
  (name, _) ← parse_name full_msg rdata_offset
  ok (wrap name)

-- The `match rtype` of `parse_rdata_wire`.
unfoldable pub rdata_of : RecordType → ℕ → Bytes → Bytes → ℕ → Result NetError RecordData
rdata_of a_type v buf msg off = do
  ensure (length buf == 4) (xfr_protocol_error "A record RDATA must be 4 bytes")
  ok (a buf)
rdata_of aaaa_type v buf msg off = do
  ensure (length buf == 16) (xfr_protocol_error "AAAA record RDATA must be 16 bytes")
  ok (aaaa buf)
rdata_of ns_type v buf msg off = name_rdata ns msg off
rdata_of cname_type v buf msg off = name_rdata cname msg off
rdata_of ptr_type v buf msg off = name_rdata ptr msg off
rdata_of mx_type v buf msg off = mx_rdata buf msg off
rdata_of txt_type v buf msg off = txt_strings (length buf) buf >>= λ strings. ok (txt strings)
rdata_of soa_type v buf msg off = soa_rdata msg off
rdata_of srv_type v buf msg off = srv_rdata buf msg off
rdata_of caa_type v buf msg off = caa_rdata buf
rdata_of _ v buf msg off = ok (unknown v buf)

unfoldable pub parse_rdata_wire : ℕ → Bytes → Bytes → ℕ → Result NetError RecordData
parse_rdata_wire rtype_value rdata_buf full_msg rdata_offset =
    rdata_of (type_from_value rtype_value) rtype_value rdata_buf full_msg rdata_offset

-- The ten octets behind the name: type, class, TTL and the length of the data.
unfoldable pub record_fields : Bytes → Option (ℕ × ℕ × ℕ × ℕ)
record_fields (t ∷ t₁ ∷ c ∷ c₁ ∷ l ∷ l₁ ∷ l₂ ∷ l₃ ∷ n ∷ n₁ ∷ rest) =
    some (u16_from t t₁, u16_from c c₁, u32_from l l₁ l₂ l₃, u16_from n n₁)
record_fields _ = none

-- `Ttl::new(..).unwrap_or_else(|_| Ttl::ZERO)`
unfoldable pub ttl_or_zero : ℕ → ℕ
ttl_or_zero value = elim (ttl_new value) [ ok t ↦ t | err e ↦ 0 | stuck ↦ 0 ]

unfoldable pub parse_resource_record : Bytes → ℕ → Result NetError (ResourceRecord × ℕ)
parse_resource_record full_msg offset = do
  (name, name_len) ← parse_name full_msg offset
  let pos = offset + name_len
  (rtype_value, rclass_value, ttl_value, rdlength) ←
      ok_or (record_fields (drop pos full_msg))
        (xfr_protocol_error "truncated resource record header")
  let rdata_offset = pos + 10
  ensure (leb (rdata_offset + rdlength) (length full_msg)) (xfr_protocol_error "truncated RDATA")
  rdata ←
      parse_rdata_wire rtype_value (take rdlength (drop rdata_offset full_msg)) full_msg
        rdata_offset
  ok (
    record {
      name = name;
      class = class_from_value rclass_value;
      ttl = ttl_or_zero ttl_value;
      rdata = rdata;
    },
    name_len + 10 + rdlength,
  )

unfoldable pub resource_record_type_and_len : Bytes → ℕ → Result NetError (ℕ × ℕ)
resource_record_type_and_len message offset = do
  (_, name_len) ← parse_name message offset
  let fixed_offset = offset + name_len
  (rtype, _, _, rdlength) ←
      ok_or (record_fields (drop fixed_offset message))
        (xfr_protocol_error "truncated resource record header")
  let consumed = name_len + 10 + rdlength
  ensure (leb (offset + consumed) (length message))
      (xfr_protocol_error "truncated resource record data")
  ok (rtype, consumed)
