-- ===== src/Core/Tsig/Fields.antt =====
-- The header and the fields of a record, as `parse_from_wire` reads them
-- (crates/bind9-sdk-core/src/tsig/record.rs).
use bind9_sdk.Common.{
  ℕ, ◌+◌, ◌*◌, ◌/◌, ◌%◌, ◌^◌, ◌<◌, ◌≡◌, refl, [], ◌++◌, arith, length, length-append, ok, String,
  le→leb, take-append_length, drop-append_length, ==_iff,
}
use bind9_sdk.Common.Bytes.{Bytes, u16_bytes, u32_bytes, u16_from, u16_from-bytes, u32_from}
use bind9_sdk.Core.Domain.{DomainName}
use bind9_sdk.Core.Tsig.{TsigAlgorithm}
use bind9_sdk.Core.Tsig.Record.{u48_bytes}
use bind9_sdk.Core.Tsig.Wire.{read_octets, tsig_header, tsig_fields}

-- The header in front of data of any length that its length field can hold.
pub tsig_header-wire :
    (rdata : Bytes)
    → length rdata < 2 ^ 16
    → tsig_header
        (u16_bytes 250 ++ (u16_bytes 255 ++ (u32_bytes 0 ++ (u16_bytes (length rdata) ++ rdata))))
      ≡ ok rdata
unfolding tsig_header
tsig_header-wire rdata h = rw (
  u16_from-bytes (length rdata) h,
  le→leb (length rdata) (length rdata) (omega arith),
  (==_iff (length rdata) (length rdata)).1 refl,
)

u48_from-bytes :
    (t : ℕ)
    → t < 2 ^ 48
    → u16_from (t / 1099511627776 % 256) (t / 4294967296 % 256) * 4294967296
        + u32_from (t / 16777216 % 256) (t / 65536 % 256) (t / 256 % 256) (t % 256)
      ≡ t
u48_from-bytes t h = omega arith

read_octets-append :
    (text : String) (w rest : Bytes) → read_octets text (length w) (w ++ rest) ≡ ok (w, rest)
unfolding read_octets
read_octets-append text w rest = rw (
  le→leb (length w) (length (w ++ rest)) (omega (arith, length-append w rest)),
  take-append_length w rest,
  drop-append_length w rest,
)

-- The fields that `tsig_rdata` writes behind the name of the algorithm.
pub tsig_fields-rdata :
    (wire : Bytes) (name : DomainName) (a : TsigAlgorithm) (time fudge : ℕ) (mac : Bytes) (id : ℕ)
    → time < 2 ^ 48
    → fudge < 2 ^ 16
    → length mac < 2 ^ 16
    → id < 2 ^ 16
    → tsig_fields wire name a (
        u48_bytes time
        ++ (u16_bytes fudge
            ++ (u16_bytes (length mac) ++ (mac ++ (u16_bytes id ++ (u16_bytes 0 ++ u16_bytes 0))))))
      ≡ ok (record {
        key_name = name;
        algorithm = a;
        time_signed = time;
        fudge = fudge;
        mac = mac;
        original_id = id;
        error = 0;
        other_data = [];
        wire_bytes = wire;
      })
unfolding tsig_fields
tsig_fields-rdata wire name a time fudge mac id ht hf hm hi = rw (
  u48_from-bytes time ht,
  u16_from-bytes fudge hf,
  u16_from-bytes (length mac) hm,
  read_octets-append "truncated TSIG MAC" mac (u16_bytes id ++ (u16_bytes 0 ++ u16_bytes 0)),
  u16_from-bytes id hi,
  read_octets-append "truncated TSIG other_data" [] [],
)
