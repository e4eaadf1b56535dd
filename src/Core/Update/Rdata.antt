-- ===== src/Core/Update/Rdata.antt =====
-- Record data in the wire format: `encode_rdata`, `encode_rdata_with_length` and
-- `rdata_type_value` in crates/bind9-sdk-core/src/update/message.rs. A function returns the octets
-- that the code appends to the message; an error drops the message.
use bind9_sdk.Common.{ℕ, List, [], ◌∷◌, ◌++◌, leb, length, Result, ok, ◌>>=◌, ◌>>◌, ensure}
use bind9_sdk.Common.Bytes.{Bytes, u16_bytes, u32_bytes}
use bind9_sdk.Errors.{CoreError, invalid_record}
use bind9_sdk.Core.Domain.{write_wire}
use bind9_sdk.Core.Rdata.{
  RecordData, a, aaaa, cname, ns, ptr, soa, mx, txt, srv, caa, dnskey, rrsig, nsec, nsec3, ds, cds,
  cdnskey, tlsa, sshfp, csync, nsec3param, dlv, rp, unknown,
}

unfoldable pub rdata_type_value : RecordData → ℕ
rdata_type_value (a _) = 1
rdata_type_value (aaaa _) = 28
rdata_type_value (cname _) = 5
rdata_type_value (ns _) = 2
rdata_type_value (ptr _) = 12
rdata_type_value (soa _ _ _ _ _ _ _) = 6
rdata_type_value (mx _ _) = 15
rdata_type_value (txt _) = 16
rdata_type_value (srv _ _ _ _) = 33
rdata_type_value (caa _ _ _) = 257
rdata_type_value (dnskey _ _ _ _) = 48
rdata_type_value (rrsig _ _ _ _ _ _ _ _ _) = 46
rdata_type_value (nsec _ _) = 47
rdata_type_value (nsec3 _ _ _ _ _ _) = 50
rdata_type_value (ds _ _ _ _) = 43
rdata_type_value (cds _ _ _ _) = 59
rdata_type_value (cdnskey _ _ _ _) = 60
rdata_type_value (tlsa _ _ _ _) = 52
rdata_type_value (sshfp _ _ _) = 44
rdata_type_value (csync _ _ _) = 62
rdata_type_value (rp _ _) = 17
rdata_type_value (nsec3param _ _ _ _) = 51
rdata_type_value (dlv _ _ _ _) = 32769
rdata_type_value (unknown rtype _) = rtype

-- Octets behind their number, which `u8::try_from` makes an octet.
unfoldable pub encode_counted : Bytes → CoreError → Result CoreError Bytes
encode_counted bytes e = do ensure (leb (length bytes) 255) e; ok (length bytes ∷ bytes)

-- The loop over the character-strings of a TXT record.
unfoldable pub encode_strings : List Bytes → Result CoreError Bytes
unfolding encode_counted
encode_strings [] = ok []
encode_strings (s ∷ strings) = do
  here ← encode_counted s (invalid_record "TXT character-string exceeds 255 bytes")
  later ← encode_strings strings
  ok (here ++ later)

unfoldable pub encode_rdata : RecordData → Result CoreError Bytes
unfolding encode_counted
encode_rdata (a addr) = ok addr
encode_rdata (aaaa addr) = ok addr
encode_rdata (cname name) = ok (write_wire name)
encode_rdata (ns name) = ok (write_wire name)
encode_rdata (ptr name) = ok (write_wire name)
encode_rdata (soa mname rname serial refresh retry expire minimum) = ok (
    write_wire mname
    ++ (write_wire rname
        ++ (u32_bytes serial
            ++ (u32_bytes refresh
                ++ (u32_bytes retry ++ (u32_bytes expire ++ u32_bytes minimum))))))
encode_rdata (mx preference exchange) = ok (u16_bytes preference ++ write_wire exchange)
encode_rdata (txt strings) = encode_strings strings
encode_rdata (srv priority weight port target) =
    ok (u16_bytes priority ++ (u16_bytes weight ++ (u16_bytes port ++ write_wire target)))
encode_rdata (caa flags tag value) = do
  counted_tag ← encode_counted tag (invalid_record "CAA tag exceeds 255 bytes")
  ok (flags ∷ (counted_tag ++ value))
encode_rdata (unknown _ rdata) = ok rdata
encode_rdata (dnskey flags protocol algorithm public_key) =
    ok (u16_bytes flags ++ (protocol ∷ algorithm ∷ public_key))
encode_rdata (ds key_tag algorithm digest_type digest) =
    ok (u16_bytes key_tag ++ (algorithm ∷ digest_type ∷ digest))
encode_rdata (cds key_tag algorithm digest_type digest) =
    ok (u16_bytes key_tag ++ (algorithm ∷ digest_type ∷ digest))
encode_rdata
      (rrsig type_covered algorithm labels ttl expiration inception key_tag signer signature) =
    ok (
      u16_bytes type_covered
      ++ (algorithm
          ∷ labels
          ∷ (u32_bytes ttl
              ++ (u32_bytes expiration
                  ++ (u32_bytes inception
                      ++ (u16_bytes key_tag ++ (write_wire signer ++ signature)))))))
encode_rdata (nsec next_domain type_bitmaps) = ok (write_wire next_domain ++ type_bitmaps)
encode_rdata (nsec3 hash_algorithm flags iterations salt next_hashed_owner type_bitmaps) = do
  counted_salt ← encode_counted salt (invalid_record "NSEC3 salt exceeds 255 bytes")
  counted_owner ←
      encode_counted next_hashed_owner (invalid_record "NSEC3 next hashed owner exceeds 255 bytes")
  ok (
      hash_algorithm
      ∷ flags
      ∷ (u16_bytes iterations ++ (counted_salt ++ (counted_owner ++ type_bitmaps))))
encode_rdata (cdnskey flags protocol algorithm public_key) =
    ok (u16_bytes flags ++ (protocol ∷ algorithm ∷ public_key))
encode_rdata (tlsa usage selector matching_type certificate_data) =
    ok (usage ∷ selector ∷ matching_type ∷ certificate_data)
encode_rdata (sshfp algorithm fp_type fingerprint) = ok (algorithm ∷ fp_type ∷ fingerprint)
encode_rdata (csync soa_serial flags type_bitmaps) =
    ok (u32_bytes soa_serial ++ (u16_bytes flags ++ type_bitmaps))
encode_rdata (rp mbox text) = ok (write_wire mbox ++ write_wire text)
encode_rdata (nsec3param hash_algorithm flags iterations salt) = do
  counted_salt ← encode_counted salt (invalid_record "NSEC3PARAM salt exceeds 255 bytes")
  ok (hash_algorithm ∷ flags ∷ (u16_bytes iterations ++ counted_salt))
encode_rdata (dlv key_tag algorithm digest_type digest) =
    ok (u16_bytes key_tag ++ (algorithm ∷ digest_type ∷ digest))

-- The data behind its length.
unfoldable pub encode_rdata_with_length : RecordData → Result CoreError Bytes
encode_rdata_with_length rdata = do
  bytes ← encode_rdata rdata
  ensure (leb (length bytes) 65535) (invalid_record "RDATA length exceeds 65535 bytes")
  ok (u16_bytes (length bytes) ++ bytes)
