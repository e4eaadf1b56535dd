-- ===== src/Core/Tsig/RoundTrip.antt =====
-- `parse_from_wire` on the records that `TsigRecord::new` writes
-- (crates/bind9-sdk-core/src/tsig/record.rs).
use bind9_sdk.Common.{
  ℕ, ◌+◌, ◌^◌, ◌≤◌, ◌<◌, ◌≡◌, refl, sym, ap, List, [], ◌∷◌, ◌++◌, arith, map, true, length,
  length-append, All, ok, Option,
}
use mathlib.Core.Path.{subst}
use bind9_sdk.Common.Bytes.{
  Bytes, IsByte, u16_bytes, u32_bytes, equal, join_dots, to_ascii_lowercase,
}
use bind9_sdk.Core.Domain.Equality.{lower}
use bind9_sdk.Core.Domain.{
  Label, DomainName, name_eq, wire_len, write_wire_canonical, write_labels_canonical, domain_new,
}
use bind9_sdk.Core.Domain.Plain.{
  IsPlainLabel, lowered_labels, lowered, lowered-IsName, name_eq-lowered, domain_new-join_dots,
}
use bind9_sdk.Core.Tsig.{
  TsigAlgorithm, hmac_sha256, hmac_sha512, hmac_sha1, Hmac, IsHmac, TsigKey, mac_length, key_length,
}
use bind9_sdk.Core.Tsig.Record.{
  TsigRecord, u48_bytes, tsig_rdata, tsig_wire, default_fudge, message_id, tsig_new,
}
use bind9_sdk.Core.Tsig.Wire.{algorithm_of, read_wire_name, parse_from_wire}
use bind9_sdk.Core.Tsig.Made.{algorithm_domain, made_record, IsMade, tsig_new-IsMade}
use bind9_sdk.Core.Tsig.Fields.{tsig_header-wire, tsig_fields-rdata}
use bind9_sdk.Core.Tsig.Names.{dotted, read_wire_name-canonical}

algorithm_domain-IsPlainLabel : (a : TsigAlgorithm) → All IsPlainLabel (algorithm_domain a).labels
algorithm_domain-IsPlainLabel hmac_sha256 = omega arith
algorithm_domain-IsPlainLabel hmac_sha512 = omega arith
algorithm_domain-IsPlainLabel hmac_sha1 = omega arith

algorithm_of-dotted :
    (a : TsigAlgorithm) → algorithm_of (dotted (lowered_labels (algorithm_domain a).labels)) ≡ ok a
unfolding algorithm_of join_dots equal to_ascii_lowercase
algorithm_of-dotted hmac_sha256 = refl
algorithm_of-dotted hmac_sha512 = refl
algorithm_of-dotted hmac_sha1 = refl

algorithm_domain_len : (a : TsigAlgorithm) → length (write_wire_canonical (algorithm_domain a)) ≤ 13
unfolding write_wire_canonical write_labels_canonical
algorithm_domain_len hmac_sha256 = omega arith
algorithm_domain_len hmac_sha512 = omega arith
algorithm_domain_len hmac_sha1 = omega arith

message_id-lt : (message : Bytes) → All IsByte message → message_id message < 2 ^ 16
unfolding message_id
message_id-lt [] h = omega arith
message_id-lt (a ∷ []) h = omega arith
message_id-lt (a ∷ b ∷ rest) h = omega (arith, h.0, h.1.0)

tsig_rdata_len :
    (a : TsigAlgorithm) (time fudge : ℕ) (mac : Bytes) (id : ℕ)
    → length (tsig_rdata (algorithm_domain a) time fudge mac id 0) ≤ 29 + length mac
unfolding tsig_rdata
tsig_rdata_len a time fudge mac id = omega (
  arith,
  algorithm_domain_len a,
  length-append (write_wire_canonical (algorithm_domain a)) (
      u48_bytes time
      ++ (u16_bytes fudge
          ++ (u16_bytes (length mac) ++ (mac ++ (u16_bytes id ++ (u16_bytes 0 ++ u16_bytes 0)))))),
  length-append mac (u16_bytes id ++ (u16_bytes 0 ++ u16_bytes 0)),
)

lowered_texts :
    (ls : List Label)
    → map (λ l. l.inner) (lowered_labels ls) ≡ map (λ l. l.wire) (lowered_labels ls)
lowered_texts [] = refl
lowered_texts (l ∷ ls) = ap (◌∷◌ (lower l.wire)) (lowered_texts ls)

domain_new-dotted :
    (name : DomainName)
    → All IsPlainLabel name.labels
    → wire_len name ≤ 255
    → domain_new (dotted (lowered_labels name.labels)) ≡ ok (lowered name)
domain_new-dotted name h fits =
    subst (λ ws. domain_new (join_dots ws ++ (b'.' ∷ [])) ≡ ok (lowered name))
      (lowered_texts name.labels)
      (domain_new-join_dots (lowered_labels name.labels) (lowered-IsName name h fits))

-- What stands behind the owner, and behind the name of the algorithm.
abbrev behind_owner : Bytes → Bytes
behind_owner rdata =
    u16_bytes 250 ++ (u16_bytes 255 ++ (u32_bytes 0 ++ (u16_bytes (length rdata) ++ rdata)))

abbrev behind_algorithm : ℕ → ℕ → Bytes → ℕ → Bytes
behind_algorithm time fudge mac id =
    u48_bytes time
    ++ (u16_bytes fudge
        ++ (u16_bytes (length mac) ++ (mac ++ (u16_bytes id ++ (u16_bytes 0 ++ u16_bytes 0)))))

owner_read :
    (name : DomainName) (rdata : Bytes)
    → All IsPlainLabel name.labels
    → read_wire_name (tsig_wire name rdata)
      ≡ ok (dotted (lowered_labels name.labels), behind_owner rdata)
unfolding tsig_wire
owner_read name rdata h = read_wire_name-canonical name (behind_owner rdata) h

algorithm_read :
    (a : TsigAlgorithm) (time fudge : ℕ) (mac : Bytes) (id : ℕ)
    → read_wire_name (tsig_rdata (algorithm_domain a) time fudge mac id 0)
      ≡ ok (dotted (lowered_labels (algorithm_domain a).labels), behind_algorithm time fudge mac id)
unfolding tsig_rdata
algorithm_read a time fudge mac id =
    read_wire_name-canonical (algorithm_domain a) (behind_algorithm time fudge mac id)
      (algorithm_domain-IsPlainLabel a)

-- A record in wire form, whose parts are in range, is read back.
parse_from_wire-tsig_wire :
    (name : DomainName) (a : TsigAlgorithm) (time fudge : ℕ) (mac : Bytes) (id : ℕ)
    → All IsPlainLabel name.labels
    → wire_len name ≤ 255
    → time < 2 ^ 48
    → fudge < 2 ^ 16
    → length mac ≤ 64
    → id < 2 ^ 16
    → (let wire = tsig_wire name (tsig_rdata (algorithm_domain a) time fudge mac id 0) in
        parse_from_wire wire
        ≡ ok (record {
          key_name = lowered name;
          algorithm = a;
          time_signed = time;
          fudge = fudge;
          mac = mac;
          original_id = id;
          error = 0;
          other_data = [];
          wire_bytes = wire;
        }))
unfolding parse_from_wire
parse_from_wire-tsig_wire name a time fudge mac id h fits ht hf hm hi =
    let rdata = tsig_rdata (algorithm_domain a) time fudge mac id 0 in
    let header = tsig_header-wire rdata (omega (arith, tsig_rdata_len a time fudge mac id)) in
    rw (
      owner_read name rdata h,
      domain_new-dotted name h fits,
      header,
      algorithm_read a time fudge mac id,
      algorithm_of-dotted a,
      tsig_fields-rdata (tsig_wire name rdata) (lowered name) a time fudge mac id ht hf
          (omega arith) hi,
    )

pub mac_length_bound : (a : TsigAlgorithm) → mac_length a ≤ 64
unfolding mac_length key_length
mac_length_bound hmac_sha256 = omega arith
mac_length_bound hmac_sha512 = omega arith
mac_length_bound hmac_sha1 = omega arith

-- The record of a key without escapes, made for a message whose ID is two octets.
pub parse_from_wire-IsMade :
    (h : Hmac) (key : TsigKey) (message : Bytes) (timestamp : ℕ) (request_mac : Option Bytes)
    {r : TsigRecord}
    → IsHmac h
    → All IsPlainLabel key.name.labels
    → wire_len key.name ≤ 255
    → message_id message < 2 ^ 16
    → IsMade h key message timestamp request_mac r
    → parse_from_wire r.wire_bytes ≡ ok (record r { key_name = lowered key.name })
parse_from_wire-IsMade h key message timestamp request_mac law plain fits id m =
    let a = key.algorithm in
    let digest_len = law.sized a key.key_material in
    subst (λ r. parse_from_wire r.wire_bytes ≡ ok (record r { key_name = lowered key.name })) m.same
      (parse_from_wire-tsig_wire key.name a timestamp default_fudge _ (message_id message) plain
        fits m.in_time (omega arith) (omega (arith, digest_len _, mac_length_bound a)) id)

-- The wire form of the record that is made.
pub wire_bytes-IsMade :
    (h : Hmac) (key : TsigKey) (message : Bytes) (timestamp : ℕ) (request_mac : Option Bytes)
    {r : TsigRecord}
    → IsHmac h
    → IsMade h key message timestamp request_mac r
    → (rdata : Bytes) × (r.wire_bytes ≡ tsig_wire key.name rdata) × (length rdata < 2 ^ 16)
wire_bytes-IsMade h key message timestamp request_mac law m =
    let a = key.algorithm in
    let mac = (made_record h key message timestamp request_mac).mac in
    let short = tsig_rdata_len a timestamp default_fudge mac (message_id message) in
    (
      tsig_rdata (algorithm_domain a) timestamp default_fudge mac (message_id message) 0,
      ap (λ r. r.wire_bytes) (sym m.same),
      omega (arith, short, law.sized a key.key_material _, mac_length_bound a),
    )

-- A record that `TsigRecord::new` makes for a key, whose name has 255 octets at most and labels of 1
-- to 63 printable characters that need no escape, is read back from its wire form: every field is
-- the same, but that the name of the key is in lower case, and so equal to it.
pub parse_from_wire-tsig_new :
    (h : Hmac) (key : TsigKey) (message : Bytes) (timestamp : ℕ) (request_mac : Option Bytes)
    {r : TsigRecord}
    → IsHmac h
    → All IsPlainLabel key.name.labels
    → wire_len key.name ≤ 255
    → All IsByte message
    → tsig_new h key message timestamp request_mac ≡ ok r
    → (parse_from_wire r.wire_bytes ≡ ok (record r { key_name = lowered key.name }))
      × (r.key_name ≡ key.name)
      × (name_eq (lowered key.name) key.name ≡ true)
parse_from_wire-tsig_new h key message timestamp request_mac law plain fits octets made =
    let m = tsig_new-IsMade h key message timestamp request_mac made in
    (
      parse_from_wire-IsMade h key message timestamp request_mac law plain fits
          (message_id-lt message octets) m,
      ap (λ r. r.key_name) (sym m.same),
      name_eq-lowered key.name,
    )
