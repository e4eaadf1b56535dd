-- ===== src/Core/Rdata.antt =====
-- Typed record data: crates/bind9-sdk-core/src/rdata/mod.rs.
-- An address is its octets, a TTL and a serial their values, a text the list of its bytes.
pub mod Equality
use bind9_sdk.Common.{
  ℕ, ◌+◌, Bool, true, false, ◌&&◌, List, [], ◌∷◌, map, ltb, ◌==◌, if◌then◌else◌, length, Result, ok,
  err,
}
use bind9_sdk.Common.Bytes.{Bytes, equal}
use bind9_sdk.Errors.{CoreError, invalid_record}
use bind9_sdk.Core.Domain.{DomainName, name_eq}

-- `TxtString::new`
unfoldable pub txt_string_new : Bytes → Result CoreError Bytes
txt_string_new bytes =
    if ltb 255 (length bytes)
    then err (invalid_record "TXT character-string exceeds 255 bytes")
    else ok bytes

pub data RecordData : Type 0 where
  a : Bytes → RecordData
  aaaa : Bytes → RecordData
  cname : DomainName → RecordData
  ns : DomainName → RecordData
  ptr : DomainName → RecordData
  -- mname, rname, serial, refresh, retry, expire, minimum
  soa : DomainName → DomainName → ℕ → ℕ → ℕ → ℕ → ℕ → RecordData
  -- preference, exchange
  mx : ℕ → DomainName → RecordData
  txt : List Bytes → RecordData
  -- priority, weight, port, target
  srv : ℕ → ℕ → ℕ → DomainName → RecordData
  -- flags, tag, value
  caa : ℕ → Bytes → Bytes → RecordData
  -- flags, protocol, algorithm, public_key
  dnskey : ℕ → ℕ → ℕ → Bytes → RecordData
  -- type_covered, algorithm, labels, original_ttl, expiration, inception, key_tag, signer, signature
  rrsig : ℕ → ℕ → ℕ → ℕ → ℕ → ℕ → ℕ → DomainName → Bytes → RecordData
  -- next_domain, type_bitmaps
  nsec : DomainName → Bytes → RecordData
  -- hash_algorithm, flags, iterations, salt, next_hashed_owner, type_bitmaps
  nsec3 : ℕ → ℕ → ℕ → Bytes → Bytes → Bytes → RecordData
  -- key_tag, algorithm, digest_type, digest
  ds : ℕ → ℕ → ℕ → Bytes → RecordData
  cds : ℕ → ℕ → ℕ → Bytes → RecordData
  -- flags, protocol, algorithm, public_key
  cdnskey : ℕ → ℕ → ℕ → Bytes → RecordData
  -- usage, selector, matching_type, certificate_data
  tlsa : ℕ → ℕ → ℕ → Bytes → RecordData
  -- algorithm, fp_type, fingerprint
  sshfp : ℕ → ℕ → Bytes → RecordData
  -- soa_serial, flags, type_bitmaps
  csync : ℕ → ℕ → Bytes → RecordData
  -- hash_algorithm, flags, iterations, salt
  nsec3param : ℕ → ℕ → ℕ → Bytes → RecordData
  -- key_tag, algorithm, digest_type, digest
  dlv : ℕ → ℕ → ℕ → Bytes → RecordData
  -- mbox, txt
  rp : DomainName → DomainName → RecordData
  -- rtype, rdata
  unknown : ℕ → Bytes → RecordData

-- The derived `PartialEq` compares the variants, then the fields in order, each by the equality of
-- its type: for names that is `name_eq`, which ignores case.
pub data RdataField : Type 0 where
  number : ℕ → RdataField
  octets : Bytes → RdataField
  name : DomainName → RdataField

unfoldable pub field_eq : RdataField → RdataField → Bool
field_eq (number m) (number n) = m == n
field_eq (octets x) (octets y) = equal x y
field_eq (name m) (name n) = name_eq m n
field_eq _ _ = false

unfoldable pub fields_eq : List RdataField → List RdataField → Bool
unfolding field_eq
fields_eq [] [] = true
fields_eq (x ∷ xs) (y ∷ ys) = field_eq x y && fields_eq xs ys
fields_eq _ _ = false

unfoldable pub variant : RecordData → ℕ
variant (a _) = 0
variant (aaaa _) = 1
variant (cname _) = 2
variant (ns _) = 3
variant (ptr _) = 4
variant (soa _ _ _ _ _ _ _) = 5
variant (mx _ _) = 6
variant (txt _) = 7
variant (srv _ _ _ _) = 8
variant (caa _ _ _) = 9
variant (dnskey _ _ _ _) = 10
variant (rrsig _ _ _ _ _ _ _ _ _) = 11
variant (nsec _ _) = 12
variant (nsec3 _ _ _ _ _ _) = 13
variant (ds _ _ _ _) = 14
variant (cds _ _ _ _) = 15
variant (cdnskey _ _ _ _) = 16
variant (tlsa _ _ _ _) = 17
variant (sshfp _ _ _) = 18
variant (csync _ _ _) = 19
variant (nsec3param _ _ _ _) = 20
variant (dlv _ _ _ _) = 21
variant (rp _ _) = 22
variant (unknown _ _) = 23

unfoldable pub fields : RecordData → List RdataField
fields (a x) = octets x ∷ []
fields (aaaa x) = octets x ∷ []
fields (cname n) = name n ∷ []
fields (ns n) = name n ∷ []
fields (ptr n) = name n ∷ []
fields (soa m r serial refresh retry expire minimum) =
    name m
    ∷ name r
    ∷ number serial
    ∷ number refresh
    ∷ number retry
    ∷ number expire
    ∷ number minimum
    ∷ []
fields (mx p n) = number p ∷ name n ∷ []
fields (txt strings) = map octets strings
fields (srv p w port n) = number p ∷ number w ∷ number port ∷ name n ∷ []
fields (caa f tag value) = number f ∷ octets tag ∷ octets value ∷ []
fields (dnskey f p alg key) = number f ∷ number p ∷ number alg ∷ octets key ∷ []
fields (rrsig t alg l ttl expiration inception tag n sig) =
    number t
    ∷ number alg
    ∷ number l
    ∷ number ttl
    ∷ number expiration
    ∷ number inception
    ∷ number tag
    ∷ name n
    ∷ octets sig
    ∷ []
fields (nsec n bitmaps) = name n ∷ octets bitmaps ∷ []
fields (nsec3 h f i salt owner bitmaps) =
    number h ∷ number f ∷ number i ∷ octets salt ∷ octets owner ∷ octets bitmaps ∷ []
fields (ds tag alg kind digest) = number tag ∷ number alg ∷ number kind ∷ octets digest ∷ []
fields (cds tag alg kind digest) = number tag ∷ number alg ∷ number kind ∷ octets digest ∷ []
fields (cdnskey f p alg key) = number f ∷ number p ∷ number alg ∷ octets key ∷ []
fields (tlsa u s m cert) = number u ∷ number s ∷ number m ∷ octets cert ∷ []
fields (sshfp alg kind print) = number alg ∷ number kind ∷ octets print ∷ []
fields (csync serial f bitmaps) = number serial ∷ number f ∷ octets bitmaps ∷ []
fields (nsec3param h f i salt) = number h ∷ number f ∷ number i ∷ octets salt ∷ []
fields (dlv tag alg kind digest) = number tag ∷ number alg ∷ number kind ∷ octets digest ∷ []
fields (rp mbox text) = name mbox ∷ name text ∷ []
fields (unknown t data') = number t ∷ octets data' ∷ []

unfoldable pub rdata_eq : RecordData → RecordData → Bool
unfolding fields_eq variant fields
rdata_eq x y = variant x == variant y && fields_eq (fields x) (fields y)

-- `matches!(rdata, RecordData::Soa { .. })`
unfoldable pub is_soa_data : RecordData → Bool
is_soa_data (soa _ _ _ _ _ _ _) = true
is_soa_data _ = false
