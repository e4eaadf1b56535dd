-- ===== src/Core/Update/Sections.antt =====
-- The sections of an update message as sequences of resource records
-- (crates/bind9-sdk-core/src/update/message.rs).
use bind9_sdk.Common.{
  ℕ, ◌+◌, ◌^◌, ◌≤◌, ◌<◌, ◌≡◌, ◌≢◌, refl, sym, ap, ◌∙◌, List, [], ◌∷◌, ◌++◌, arith, length,
  length-append, All, All-append,
}
use mathlib.Core.List.{append_assoc}
use bind9_sdk.Common.Bytes.{Bytes, u16_bytes}
use bind9_sdk.Core.Domain.{DomainName, wire_len}
use bind9_sdk.Core.Domain.Labels.{IsLabel}
use bind9_sdk.Core.Protocol.{type_value}
use bind9_sdk.Core.Update.{
  Prerequisite, rrset_exists, rrset_not_exists, name_exists, name_not_exists,
  rrset_exists_with_data, UpdateEntry, add, remove_rrset, remove, remove_name,
}
use bind9_sdk.Core.Update.Rdata.{rdata_type_value}
use bind9_sdk.Core.Update.Message.{rr_octets}

-- A resource record in the wire format.
pub record WireRecord : Type 0 where
  pub name : DomainName
  pub rtype : ℕ
  pub class : ℕ
  pub ttl : ℕ
  pub rdata : Bytes

abbrev pub record_octets : WireRecord → Bytes
record_octets r = rr_octets r.name r.rtype r.class r.ttl (u16_bytes (length r.rdata) ++ r.rdata)

abbrev pub section_octets : List WireRecord → Bytes
section_octets [] = []
section_octets (r ∷ rs) = record_octets r ++ section_octets rs

pub section_octets-append :
    (rs ss : List WireRecord) → section_octets (rs ++ ss) ≡ section_octets rs ++ section_octets ss
section_octets-append [] ss = refl
section_octets-append (r ∷ rs) ss =
    ap (λ x. record_octets r ++ x) (section_octets-append rs ss)
    ∙ sym (append_assoc (record_octets r) (section_octets rs) (section_octets ss))

-- A name that the wire format can hold.
pub record IsWireName (n : DomainName) : Type 0 where
  pub labels : All IsLabel n.labels
  pub fits : wire_len n ≤ 255

-- A type that is 16 bits and not that of TSIG.
abbrev pub IsRecordType : ℕ → Type 0
IsRecordType t = (t < 2 ^ 16) × (t ≢ 250)

pub record IsWireRecord (r : WireRecord) : Type 0 where
  pub named : IsWireName r.name
  pub typed : IsRecordType r.rtype
  pub sized : length r.rdata < 2 ^ 16

-- What a builder may be asked to write.
abbrev pub IsPrerequisite : Prerequisite → Type 0
IsPrerequisite (rrset_exists name rtype) = IsWireName name × IsRecordType (type_value rtype)
IsPrerequisite (rrset_not_exists name rtype) = IsWireName name × IsRecordType (type_value rtype)
IsPrerequisite (name_exists name) = IsWireName name
IsPrerequisite (name_not_exists name) = IsWireName name
IsPrerequisite (rrset_exists_with_data name rtype records) =
    IsWireName name × IsRecordType (type_value rtype)

abbrev pub IsUpdateEntry : UpdateEntry → Type 0
IsUpdateEntry (add rr) = IsWireName rr.name × IsRecordType (rdata_type_value rr.rdata)
IsUpdateEntry (remove_rrset name rtype) = IsWireName name × IsRecordType (type_value rtype)
IsUpdateEntry (remove rr) = IsWireName rr.name × IsRecordType (rdata_type_value rr.rdata)
IsUpdateEntry (remove_name name) = IsWireName name

-- The octets are those of `n` records.
pub record IsSection (n : ℕ) (octets : Bytes) : Type 0 where
  pub records : List WireRecord
  pub valid : All IsWireRecord records
  pub counted : length records ≡ n
  pub written : octets ≡ section_octets records

pub IsSection-append :
    {m n : ℕ} {xs ys : Bytes} → IsSection m xs → IsSection n ys → IsSection (m + n) (xs ++ ys)
IsSection-append {xs} {ys} s t = record {
  records = s.records ++ t.records;
  valid = All-append IsWireRecord s.records t.records s.valid t.valid;
  counted = omega (arith, s.counted, t.counted, length-append s.records t.records);
  written =
      ap (λ x. x ++ ys) s.written
      ∙ ap (λ y. section_octets s.records ++ y) t.written
      ∙ sym (section_octets-append s.records t.records);
}
