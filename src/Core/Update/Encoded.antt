-- ===== src/Core/Update/Encoded.antt =====
-- What the encoders of an update write is a section
-- (crates/bind9-sdk-core/src/update/message.rs).
use bind9_sdk.Common.{
  ℕ, ◌+◌, ◌^◌, ◌<◌, ◌≡◌, refl, sym, List, [], ◌∷◌, ◌++◌, arith, leb, leb→le, length, All, ok,
  >>=-eq-ok, ensure-eq-ok, ok-injective,
}
use mathlib.Core.List.{append-nil}
use mathlib.Core.Path.{subst, subst₂}
use bind9_sdk.Common.Bytes.{Bytes, u16_bytes}
use bind9_sdk.Core.Domain.{DomainName}
use bind9_sdk.Core.Protocol.{type_value}
use bind9_sdk.Core.Record.{RecordClass, class_value, ResourceRecord}
use bind9_sdk.Core.Rdata.{RecordData}
use bind9_sdk.Core.Update.{
  Prerequisite, rrset_exists, rrset_not_exists, name_exists, name_not_exists,
  rrset_exists_with_data, wire_rr_count, UpdateEntry, add, remove_rrset, remove, remove_name,
}
use bind9_sdk.Core.Update.Rdata.{encode_rdata, encode_rdata_with_length}
use bind9_sdk.Core.Update.Message.{
  rr_octets, empty_rr, encode_with_data, encode_prerequisite, encode_update_entry,
  prerequisite_count, encode_prerequisites, encode_updates,
}
use bind9_sdk.Core.Update.Sections.{
  WireRecord, record_octets, IsWireName, IsRecordType, IsWireRecord, IsPrerequisite, IsUpdateEntry,
  IsSection, IsSection-append,
}

IsSection-nil : IsSection 0 []
IsSection-nil = record { records = []; valid = tt; counted = refl; written = refl }

IsSection-one : (r : WireRecord) → IsWireRecord r → IsSection 1 (record_octets r)
IsSection-one r h = record {
  records = r ∷ [];
  valid = (h, tt);
  counted = refl;
  written = sym (append-nil (record_octets r));
}

-- The data is written behind its length, which fits 16 bits.
pub encode_rdata_with_length-eq-ok :
    (d : RecordData) {bs : Bytes}
    → encode_rdata_with_length d ≡ ok bs
    → (data' : Bytes) × (encode_rdata d ≡ ok data')
      × (length data' < 2 ^ 16)
      × (bs ≡ u16_bytes (length data') ++ data')
unfolding encode_rdata_with_length
encode_rdata_with_length-eq-ok d e =
    let (data', e₁, e₂) = >>=-eq-ok (encode_rdata d) _ e in
    let (short, e₃) = ensure-eq-ok (leb (length data') 65535) _ _ e₂ in
    (data', e₁, omega (arith, leb→le _ _ short), sym (ok-injective e₃))

empty_rr-IsSection :
    (name : DomainName) (rtype class : ℕ)
    → IsWireName name
    → IsRecordType rtype
    → IsSection 1 (empty_rr name rtype class)
unfolding empty_rr
empty_rr-IsSection name rtype class named typed =
    IsSection-one (record { name = name; rtype = rtype; class = class; ttl = 0; rdata = [] })
      (record { named = named; typed = typed; sized = omega arith })

-- A record with the data of a `ResourceRecord`.
rr_octets-IsSection :
    (name : DomainName) (rtype class ttl : ℕ) (d : RecordData) {bs : Bytes}
    → IsWireName name
    → IsRecordType rtype
    → encode_rdata_with_length d ≡ ok bs
    → IsSection 1 (rr_octets name rtype class ttl bs)
rr_octets-IsSection name rtype class ttl d named typed e =
    let (data', _, short, made) = encode_rdata_with_length-eq-ok d e in
    subst (λ x. IsSection 1 (rr_octets name rtype class ttl x)) (sym made)
      (IsSection-one
        (record { name = name; rtype = rtype; class = class; ttl = ttl; rdata = data' })
        (record { named = named; typed = typed; sized = short }))

encode_with_data-IsSection :
    (name : DomainName) (rtype class : ℕ) (rs : List ResourceRecord) {bs : Bytes}
    → IsWireName name
    → IsRecordType rtype
    → encode_with_data name rtype class rs ≡ ok bs
    → IsSection (length rs) bs
unfolding encode_with_data
encode_with_data-IsSection name rtype class [] named typed e =
    subst (IsSection 0) (ok-injective e) IsSection-nil
encode_with_data-IsSection name rtype class (r ∷ rs) named typed e =
    let (bs, e₁, e₂) = >>=-eq-ok (encode_rdata_with_length r.rdata) _ e in
    let (later, e₃, e₄) = >>=-eq-ok (encode_with_data name rtype class rs) _ e₂ in
    subst₂ IsSection (omega arith) (ok-injective e₄) (
      IsSection-append (rr_octets-IsSection name rtype class 0 r.rdata named typed e₁)
        (encode_with_data-IsSection name rtype class rs named typed e₃))

any_type : IsRecordType 255
any_type = omega arith

encode_prerequisite-IsSection :
    (p : Prerequisite) (class : RecordClass) {bs : Bytes}
    → IsPrerequisite p
    → encode_prerequisite p class ≡ ok bs
    → IsSection (wire_rr_count p) bs
unfolding encode_prerequisite wire_rr_count
encode_prerequisite-IsSection (rrset_exists n t) class h e =
    subst (IsSection 1) (ok-injective e) (empty_rr-IsSection n (type_value t) 255 h.0 h.1)
encode_prerequisite-IsSection (rrset_not_exists n t) class h e =
    subst (IsSection 1) (ok-injective e) (empty_rr-IsSection n (type_value t) 254 h.0 h.1)
encode_prerequisite-IsSection (name_exists n) class h e =
    subst (IsSection 1) (ok-injective e) (empty_rr-IsSection n 255 255 h any_type)
encode_prerequisite-IsSection (name_not_exists n) class h e =
    subst (IsSection 1) (ok-injective e) (empty_rr-IsSection n 255 254 h any_type)
encode_prerequisite-IsSection (rrset_exists_with_data n t rs) class h e =
    encode_with_data-IsSection n (type_value t) (class_value class) rs h.0 h.1 e

encode_update_entry-IsSection :
    (u : UpdateEntry) {bs : Bytes}
    → IsUpdateEntry u
    → encode_update_entry u ≡ ok bs
    → IsSection 1 bs
unfolding encode_update_entry
encode_update_entry-IsSection (add rr) h e =
    let (bs, e₁, e₂) = >>=-eq-ok (encode_rdata_with_length rr.rdata) _ e in
    subst (IsSection 1) (ok-injective e₂)
      (rr_octets-IsSection rr.name _ _ rr.ttl rr.rdata h.0 h.1 e₁)
encode_update_entry-IsSection (remove_rrset n t) h e =
    subst (IsSection 1) (ok-injective e) (empty_rr-IsSection n (type_value t) 255 h.0 h.1)
encode_update_entry-IsSection (remove rr) h e =
    let (bs, e₁, e₂) = >>=-eq-ok (encode_rdata_with_length rr.rdata) _ e in
    subst (IsSection 1) (ok-injective e₂) (rr_octets-IsSection rr.name _ 254 0 rr.rdata h.0 h.1 e₁)
encode_update_entry-IsSection (remove_name n) h e =
    subst (IsSection 1) (ok-injective e) (empty_rr-IsSection n 255 255 h any_type)

pub encode_prerequisites-IsSection :
    (ps : List Prerequisite) (class : RecordClass) {bs : Bytes}
    → All IsPrerequisite ps
    → encode_prerequisites ps class ≡ ok bs
    → IsSection (prerequisite_count ps) bs
unfolding encode_prerequisites prerequisite_count
encode_prerequisites-IsSection [] class h e = subst (IsSection 0) (ok-injective e) IsSection-nil
encode_prerequisites-IsSection (p ∷ ps) class h e =
    let (bs, e₁, e₂) = >>=-eq-ok (encode_prerequisite p class) _ e in
    let (later, e₃, e₄) = >>=-eq-ok (encode_prerequisites ps class) _ e₂ in
    subst (IsSection (wire_rr_count p + prerequisite_count ps)) (ok-injective e₄) (
      IsSection-append (encode_prerequisite-IsSection p class h.0 e₁)
        (encode_prerequisites-IsSection ps class h.1 e₃))

pub encode_updates-IsSection :
    (us : List UpdateEntry) {bs : Bytes}
    → All IsUpdateEntry us
    → encode_updates us ≡ ok bs
    → IsSection (length us) bs
unfolding encode_updates
encode_updates-IsSection [] h e = subst (IsSection 0) (ok-injective e) IsSection-nil
encode_updates-IsSection (u ∷ us) h e =
    let (bs, e₁, e₂) = >>=-eq-ok (encode_update_entry u) _ e in
    let (later, e₃, e₄) = >>=-eq-ok (encode_updates us) _ e₂ in
    subst₂ IsSection (omega arith) (ok-injective e₄) (
      IsSection-append (encode_update_entry-IsSection u h.0 e₁)
        (encode_updates-IsSection us h.1 e₃))
