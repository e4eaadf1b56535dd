-- ===== src/Net/Wire/Extent.antt =====
-- `parse_resource_record` and `resource_record_type_and_len`
-- (crates/bind9-sdk-net/src/transfer/wire.rs) on any message.
use bind9_sdk.Common.{
  ℕ, zero, suc, ◌+◌, ◌≤◌, ◌≡◌, ◌≢◌, ap, ◌∙◌, some, [], ◌∷◌, arith, leb, leb→le, le→leb, length,
  length-drop, take, drop, ◌==◌, ok, stuck, >>=-eq-ok, ok-injective, ok_or, ok_or-eq-ok,
  ensure-eq-ok, >>=-ne-stuck, ok_or-ne-stuck, ensure-ne-stuck, map_err-ne-stuck, map_err,
}
use mathlib.Core.Path.{subst}
use bind9_sdk.Common.Bytes.{Bytes}
use bind9_sdk.Common.Utf8.{is_utf8}
use bind9_sdk.Errors.{CoreError, NetError}
use bind9_sdk.Core.Domain.{DomainName}
use bind9_sdk.Core.Domain.Names.{IsName}
use bind9_sdk.Core.Rdata.{RecordData, txt_string_new}
use bind9_sdk.Core.Record.{ResourceRecord, ttl_new}
use bind9_sdk.Core.Protocol.{
  RecordType, a_type, aaaa_type, ns_type, cname_type, ptr_type, mx_type, txt_type, soa_type,
  srv_type, caa_type, type_from_value,
}
use bind9_sdk.Net.Wire.{parse_name}
use bind9_sdk.Net.Wire.Bounds.{parse_name-ne-stuck, parse_name-IsName}
use bind9_sdk.Net.Wire.Record.{
  txt_strings, soa_numbers, soa_rdata, mx_rdata, srv_rdata, caa_rdata, name_rdata, rdata_of,
  parse_rdata_wire, record_fields, ttl_or_zero, parse_resource_record, resource_record_type_and_len,
}

txt_string_new-ne-stuck : (bs : Bytes) → txt_string_new bs ≢ stuck
unfolding txt_string_new
txt_string_new-ne-stuck bs h = ground arith

ttl_new-ne-stuck : (v : ℕ) → ttl_new v ≢ stuck
unfolding ttl_new
ttl_new-ne-stuck v h = ground arith

txt_strings-ne-stuck : (fuel : ℕ) (bs : Bytes) → length bs ≤ fuel → txt_strings fuel bs ≢ stuck
unfolding txt_strings
txt_strings-ne-stuck fuel [] h = λ p. cc
txt_strings-ne-stuck zero (b ∷ bs) h = absurd (omega arith)
txt_strings-ne-stuck (suc fuel) (n ∷ bs) h = ensure-ne-stuck (leb n (length bs)) _ _ (
    >>=-ne-stuck _ _ (map_err-ne-stuck _ _ (txt_string_new-ne-stuck (take n bs))) λ s e.
      >>=-ne-stuck (txt_strings fuel (drop n bs)) _
        (txt_strings-ne-stuck fuel (drop n bs) (omega (arith, length-drop n bs))) λ ss e' p. cc)

ttl-ne-stuck : (v : ℕ) (f : CoreError → NetError) → map_err f (ttl_new v) ≢ stuck
ttl-ne-stuck v f = map_err-ne-stuck _ f (ttl_new-ne-stuck v)

soa_rdata-ne-stuck : (msg : Bytes) (off : ℕ) → soa_rdata msg off ≢ stuck
unfolding soa_rdata
soa_rdata-ne-stuck msg off =
    >>=-ne-stuck (parse_name msg off) _ (parse_name-ne-stuck msg off) λ (m, m_len) e.
      >>=-ne-stuck (parse_name msg (off + m_len)) _ (parse_name-ne-stuck msg (off + m_len))
        λ (r, r_len) e₁.
          >>=-ne-stuck (ok_or (soa_numbers (drop (off + m_len + r_len) msg)) _) _
            (ok_or-ne-stuck _ _)
            λ (s, v, v₁, v₂, v₃) e₂. >>=-ne-stuck _ _ (ttl-ne-stuck v _) λ refresh e₃.
              >>=-ne-stuck _ _ (ttl-ne-stuck v₁ _) λ retry e₄.
                >>=-ne-stuck _ _ (ttl-ne-stuck v₂ _)
                  λ expire e₅. >>=-ne-stuck _ _ (ttl-ne-stuck v₃ _) λ minimum e₆ p. cc

name_rdata-ne-stuck :
    (wrap : DomainName → RecordData) (msg : Bytes) (off : ℕ) → name_rdata wrap msg off ≢ stuck
unfolding name_rdata
name_rdata-ne-stuck wrap msg off =
    >>=-ne-stuck (parse_name msg off) _ (parse_name-ne-stuck msg off) λ (n, len) e p. cc

mx_rdata-ne-stuck : (buf msg : Bytes) (off : ℕ) → mx_rdata buf msg off ≢ stuck
unfolding mx_rdata
mx_rdata-ne-stuck (p ∷ q ∷ x ∷ rest) msg off =
    >>=-ne-stuck (parse_name msg (off + 2)) _ (parse_name-ne-stuck msg (off + 2))
      λ (n, len) e p'. cc
mx_rdata-ne-stuck _ msg off = λ p. cc

srv_rdata-ne-stuck : (buf msg : Bytes) (off : ℕ) → srv_rdata buf msg off ≢ stuck
unfolding srv_rdata
srv_rdata-ne-stuck (p ∷ q ∷ w ∷ w' ∷ o ∷ o' ∷ x ∷ rest) msg off =
    >>=-ne-stuck (parse_name msg (off + 6)) _ (parse_name-ne-stuck msg (off + 6))
      λ (n, len) e p'. cc
srv_rdata-ne-stuck _ msg off = λ p. cc

caa_rdata-ne-stuck : (buf : Bytes) → caa_rdata buf ≢ stuck
unfolding caa_rdata
caa_rdata-ne-stuck (f ∷ n ∷ rest) = ensure-ne-stuck (leb n (length rest)) _ _ (
    ensure-ne-stuck (is_utf8 (take n rest)) _ _
      (ensure-ne-stuck (is_utf8 (drop n rest)) _ _ (λ p. cc)))
caa_rdata-ne-stuck _ = λ p. cc

rdata_of-ne-stuck :
    (t : RecordType) (v : ℕ) (buf msg : Bytes) (off : ℕ) → rdata_of t v buf msg off ≢ stuck
unfolding rdata_of
rdata_of-ne-stuck a_type v buf msg off = ensure-ne-stuck (length buf == 4) _ _ (λ p. cc)
rdata_of-ne-stuck aaaa_type v buf msg off = ensure-ne-stuck (length buf == 16) _ _ (λ p. cc)
rdata_of-ne-stuck ns_type v buf msg off = name_rdata-ne-stuck _ msg off
rdata_of-ne-stuck cname_type v buf msg off = name_rdata-ne-stuck _ msg off
rdata_of-ne-stuck ptr_type v buf msg off = name_rdata-ne-stuck _ msg off
rdata_of-ne-stuck mx_type v buf msg off = mx_rdata-ne-stuck buf msg off
rdata_of-ne-stuck txt_type v buf msg off =
    >>=-ne-stuck (txt_strings (length buf) buf) _ (txt_strings-ne-stuck _ buf (omega arith))
      λ s e p. cc
rdata_of-ne-stuck soa_type v buf msg off = soa_rdata-ne-stuck msg off
rdata_of-ne-stuck srv_type v buf msg off = srv_rdata-ne-stuck buf msg off
rdata_of-ne-stuck caa_type v buf msg off = caa_rdata-ne-stuck buf
rdata_of-ne-stuck _ v buf msg off = λ p. cc

-- `parse_resource_record` returns on every message and offset.
pub parse_resource_record-ne-stuck :
    (msg : Bytes) (offset : ℕ) → parse_resource_record msg offset ≢ stuck
unfolding parse_resource_record parse_rdata_wire
parse_resource_record-ne-stuck msg offset =
    >>=-ne-stuck (parse_name msg offset) _ (parse_name-ne-stuck msg offset) λ (n, len) e.
      >>=-ne-stuck (ok_or (record_fields (drop (offset + len) msg)) _) _ (ok_or-ne-stuck _ _)
        λ (t, c, l, r) e₁. ensure-ne-stuck (leb (offset + len + 10 + r) (length msg)) _ _ (
          >>=-ne-stuck
            (rdata_of (type_from_value t) t (take r (drop (offset + len + 10) msg)) msg
              (offset + len + 10))
            _ (rdata_of-ne-stuck (type_from_value t) t _ msg _) λ d e₂ p. cc)

ttl_or_zero_bound : (v : ℕ) → ttl_or_zero v ≤ 2147483647
unfolding ttl_or_zero ttl_new
ttl_or_zero_bound v = ground arith

pub type_and_len_ok :
    (msg : Bytes) (offset : ℕ) (n : DomainName) (len t c l r : ℕ)
    → parse_name msg offset ≡ ok (n, len)
    → record_fields (drop (offset + len) msg) ≡ some (t, c, l, r)
    → offset + (len + 10 + r) ≤ length msg
    → resource_record_type_and_len msg offset ≡ ok (t, len + 10 + r)
unfolding resource_record_type_and_len
type_and_len_ok msg offset n len t c l r e e₁ whole = rw (e, e₁, le→leb _ _ whole)

-- A record that `parse_resource_record` returns covers 11 octets at least, all of them inside the
-- message, and exactly those that `resource_record_type_and_len` walks over at the same place; its
-- owner is a name that `DomainName::new` could have returned, and its TTL is at most 2 ^ 31 - 1.
pub parse_resource_record-type_and_len :
    (msg : Bytes) (offset : ℕ) {rr : ResourceRecord} {consumed : ℕ}
    → parse_resource_record msg offset ≡ ok (rr, consumed)
    → ((rtype : ℕ) × (resource_record_type_and_len msg offset ≡ ok (rtype, consumed)))
      × (11 ≤ consumed)
      × (offset + consumed ≤ length msg)
      × IsName rr.name
      × (rr.ttl ≤ 2147483647)
unfolding parse_resource_record resource_record_type_and_len
parse_resource_record-type_and_len msg offset {consumed} h =
    let ((n, len), e, h₁) = >>=-eq-ok (parse_name msg offset) _ h in
    let ((t, c, l, r), e₁, h₂) =
      >>=-eq-ok (ok_or (record_fields (drop (offset + len) msg)) _) _ h₁ in
    let (fits, h₃) = ensure-eq-ok (leb (offset + len + 10 + r) (length msg)) _ _ h₂ in
    let (d, e₂, h₄) =
      >>=-eq-ok (parse_rdata_wire t (take r (drop (offset + len + 10) msg)) msg (offset + len + 10))
        _ h₃ in
    let (named, some_octet, inside) = parse_name-IsName msg offset e in
    let whole : offset + (len + 10 + r) ≤ length msg = omega (arith, leb→le _ _ fits) in
    let made = ok-injective h₄ in
    let size : len + 10 + r ≡ consumed = ap (λ x. x.1) made in
    (
      (
        t,
        type_and_len_ok msg offset n len t c l r e (ok_or-eq-ok _ _ e₁) whole
            ∙ ap (λ k. ok (t, k)) size,
      ),
      omega (arith, size, some_octet),
      omega (arith, size, whole),
      subst IsName (ap (λ x. x.0.name) made) named,
      subst (λ v. v ≤ 2147483647) (ap (λ x. x.0.ttl) made) (ttl_or_zero_bound l),
    )
