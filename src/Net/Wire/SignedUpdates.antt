-- ===== src/Net/Wire/SignedUpdates.antt =====
-- `split_final_tsig` (crates/bind9-sdk-net/src/transfer/wire.rs) on the signed update messages of
-- `sign_inner` in crates/bind9-sdk-core/src/update/builder.rs.
use bind9_sdk.Common.{
  ℕ, ◌+◌, ◌^◌, ◌≤◌, ◌<◌, ◌≡◌, refl, sym, ap, ◌∙◌, none, some, List, [], ◌∷◌, ◌++◌, arith, leb,
  leb→le, length, drop-append_length, take-append_length, All, ok, >>=-eq-ok, ensure-eq-ok,
  ok-injective,
}
use mathlib.Core.Path.{subst}
use bind9_sdk.Common.Bytes.{Bytes, IsByte, u16_bytes, u16_from-bytes, set_arcount}
use bind9_sdk.Core.Domain.{Label, DomainName, write_wire, wire_len}
use bind9_sdk.Core.Domain.Labels.{IsLabel}
use bind9_sdk.Core.Domain.Plain.{
  IsPlain, IsPlainLabel, lowered, lowered_labels, lowered-IsPlainLabel, write_wire-lowered,
  wire_len-lowered,
}
use bind9_sdk.Core.Record.{class_value}
use bind9_sdk.Core.Tsig.{Hmac, IsHmac, TsigKey}
use bind9_sdk.Core.Tsig.Record.{TsigRecord, tsig_new, tsig_wire, message_id}
use bind9_sdk.Core.Tsig.Made.{tsig_new-IsMade}
use bind9_sdk.Core.Tsig.Wire.{parse_from_wire}
use bind9_sdk.Core.Tsig.RoundTrip.{parse_from_wire-IsMade, wire_bytes-IsMade}
use bind9_sdk.Core.Update.{UpdateBuilder, UpdateMessage}
use bind9_sdk.Core.Update.Message.{
  prerequisite_count, build_unsigned, arcount, sign_update, rr_octets,
}
use bind9_sdk.Core.Update.Sections.{WireRecord, record_octets, section_octets, IsWireName}
use bind9_sdk.Net.Wire.Header.{DnsHeader}
use bind9_sdk.Net.Wire.Sections.{scan_additional-last}
use bind9_sdk.Net.Wire.Tsig.{scan_additional, cut_tsig, split_final_tsig}
use bind9_sdk.Net.Wire.Updates.{header_octets, walk, IsUpdate, IsBuilt, build_unsigned-IsBuilt}

IsPlain-IsByte : (w : Bytes) → All IsPlain w → All IsByte w
IsPlain-IsByte [] h = tt
IsPlain-IsByte (b ∷ w) h = (omega (arith, h.0.graphic.1), IsPlain-IsByte w h.1)

IsPlainLabel-IsLabel : (ls : List Label) → All IsPlainLabel ls → All IsLabel ls
IsPlainLabel-IsLabel [] h = tt
IsPlainLabel-IsLabel (l ∷ ls) h = (
  record { nonempty = h.0.nonempty; short = h.0.short; octets = IsPlain-IsByte l.wire h.0.plain },
  IsPlainLabel-IsLabel ls h.1,
)

lowered-IsWireName :
    (n : DomainName) → All IsPlainLabel n.labels → wire_len n ≤ 255 → IsWireName (lowered n)
lowered-IsWireName n plain fits = record {
  labels = IsPlainLabel-IsLabel (lowered_labels n.labels) (lowered-IsPlainLabel n.labels plain);
  fits = omega (arith, wire_len-lowered n);
}

-- The TSIG record as a record of the additional section.
abbrev tsig_section : DomainName → Bytes → WireRecord
tsig_section name rdata = record {
  name = lowered name;
  rtype = 250;
  class = 255;
  ttl = 0;
  rdata = rdata;
}

tsig_wire-record_octets :
    (name : DomainName) (rdata : Bytes)
    → tsig_wire name rdata ≡ record_octets (tsig_section name rdata)
unfolding tsig_wire rr_octets
tsig_wire-record_octets name rdata =
    ap
      (λ w.
        w
        ++ (u16_bytes 250
            ++ (u16_bytes 255 ++ ((0 ∷ 0 ∷ 0 ∷ 0 ∷ []) ++ (u16_bytes (length rdata) ++ rdata)))))
      (sym (write_wire-lowered name))

-- A signed message is the unsigned one, with one additional record more, before the TSIG record.
sign_update-eq-ok :
    (h : Hmac) (b : UpdateBuilder) (key : TsigKey) (timestamp : ℕ) {signed : UpdateMessage}
    → sign_update h b key timestamp ≡ ok signed
    → (unsigned : UpdateMessage) × (tsig : TsigRecord) × (build_unsigned b ≡ ok unsigned)
      × (tsig_new h key unsigned.wire_bytes timestamp none ≡ ok tsig)
      × (signed ≡ record {
        wire_bytes =
            set_arcount (arcount unsigned.wire_bytes + 1) unsigned.wire_bytes ++ tsig.wire_bytes;
        id = b.id;
        request_mac = some tsig.mac;
        pre_tsig_len = some (length unsigned.wire_bytes);
      })
      × (length signed.wire_bytes ≤ 65535)
unfolding sign_update
sign_update-eq-ok h b key timestamp e =
    let (u, built, e₁) = >>=-eq-ok (build_unsigned b) _ e in
    let (t, made, e₂) = >>=-eq-ok (tsig_new h key u.wire_bytes timestamp none) _ e₁ in
    let wire = set_arcount (arcount u.wire_bytes + 1) u.wire_bytes ++ t.wire_bytes in
    let (short, e₃) = ensure-eq-ok (leb (length wire) 65535) _ _ e₂ in
    let same = sym (ok-injective e₃) in
    (u, t, built, made, same, omega (arith, leb→le _ _ short, ap (λ m. length m.wire_bytes) same))

-- The last step, on a message whose TSIG record stands behind `front`.
cut_tsig-behind :
    (header : DnsHeader) (front tsig : Bytes) {t : TsigRecord}
    → header.additional_count ≡ 1
    → parse_from_wire tsig ≡ ok t
    → cut_tsig header (front ++ tsig) (some (length front))
      ≡ ok (record { unsigned_message = set_arcount 0 front; tsig = some t })
unfolding cut_tsig
cut_tsig-behind header front tsig one parsed =
    rw (drop-append_length front tsig, parsed, one, take-append_length front tsig) refl

-- The count of additional records, raised and lowered.
raised :
    (id prcount upcount : ℕ) (body : Bytes)
    → (let unsigned = header_octets id prcount upcount 0 ++ body in
        set_arcount (arcount unsigned + 1) unsigned ≡ header_octets id prcount upcount 1 ++ body)
unfolding set_arcount arcount message_id
raised id prcount upcount body = refl

lowered_again :
    (id prcount upcount : ℕ) (body : Bytes)
    → set_arcount 0 (header_octets id prcount upcount 1 ++ body)
      ≡ header_octets id prcount upcount 0 ++ body
unfolding set_arcount
lowered_again id prcount upcount body = refl

id_of :
    (id prcount upcount : ℕ) (body : Bytes)
    → id < 2 ^ 16
    → message_id (header_octets id prcount upcount 0 ++ body) ≡ id
unfolding message_id
id_of id prcount upcount body h = u16_from-bytes id h

-- What `split_final_tsig` does behind an unsigned message, whose count is raised by one, and the wire
-- form of a TSIG record.
split_signed :
    (b : UpdateBuilder) {u : UpdateMessage} (name : DomainName) (rdata : Bytes) {t : TsigRecord}
    → IsUpdate b
    → IsBuilt b (prerequisite_count b.prerequisites) (length b.updates) u
    → All IsPlainLabel name.labels
    → wire_len name ≤ 255
    → length rdata < 2 ^ 16
    → parse_from_wire (tsig_wire name rdata) ≡ ok t
    → split_final_tsig (set_arcount (arcount u.wire_bytes + 1) u.wire_bytes ++ tsig_wire name rdata)
      ≡ ok (record { unsigned_message = u.wire_bytes; tsig = some t })
split_signed b {u} name rdata {t} h i plain fits short parsed =
    let p = prerequisite_count b.prerequisites in
    let q = length b.updates in
    let four = u16_bytes 6 ++ u16_bytes (class_value b.class) in
    let body = (write_wire b.zone ++ four) ++ section_octets i.records in
    let front = header_octets b.id p q 1 ++ body in
    let tsig = tsig_wire name rdata in
    let there = tsig_wire-record_octets name rdata in
    let scanned =
      scan_additional-last (tsig_section name rdata) front (lowered-IsWireName name plain fits) refl
        short in
    let (header, one, split) =
      walk b.id p q 1 b.zone four i.records tsig (some (length front)) i.few_prerequisites
        i.few_updates (omega arith) h.zone refl i.valid i.counted
        (subst
          (λ x.
            scan_additional 1 (front ++ x) (length front) none
            ≡ ok (length (front ++ x), some (length front)))
          (sym there) scanned) in
    subst
      (λ w.
        split_final_tsig (set_arcount (arcount w + 1) w ++ tsig)
        ≡ ok (record { unsigned_message = w; tsig = some t }))
      (sym i.written)
      (ap (λ m. split_final_tsig (m ++ tsig)) (raised b.id p q body)
        ∙ split
        ∙ cut_tsig-behind header front tsig one parsed
        ∙ ap (λ m. ok (record { unsigned_message = m; tsig = some t }))
            (lowered_again b.id p q body))

-- A signed update message is split into the unsigned message that its builder makes and the TSIG
-- record that was made for it, every field as it was made, but that the name of the key is in lower
-- case; the MAC and the length that the message keeps for later are those of the record and of the
-- unsigned message. The names must fit the wire format, the record types be 16 bits other than 250,
-- and the name of the key have no character that needs an escape.
pub split_final_tsig-sign_update :
    (h : Hmac) (b : UpdateBuilder) (key : TsigKey) (timestamp : ℕ) {signed : UpdateMessage}
    → IsHmac h
    → IsUpdate b
    → All IsPlainLabel key.name.labels
    → wire_len key.name ≤ 255
    → sign_update h b key timestamp ≡ ok signed
    → (unsigned : UpdateMessage) × (tsig : TsigRecord) × (build_unsigned b ≡ ok unsigned)
      × (tsig_new h key unsigned.wire_bytes timestamp none ≡ ok tsig)
      × (split_final_tsig signed.wire_bytes
          ≡ ok (record {
            unsigned_message = unsigned.wire_bytes;
            tsig = some (record tsig { key_name = lowered key.name });
          }))
      × (signed.request_mac ≡ some tsig.mac)
      × (signed.pre_tsig_len ≡ some (length unsigned.wire_bytes))
split_final_tsig-sign_update h b key timestamp law update plain fits e =
    let (u, t, built, made, same, _) = sign_update-eq-ok h b key timestamp e in
    let i = build_unsigned-IsBuilt b update built in
    let m = tsig_new-IsMade h key u.wire_bytes timestamp none made in
    let (rdata, wire, short) = wire_bytes-IsMade h key u.wire_bytes timestamp none law m in
    let id : message_id u.wire_bytes ≡ b.id =
      ap message_id i.written ∙ id_of b.id _ _ _ update.short_id in
    let parsed =
      sym (ap parse_from_wire wire)
      ∙ parse_from_wire-IsMade h key u.wire_bytes timestamp none law plain fits
          (omega (arith, id, update.short_id)) m in
    (
      u,
      t,
      built,
      made,
      ap (λ s. split_final_tsig s.wire_bytes) same
          ∙ ap (λ x. split_final_tsig (set_arcount (arcount u.wire_bytes + 1) u.wire_bytes ++ x))
              wire
          ∙ split_signed b key.name rdata update i plain fits short parsed,
      ap (λ s. s.request_mac) same,
      ap (λ s. s.pre_tsig_len) same,
    )
