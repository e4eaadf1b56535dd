-- ===== src/Net/Wire/Updates.antt =====
-- `split_final_tsig` (crates/bind9-sdk-net/src/transfer/wire.rs) on the update messages of
-- crates/bind9-sdk-core/src/update/builder.rs and message.rs.
use bind9_sdk.Common.{
  ℕ, ◌+◌, ◌^◌, ◌<◌, ◌≡◌, refl, sym, ap, ◌∙◌, Option, none, List, [], ◌∷◌, ◌++◌, arith, true, leb,
  leb→le, ◌==◌, length, length-append, All, ok, >>=-eq-ok, ensure-eq-ok, ok-injective,
}
use mathlib.Core.List.{append_assoc, append-nil}
use mathlib.Core.Path.{subst}
use bind9_sdk.Common.Bytes.{Bytes, u16_bytes, u16_from-bytes}
use bind9_sdk.Core.Domain.{DomainName, write_wire}
use bind9_sdk.Core.Record.{class_value}
use bind9_sdk.Core.Update.{UpdateBuilder, UpdateMessage}
use bind9_sdk.Core.Update.Message.{
  prerequisite_count, encode_prerequisites, encode_updates, update_header, zone_section,
  encode_update_message, build_unsigned,
}
use bind9_sdk.Core.Update.Sections.{
  WireRecord, section_octets, IsWireName, IsWireRecord, IsPrerequisite, IsUpdateEntry,
  IsSection-append,
}
use bind9_sdk.Core.Update.Encoded.{encode_prerequisites-IsSection, encode_updates-IsSection}
use bind9_sdk.Net.Wire.Header.{DnsHeader, parse_header}
use bind9_sdk.Net.Wire.Sections.{skip_questions-one, skip_records-section}
use bind9_sdk.Net.Wire.Tsig.{
  skip_questions, skip_records, scan_additional, cut_tsig, split_final_tsig,
}

-- The header of an update message with `additional` records behind the updates.
abbrev pub header_octets : ℕ → ℕ → ℕ → ℕ → Bytes
header_octets id prcount upcount additional =
    u16_bytes id
    ++ (0x28
        ∷ 0
        ∷ (u16_bytes 1 ++ (u16_bytes prcount ++ (u16_bytes upcount ++ u16_bytes additional))))

-- What the header is read as, as far as the walk needs it.
record IsReadAs (bytes : Bytes) (records additional : ℕ) (h : DnsHeader) : Type 0 where
  read : parse_header bytes ≡ ok h
  questions : h.question_count ≡ 1
  counted : h.answer_count + h.authority_count ≡ records
  last : h.additional_count ≡ additional

parse_header-IsReadAs :
    (id prcount upcount additional : ℕ) (rest : Bytes)
    → prcount < 2 ^ 16
    → upcount < 2 ^ 16
    → additional < 2 ^ 16
    → (h : DnsHeader) × IsReadAs
        (header_octets id prcount upcount additional ++ rest)
        (prcount + upcount)
        additional
        h
unfolding parse_header
parse_header-IsReadAs id prcount upcount additional rest hp hu ha = (
  _,
  record {
    read = refl;
    questions = refl;
    counted = omega (arith, u16_from-bytes prcount hp, u16_from-bytes upcount hu);
    last = u16_from-bytes additional ha;
  },
)

same : (n : ℕ) → (n == n) ≡ true
same n = ground arith

-- The steps of the walk, up to the last one.
walk_steps :
    (message : Bytes) (h : DnsHeader) (o₁ o₂ : ℕ) (end : Option ℕ)
    → parse_header message ≡ ok h
    → skip_questions h.question_count message 12 ≡ ok o₁
    → skip_records (h.answer_count + h.authority_count) message o₁ ≡ ok o₂
    → scan_additional h.additional_count message o₂ none ≡ ok (length message, end)
    → split_final_tsig message ≡ cut_tsig h message end
unfolding split_final_tsig
walk_steps message h o₁ o₂ end e₁ e₂ e₃ e₄ = rw (e₁, e₂, e₃, e₄, same (length message))

-- The walk over one zone and the records of the two sections, up to the additional section.
pub walk :
    (id prcount upcount additional : ℕ) (zone : DomainName) (four : Bytes) (rs : List WireRecord)
    (tail : Bytes) (end : Option ℕ)
    → prcount < 2 ^ 16
    → upcount < 2 ^ 16
    → additional < 2 ^ 16
    → IsWireName zone
    → length four ≡ 4
    → All IsWireRecord rs
    → length rs ≡ prcount + upcount
    → (let front =
          header_octets id prcount upcount additional
          ++ ((write_wire zone ++ four) ++ section_octets rs) in
        scan_additional additional (front ++ tail) (length front) none
          ≡ ok (length (front ++ tail), end)
        → (h : DnsHeader) × (h.additional_count ≡ additional)
          × (split_final_tsig (front ++ tail) ≡ cut_tsig h (front ++ tail) end))
walk id prcount upcount additional zone four rs tail end hp hu ha named short valid counted
      scanned =
    let header = header_octets id prcount upcount additional in
    let question = write_wire zone ++ four in
    let section = section_octets rs in
    let message = header ++ ((question ++ section) ++ tail) in
    let (h, i) =
      parse_header-IsReadAs id prcount upcount additional ((question ++ section) ++ tail) hp hu
        ha in
    let asked : skip_questions 1 message 12 ≡ ok (length (header ++ question)) =
      ap (λ m. skip_questions 1 (header ++ m) 12)
        (append_assoc question section tail ∙ append_assoc (write_wire zone) four (section ++ tail))
      ∙ skip_questions-one zone four header (section ++ tail) named short
      ∙ ap ok (sym (length-append header question)) in
    let walked : skip_records (length rs) message (length (header ++ question))
        ≡ ok (length (header ++ question) + length section) =
      ap (λ m. skip_records (length rs) (header ++ m) (length (header ++ question)))
        (append_assoc question section tail)
      ∙ skip_records-section rs (header ++ question) tail valid in
    (
      h,
      i.last,
      walk_steps message h (length (header ++ question)) (length (header ++ (question ++ section)))
          end i.read (ap (λ n. skip_questions n message 12) i.questions ∙ asked)
          (ap (λ n. skip_records n message (length (header ++ question))) (i.counted ∙ sym counted)
            ∙ walked
            ∙ ap ok (omega (arith, length-append question section)))
          (ap (λ n. scan_additional n message (length (header ++ (question ++ section))) none)
              i.last
            ∙ scanned),
    )

-- What a builder may be asked to write, and the ID it may have.
pub record IsUpdate (b : UpdateBuilder) : Type 0 where
  pub short_id : b.id < 2 ^ 16
  pub zone : IsWireName b.zone
  pub prerequisites : All IsPrerequisite b.prerequisites
  pub updates : All IsUpdateEntry b.updates

-- The parts of an unsigned message.
pub record IsBuilt (b : UpdateBuilder) (prcount upcount : ℕ) (m : UpdateMessage) : Type 0 where
  pub records : List WireRecord
  pub valid : All IsWireRecord records
  pub counted : length records ≡ prcount + upcount
  pub few_prerequisites : prcount < 2 ^ 16
  pub few_updates : upcount < 2 ^ 16
  pub written :
      m.wire_bytes
      ≡ header_octets b.id prcount upcount 0
        ++ ((write_wire b.zone ++ (u16_bytes 6 ++ u16_bytes (class_value b.class)))
            ++ section_octets records)
  pub same_id : m.id ≡ b.id

pub build_unsigned-IsBuilt :
    (b : UpdateBuilder) {m : UpdateMessage}
    → IsUpdate b
    → build_unsigned b ≡ ok m
    → IsBuilt b (prerequisite_count b.prerequisites) (length b.updates) m
unfolding build_unsigned encode_update_message zone_section update_header
build_unsigned-IsBuilt b h e =
    let (few, e₁) = ensure-eq-ok (leb (prerequisite_count b.prerequisites) 65535) _ _ e in
    let (few', e₂) = ensure-eq-ok (leb (length b.updates) 65535) _ _ e₁ in
    let (ps, e₃, e₄) = >>=-eq-ok (encode_prerequisites b.prerequisites b.class) _ e₂ in
    let (us, e₅, e₆) = >>=-eq-ok (encode_updates b.updates) _ e₄ in
    let front = header_octets b.id (prerequisite_count b.prerequisites) (length b.updates) 0 in
    let zone = write_wire b.zone ++ (u16_bytes 6 ++ u16_bytes (class_value b.class)) in
    let (_, e₇) = ensure-eq-ok (leb (length (front ++ (zone ++ (ps ++ us)))) 65535) _ _ e₆ in
    let s =
      IsSection-append (encode_prerequisites-IsSection b.prerequisites b.class h.prerequisites e₃)
        (encode_updates-IsSection b.updates h.updates e₅) in
    let made = ok-injective e₇ in
    record {
      records = s.records;
      valid = s.valid;
      counted = s.counted;
      few_prerequisites = omega (arith, leb→le _ _ few);
      few_updates = omega (arith, leb→le _ _ few');
      written = ap (λ m. m.wire_bytes) (sym made) ∙ ap (λ s. front ++ (zone ++ s)) s.written;
      same_id = ap (λ m. m.id) (sym made);
    }

-- An update message without TSIG, as a builder whose names fit the wire format and whose record
-- types are 16 bits other than 250 makes it, is walked to its end: the counts in its header are those
-- of the records in its sections, nothing trails behind them, and it is returned as it is with no
-- TSIG record.
pub split_final_tsig-build_unsigned :
    (b : UpdateBuilder) {m : UpdateMessage}
    → IsUpdate b
    → build_unsigned b ≡ ok m
    → split_final_tsig m.wire_bytes ≡ ok (record { unsigned_message = m.wire_bytes; tsig = none })
unfolding scan_additional cut_tsig
split_final_tsig-build_unsigned b h e =
    let i = build_unsigned-IsBuilt b h e in
    let message =
      header_octets b.id (prerequisite_count b.prerequisites) (length b.updates) 0
      ++ ((write_wire b.zone ++ (u16_bytes 6 ++ u16_bytes (class_value b.class)))
          ++ section_octets i.records) in
    let (_, _, split) =
      walk b.id _ _ 0 b.zone (u16_bytes 6 ++ u16_bytes (class_value b.class)) i.records [] none
        i.few_prerequisites i.few_updates (omega arith) h.zone refl i.valid i.counted
        (ap (λ m. ok (length m, none)) (sym (append-nil message))) in
    subst (λ w. split_final_tsig w ≡ ok (record { unsigned_message = w; tsig = none }))
      (sym i.written)
      (ap split_final_tsig (sym (append-nil message))
        ∙ split
        ∙ ap (λ m. ok (record { unsigned_message = m; tsig = none })) (append-nil message))
