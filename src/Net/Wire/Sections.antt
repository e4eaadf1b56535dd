-- ===== src/Net/Wire/Sections.antt =====
-- The walk of `split_final_tsig` (crates/bind9-sdk-net/src/transfer/wire.rs) over sections without
-- compressed names.
use bind9_sdk.Common.{
  ℕ, ◌+◌, ◌/◌, ◌%◌, ◌^◌, ◌≤◌, ◌<◌, ◌≡◌, ◌≢◌, sym, ap, ◌∙◌, none, some, List, [], ◌∷◌, ◌++◌, arith,
  false, le→leb, ◌==◌, length, length-append, drop, drop-append_length, All, ok,
}
use mathlib.Core.List.{append_assoc, append-nil}
use bind9_sdk.Common.Bytes.{Bytes, u16_bytes, u32_bytes, u16_from, u16_from-bytes, u32_from}
use bind9_sdk.Core.Domain.{DomainName, write_wire, wire_len}
use bind9_sdk.Core.Domain.Equality.{length-write_wire}
use bind9_sdk.Core.Update.Message.{rr_octets}
use bind9_sdk.Core.Update.Sections.{
  WireRecord, record_octets, section_octets, IsWireName, IsWireRecord,
}
use bind9_sdk.Net.Wire.Names.{parse_name-write_wire}
use bind9_sdk.Net.Wire.Extent.{type_and_len_ok}
use bind9_sdk.Net.Wire.Record.{record_fields, resource_record_type_and_len}
use bind9_sdk.Net.Wire.Tsig.{skip_questions, skip_records, scan_additional}

-- What stands behind a prefix and a part that are both passed over.
pub drop-append_both :
    (pre w rest : Bytes) → drop (length pre + length w) (pre ++ (w ++ rest)) ≡ rest
drop-append_both pre w rest =
    ap (λ n. drop n (pre ++ (w ++ rest))) (sym (length-append pre w))
    ∙ ap (drop (length (pre ++ w))) (sym (append_assoc pre w rest))
    ∙ drop-append_length (pre ++ w) rest

length-record_octets :
    (r : WireRecord) → length (record_octets r) ≡ wire_len r.name + (10 + length r.rdata)
unfolding rr_octets
length-record_octets r = omega (
  arith,
  length-write_wire r.name,
  length-append (write_wire r.name) (
      u16_bytes r.rtype
      ++ (u16_bytes r.class ++ (u32_bytes r.ttl ++ (u16_bytes (length r.rdata) ++ r.rdata)))),
)

-- What follows the owner.
abbrev behind_name : WireRecord → Bytes → Bytes
behind_name r rest =
    u16_bytes r.rtype
    ++ (u16_bytes r.class ++ (u32_bytes r.ttl ++ (u16_bytes (length r.rdata) ++ rest)))

record_octets-before :
    (r : WireRecord) (post : Bytes)
    → record_octets r ++ post ≡ write_wire r.name ++ behind_name r (r.rdata ++ post)
unfolding rr_octets
record_octets-before r post = append_assoc (write_wire r.name) (behind_name r r.rdata) post

-- The fixed fields of a record.
record_fields-octets :
    (t c l n : ℕ) (rest : Bytes)
    → t < 2 ^ 16
    → n < 2 ^ 16
    → (c' : ℕ) × (l' : ℕ) × (record_fields
          (u16_bytes t ++ (u16_bytes c ++ (u32_bytes l ++ (u16_bytes n ++ rest))))
        ≡ some (t, c', l', n))
unfolding record_fields
record_fields-octets t c l n rest ht hn =
    let class' = u16_from (c / 256 % 256) (c % 256) in
    let ttl' = u32_from (l / 16777216 % 256) (l / 65536 % 256) (l / 256 % 256) (l % 256) in
    (class', ttl', λ i. some (u16_from-bytes t ht i, class', ttl', u16_from-bytes n hn i))

-- One record, wherever it stands.
pub type_and_len-record_octets :
    (r : WireRecord) (pre post : Bytes)
    → IsWireName r.name
    → r.rtype < 2 ^ 16
    → length r.rdata < 2 ^ 16
    → resource_record_type_and_len (pre ++ (record_octets r ++ post)) (length pre)
      ≡ ok (r.rtype, length (record_octets r))
type_and_len-record_octets r pre post named typed sized =
    let rest = behind_name r (r.rdata ++ post) in
    let msg = pre ++ (write_wire r.name ++ rest) in
    let (n, e, _, _) = parse_name-write_wire r.name pre rest named.labels named.fits in
    let (c, l, e₁) =
      record_fields-octets r.rtype r.class r.ttl (length r.rdata) (r.rdata ++ post) typed sized in
    let behind : drop (length pre + wire_len r.name) msg ≡ rest =
      ap (λ k. drop (length pre + k) msg) (sym (length-write_wire r.name))
      ∙ drop-append_both pre (write_wire r.name) rest in
    let fits : length pre + (wire_len r.name + 10 + length r.rdata) ≤ length msg = omega (
      arith,
      length-append pre (write_wire r.name ++ rest),
      length-append (write_wire r.name) rest,
      length-append r.rdata post,
      length-write_wire r.name,
    ) in
    ap (λ m. resource_record_type_and_len (pre ++ m) (length pre)) (record_octets-before r post)
    ∙ type_and_len_ok msg (length pre) n (wire_len r.name) r.rtype c l (length r.rdata) e
        (ap record_fields behind ∙ e₁) fits
    ∙ ap (λ k. ok (r.rtype, k)) (omega (arith, length-record_octets r))

-- One question, wherever it stands.
pub skip_questions-one :
    (n : DomainName) (four pre post : Bytes)
    → IsWireName n
    → length four ≡ 4
    → skip_questions 1 (pre ++ (write_wire n ++ (four ++ post))) (length pre)
      ≡ ok (length pre + length (write_wire n ++ four))
unfolding skip_questions
skip_questions-one n four pre post named short =
    let msg = pre ++ (write_wire n ++ (four ++ post)) in
    let (m, e, _, _) = parse_name-write_wire n pre (four ++ post) named.labels named.fits in
    let fits : length pre + (wire_len n + 4) ≤ length msg = omega (
      arith,
      short,
      length-append pre (write_wire n ++ (four ++ post)),
      length-append (write_wire n) (four ++ post),
      length-append four post,
      length-write_wire n,
    ) in
    rw (e, le→leb _ _ fits)
      (ap ok (omega (arith, short, length-append (write_wire n) four, length-write_wire n)))

-- A part between two others, one step on.
append_step :
    (pre here there post : Bytes)
    → pre ++ ((here ++ there) ++ post) ≡ (pre ++ here) ++ (there ++ post)
append_step pre here there post =
    ap (λ m. pre ++ m) (append_assoc here there post) ∙ sym (append_assoc pre here (there ++ post))

other : (t : ℕ) → t ≢ 250 → (t == 250) ≡ false
other t h = ground arith

-- The walk over records that are not of type TSIG.
pub skip_records-section :
    (rs : List WireRecord) (pre post : Bytes)
    → All IsWireRecord rs
    → skip_records (length rs) (pre ++ (section_octets rs ++ post)) (length pre)
      ≡ ok (length pre + length (section_octets rs))
unfolding skip_records
skip_records-section [] pre post h = ap ok (omega arith)
skip_records-section (r ∷ rs) pre post (h, hs) =
    let here = record_octets r in
    let there = section_octets rs in
    let first =
      ap (λ m. resource_record_type_and_len (pre ++ m) (length pre)) (append_assoc here there post)
      ∙ type_and_len-record_octets r pre (there ++ post) h.named h.typed.0 h.sized in
    let later =
      ap (λ m. skip_records (length rs) m (length pre + length here))
        (append_step pre here there post)
      ∙ ap (skip_records (length rs) ((pre ++ here) ++ (there ++ post)))
          (sym (length-append pre here))
      ∙ skip_records-section rs (pre ++ here) post hs in
    rw (first, other r.rtype h.typed.1)
      (later ∙ ap ok (omega (arith, length-append pre here, length-append here there)))

-- The last record, of type TSIG.
pub scan_additional-last :
    (r : WireRecord) (pre : Bytes)
    → IsWireName r.name
    → r.rtype ≡ 250
    → length r.rdata < 2 ^ 16
    → scan_additional 1 (pre ++ record_octets r) (length pre) none
      ≡ ok (length (pre ++ record_octets r), some (length pre))
unfolding scan_additional
scan_additional-last r pre named typed sized =
    let here = record_octets r in
    let first : resource_record_type_and_len (pre ++ here) (length pre) ≡ ok (250, length here) =
      ap (λ m. resource_record_type_and_len (pre ++ m) (length pre)) (sym (append-nil here))
      ∙ type_and_len-record_octets r pre [] named (omega (arith, typed)) sized
      ∙ ap (λ t. ok (t, length here)) typed in
    rw first (ap (λ n. ok (n, some (length pre))) (sym (length-append pre here)))
