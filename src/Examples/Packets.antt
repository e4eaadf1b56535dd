-- ===== src/Examples/Packets.antt =====
-- Names in messages: crates/bind9-sdk-net/src/transfer/wire.rs.
use bind9_sdk.Common.{
  ℕ, ◌+◌, ◌≤◌, ◌≡◌, ◌≢◌, refl, true, [], ◌∷◌, ◌++◌, arith, length, All, ok, err, stuck,
}
use bind9_sdk.Common.Bytes.{Bytes, join_dots, is_ascii_digit, is_ascii_graphic}
use bind9_sdk.Errors.{xfr_protocol_error}
use bind9_sdk.Core.Domain.{
  DomainName, domain_new, name_of_parts, split_domain_labels, split_loop, split_chunk,
  decimal_escape, labels_of, label_new, decode_label, decode_loop, label_octet, name_of_labels,
  wire_len, labels_len, root, write_wire, name_eq,
}
use bind9_sdk.Core.Domain.Labels.{IsLabel}
use bind9_sdk.Core.Domain.Names.{IsName}
use bind9_sdk.Net.Wire.{
  parse_name, name_loop, name_start, name_round, by_length, follow_pointer, take_label,
  escape_wire_label, escape_octet, name_of_wire_labels,
}
use bind9_sdk.Core.Rdata.{a, ns}
use bind9_sdk.Core.Record.{ResourceRecord, internet, ttl_new, class_from_value}
use bind9_sdk.Core.Protocol.{type_from_value}
use bind9_sdk.Net.Wire.Record.{
  parse_resource_record, parse_rdata_wire, rdata_of, name_rdata, record_fields, ttl_or_zero,
  resource_record_type_and_len,
}
use bind9_sdk.Net.Wire.Extent.{parse_resource_record-ne-stuck, parse_resource_record-type_and_len}
use bind9_sdk.Net.Wire.Bounds.{parse_name-IsName, parse_name-ne-stuck}
use bind9_sdk.Net.Wire.Names.{parse_name-write_wire}

-- The names `a.` and, by a pointer to it, `b.a.`.
abbrev packet : Bytes
packet = 1 ∷ b'a' ∷ 0 ∷ 1 ∷ b'b' ∷ 192 ∷ 0 ∷ 9 ∷ []

abbrev pointed : DomainName
pointed = record {
  labels =
      record { inner = b'b' ∷ []; wire = b'b' ∷ [] }
      ∷ record { inner = b'a' ∷ []; wire = b'a' ∷ [] }
      ∷ [];
}

parse_name-packet : parse_name packet 3 ≡ ok (pointed, 4)
unfolding parse_name name_loop name_start name_round by_length follow_pointer take_label
    escape_wire_label escape_octet join_dots name_of_wire_labels domain_new name_of_parts
    split_domain_labels split_loop split_chunk decimal_escape labels_of label_new decode_label
    decode_loop label_octet name_of_labels wire_len labels_len is_ascii_digit is_ascii_graphic
parse_name-packet = refl

-- A pointer to itself is refused.
parse_name_self :
    parse_name (192 ∷ 0 ∷ []) 0 ≡ err (xfr_protocol_error "compression pointer must go back")
unfolding parse_name name_loop name_start name_round by_length follow_pointer
parse_name_self = refl

parse_name-IsName_example : IsName pointed × (1 ≤ 4) × (3 + 4 ≤ length packet)
parse_name-IsName_example = parse_name-IsName packet 3 parse_name-packet

parse_name-ne-stuck_example : parse_name (1 ∷ b'a' ∷ 192 ∷ 0 ∷ []) 2 ≢ stuck
parse_name-ne-stuck_example = parse_name-ne-stuck (1 ∷ b'a' ∷ 192 ∷ 0 ∷ []) 2

-- A label with a dot and an octet that is no character.
abbrev binary_name : DomainName
binary_name = record { labels = record { inner = []; wire = b'.' ∷ 200 ∷ [] } ∷ [] }

binary_name-wire_len : wire_len binary_name ≡ 4
unfolding wire_len labels_len
binary_name-wire_len = refl

binary_name-IsLabel : All IsLabel binary_name.labels
binary_name-IsLabel = (
  record { nonempty = omega arith; short = omega arith; octets = (omega arith, (omega arith, tt)) },
  tt,
)

parse_name-write_wire_example :
    (m : DomainName) × (parse_name ((7 ∷ 7 ∷ []) ++ (write_wire binary_name ++ (8 ∷ []))) 2
      ≡ ok (m, wire_len binary_name))
    × (write_wire m ≡ write_wire binary_name)
    × (name_eq m binary_name ≡ true)
parse_name-write_wire_example =
    parse_name-write_wire binary_name (7 ∷ 7 ∷ []) (8 ∷ []) binary_name-IsLabel
      (omega (arith, binary_name-wire_len))

-- The second pointer, at 0, goes forward to 2: only the first one is held to go back.
parse_name_forward : parse_name (192 ∷ 2 ∷ 0 ∷ 192 ∷ 0 ∷ []) 3 ≡ ok (record { labels = [] }, 2)
unfolding parse_name name_loop name_start name_round by_length follow_pointer name_of_wire_labels
    root
parse_name_forward = refl

-- `a. 60 IN A 192.0.2.1`
abbrev record_packet : Bytes
record_packet = 1 ∷ b'a' ∷ 0 ∷ 0 ∷ 1 ∷ 0 ∷ 1 ∷ 0 ∷ 0 ∷ 0 ∷ 60 ∷ 0 ∷ 4 ∷ 192 ∷ 0 ∷ 2 ∷ 1 ∷ []

abbrev parsed_record : ResourceRecord
parsed_record = record {
  name = record { labels = record { inner = b'a' ∷ []; wire = b'a' ∷ [] } ∷ [] };
  class = internet;
  ttl = 60;
  rdata = a (192 ∷ 0 ∷ 2 ∷ 1 ∷ []);
}

parse_resource_record-packet : parse_resource_record record_packet 0 ≡ ok (parsed_record, 17)
unfolding parse_resource_record parse_rdata_wire rdata_of record_fields ttl_or_zero ttl_new
    type_from_value class_from_value parse_name name_loop name_start name_round by_length
    follow_pointer take_label escape_wire_label escape_octet join_dots name_of_wire_labels
    domain_new name_of_parts split_domain_labels split_loop split_chunk decimal_escape labels_of
    label_new decode_label decode_loop label_octet name_of_labels wire_len labels_len is_ascii_digit
    is_ascii_graphic
parse_resource_record-packet = refl

-- The name of an NS record is read past the end of its data, which is empty here.
parse_resource_record_past_rdata :
    parse_resource_record (0 ∷ 0 ∷ 2 ∷ 0 ∷ 1 ∷ 0 ∷ 0 ∷ 0 ∷ 60 ∷ 0 ∷ 0 ∷ 1 ∷ b'a' ∷ 0 ∷ []) 0
    ≡ ok (
      record {
        name = record { labels = [] };
        class = internet;
        ttl = 60;
        rdata = ns (record { labels = record { inner = b'a' ∷ []; wire = b'a' ∷ [] } ∷ [] });
      },
      11,
    )
unfolding parse_resource_record parse_rdata_wire rdata_of name_rdata record_fields ttl_or_zero
    ttl_new type_from_value class_from_value parse_name name_loop name_start name_round by_length
    follow_pointer take_label escape_wire_label escape_octet join_dots name_of_wire_labels
    domain_new name_of_parts split_domain_labels split_loop split_chunk decimal_escape labels_of
    label_new decode_label decode_loop label_octet name_of_labels wire_len labels_len is_ascii_digit
    is_ascii_graphic root
parse_resource_record_past_rdata = refl

parse_resource_record-ne-stuck_example : parse_resource_record record_packet 1 ≢ stuck
parse_resource_record-ne-stuck_example = parse_resource_record-ne-stuck record_packet 1

parse_resource_record-type_and_len_example :
    ((rtype : ℕ) × (resource_record_type_and_len record_packet 0 ≡ ok (rtype, 17)))
    × (11 ≤ 17)
    × (0 + 17 ≤ length record_packet)
    × IsName parsed_record.name
    × (parsed_record.ttl ≤ 2147483647)
parse_resource_record-type_and_len_example =
    parse_resource_record-type_and_len record_packet 0 parse_resource_record-packet
