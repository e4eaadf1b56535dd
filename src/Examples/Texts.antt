-- ===== src/Examples/Texts.antt =====
-- Domain names: crates/bind9-sdk-core/src/domain.rs.
use bind9_sdk.Common.{◌≡◌, ◌≢◌, ◌↔◌, refl, true, [], ◌∷◌, arith, ok, err, stuck}
use bind9_sdk.Common.Bytes.{Bytes, is_ascii_digit, is_ascii_graphic}
use bind9_sdk.Errors.{invalid_name}
use bind9_sdk.Core.Domain.{
  DomainName, domain_new, name_of_parts, split_domain_labels, split_loop, split_chunk,
  decimal_escape, labels_of, label_new, decode_label, decode_loop, label_octet, name_of_labels,
  wire_len, labels_len, display_name, write_wire, write_labels, write_wire_canonical, name_eq,
}
use bind9_sdk.Core.Domain.Names.{domain_new-display_name, domain_new-ne-stuck}
use bind9_sdk.Core.Domain.Equality.{name_eq-canonical}

-- `a\.b.C`, whose first label holds a dot.
abbrev text : Bytes
text = b'a' ∷ b'\\' ∷ b'.' ∷ b'b' ∷ b'.' ∷ b'C' ∷ []

abbrev escaped : DomainName
escaped = record {
  labels =
      record { inner = b'a' ∷ b'\\' ∷ b'.' ∷ b'b' ∷ []; wire = b'a' ∷ b'.' ∷ b'b' ∷ [] }
      ∷ record { inner = b'C' ∷ []; wire = b'C' ∷ [] }
      ∷ [];
}

domain_new-text : domain_new text ≡ ok escaped
unfolding domain_new name_of_parts split_domain_labels split_loop split_chunk decimal_escape
    labels_of label_new decode_label decode_loop label_octet name_of_labels wire_len labels_len
    is_ascii_digit is_ascii_graphic
domain_new-text = refl

write_wire-escaped : write_wire escaped ≡ 3 ∷ b'a' ∷ b'.' ∷ b'b' ∷ 1 ∷ b'C' ∷ 0 ∷ []
unfolding write_wire write_labels
write_wire-escaped = refl

domain_new_double_dot :
    domain_new (b'a' ∷ b'.' ∷ b'.' ∷ []) ≡ err (invalid_name "empty label (consecutive dots)")
unfolding domain_new name_of_parts split_domain_labels split_loop split_chunk labels_of label_new
    decode_label decode_loop label_octet is_ascii_graphic
domain_new_double_dot = refl

domain_new-display_name_example : domain_new (display_name escaped) ≡ ok escaped
domain_new-display_name_example = domain_new-display_name text domain_new-text

domain_new-ne-stuck_example : domain_new (b'a' ∷ b'\\' ∷ []) ≢ stuck
domain_new-ne-stuck_example = domain_new-ne-stuck (b'a' ∷ b'\\' ∷ [])

abbrev small : DomainName
small = record { labels = record { inner = b'c' ∷ []; wire = b'c' ∷ [] } ∷ [] }

abbrev capital : DomainName
capital = record { labels = record { inner = b'C' ∷ []; wire = b'C' ∷ [] } ∷ [] }

name_eq-canonical_example :
    (name_eq small capital ≡ true) ↔ (write_wire_canonical small ≡ write_wire_canonical capital)
name_eq-canonical_example = name_eq-canonical small capital (omega arith, tt) (omega arith, tt)
