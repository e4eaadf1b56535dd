-- ===== src/Core/Domain/Plain.antt =====
-- Names whose octets need no escape (crates/bind9-sdk-core/src/domain.rs): the text of a label is
-- its octets, and the canonical wire form is that of the name in lower case.
use bind9_sdk.Common.{
  ℕ, zero, suc, ◌+◌, ◌≤◌, ◌≡◌, ◌≢◌, refl, ap, ◌∙◌, true, List, [], ◌∷◌, ◌++◌, arith, map, length,
  All, ok,
}
use mathlib.Core.List.{append_assoc, append-nil}
use bind9_sdk.Common.Bytes.{Bytes, is_ascii_graphic, to_ascii_lowercase, join_dots}
use bind9_sdk.Core.Domain.{
  Label, DomainName, label_octet, decode_loop, decode_label, label_new, root, domain_new,
  display_name, labels_len, wire_len, write_labels, write_wire, write_labels_canonical,
  write_wire_canonical, name_eq,
}
use bind9_sdk.Core.Domain.Names.{IsName, IsParsed, display_labels-IsName, join_dots-display_labels}
use bind9_sdk.Core.Domain.Equality.{lower, folded, name_eq_iff, length-lower}

-- A printable ASCII character that is neither a dot nor a backslash.
pub record IsPlain (b : ℕ) : Type 0 where
  pub graphic : (0x21 ≤ b) × (b ≤ 0x7e)
  pub no_dot : b ≢ b'.'
  pub no_backslash : b ≢ b'\\'

pub record IsPlainLabel (l : Label) : Type 0 where
  pub nonempty : 1 ≤ length l.wire
  pub short : length l.wire ≤ 63
  pub plain : All IsPlain l.wire

label_octet-plain : (b : ℕ) (rest : Bytes) → IsPlain b → label_octet b rest ≡ ok (b, rest)
unfolding label_octet is_ascii_graphic
label_octet-plain b rest h = ground arith

decode_loop-plain :
    (w : Bytes) (fuel : ℕ) (decoded : Bytes)
    → All IsPlain w
    → length w ≤ fuel
    → decode_loop fuel w decoded ≡ ok (decoded ++ w)
unfolding decode_loop
decode_loop-plain [] fuel decoded h hf = rw append-nil
decode_loop-plain (b ∷ w) zero decoded h hf = absurd (omega arith)
decode_loop-plain (b ∷ w) (suc fuel) decoded h hf =
    rw (label_octet-plain b w h.0)
      (decode_loop-plain w fuel (decoded ++ (b ∷ [])) h.1 (omega arith) ∙ rw append_assoc)

-- The label that is written without an escape.
abbrev pub plain_label : Bytes → Label
plain_label w = record { inner = w; wire = w }

label_new-plain :
    (w : Bytes) → 1 ≤ length w → length w ≤ 63 → All IsPlain w → label_new w ≡ ok (plain_label w)
unfolding label_new decode_label
label_new-plain [] some_octet short h = absurd (omega arith)
label_new-plain (b ∷ w) some_octet short h =
    rw (decode_loop-plain (b ∷ w) (length (b ∷ w)) [] h (omega arith)) (ground arith)

-- The name in lower case.
abbrev pub lowered_labels : List Label → List Label
lowered_labels ls = map (λ l. plain_label (lower l.wire)) ls

abbrev pub lowered : DomainName → DomainName
lowered n = record { labels = lowered_labels n.labels }

lowercase-IsPlain : (b : ℕ) → IsPlain b → IsPlain (to_ascii_lowercase b)
unfolding to_ascii_lowercase
lowercase-IsPlain b h = record {
  graphic = ground arith;
  no_dot = λ e. ground arith;
  no_backslash = λ e. ground arith;
}

lower-IsPlain : (w : Bytes) → All IsPlain w → All IsPlain (lower w)
lower-IsPlain [] h = tt
lower-IsPlain (b ∷ w) h = (lowercase-IsPlain b h.0, lower-IsPlain w h.1)

pub lowered-IsPlainLabel :
    (ls : List Label) → All IsPlainLabel ls → All IsPlainLabel (lowered_labels ls)
lowered-IsPlainLabel [] h = tt
lowered-IsPlainLabel (l ∷ ls) h = (
  record {
    nonempty = omega (arith, length-lower l.wire, h.0.nonempty);
    short = omega (arith, length-lower l.wire, h.0.short);
    plain = lower-IsPlain l.wire h.0.plain;
  },
  lowered-IsPlainLabel ls h.1,
)

write_labels-lowered :
    (ls : List Label) → write_labels (lowered_labels ls) ≡ write_labels_canonical ls
unfolding write_labels write_labels_canonical
write_labels-lowered [] = refl
write_labels-lowered (l ∷ ls) = cc (length-lower l.wire, write_labels-lowered ls)

labels_len-lowered : (ls : List Label) → labels_len (lowered_labels ls) ≡ labels_len ls
unfolding labels_len
labels_len-lowered [] = refl
labels_len-lowered (l ∷ ls) = omega (arith, length-lower l.wire, labels_len-lowered ls)

pub write_wire-lowered : (n : DomainName) → write_wire (lowered n) ≡ write_wire_canonical n
unfolding write_wire write_wire_canonical
write_wire-lowered n = write_labels-lowered n.labels

pub wire_len-lowered : (n : DomainName) → wire_len (lowered n) ≡ wire_len n
unfolding wire_len
wire_len-lowered n = ap (λ k. k + 1) (labels_len-lowered n.labels)

lowercase_twice : (b : ℕ) → to_ascii_lowercase (to_ascii_lowercase b) ≡ to_ascii_lowercase b
unfolding to_ascii_lowercase
lowercase_twice b = ground arith

lower_twice : (w : Bytes) → lower (lower w) ≡ lower w
lower_twice [] = refl
lower_twice (b ∷ w) = cc (lowercase_twice b, lower_twice w)

folded-lowered : (ls : List Label) → folded (lowered_labels ls) ≡ folded ls
unfolding folded
folded-lowered [] = refl
folded-lowered (l ∷ ls) = cc (lower_twice l.wire, folded-lowered ls)

pub name_eq-lowered : (n : DomainName) → name_eq (lowered n) n ≡ true
name_eq-lowered n = (name_eq_iff (lowered n) n).1 (folded-lowered n.labels)

lowered-IsParsed : (ls : List Label) → All IsPlainLabel ls → All IsParsed (lowered_labels ls)
lowered-IsParsed [] h = tt
lowered-IsParsed (l ∷ ls) h = (
  label_new-plain (lower l.wire) (omega (arith, length-lower l.wire, h.0.nonempty))
      (omega (arith, length-lower l.wire, h.0.short)) (lower-IsPlain l.wire h.0.plain),
  lowered-IsParsed ls h.1,
)

pub lowered-IsName :
    (n : DomainName) → All IsPlainLabel n.labels → wire_len n ≤ 255 → IsName (lowered n)
lowered-IsName n h fits = record {
  parsed = lowered-IsParsed n.labels h;
  fits = omega (arith, wire_len-lowered n);
}

-- The labels, joined by dots and with a dot at the end, are read back as the name.
pub domain_new-join_dots :
    (ls : List Label)
    → IsName (record { labels = ls })
    → domain_new (join_dots (map (λ l. l.inner) ls) ++ (b'.' ∷ [])) ≡ ok (record { labels = ls })
domain_new-join_dots [] h = unfold domain_new join_dots root in refl
domain_new-join_dots (l ∷ ls) h =
    rw (join_dots-display_labels l ls) (unfold display_name in display_labels-IsName (l ∷ ls) h)
