-- ===== src/Core/Tsig/Names.antt =====
-- `read_wire_name` (crates/bind9-sdk-core/src/tsig/wire.rs) on names without escapes, and the names
-- of the algorithms.
use bind9_sdk.Common.{
  ℕ, zero, suc, ◌+◌, ◌≤◌, ◌≡◌, ◌∙◌, List, [], ◌∷◌, ◌++◌, arith, map, lt→ltb, le→leb, false, ◌==◌,
  length, length-append, take-append_length, drop-append_length, All, ok,
}
use mathlib.Core.List.{append_assoc, append-nil}
use mathlib.Core.Path.{subst}
use bind9_sdk.Common.Bytes.{Bytes, join_dots}
use bind9_sdk.Common.Utf8.{is_utf8-ascii}
use bind9_sdk.Core.Domain.{Label, DomainName, write_labels, write_wire, write_wire_canonical}
use bind9_sdk.Core.Domain.Plain.{
  IsPlain, IsPlainLabel, lowered_labels, lowered, lowered-IsPlainLabel, write_wire-lowered,
}
use bind9_sdk.Core.Tsig.Wire.{read_labels, read_wire_name}

plain_ascii : (w : Bytes) → All IsPlain w → All (λ b. b ≤ 0x7f) w
plain_ascii [] h = tt
plain_ascii (b ∷ w) h = (omega (arith, h.0.graphic), plain_ascii w h.1)

-- A round at a label.
read_labels-label :
    (fuel : ℕ) (w post : Bytes) (labels : List Bytes)
    → 1 ≤ length w
    → length w ≤ 63
    → All IsPlain w
    → read_labels (suc fuel) (length w ∷ (w ++ post)) labels
      ≡ read_labels fuel post (labels ++ (w ∷ []))
unfolding read_labels
read_labels-label fuel w post labels some_octet short h =
    let nonzero : (length w == 0) ≡ false = ground arith in
    let fits : length w ≤ length (w ++ post) = omega (arith, length-append w post) in
    rw (
      nonzero,
      read_labels,
      lt→ltb (length w) 64 (omega arith),
      le→leb _ _ fits,
      take-append_length w post,
      is_utf8-ascii w (plain_ascii w h),
      drop-append_length w post,
    )

read_labels-write_labels :
    (ls : List Label) (fuel : ℕ) (post : Bytes) (labels : List Bytes)
    → length ls + 1 ≤ fuel
    → All IsPlainLabel ls
    → read_labels fuel (write_labels ls ++ post) labels ≡ ok (labels ++ map (λ l. l.wire) ls, post)
unfolding write_labels
read_labels-write_labels ls zero post labels hf h = absurd (omega arith)
read_labels-write_labels [] (suc fuel) post labels hf h = unfold read_labels in rw append-nil
read_labels-write_labels (l ∷ ls) (suc fuel) post labels hf h =
    rw (append_assoc l.wire (write_labels ls) post) (
      read_labels-label fuel l.wire (write_labels ls ++ post) labels h.0.nonempty h.0.short
        h.0.plain
      ∙ read_labels-write_labels ls fuel post _ (omega arith) h.1
      ∙ rw append_assoc)

write_labels_long : (ls : List Label) → length ls + 1 ≤ length (write_labels ls)
unfolding write_labels
write_labels_long [] = omega arith
write_labels_long (l ∷ ls) =
    omega (arith, write_labels_long ls, length-append l.wire (write_labels ls))

-- The text that is read for the labels of a name.
abbrev pub dotted : List Label → Bytes
dotted ls = join_dots (map (λ l. l.wire) ls) ++ (b'.' ∷ [])

pub read_wire_name-write_wire :
    (n : DomainName) (post : Bytes)
    → All IsPlainLabel n.labels
    → read_wire_name (write_wire n ++ post) ≡ ok (dotted n.labels, post)
unfolding read_wire_name write_wire
read_wire_name-write_wire n post h = rw (
    read_labels-write_labels n.labels (length (write_labels n.labels ++ post)) post []
      (omega (arith, write_labels_long n.labels, length-append (write_labels n.labels) post)) h)

pub read_wire_name-canonical :
    (n : DomainName) (post : Bytes)
    → All IsPlainLabel n.labels
    → read_wire_name (write_wire_canonical n ++ post) ≡ ok (dotted (lowered_labels n.labels), post)
read_wire_name-canonical n post h =
    subst (λ w. read_wire_name (w ++ post) ≡ ok (dotted (lowered_labels n.labels), post))
      (write_wire-lowered n)
      (read_wire_name-write_wire (lowered n) post (lowered-IsPlainLabel n.labels h))
