-- ===== src/Net/Wire/Escape.antt =====
-- `decode_label` on the text that `escape_wire_label` writes.
use bind9_sdk.Common.{
  ℕ, zero, suc, ◌+◌, ◌/◌, ◌%◌, ◌≤◌, ◌≡◌, refl, ap, ◌∙◌, inl, inr, true, false, [], ◌∷◌, ◌++◌, arith,
  ◌==◌, length, length-append, All, ok, Bool-cases,
}
use mathlib.Core.List.{append_assoc, append-nil}
use bind9_sdk.Common.Bytes.{Bytes, IsByte, is_ascii_digit, is_ascii_graphic}
use bind9_sdk.Core.Domain.{Label, decimal_escape, label_octet, decode_loop, decode_label, label_new}
use bind9_sdk.Core.Domain.Names.{IsParsed}
use bind9_sdk.Net.Wire.{escape_octet, escape_wire_label}

-- A backslash in front of a byte that is no digit stands for that byte.
label_octet-backslash :
    (b : ℕ) (rest : Bytes) → is_ascii_digit b ≡ false → label_octet b'\\' (b ∷ rest) ≡ ok (b, rest)
unfolding label_octet decimal_escape
label_octet-backslash b [] h = ground (arith, h)
label_octet-backslash b (c ∷ []) h = ground (arith, h)
label_octet-backslash b (c ∷ d ∷ rest) h = ground (arith, h)

-- Three digits behind a backslash stand for their value.
label_octet-decimal :
    (b : ℕ) (rest : Bytes)
    → IsByte b
    → label_octet b'\\' ((b / 100 + b'0') ∷ (b / 10 % 10 + b'0') ∷ (b % 10 + b'0') ∷ rest)
      ≡ ok (b, rest)
unfolding label_octet decimal_escape is_ascii_digit
label_octet-decimal b rest h = ground arith

label_octet-plain :
    (b : ℕ) (rest : Bytes)
    → (b == b'.') ≡ false
    → (b == b'\\') ≡ false
    → is_ascii_graphic b ≡ true
    → label_octet b rest ≡ ok (b, rest)
unfolding label_octet
label_octet-plain b rest dot slash h = ground arith

-- The bytes that are written for an octet: the first, the others, and that the decoder reads them
-- as the octet, in one round.
record IsReadBack (b : ℕ) : Type 0 where
  first : ℕ
  others : Bytes
  written : escape_octet b ≡ first ∷ others
  read : (rest : Bytes) → label_octet first (others ++ rest) ≡ ok (b, rest)

escape_octet-IsReadBack : (b : ℕ) → IsByte b → IsReadBack b
unfolding escape_octet
escape_octet-IsReadBack b h = elim (Bool-cases (b == b'.')) [
  | inl e ↦ record {
    first = b'\\';
    others = b ∷ [];
    written = ground arith;
    read = λ rest. label_octet-backslash b rest (unfold is_ascii_digit in ground arith);
  }
  | inr dot ↦ elim (Bool-cases (b == b'\\')) [
    | inl e ↦ record {
      first = b'\\';
      others = b ∷ [];
      written = ground arith;
      read = λ rest. label_octet-backslash b rest (unfold is_ascii_digit in ground arith);
    }
    | inr slash ↦ elim (Bool-cases (is_ascii_graphic b)) [
      | inl e ↦ record {
        first = b;
        others = [];
        written = rw (dot, slash, e);
        read = λ rest. label_octet-plain b rest dot slash e;
      }
      | inr e ↦ record {
        first = b'\\';
        others = (b / 100 + b'0') ∷ (b / 10 % 10 + b'0') ∷ (b % 10 + b'0') ∷ [];
        written = rw (dot, slash, e);
        read = λ rest. label_octet-decimal b rest h;
      }
    ]
  ]
]

decode_loop-read :
    (fuel first o : ℕ) (text rest decoded : Bytes)
    → label_octet first text ≡ ok (o, rest)
    → decode_loop (suc fuel) (first ∷ text) decoded ≡ decode_loop fuel rest (decoded ++ (o ∷ []))
unfolding decode_loop
decode_loop-read fuel first o text rest decoded e = rw e

-- The decoder on a whole escaped label, with fuel for it.
decode_loop-escape_wire_label :
    (w : Bytes) (fuel : ℕ) (decoded : Bytes)
    → All IsByte w
    → length (escape_wire_label w) ≤ fuel
    → decode_loop fuel (escape_wire_label w) decoded ≡ ok (decoded ++ w)
unfolding escape_wire_label
decode_loop-escape_wire_label [] fuel decoded h hf = rw append-nil (unfold decode_loop in refl)
decode_loop-escape_wire_label (b ∷ w) zero decoded h hf =
    let m = escape_octet-IsReadBack b h.0 in
    absurd
      (omega (arith, ap length m.written, length-append (escape_octet b) (escape_wire_label w)))
decode_loop-escape_wire_label (b ∷ w) (suc fuel) decoded h hf =
    let m = escape_octet-IsReadBack b h.0 in
    let rest = escape_wire_label w in
    ap (λ t. decode_loop (suc fuel) (t ++ rest) decoded) m.written
    ∙ decode_loop-read fuel m.first b (m.others ++ rest) rest decoded (m.read rest)
    ∙ decode_loop-escape_wire_label w fuel (decoded ++ (b ∷ [])) h.1
        (omega (arith, ap length m.written, length-append (escape_octet b) rest))
    ∙ rw append_assoc

-- The label that is read for the octets `w`.
abbrev pub escaped_label : Bytes → Label
escaped_label w = record { inner = escape_wire_label w; wire = w }

label_new_decoded :
    (text w : Bytes)
    → 1 ≤ length text
    → length w ≤ 63
    → decode_loop (length text) text [] ≡ ok w
    → label_new text ≡ ok (record { inner = text; wire = w })
unfolding label_new decode_label
label_new_decoded [] w h short e = absurd (omega arith)
label_new_decoded (b ∷ bs) w h short e = rw e (ground arith)

pub escaped_label-IsParsed :
    (w : Bytes) → 1 ≤ length w → length w ≤ 63 → All IsByte w → IsParsed (escaped_label w)
escaped_label-IsParsed [] h short octets = absurd (omega arith)
escaped_label-IsParsed (b ∷ w) h short octets =
    let m = escape_octet-IsReadBack b octets.0 in
    label_new_decoded (escape_wire_label (b ∷ w)) (b ∷ w) (some_text m) short
      (decode_loop-escape_wire_label (b ∷ w) _ [] octets (omega arith))
  where
    some_text : IsReadBack b → 1 ≤ length (escape_wire_label (b ∷ w))
    some_text m =
        unfold escape_wire_label in
        omega (arith, ap length m.written, length-append (escape_octet b) (escape_wire_label w))
