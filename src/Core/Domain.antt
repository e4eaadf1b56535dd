-- ===== src/Core/Domain.antt =====
-- Domain names: crates/bind9-sdk-core/src/domain.rs.
-- A text is the list of its UTF-8 bytes, as the source scans it. A loop over byte positions is a
-- loop over the bytes that are left; its fuel is their number, and each round takes one at least.
pub mod Labels
pub mod Split
pub mod Names
pub mod Equality
pub mod Plain
use bind9_sdk.Common.{
  ℕ, zero, suc, ◌+◌, ◌-◌, ◌*◌, Bool, true, false, not, ◌&&◌, ◌||◌, List, [], ◌∷◌, ◌++◌, Option,
  none, some, ltb, leb, ◌==◌, if◌then◌else◌, length, take, map, Result, ok, err, stuck, ◌>>=◌, ◌>>◌,
  ensure, map_err,
}
use bind9_sdk.Common.Bytes.{
  Bytes, is_ascii_digit, is_ascii_graphic, to_ascii_lowercase, eq_ignore_ascii_case,
}
use bind9_sdk.Errors.{CoreError, invalid_name, invalid_label}

-- `inner` is the text as written, `wire` the octets after the escapes are decoded.
pub record Label : Type 0 where
  pub inner : Bytes
  pub wire : Bytes

-- What follows a backslash: three digits with their value, and the bytes behind them.
unfoldable pub decimal_escape : Bytes → Option (ℕ × Bytes)
unfolding is_ascii_digit
decimal_escape (a ∷ b ∷ c ∷ rest) =
    if is_ascii_digit a && is_ascii_digit b && is_ascii_digit c
    then some ((a - b'0') * 100 + (b - b'0') * 10 + (c - b'0'), rest)
    else none
decimal_escape _ = none

escaped_octet : Bytes → Result CoreError (ℕ × Bytes)
escaped_octet [] = err (invalid_label "label ends with incomplete escape")
escaped_octet (c ∷ cs) = elim (decimal_escape (c ∷ cs)) [
  | some (v, rest) ↦
      if ltb 255 v then err (invalid_label "decimal escape exceeds 255 in label") else ok (v, rest)
  | none ↦ ok (c, cs)
]

-- One round of `decode_label`: the octet that it pushes, and the bytes that are left.
unfoldable pub label_octet : ℕ → Bytes → Result CoreError (ℕ × Bytes)
unfolding escaped_octet is_ascii_graphic
label_octet b bs =
    if b == b'\\'
    then escaped_octet bs
    else if not (is_ascii_graphic b) || b == b'.'
    then err (invalid_label "label contains invalid character")
    else ok (b, bs)

unfoldable pub decode_loop : ℕ → Bytes → Bytes → Result CoreError Bytes
decode_loop fuel [] decoded = ok decoded
decode_loop zero (b ∷ bs) decoded = stuck
decode_loop (suc fuel) (b ∷ bs) decoded = do
  (octet, rest) ← label_octet b bs
  decode_loop fuel rest (decoded ++ (octet ∷ []))

unfoldable pub decode_label : Bytes → Result CoreError Bytes
decode_label text = decode_loop (length text) text []

unfoldable pub label_new : Bytes → Result CoreError Label
label_new [] = err (invalid_label "label is empty")
label_new (b ∷ bs) = do
  decoded ← decode_label (b ∷ bs)
  ensure (leb (length decoded) 63) (invalid_label "label exceeds 63 bytes")
  ok (record { inner = b ∷ bs; wire = decoded })

escape_chunk : Bytes → Result CoreError (Bytes × Bytes)
escape_chunk [] = err (invalid_name "name ends with incomplete escape")
escape_chunk (c ∷ cs) = elim (decimal_escape (c ∷ cs)) [
  | some (_, rest) ↦ ok (b'\\' ∷ take 3 (c ∷ cs), rest)
  | none ↦ ok (b'\\' ∷ c ∷ [], cs)
]

-- One round of `split_domain_labels`: the bytes that it passes over, and those that are left.
unfoldable pub split_chunk : ℕ → Bytes → Result CoreError (Bytes × Bytes)
unfolding escape_chunk
split_chunk b bs = if b == b'\\' then escape_chunk bs else ok (b ∷ [], bs)

-- `label` is `name[start..pos]`, so `start == name.len()` at the end says that it is empty.
unfoldable pub split_loop : ℕ → Bytes → Bytes → List Bytes → Result CoreError (List Bytes × Bool)
split_loop fuel [] [] labels = ok (labels, true)
split_loop fuel [] (l ∷ ls) labels = ok (labels ++ ((l ∷ ls) ∷ []), false)
split_loop zero (b ∷ bs) label labels = stuck
split_loop (suc fuel) (b ∷ bs) label labels = do
  (taken, rest) ← split_chunk b bs
  split_loop fuel rest (if b == b'.' then [] else label ++ taken)
      (if b == b'.' then labels ++ (label ∷ []) else labels)

unfoldable pub split_domain_labels : Bytes → Result CoreError (List Bytes × Bool)
split_domain_labels name = split_loop (length name) name [] []

pub record DomainName : Type 0 where
  pub labels : List Label

unfoldable pub root : DomainName
root = record { labels = [] }

-- `sum::<usize>() + 1`
unfoldable pub labels_len : List Label → ℕ
labels_len [] = 0
labels_len (l ∷ ls) = (1 + length l.wire) + labels_len ls

unfoldable pub wire_len : DomainName → ℕ
unfolding labels_len
wire_len n = labels_len n.labels + 1

-- The loop over `parts` in `DomainName::new`.
unfoldable pub labels_of : List Bytes → Result CoreError (List Label)
labels_of [] = ok []
labels_of ([] ∷ parts) = err (invalid_name "empty label (consecutive dots)")
labels_of ((b ∷ bs) ∷ parts) = do
  label ← map_err (λ e. invalid_name "invalid label") (label_new (b ∷ bs))
  rest ← labels_of parts
  ok (label ∷ rest)

unfoldable pub name_of_labels : List Label → Result CoreError DomainName
unfolding wire_len
name_of_labels ls =
    let name : DomainName = record { labels = ls } in
    if ltb 255 (wire_len name) then err (invalid_name "wire format exceeds 255 octets") else ok name

unfoldable pub name_of_parts : Bytes → Result CoreError DomainName
name_of_parts text = do
  (parts, absolute) ← split_domain_labels text
  ls ← labels_of parts
  name_of_labels ls

unfoldable pub domain_new : Bytes → Result CoreError DomainName
unfolding root name_of_parts
domain_new (b ∷ []) = if b == b'.' then ok root else name_of_parts (b ∷ [])
domain_new text = name_of_parts text

-- `bytes.len() as u8`: a label has 63 octets at most.
unfoldable pub write_labels : List Label → Bytes
write_labels [] = 0 ∷ []
write_labels (l ∷ ls) = (length l.wire) ∷ (l.wire ++ write_labels ls)

unfoldable pub write_wire : DomainName → Bytes
unfolding write_labels
write_wire n = write_labels n.labels

unfoldable pub write_labels_canonical : List Label → Bytes
unfolding to_ascii_lowercase
write_labels_canonical [] = 0 ∷ []
write_labels_canonical (l ∷ ls) =
    (length l.wire) ∷ (map to_ascii_lowercase l.wire ++ write_labels_canonical ls)

unfoldable pub write_wire_canonical : DomainName → Bytes
unfolding write_labels_canonical
write_wire_canonical n = write_labels_canonical n.labels

-- `a.len() == b.len()` and `zip` with `all`.
unfoldable pub octets_eq : Bytes → Bytes → Bool
unfolding eq_ignore_ascii_case
octets_eq [] [] = true
octets_eq (a ∷ as') (b ∷ bs) = eq_ignore_ascii_case a b && octets_eq as' bs
octets_eq _ _ = false

unfoldable pub labels_eq : List Label → List Label → Bool
unfolding octets_eq
labels_eq [] [] = true
labels_eq (a ∷ as') (b ∷ bs) = octets_eq a.wire b.wire && labels_eq as' bs
labels_eq _ _ = false

-- `impl PartialEq for DomainName`
unfoldable pub name_eq : DomainName → DomainName → Bool
unfolding labels_eq
name_eq a b = labels_eq a.labels b.labels

-- `impl Display for DomainName`
unfoldable pub display_labels : List Label → Bytes
display_labels [] = []
display_labels (l ∷ ls) = l.inner ++ (b'.' ∷ display_labels ls)

unfoldable pub display_name : DomainName → Bytes
unfolding display_labels
display_name n = elim n.labels [ [] ↦ b'.' ∷ [] | l ∷ ls ↦ display_labels (l ∷ ls) ]
