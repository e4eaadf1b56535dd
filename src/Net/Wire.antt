-- ===== src/Net/Wire.antt =====
-- Names in the wire format of DNS messages: `parse_name` and `escape_wire_label` in
-- crates/bind9-sdk-net/src/transfer/wire.rs. The message is the list of its bytes, and positions are
-- counted from its start, since a compression pointer goes back to any of them.
pub mod Escape
pub mod Scan
pub mod Rounds
pub mod Bounds
pub mod Names
pub mod Header
pub mod Record
pub mod Extent
pub mod Tsig
pub mod Sections
pub mod Updates
pub mod SignedUpdates
use bind9_sdk.Common.{
  ℕ, zero, suc, ◌+◌, ◌-◌, ◌*◌, ◌/◌, ◌%◌, Bool, true, false, ◌||◌, Option, none, some, List, [], ◌∷◌,
  ◌++◌, ltb, leb, ◌==◌, if◌then◌else◌, length, take, drop, get_elem?, Result, ok, err, stuck, ◌>>=◌,
  ◌>>◌, ensure, ok_or, map_err,
}
use bind9_sdk.Common.Bytes.{Bytes, is_ascii_graphic, join_dots}
use bind9_sdk.Errors.{NetError, xfr_protocol_error}
use bind9_sdk.Core.Domain.{DomainName, root, domain_new}

abbrev pub max_compression_depth : ℕ
max_compression_depth = 128

-- The variables of the loop of `parse_name`.
pub record NameState : Type 0 where
  pub labels : List Bytes
  pub pos : ℕ
  pub bytes_consumed : ℕ
  pub jumped : Bool
  pub depth : ℕ
  pub first_pointer_pos : Option ℕ

unfoldable pub name_start : ℕ → NameState
name_start offset = record {
  labels = [];
  pos = offset;
  bytes_consumed = 0;
  jumped = false;
  depth = 0;
  first_pointer_pos = none;
}

-- `\DDD`, as `{byte:03}` writes it.
unfoldable pub escape_octet : ℕ → Bytes
unfolding is_ascii_graphic
escape_octet b =
    if b == b'.'
    then b'\\' ∷ b'.' ∷ []
    else if b == b'\\'
    then b'\\' ∷ b'\\' ∷ []
    else if is_ascii_graphic b
    then b ∷ []
    else b'\\' ∷ (b / 100 + b'0') ∷ (b / 10 % 10 + b'0') ∷ (b % 10 + b'0') ∷ []

unfoldable pub escape_wire_label : Bytes → Bytes
unfolding escape_octet
escape_wire_label [] = []
escape_wire_label (b ∷ bs) = escape_octet b ++ escape_wire_label bs

-- `first_pointer_pos.unwrap_or(offset)`
abbrev pub limit_of : ℕ → Option ℕ → ℕ
limit_of offset none = offset
limit_of offset (some p) = p

-- A compression pointer: its first byte is `len_byte`, at `s.pos`.
unfoldable pub follow_pointer : Bytes → ℕ → ℕ → NameState → Result NetError NameState
follow_pointer buf offset len_byte s = do
  low ← ok_or (get_elem? buf (s.pos + 1)) (xfr_protocol_error "truncated compression pointer")
  let pointer = (len_byte % 64) * 256 + low
  ensure (ltb pointer (limit_of offset s.first_pointer_pos))
      (xfr_protocol_error "compression pointer must go back")
  ok (record {
    labels = s.labels;
    pos = pointer;
    bytes_consumed = (if s.jumped then s.bytes_consumed else s.pos - offset + 2);
    jumped = true;
    depth = s.depth;
    first_pointer_pos = (elim s.first_pointer_pos [ none ↦ some s.pos | some p ↦ some p ]);
  })

-- A label of `label_len` octets, whose first is behind `s.pos`.
unfoldable pub take_label : Bytes → ℕ → NameState → Result NetError NameState
unfolding escape_wire_label
take_label buf label_len s = do
  let start = s.pos + 1
  ensure (leb (start + label_len) (length buf)) (xfr_protocol_error "truncated DNS label")
  ok (record s {
    labels = s.labels ++ (escape_wire_label (take label_len (drop start buf)) ∷ []);
    pos = start + label_len;
  })

-- What a round does with the byte at `s.pos`: whether the loop breaks, and the variables behind it.
-- For a byte, `len_byte & 0xC0 == 0xC0` says that it is 192 at least.
unfoldable pub by_length : Bytes → ℕ → ℕ → NameState → Result NetError (Bool × NameState)
by_length buf offset len_byte s =
    if len_byte == 0
    then ok (
      true,
      record s { bytes_consumed = (if s.jumped then s.bytes_consumed else s.pos - offset + 1) },
    )
    else if leb 192 len_byte
    then (follow_pointer buf offset len_byte s >>= λ s'. ok (false, s'))
    else (take_label buf len_byte s >>= λ s'. ok (false, s'))

-- One round of the loop.
unfoldable pub name_round : Bytes → ℕ → NameState → Result NetError (Bool × NameState)
name_round buf offset s₀ = do
  len_byte ← ok_or (get_elem? buf s₀.pos) (xfr_protocol_error "truncated DNS name")
  let s = record s₀ { depth = s₀.depth + 1 }
  ensure (leb s.depth max_compression_depth)
      (xfr_protocol_error "DNS name compression loop detected")
  by_length buf offset len_byte s

unfoldable pub name_loop : ℕ → Bytes → ℕ → NameState → Result NetError NameState
name_loop zero buf offset s = stuck
name_loop (suc fuel) buf offset s = do
  (stop, s') ← name_round buf offset s
  elim stop [ true ↦ ok s' | false ↦ name_loop fuel buf offset s' ]

unfoldable pub name_of_wire_labels : List Bytes → Result NetError DomainName
unfolding root
name_of_wire_labels [] = ok root
name_of_wire_labels (l ∷ ls) =
    map_err (λ e. xfr_protocol_error "invalid DNS name from wire")
      (domain_new (join_dots (l ∷ ls) ++ (b'.' ∷ [])))

-- The test of the depth ends the loop in round 129 at the latest.
unfoldable pub parse_name : Bytes → ℕ → Result NetError (DomainName × ℕ)
unfolding name_start
parse_name buf offset = do
  s ← name_loop (suc max_compression_depth) buf offset (name_start offset)
  name ← name_of_wire_labels s.labels
  ok (name, s.bytes_consumed)
