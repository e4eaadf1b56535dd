-- ===== src/Net/Wire/Header.antt =====
-- The header of a DNS message: `DnsHeader` in crates/bind9-sdk-net/src/transfer/wire.rs. A shift to
-- the right by n is the quotient by 2 ^ n.
use bind9_sdk.Common.{ℕ, ◌/◌, Bool, not, ◌∷◌, ◌==◌, bit_and, Result, ok, err}
use bind9_sdk.Common.Bytes.{Bytes, u16_from}
use bind9_sdk.Errors.{NetError, xfr_protocol_error}

pub record DnsHeader : Type 0 where
  pub id : ℕ
  pub is_response : Bool
  pub opcode : ℕ
  pub authoritative : Bool
  pub truncated : Bool
  pub recursion_desired : Bool
  pub recursion_available : Bool
  pub rcode : ℕ
  pub question_count : ℕ
  pub answer_count : ℕ
  pub authority_count : ℕ
  pub additional_count : ℕ

-- `flags & mask != 0`
abbrev pub has_bit : ℕ → ℕ → Bool
has_bit flags mask = not (bit_and flags mask == 0)

-- `DnsHeader::parse`
unfoldable pub parse_header : Bytes → Result NetError DnsHeader
parse_header (i ∷ i' ∷ flags1 ∷ flags2 ∷ q ∷ q' ∷ n ∷ n' ∷ a ∷ a' ∷ r ∷ r' ∷ rest) = ok (record {
  id = u16_from i i';
  is_response = has_bit flags1 0x80;
  opcode = bit_and (flags1 / 8) 0x0F;
  authoritative = has_bit flags1 0x04;
  truncated = has_bit flags1 0x02;
  recursion_desired = has_bit flags1 0x01;
  recursion_available = has_bit flags2 0x80;
  rcode = bit_and flags2 0x0F;
  question_count = u16_from q q';
  answer_count = u16_from n n';
  authority_count = u16_from a a';
  additional_count = u16_from r r';
})
parse_header _ = err (xfr_protocol_error "DNS header too short")
