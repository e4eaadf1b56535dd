-- ===== src/Net/Transfer/Checks.antt =====
-- The checks of a message of a transfer: `validate_transfer_response` in
-- crates/bind9-sdk-net/src/transfer/mod.rs.
use bind9_sdk.Common.{
  ℕ, zero, suc, ◌+◌, not, ◌&&◌, Option, none, some, ◌∷◌, drop, leb, ◌==◌, Result, ok, ◌>>=◌, ◌>>◌,
  ensure, ok_or,
}
use bind9_sdk.Common.Bytes.{Bytes, u16_from}
use bind9_sdk.Errors.{NetError, xfr_protocol_error, transfer_failed}
use bind9_sdk.Core.Domain.{DomainName, name_eq}
use bind9_sdk.Net.Wire.{parse_name}
use bind9_sdk.Net.Wire.Header.{DnsHeader}

-- The type and the class of a question, in the four octets at an offset.
unfoldable pub question_fields : Bytes → Option (ℕ × ℕ)
question_fields (t ∷ t' ∷ c ∷ c' ∷ rest) = some (u16_from t t', u16_from c c')
question_fields _ = none

-- The loop over the questions.
unfoldable pub check_questions : Bytes → DomainName → ℕ → ℕ → ℕ → Result NetError ℕ
check_questions message zone expected_qtype zero offset = ok offset
check_questions message zone expected_qtype (suc n) offset = do
  (question_name, name_len) ← parse_name message offset
  let fixed_offset = offset + name_len
  (question_type, question_class) ←
      ok_or (question_fields (drop fixed_offset message))
        (xfr_protocol_error "truncated zone transfer question")
  ensure (name_eq question_name zone && (question_type == expected_qtype) && (question_class == 1))
      (xfr_protocol_error "zone transfer response question mismatch")
  check_questions message zone expected_qtype n (fixed_offset + 4)

unfoldable pub validate_transfer_response : Bytes → DnsHeader → DomainName → ℕ → Result NetError ℕ
unfolding check_questions
validate_transfer_response message header zone expected_qtype = do
  ensure header.is_response (xfr_protocol_error "expected response, got query")
  ensure (header.opcode == 0) (xfr_protocol_error "expected standard QUERY opcode")
  ensure header.authoritative (xfr_protocol_error "zone transfer response must be authoritative")
  ensure (not header.truncated) (xfr_protocol_error "zone transfer response must not be truncated")
  ensure (header.rcode == 0) (transfer_failed "server returned RCODE")
  ensure (leb header.question_count 1)
      (xfr_protocol_error "zone transfer response has more than one question")
  check_questions message zone expected_qtype header.question_count 12
