-- ===== src/Net/Wire/Tsig.antt =====
-- The TSIG record at the end of a message: `split_final_tsig` in
-- crates/bind9-sdk-net/src/transfer/wire.rs. Offsets do not overflow: they stay within a message.
use bind9_sdk.Common.{
  ℕ, zero, suc, ◌+◌, ◌-◌, not, ◌||◌, Option, none, some, leb, ◌==◌, if◌then◌else◌, length, take,
  drop, Result, ok, ◌>>=◌, ◌>>◌, ensure, map_err,
}
use bind9_sdk.Common.Bytes.{Bytes, set_arcount}
use bind9_sdk.Errors.{NetError, core, xfr_protocol_error}
use bind9_sdk.Core.Tsig.Record.{TsigRecord}
use bind9_sdk.Core.Tsig.Wire.{parse_from_wire}
use bind9_sdk.Net.Wire.{parse_name}
use bind9_sdk.Net.Wire.Header.{DnsHeader, parse_header}
use bind9_sdk.Net.Wire.Record.{resource_record_type_and_len}

pub record SplitTsigMessage : Type 0 where
  pub unsigned_message : Bytes
  pub tsig : Option TsigRecord

-- The loop over the questions: the offset behind them.
unfoldable pub skip_questions : ℕ → Bytes → ℕ → Result NetError ℕ
skip_questions zero message offset = ok offset
skip_questions (suc n) message offset = do
  (_, name_len) ← parse_name message offset
  ensure (leb (offset + (name_len + 4)) (length message))
      (xfr_protocol_error "truncated DNS question")
  skip_questions n message (offset + (name_len + 4))

-- The loop over the answers and the authority records.
unfoldable pub skip_records : ℕ → Bytes → ℕ → Result NetError ℕ
skip_records zero message offset = ok offset
skip_records (suc n) message offset = do
  (rtype, consumed) ← resource_record_type_and_len message offset
  ensure (not (rtype == 250)) (xfr_protocol_error "TSIG is only valid in the additional section")
  skip_records n message (offset + consumed)

-- The loop over the additional records, `left` of them behind the next one: the offset behind them
-- and that of the TSIG record.
unfoldable pub scan_additional : ℕ → Bytes → ℕ → Option ℕ → Result NetError (ℕ × Option ℕ)
scan_additional zero message offset tsig_offset = ok (offset, tsig_offset)
scan_additional (suc left) message offset tsig_offset = do
  (rtype, consumed) ← resource_record_type_and_len message offset
  ensure (not (rtype == 250) || left == 0)
      (xfr_protocol_error "TSIG must be the final additional record")
  scan_additional left message (offset + consumed)
      (if rtype == 250 then some offset else tsig_offset)

-- The last step: the message in front of the TSIG record, with one additional record less.
unfoldable pub cut_tsig : DnsHeader → Bytes → Option ℕ → Result NetError SplitTsigMessage
cut_tsig header message none = ok (record { unsigned_message = message; tsig = none })
cut_tsig header message (some tsig_offset) = do
  tsig ← map_err core (parse_from_wire (drop tsig_offset message))
  ensure (leb 1 header.additional_count)
      (xfr_protocol_error "TSIG present with zero additional count")
  ok (record {
    unsigned_message = set_arcount (header.additional_count - 1) (take tsig_offset message);
    tsig = some tsig;
  })

unfoldable pub split_final_tsig : Bytes → Result NetError SplitTsigMessage
split_final_tsig message = do
  header ← parse_header message
  behind_questions ← skip_questions header.question_count message 12
  behind_records ←
      skip_records (header.answer_count + header.authority_count) message behind_questions
  (offset, tsig_offset) ← scan_additional header.additional_count message behind_records none
  ensure (offset == length message) (xfr_protocol_error "trailing bytes after DNS sections")
  cut_tsig header message tsig_offset
