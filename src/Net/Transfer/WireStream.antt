-- ===== src/Net/Transfer/WireStream.antt =====
-- The loop of an AXFR over the messages as they are read from the connection, each with the time of
-- the clock: `transfer_record_stream` in crates/bind9-sdk-net/src/transfer/mod.rs. The verifier, the
-- checks of a message and the parser of its answers work together with `axfr_answer`.
use bind9_sdk.Common.{
  ℕ, zero, suc, ◌+◌, true, false, List, [], ◌∷◌, ◌++◌, ◌==◌, Result, ok, err, stuck, ◌>>=◌,
}
use bind9_sdk.Common.Bytes.{Bytes}
use bind9_sdk.Errors.{NetError}
use bind9_sdk.Core.Domain.{DomainName}
use bind9_sdk.Core.Transfer.{TransferRecord}
use bind9_sdk.Core.Tsig.{Hmac}
use bind9_sdk.Net.Wire.Header.{parse_header}
use bind9_sdk.Net.Wire.Record.{parse_resource_record}
use bind9_sdk.Net.Transfer.Checks.{validate_transfer_response}
use bind9_sdk.Net.Transfer.Stream.{AxfrState, axfr_answer, AxfrOutcome, more, closed, failed}
use bind9_sdk.Net.Transfer.Verifier.{XfrTsigVerifier, verify_message, verifier_finish}

-- The closing SOA is yielded only if the verifier agrees that the stream may end.
unfoldable pub closing :
    XfrTsigVerifier → AxfrState → TransferRecord → List TransferRecord × AxfrOutcome
closing v s yielded = elim (verifier_finish v) [
  | ok _ ↦ (yielded ∷ [], closed)
  | err e ↦ ([], failed e)
  | stuck ↦ ([], more s)
]

-- The loop over the answers of one message, `left` of them from `offset` on.
unfoldable pub wire_answers :
    DomainName → ℕ → XfrTsigVerifier → ℕ → Bytes → ℕ → AxfrState → List TransferRecord × AxfrOutcome
unfolding closing
wire_answers zone max_records v zero msg offset s = ([], more s)
wire_answers zone max_records v (suc left) msg offset s = elim (parse_resource_record msg offset) [
  | ok (r, consumed) ↦ elim (axfr_answer zone max_records (left == 0) s r) [
    | ok (s', yielded, true) ↦ closing v s' yielded
    | ok (s', yielded, false) ↦
        let (later, outcome) = wire_answers zone max_records v left msg (offset + consumed) s' in
        (yielded ∷ later, outcome)
    | err e ↦ ([], failed e)
    | stuck ↦ ([], more s)
  ]
  | err e ↦ ([], failed e)
  | stuck ↦ ([], more s)
]

-- What precedes the answers of a message: the verifier behind it, the message without its TSIG
-- record, and the number and the offset of its answers.
unfoldable pub open_message :
    Hmac
    → DomainName
    → ℕ
    → XfrTsigVerifier
    → ℕ
    → Bytes
    → Result NetError (XfrTsigVerifier × Bytes × ℕ × ℕ)
open_message h zone expected_qtype v now wire_message = do
  (msg, v') ← verify_message h v wire_message now
  header ← parse_header msg
  offset ← validate_transfer_response msg header zone expected_qtype
  ok (v', msg, header.answer_count, offset)

-- The `'outer` loop.
unfoldable pub axfr_stream :
    Hmac
    → DomainName
    → ℕ
    → ℕ
    → XfrTsigVerifier
    → AxfrState
    → List (ℕ × Bytes)
    → List TransferRecord × AxfrOutcome
axfr_stream h zone max_records qtype v s [] = ([], more s)
axfr_stream h zone max_records qtype v s ((now, wire_message) ∷ ms) =
    elim (open_message h zone qtype v now wire_message) [
      | ok (v', msg, count, offset) ↦
          let (here, outcome) = wire_answers zone max_records v' count msg offset s in
          elim outcome [
            | more s' ↦
                let (later, end) = axfr_stream h zone max_records qtype v' s' ms in
                (here ++ later, end)
            | closed ↦ (here, closed)
            | failed e ↦ (here, failed e)
          ]
      | err e ↦ ([], failed e)
      | stuck ↦ ([], more s)
    ]
