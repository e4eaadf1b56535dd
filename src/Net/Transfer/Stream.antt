-- ===== src/Net/Transfer/Stream.antt =====
-- The loop of an AXFR over its messages and their answers: `transfer_record_stream` in
-- crates/bind9-sdk-net/src/transfer/mod.rs, with the records of a message as they are parsed
-- and without a TSIG key.
use bind9_sdk.Common.{
  ℕ, ◌+◌, Bool, true, false, not, Option, none, some, List, [], ◌∷◌, ◌++◌, ltb, leb, ◌==◌,
  if◌then◌else◌, Result, ok, err, stuck,
}
use bind9_sdk.Errors.{NetError, xfr_protocol_error, transfer_failed}
use bind9_sdk.Core.Domain.{DomainName}
use bind9_sdk.Core.Record.{ResourceRecord}
use bind9_sdk.Core.Transfer.{TransferRecord, begin_soa, zone_record, last_soa}
use bind9_sdk.Net.Transfer.{apex_soa_serial}

-- The variables of `transfer_record_stream` that outlive a message.
pub record AxfrState : Type 0 where
  pub awaiting_first_soa : Bool
  pub opening_serial : Option ℕ
  pub soa_count : ℕ
  pub record_count : ℕ

unfoldable pub axfr_new : AxfrState
axfr_new = record {
  awaiting_first_soa = true;
  opening_serial = none;
  soa_count = 0;
  record_count = 0;
}

abbrev same_serial : ℕ → Option ℕ → Bool
same_serial s none = false
same_serial s (some t) = s == t

-- What one answer does: the new state, the record that is yielded, and whether the stream ends.
-- `last` says that it is the last answer of its message.
unfoldable pub axfr_answer :
    DomainName
    → ℕ
    → Bool
    → AxfrState
    → ResourceRecord
    → Result NetError (AxfrState × TransferRecord × Bool)
axfr_answer zone max_records last s₀ r =
    let s = record s₀ { record_count = s₀.record_count + 1 } in
    if ltb max_records s.record_count
    then err (transfer_failed "transfer exceeded maximum record count")
    else if s.awaiting_first_soa
    then (elim (apex_soa_serial r zone) [
      | some serial ↦ ok (
        record s {
          opening_serial = some serial;
          soa_count = s.soa_count + 1;
          awaiting_first_soa = false;
        },
        begin_soa r,
        false,
      )
      | none ↦ err (xfr_protocol_error "first record in zone transfer must be SOA")
    ])
    else (elim (apex_soa_serial r zone) [
      | some closing ↦
          if not (same_serial closing s.opening_serial)
          then err (xfr_protocol_error "closing SOA serial does not match opening SOA serial")
          else if leb 2 (s.soa_count + 1)
          then (if not last
              then err
                  (xfr_protocol_error "zone transfer response contains answers after closing SOA")
              else ok (record s { soa_count = s.soa_count + 1 }, last_soa r, true))
          else ok (record s { soa_count = s.soa_count + 1 }, zone_record r, false)
      | none ↦ ok (s, zone_record r, false)
    ])

-- The stream goes on, has ended with the closing SOA, or has yielded an error.
pub data AxfrOutcome : Type 0 where
  more : AxfrState → AxfrOutcome
  closed : AxfrOutcome
  failed : NetError → AxfrOutcome

abbrev pub is_nil {ℓ} : {A : Type ℓ} → List A → Bool
is_nil [] = true
is_nil (x ∷ xs) = false

-- The loop over the answers of one message: what it yields, and how it leaves the stream.
unfoldable pub axfr_answers :
    DomainName → ℕ → AxfrState → List ResourceRecord → List TransferRecord × AxfrOutcome
axfr_answers zone max_records s [] = ([], more s)
axfr_answers zone max_records s (r ∷ rs) = elim (axfr_answer zone max_records (is_nil rs) s r) [
  | ok (s', yielded, true) ↦ (yielded ∷ [], closed)
  | ok (s', yielded, false) ↦
      let (later, outcome) = axfr_answers zone max_records s' rs in (yielded ∷ later, outcome)
  | err e ↦ ([], failed e)
  | stuck ↦ ([], more s)
]

-- The `'outer` loop over the messages that arrive; a message is the list of its answers.
unfoldable pub axfr_messages :
    DomainName → ℕ → AxfrState → List (List ResourceRecord) → List TransferRecord × AxfrOutcome
axfr_messages zone max_records s [] = ([], more s)
axfr_messages zone max_records s (m ∷ ms) =
    let (here, outcome) = axfr_answers zone max_records s m in
    elim outcome [
      | more s' ↦ let (later, end) = axfr_messages zone max_records s' ms in (here ++ later, end)
      | closed ↦ (here, closed)
      | failed e ↦ (here, failed e)
    ]
