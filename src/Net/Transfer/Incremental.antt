-- ===== src/Net/Transfer/Incremental.antt =====
-- The loop of an IXFR over its messages and their answers: `ixfr_record_stream` in
-- crates/bind9-sdk-net/src/transfer/mod.rs, with the records of a message as they are parsed and
-- without a TSIG key. The connection is closed behind the messages of the list.
use bind9_sdk.Common.{
  ℕ, ◌+◌, not, ◌&&◌, List, [], ◌∷◌, ◌++◌, ltb, ◌==◌, if◌then◌else◌, length, ok, err, stuck,
}
use bind9_sdk.Errors.{NetError, xfr_protocol_error, transfer_failed}
use bind9_sdk.Core.Record.{ResourceRecord}
use bind9_sdk.Core.Transfer.{IxfrEvent}
use bind9_sdk.Net.Transfer.{IxfrState, push, finish, is_complete}
use bind9_sdk.Net.Transfer.Stream.{is_nil}

-- The loop goes on, with the state and the number of the records; or the stream has ended; or it
-- has yielded an error.
pub data IxfrOutcome : Type 0 where
  going : IxfrState → ℕ → IxfrOutcome
  ended : IxfrOutcome
  broken : NetError → IxfrOutcome

-- The events in front of those that the rest yields.
abbrev pub yielding : List IxfrEvent → List IxfrEvent × IxfrOutcome → List IxfrEvent × IxfrOutcome
yielding events (later, outcome) = (events ++ later, outcome)

-- What `finish` yields at the end.
unfoldable pub finishing : IxfrState → List IxfrEvent × IxfrOutcome
finishing s = elim (finish s).1 [
  | ok events ↦ (events, ended)
  | err e ↦ ([], broken e)
  | stuck ↦ ([], going s 0)
]

-- The loop over the answers of one message. A complete state breaks it.
unfoldable pub ixfr_answers : ℕ → IxfrState → ℕ → List ResourceRecord → List IxfrEvent × IxfrOutcome
ixfr_answers max_records s count [] = ([], going s count)
ixfr_answers max_records s count (r ∷ rs) =
    let rest = ixfr_answers max_records (push s r).0 (count + 1) rs in
    if ltb max_records (count + 1)
    then ([], broken (transfer_failed "transfer exceeded maximum record count"))
    else (elim (push s r).1 [
      | ok events ↦
          if is_complete (push s r).0 && not (is_nil rs)
          then (
            [],
            broken (
                xfr_protocol_error "zone transfer response contains answers after IXFR completion"),
          )
          else yielding events rest
      | err e ↦ ([], broken e)
      | stuck ↦ ([], going s count)
    ])

-- What follows the answers of a message, given what the messages behind it yield: a message of one
-- answer that completes nothing is taken for the answer of a server that has nothing newer.
unfoldable pub after_message :
    ℕ → IxfrState → List IxfrEvent × IxfrOutcome → List IxfrEvent × IxfrOutcome
after_message answer_count s later =
    if (answer_count == 1) && not (is_complete s)
    then finishing s
    else if is_complete s
    then ([], ended)
    else later

unfoldable pub ixfr_messages :
    ℕ → IxfrState → ℕ → List (List ResourceRecord) → List IxfrEvent × IxfrOutcome
ixfr_messages max_records s count [] = finishing s
ixfr_messages max_records s count (m ∷ ms) =
    let (here, outcome) = ixfr_answers max_records s count m in
    elim outcome [
      | going s' count' ↦
          yielding here (after_message (length m) s' (ixfr_messages max_records s' count' ms))
      | ended ↦ (here, ended)
      | broken e ↦ (here, broken e)
    ]
