-- ===== src/Examples/Responses.antt =====
-- Transfers: crates/bind9-sdk-net/src/transfer/mod.rs.
use bind9_sdk.Common.{false, ℕ, ◌≡◌, refl, true, List, [], ◌∷◌, ◌++◌, map, ok}
use mathlib.Core.List.{flatten}
use bind9_sdk.Common.Bytes.{Bytes, eq_ignore_ascii_case, to_ascii_lowercase}
use bind9_sdk.Core.Domain.{DomainName, name_eq, labels_eq, octets_eq}
use bind9_sdk.Core.Rdata.{a, soa}
use bind9_sdk.Core.Record.{internet, ResourceRecord, serial_cmp}
use bind9_sdk.Core.Transfer.{
  TransferRecord, begin_soa, zone_record, last_soa, IxfrEvent, no_change, current_soa, delete_soa,
  deleted, add_soa, added, end_soa,
}
use bind9_sdk.Net.Wire.Header.{DnsHeader, parse_header}
use bind9_sdk.Net.Transfer.Checks.{check_questions, validate_transfer_response}
use bind9_sdk.Net.Transfer.Accepted.{IsAnswer, HasQuestions, validate_transfer_response_iff}
use bind9_sdk.Net.Transfer.{
  complete, IxfrState, ixfr_new, push, push_all, finish, ixfr_step, apex_soa_serial, soa_serial,
  second_soa, delete_end, add_end,
}
use bind9_sdk.Net.Transfer.Grammar.{Response}
use bind9_sdk.Net.Transfer.Ixfr.{push_all-Response}
use bind9_sdk.Net.Transfer.Records.{event_record, push_all_records}
use bind9_sdk.Net.Transfer.Stream.{axfr_new, axfr_answer, axfr_answers, axfr_messages, closed}
use bind9_sdk.Net.Transfer.Axfr.{IsTransfer, axfr_messages-closed}

abbrev apex : DomainName
apex = record { labels = record { inner = b'z' ∷ []; wire = b'z' ∷ [] } ∷ [] }

abbrev soa_record : ℕ → ResourceRecord
soa_record serial = record {
  name = apex;
  class = internet;
  ttl = 60;
  rdata = soa apex apex serial 1 2 3 4;
}

abbrev address : ℕ → ResourceRecord
address octet = record {
  name = apex;
  class = internet;
  ttl = 60;
  rdata = a (192 ∷ 0 ∷ 2 ∷ octet ∷ []);
}

-- From serial 1 to 2 and on to 3.
abbrev two_differences : List ResourceRecord
two_differences =
    soa_record 3
    ∷ soa_record 1
    ∷ address 1
    ∷ soa_record 2
    ∷ soa_record 2
    ∷ soa_record 3
    ∷ address 2
    ∷ soa_record 3
    ∷ []

abbrev two_differences_events : List IxfrEvent
two_differences_events =
    current_soa (soa_record 3)
    ∷ delete_soa (soa_record 1)
    ∷ deleted (address 1)
    ∷ add_soa (soa_record 2)
    ∷ delete_soa (soa_record 2)
    ∷ add_soa (soa_record 3)
    ∷ added (address 2)
    ∷ end_soa (soa_record 3)
    ∷ []

abbrev ended : IxfrState
ended = record { zone = apex; requested_serial = 1; phase = complete }

two_differences_run :
    push_all (ixfr_new apex 1) two_differences ≡ (ended, ok two_differences_events)
unfolding push_all push ixfr_new ixfr_step apex_soa_serial soa_serial second_soa delete_end add_end
    serial_cmp name_eq labels_eq octets_eq eq_ignore_ascii_case to_ascii_lowercase
two_differences_run = refl

push_all-Response_example : Response apex 1 two_differences two_differences_events
push_all-Response_example =
    (push_all-Response apex 1 two_differences two_differences_events).0 two_differences_run

finish-ended : finish ended ≡ (ended, ok [])
unfolding finish
finish-ended = refl

push_all_records_example : map event_record (two_differences_events ++ []) ≡ two_differences
push_all_records_example =
    push_all_records apex 1 two_differences {s = ended} {s' = ended} {es = two_differences_events}
      {last = []} two_differences_run finish-ended

-- A server whose serial is not newer answers with its SOA alone.
up_to_date : finish (push_all (ixfr_new apex 3) (soa_record 3 ∷ [])).0 ≡ (
  record { zone = apex; requested_serial = 3; phase = complete },
  ok (no_change (soa_record 3) ∷ []),
)
unfolding finish push_all push ixfr_new ixfr_step apex_soa_serial soa_serial name_eq labels_eq
    octets_eq eq_ignore_ascii_case to_ascii_lowercase
up_to_date = refl

abbrev messages : List (List ResourceRecord)
messages = (soa_record 3 ∷ address 1 ∷ []) ∷ [] ∷ (address 2 ∷ soa_record 3 ∷ []) ∷ []

abbrev transfer : List TransferRecord
transfer =
    begin_soa (soa_record 3)
    ∷ zone_record (address 1)
    ∷ zone_record (address 2)
    ∷ last_soa (soa_record 3)
    ∷ []

messages_run : axfr_messages apex 4 axfr_new messages ≡ (transfer, closed)
unfolding axfr_messages axfr_answers axfr_answer axfr_new apex_soa_serial soa_serial name_eq
    labels_eq octets_eq eq_ignore_ascii_case to_ascii_lowercase
messages_run = refl

axfr_messages-closed_example :
    (used unused : List (List ResourceRecord)) × (messages ≡ used ++ unused)
    × IsTransfer apex 4 (flatten used) transfer
axfr_messages-closed_example = axfr_messages-closed apex 4 messages transfer messages_run

abbrev answer_header : DnsHeader
answer_header = record {
  id = 7;
  is_response = true;
  opcode = 0;
  authoritative = true;
  truncated = false;
  recursion_desired = false;
  recursion_available = false;
  rcode = 0;
  question_count = 0;
  answer_count = 2;
  authority_count = 0;
  additional_count = 0;
}

abbrev answer_bytes : Bytes
answer_bytes = 0 ∷ 7 ∷ 0x84 ∷ 0 ∷ 0 ∷ 0 ∷ 0 ∷ 2 ∷ 0 ∷ 0 ∷ 0 ∷ 0 ∷ []

parse_header-answer : parse_header answer_bytes ≡ ok answer_header
unfolding parse_header
parse_header-answer = refl

validate_answer : validate_transfer_response answer_bytes answer_header apex 252 ≡ ok 12
unfolding validate_transfer_response check_questions
validate_answer = refl

validate_transfer_response_iff_example :
    IsAnswer answer_header × HasQuestions answer_bytes apex 252 answer_header.question_count 12
validate_transfer_response_iff_example =
    (validate_transfer_response_iff answer_bytes answer_header apex 252 12).0 validate_answer
