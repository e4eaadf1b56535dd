-- ===== src/Examples/Streams.antt =====
-- IXFR streams: crates/bind9-sdk-net/src/transfer/mod.rs.
use bind9_sdk.Common.{ℕ, ◌≡◌, ◌⊎◌, refl, some, List, [], ◌∷◌, ◌++◌, arith, ok}
use mathlib.Core.List.{flatten}
use bind9_sdk.Common.Bytes.{eq_ignore_ascii_case, to_ascii_lowercase}
use bind9_sdk.Core.Domain.{DomainName, name_eq, labels_eq, octets_eq}
use bind9_sdk.Core.Rdata.{soa, a}
use bind9_sdk.Core.Record.{internet, ResourceRecord, serial_cmp}
use bind9_sdk.Core.Transfer.{
  IxfrEvent, no_change, current_soa, delete_soa, deleted, add_soa, added, end_soa,
}
use bind9_sdk.Net.Transfer.{
  complete, ixfr_new, push, push_all, finish, is_complete, ixfr_step, apex_soa_serial, soa_serial,
  second_soa, delete_end, add_end,
}
use bind9_sdk.Net.Transfer.Grammar.{Response}
use bind9_sdk.Net.Transfer.Ixfr.{push_all-Response}
use bind9_sdk.Net.Transfer.Incremental.{
  ended, finishing, ixfr_answers, after_message, ixfr_messages,
}
use bind9_sdk.Net.Transfer.Delivery.{ixfr_messages_complete}
use bind9_sdk.Net.Transfer.Ends.{ixfr_messages-ended}

abbrev zone : DomainName
zone = record { labels = record { inner = b'z' ∷ []; wire = b'z' ∷ [] } ∷ [] }

abbrev start_of : ℕ → ResourceRecord
start_of serial = record {
  name = zone;
  class = internet;
  ttl = 60;
  rdata = soa zone zone serial 1 2 3 4;
}

abbrev host : ℕ → ResourceRecord
host octet = record {
  name = zone;
  class = internet;
  ttl = 60;
  rdata = a (192 ∷ 0 ∷ 2 ∷ octet ∷ []);
}

-- From serial 1 to 3, in two messages.
abbrev two_messages : List (List ResourceRecord)
two_messages =
    (start_of 3 ∷ start_of 1 ∷ host 1 ∷ []) ∷ (start_of 3 ∷ host 2 ∷ start_of 3 ∷ []) ∷ []

abbrev two_messages_events : List IxfrEvent
two_messages_events =
    current_soa (start_of 3)
    ∷ delete_soa (start_of 1)
    ∷ deleted (host 1)
    ∷ add_soa (start_of 3)
    ∷ added (host 2)
    ∷ end_soa (start_of 3)
    ∷ []

two_messages_run : ixfr_messages 6 (ixfr_new zone 1) 0 two_messages ≡ (two_messages_events, ended)
unfolding ixfr_messages ixfr_answers after_message finishing finish push ixfr_new is_complete
    ixfr_step apex_soa_serial soa_serial second_soa delete_end add_end serial_cmp name_eq labels_eq
    octets_eq eq_ignore_ascii_case to_ascii_lowercase
two_messages_run = refl

ixfr_messages-ended_example :
    (used unused : List (List ResourceRecord)) × (two_messages ≡ used ++ unused)
    × (Response zone 1 (flatten used) two_messages_events
        ⊎ ((current : ResourceRecord) × (serial : ℕ) × (apex_soa_serial current zone ≡ some serial)
            × (flatten used ≡ current ∷ [])
            × (two_messages_events ≡ no_change current ∷ [])))
ixfr_messages-ended_example =
    ixfr_messages-ended zone 1 6 two_messages two_messages_events two_messages_run

abbrev two_messages_records : List ResourceRecord
two_messages_records = flatten two_messages

two_messages_pushed :
    push_all (ixfr_new zone 1) two_messages_records
    ≡ (record { zone = zone; requested_serial = 1; phase = complete }, ok two_messages_events)
unfolding flatten push_all push ixfr_new ixfr_step apex_soa_serial soa_serial second_soa delete_end
    add_end serial_cmp name_eq labels_eq octets_eq eq_ignore_ascii_case to_ascii_lowercase
two_messages_pushed = refl

two_messages-Response : Response zone 1 two_messages_records two_messages_events
two_messages-Response =
    (push_all-Response zone 1 two_messages_records two_messages_events).0 two_messages_pushed

-- A message with a record of the host follows.
ixfr_messages_complete_example :
    ixfr_messages 6 (ixfr_new zone 1) 0 (two_messages ++ ((host 3 ∷ []) ∷ []))
    ≡ (two_messages_events, ended)
unfolding flatten
ixfr_messages_complete_example =
    ixfr_messages_complete zone 1 6 ((start_of 3 ∷ start_of 1 ∷ host 1 ∷ []) ∷ [])
      (start_of 3 ∷ host 2 ∷ start_of 3 ∷ []) ((host 3 ∷ []) ∷ []) two_messages_events
      two_messages-Response (omega arith) (λ q. omega (arith, q), tt)

-- The server is at serial 3, the client at 1, and each record comes in a message of its own: the
-- client reports no change.
one_answer_run :
    ixfr_messages 10
      (ixfr_new zone 1)
      0
      ((start_of 3 ∷ []) ∷ (start_of 1 ∷ []) ∷ (host 1 ∷ []) ∷ [])
    ≡ (no_change (start_of 3) ∷ [], ended)
unfolding ixfr_messages ixfr_answers after_message finishing finish push ixfr_new is_complete
    ixfr_step apex_soa_serial soa_serial name_eq labels_eq octets_eq eq_ignore_ascii_case
    to_ascii_lowercase
one_answer_run = refl
