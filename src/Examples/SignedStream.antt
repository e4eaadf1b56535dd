-- ===== src/Examples/SignedStream.antt =====
-- A signed AXFR on concrete octets: crates/bind9-sdk-net/src/transfer/mod.rs.
use bind9_sdk.Common.{ℕ, ◌≡◌, refl, true, false, some, List, [], ◌∷◌, ◌++◌, ok}
use bind9_sdk.Common.Bytes.{Bytes}
use bind9_sdk.Core.Domain.{DomainName}
use bind9_sdk.Core.Domain.Plain.{plain_label}
use bind9_sdk.Core.Rdata.{soa}
use bind9_sdk.Core.Record.{ResourceRecord, internet}
use bind9_sdk.Core.Transfer.{TransferRecord, begin_soa, last_soa}
use bind9_sdk.Core.Tsig.{TsigKey, hmac_sha1}
use bind9_sdk.Core.Tsig.Record.{TsigRecord}
use bind9_sdk.Core.Tsig.Made.{made_record}
use bind9_sdk.Net.Transfer.Verifier.{
  XfrTsigVerifier, verifier_new, verify_message, take_split, take_signed, check_mac,
  verify_messages, verifier_finish,
}
use bind9_sdk.Net.Transfer.Stream.{axfr_new, axfr_answer, closed}
use bind9_sdk.Net.Transfer.WireStream.{axfr_stream, open_message, wire_answers}
use bind9_sdk.Net.Transfer.Authentic.{IsSignedStream}
use bind9_sdk.Net.Transfer.Signed.{verify_messages-IsSignedStream}
use bind9_sdk.Net.Transfer.Closed.{IsSignedTransfer, axfr_stream-IsSignedTransfer}
use bind9_sdk.Net.Transfer.{apex_soa_serial, soa_serial}
use bind9_sdk.Net.Transfer.Checks.{validate_transfer_response}
use bind9_sdk.Examples.Code.{message_code}
use bind9_sdk.Examples.Digest.{sum_hmac, sum_hmac-IsHmac}

abbrev key : TsigKey
key = record {
  name = record { labels = plain_label (b'k' ∷ []) ∷ [] };
  algorithm = hmac_sha1;
  key_material = 1 ∷ [];
}

abbrev request_mac : Bytes
request_mac = 9 ∷ []

-- `a. 60 IN SOA . . 1 0 0 0 0`
abbrev soa_octets : Bytes
soa_octets =
    1 ∷ b'a' ∷ 0 ∷ 0 ∷ 6 ∷ 0 ∷ 1 ∷ 0 ∷ 0 ∷ 0 ∷ 60 ∷ 0 ∷ 22 ∷ 0 ∷ 0 ∷ 0 ∷ 0 ∷ 0 ∷ 1 ∷ 0 ∷ 0 ∷ 0 ∷ 0
    ∷ 0 ∷ 0 ∷ 0 ∷ 0 ∷ 0 ∷ 0 ∷ 0 ∷ 0 ∷ 0 ∷ 0 ∷ 0 ∷ 0 ∷ []

-- A response with the two SOA records; `ar` is the count of its additional records.
abbrev response : ℕ → Bytes
response ar = 0 ∷ 7 ∷ 0x84 ∷ 0 ∷ 0 ∷ 0 ∷ 0 ∷ 2 ∷ 0 ∷ 0 ∷ 0 ∷ ar ∷ (soa_octets ++ soa_octets)

abbrev tsig : TsigRecord
tsig = made_record sum_hmac key (response 0) 1000 (some request_mac)

abbrev stream : List (ℕ × Bytes)
stream = (1001, response 1 ++ tsig.wire_bytes) ∷ []

abbrev zone : DomainName
zone = record { labels = plain_label (b'a' ∷ []) ∷ [] }

abbrev apex_record : ResourceRecord
apex_record = record {
  name = zone;
  class = internet;
  ttl = 60;
  rdata = soa (record { labels = [] }) (record { labels = [] }) 1 0 0 0 0;
}

abbrev yielded : List TransferRecord
yielded = begin_soa apex_record ∷ last_soa apex_record ∷ []

abbrev verifier : XfrTsigVerifier
verifier = verifier_new 7 (some key) (some request_mac)

abbrev at_end : XfrTsigVerifier
at_end = record {
  expected_id = 7;
  key = some key;
  prior_mac = some tsig.mac;
  first_message = false;
  unsigned_messages = [];
  unsigned_message_count = 0;
  last_message_signed = true;
}

stream-yields : axfr_stream sum_hmac zone 10 252 verifier axfr_new stream ≡ (yielded, closed)
unfolding message_code axfr_stream open_message wire_answers verify_message take_split take_signed
    check_mac verifier_new validate_transfer_response axfr_new axfr_answer apex_soa_serial
    soa_serial verifier_finish
stream-yields = refl

stream-verified : verify_messages sum_hmac verifier stream ≡ ok (response 0 ∷ [], at_end)
unfolding message_code verify_messages verify_message take_split take_signed check_mac verifier_new
stream-verified = refl

stream-ends : verifier_finish at_end ≡ ok tt
unfolding verifier_finish
stream-ends = refl

verify_messages-IsSignedStream_example :
    IsSignedStream sum_hmac key 7 true request_mac stream (response 0 ∷ [])
verify_messages-IsSignedStream_example =
    verify_messages-IsSignedStream sum_hmac sum_hmac-IsHmac key 7 request_mac stream stream-verified
      stream-ends

axfr_stream-IsSignedTransfer_example :
    IsSignedTransfer sum_hmac key 7 request_mac zone 10 252 stream yielded
axfr_stream-IsSignedTransfer_example =
    axfr_stream-IsSignedTransfer sum_hmac key 7 request_mac zone 10 252 stream yielded
      sum_hmac-IsHmac stream-yields
