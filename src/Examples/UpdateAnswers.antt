-- ===== src/Examples/UpdateAnswers.antt =====
-- The answer to a signed update on concrete data: crates/bind9-sdk-net/src/nsupdate.rs.
use bind9_sdk.Errors.{NetError, connection}
use bind9_sdk.Common.{
  ℕ, ◌+◌, ◌≤◌, ◌≡◌, ◌≢◌, ◌⊎◌, refl, true, false, some, none, [], ◌∷◌, ◌++◌, length, ok, err, Result,
  stuck,
}
use bind9_sdk.Common.Bytes.{Bytes}
use bind9_sdk.Core.Domain.Plain.{plain_label}
use bind9_sdk.Core.Protocol.{no_error, rcode_from_value}
use bind9_sdk.Core.Tsig.{TsigKey, hmac_sha1}
use bind9_sdk.Core.Tsig.Record.{TsigRecord}
use bind9_sdk.Core.Tsig.Made.{made_record}
use bind9_sdk.Core.Update.{UpdateMessage}
use bind9_sdk.Core.Update.Message.{arcount}
use bind9_sdk.Net.NsUpdate.{
  UpdateResult, parse_flags, parse_dns_response, is_truncated, skip_label, skip_wire_name,
  skip_question_section, skip_rr, skip_rrs, last_rr, find_last, find_tsig_in_response,
  msg_sans_tsig, verify_at, verify_signed, verify_if_signed, accept_response, has_key, send,
}
use bind9_sdk.Net.NsUpdate.Walk.{find_tsig_in_response-bounds}
use bind9_sdk.Net.NsUpdate.Verified.{IsSignedResponse, send-IsSignedResponse}
use bind9_sdk.Examples.Code.{message_code}
use bind9_sdk.Examples.Digest.{sum_hmac, sum_hmac-IsHmac}

abbrev key : TsigKey
key = record {
  name = record { labels = plain_label (b'k' ∷ []) ∷ [] };
  algorithm = hmac_sha1;
  key_material = 1 ∷ 2 ∷ 3 ∷ [];
}

abbrev request_mac : Bytes
request_mac = 9 ∷ 9 ∷ []

abbrev update : UpdateMessage
update = record { wire_bytes = []; id = 7; request_mac = some request_mac; pre_tsig_len = none }

-- The response without an error, with `ar` additional records.
abbrev response : ℕ → Bytes
response ar = 0 ∷ 7 ∷ 0xA8 ∷ 0 ∷ 0 ∷ 1 ∷ 0 ∷ 0 ∷ 0 ∷ 0 ∷ 0 ∷ ar ∷ 1 ∷ b'a' ∷ 0 ∷ 0 ∷ 6 ∷ 0 ∷ 1 ∷ []

abbrev tsig : TsigRecord
tsig = made_record sum_hmac key (response 0) 1000 (some request_mac)

abbrev signed : Bytes
signed = response 1 ++ tsig.wire_bytes

abbrev by_udp : Bytes → Result NetError Bytes
by_udp message = ok signed

abbrev by_tcp : Bytes → Result NetError Bytes
by_tcp message = err (connection "TCP connect failed")

abbrev result : UpdateResult
result = record { rcode = no_error; id = 7 }

accepted : send sum_hmac update (some key) 1010 by_udp by_tcp ≡ ok result
unfolding message_code parse_flags parse_dns_response is_truncated skip_label skip_wire_name
    skip_question_section skip_rr skip_rrs last_rr find_last find_tsig_in_response msg_sans_tsig
    verify_at verify_signed verify_if_signed accept_response has_key send arcount rcode_from_value
accepted = refl

send-IsSignedResponse_example :
    (k : TsigKey) × (udp answer : Bytes) × (some key ≡ some k)
    × (by_udp [] ≡ ok udp)
    × (((is_truncated udp ≡ false) × (udp ≡ answer))
        ⊎ ((is_truncated udp ≡ true) × (by_tcp [] ≡ ok answer)))
    × (parse_dns_response answer ≡ ok result)
    × (result.id ≡ update.id)
    × IsSignedResponse sum_hmac k request_mac answer 1010
send-IsSignedResponse_example =
    send-IsSignedResponse sum_hmac update (some key) 1010 by_udp by_tcp request_mac sum_hmac-IsHmac
      refl accepted

find_tsig_in_response-bounds_example :
    (find_tsig_in_response signed ≢ stuck)
    × ((offset : ℕ)
        → find_tsig_in_response signed ≡ ok (some offset)
        → (12 ≤ offset) × (offset + 11 ≤ length signed))
find_tsig_in_response-bounds_example = find_tsig_in_response-bounds signed
