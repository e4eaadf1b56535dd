-- ===== src/Examples/Signatures.antt =====
-- Signed messages: crates/bind9-sdk-core/src/tsig/ and the transfers that are signed.
use bind9_sdk.Common.{◌≤◌, ◌≡◌, ◌↔◌, refl, true, some, [], ◌∷◌, arith, ok}
use bind9_sdk.Common.Bytes.{Bytes, join_dots}
use bind9_sdk.Common.Utf8.{is_utf8}
use bind9_sdk.Core.Domain.{name_eq, wire_len, labels_len}
use bind9_sdk.Core.Domain.Plain.{plain_label, lowered}
use bind9_sdk.Core.Tsig.{TsigKey, hmac_sha1, sign}
use bind9_sdk.Core.Tsig.Record.{TsigRecord, tsig_new, verify_response, mac_too_long, message_id}
use bind9_sdk.Core.Tsig.Wire.{read_labels, read_wire_name, parse_from_wire}
use bind9_sdk.Core.Tsig.Made.{made_record, algorithm_name_lem}
use bind9_sdk.Core.Tsig.RoundTrip.{parse_from_wire-tsig_new}
use bind9_sdk.Core.Tsig.Response.{IsVerified, verify_response_iff, verify_response-tsig_new}
use bind9_sdk.Examples.Digest.{sum_hmac, sum_hmac-IsHmac}

abbrev key : TsigKey
key = record {
  name = record { labels = plain_label (b'K' ∷ b'1' ∷ []) ∷ [] };
  algorithm = hmac_sha1;
  key_material = 1 ∷ 2 ∷ 3 ∷ [];
}

-- A response with the ID 7 and no records.
abbrev message : Bytes
message = 0 ∷ 7 ∷ 0x84 ∷ 0 ∷ 0 ∷ 0 ∷ 0 ∷ 0 ∷ 0 ∷ 0 ∷ 0 ∷ 0 ∷ []

abbrev request_mac : Bytes
request_mac = 9 ∷ 9 ∷ []

abbrev tsig : TsigRecord
tsig = made_record sum_hmac key message 1000 (some request_mac)

message-signed : tsig_new sum_hmac key message 1000 (some request_mac) ≡ ok tsig
unfolding tsig_new sign mac_too_long message_id
message-signed = rw (algorithm_name_lem hmac_sha1)

key-wire_len : wire_len key.name ≤ 255
unfolding wire_len labels_len
key-wire_len = omega arith

parse_from_wire-tsig_new_example :
    (parse_from_wire tsig.wire_bytes ≡ ok (record tsig { key_name = lowered key.name }))
    × (key.name ≡ key.name)
    × (name_eq (lowered key.name) key.name ≡ true)
parse_from_wire-tsig_new_example =
    parse_from_wire-tsig_new sum_hmac key message 1000 (some request_mac) sum_hmac-IsHmac
      (omega arith) key-wire_len (omega arith) message-signed

verify_response-tsig_new_example :
    verify_response sum_hmac key message tsig request_mac 1300 ≡ ok tt
verify_response-tsig_new_example =
    verify_response-tsig_new sum_hmac key message 1000 request_mac 1300 sum_hmac-IsHmac
      message-signed (omega arith) (omega arith) (omega arith)

verify_response_iff_example :
    (verify_response sum_hmac key message tsig request_mac 1301 ≡ ok tt)
    ↔ IsVerified sum_hmac key message tsig request_mac 1301
verify_response_iff_example =
    verify_response_iff sum_hmac key message tsig request_mac 1301 sum_hmac-IsHmac

-- A dot inside a label is not escaped, so that the name of the key is read with two labels.
read_wire_name_dot :
    read_wire_name (3 ∷ b'a' ∷ b'.' ∷ b'b' ∷ 0 ∷ []) ≡ ok (b'a' ∷ b'.' ∷ b'b' ∷ b'.' ∷ [], [])
unfolding read_wire_name read_labels is_utf8 join_dots
read_wire_name_dot = refl
