-- ===== src/Examples/Session.antt =====
-- An rndc session on concrete data: crates/bind9-sdk-net/src/rndc/mod.rs.
use bind9_sdk.Common.{
  ℕ, ◌+◌, ◌%◌, ◌^◌, ◌≤◌, ◌≡◌, true, ◌≢◌, ◌↔◌, refl, some, none, [], ◌∷◌, ◌++◌, arith, length, ok,
  content_or,
}
use bind9_sdk.Common.Bytes.{Bytes, codes, u32_bytes}
use bind9_sdk.Common.Utf8.{is_utf8}
use bind9_sdk.Core.Domain.Plain.{plain_label}
use bind9_sdk.Core.Tsig.{TsigKey, hmac_sha256}
use bind9_sdk.Net.Rndc.{IscMap, nil, str, map_insert, encode}
use bind9_sdk.Net.Rndc.Answer.{RndcResponse}
use bind9_sdk.Net.Rndc.Session.{build_ctrl_table, verify_isccc_hmac, verify_authenticated_response}
use bind9_sdk.Net.Rndc.Connection.{
  Authenticated, sign_rndc_body, signed_message, request, read_frame, decode_authenticated_payload,
  check_answer, command, response_of,
}
use bind9_sdk.Net.Rndc.Authentic.{IsAuthentic, verify_authenticated_response_iff}
use bind9_sdk.Net.Rndc.Requests.{type_table, read_frame-request}
use bind9_sdk.Net.Rndc.Replay.{
  Commands, none_yet, one_more, check_answer-replay, command-IsAuthentic,
}
use bind9_sdk.Examples.SessionCode.{session_code}
use bind9_sdk.Examples.Digest.{sum_hmac, sum_hmac-IsHmac}
use bind9_sdk.Examples.Encoding.{six_bits, six_bits-IsBase64}

abbrev key : TsigKey
key = record {
  name = record { labels = plain_label (b'k' ∷ []) ∷ [] };
  algorithm = hmac_sha256;
  key_material = 1 ∷ [];
}

abbrev session : Authenticated
session = record { key = key; serial = 41; nonce = some (codes "7"); unread = [] }

-- The answer of a server to the request with a serial, at time 1000.
abbrev answer_ctrl : ℕ → IscMap
answer_ctrl serial =
    map_insert (codes "_rpl") (str (codes "1")) (build_ctrl_table serial 1001 (some (codes "7")))

abbrev answer_data : IscMap
answer_data =
    map_insert (codes "text") (str (codes "up"))
      (map_insert (codes "result") (str (codes "0")) (type_table (codes "status")))

abbrev answer_payload : ℕ → Bytes
answer_payload serial = content_or [] (
    encode (
      signed_message
        (content_or [] (sign_rndc_body sum_hmac six_bits key (answer_ctrl serial) answer_data))
        (answer_ctrl serial) answer_data))

abbrev server : ℕ → Bytes → Bytes
server serial frame = u32_bytes (length (answer_payload serial)) ++ answer_payload serial

abbrev sent : Bytes
sent = content_or [] (request sum_hmac six_bits key 42 1000 (some (codes "7")) (codes "status"))

request-sent : request sum_hmac six_bits key 42 1000 (some (codes "7")) (codes "status") ≡ ok sent
unfolding session_code
request-sent = refl

few-sent : length sent ≤ 16777220
unfolding session_code
few-sent = omega arith

text-nonce : is_utf8 (codes "7") ≡ true
unfolding session_code
text-nonce = refl

text-status : is_utf8 (codes "status") ≡ true
unfolding session_code
text-status = refl

read_frame-request_example :
    (payload v body : Bytes) × (read_frame sent ≡ (ok payload, []))
    × (decode_authenticated_payload payload
        ≡ ok (
          signed_message v
              (build_ctrl_table 42 1000 (some (codes "7")))
              (type_table (codes "status")),
          body,
        ))
    × (verify_isccc_hmac sum_hmac six_bits key body v ≡ ok tt)
read_frame-request_example =
    read_frame-request sum_hmac six_bits key 42 1000 (some (codes "7")) (codes "status")
      sum_hmac-IsHmac six_bits-IsBase64 text-nonce text-status request-sent few-sent

-- What is decoded of the answer.
abbrev response : IscMap
response = content_or nil (
    check_answer sum_hmac six_bits key 42 1000 (some (codes "7")) (codes "status")
      (answer_payload 42))

answer-accepted :
    check_answer sum_hmac six_bits key 42 1000
      (some (codes "7"))
      (codes "status")
      (answer_payload 42)
    ≡ ok response
unfolding session_code
answer-accepted = refl

verify_authenticated_response_iff_example :
    (verify_authenticated_response sum_hmac six_bits key response [] 42 1000 none none ≡ ok tt)
    ↔ IsAuthentic sum_hmac six_bits key response [] 42 1000 none none
verify_authenticated_response_iff_example =
    verify_authenticated_response_iff sum_hmac six_bits key response [] 42 1000 none none
      sum_hmac-IsHmac

abbrev session_42 : Authenticated
session_42 = record session { serial = 42 }

abbrev after_stop : Authenticated
after_stop = (command sum_hmac six_bits session_42 (codes "stop") 1010 (server 42)).1

one_later : Commands sum_hmac six_bits session_42 1 after_stop
one_later = one_more (codes "stop") 1010 (server 42) none_yet

check_answer-replay_example :
    check_answer sum_hmac six_bits after_stop.key after_stop.serial 1010 none
      (codes "status")
      (answer_payload 42)
    ≢ ok response
check_answer-replay_example =
    check_answer-replay sum_hmac six_bits {s = session_42} {s' = after_stop} 1000 1010
      (some (codes "7")) none (codes "status") (codes "status") (answer_payload 42) sum_hmac-IsHmac
      (omega arith) one_later (omega arith) (omega arith) answer-accepted

abbrev answer : RndcResponse
answer = response_of sum_hmac six_bits response

command-answered :
    command sum_hmac six_bits session (codes "status") 1000 (server 42) ≡ (ok answer, session_42)
unfolding session_code
command-answered = refl

command-IsAuthentic_example :
    (frame payload input : Bytes) × (response : IscMap) × (request sum_hmac six_bits key
        ((41 + 1) % 2 ^ 32)
        1000
        (some (codes "7"))
        (codes "status")
      ≡ ok frame)
    × (read_frame ([] ++ server 42 frame) ≡ (ok payload, []))
    × (decode_authenticated_payload payload ≡ ok (response, input))
    × IsAuthentic sum_hmac six_bits key response input
        ((41 + 1) % 2 ^ 32)
        1000
        (some (codes "7"))
        (some (codes "status"))
    × (answer ≡ response_of sum_hmac six_bits response)
    × (session_42 ≡ record session { serial = (41 + 1) % 2 ^ 32; unread = [] })
command-IsAuthentic_example =
    command-IsAuthentic sum_hmac six_bits session (codes "status") 1000 (server 42) sum_hmac-IsHmac
      command-answered

-- The text of the answer.
answer-text : answer.text ≡ codes "up"
unfolding session_code
answer-text = refl
