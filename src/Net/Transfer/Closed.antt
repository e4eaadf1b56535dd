-- ===== src/Net/Transfer/Closed.antt =====
-- An AXFR stream that ends, from the messages on the connection to the records that it yields
-- (`transfer_record_stream` in crates/bind9-sdk-net/src/transfer/mod.rs).
use bind9_sdk.Common.{ℕ, ◌≡◌, refl, true, some, List, ◌++◌, ok}
use mathlib.Core.List.{flatten}
use bind9_sdk.Common.Bytes.{Bytes}
use bind9_sdk.Core.Domain.{DomainName}
use bind9_sdk.Core.Record.{ResourceRecord}
use bind9_sdk.Core.Transfer.{TransferRecord}
use bind9_sdk.Core.Tsig.{TsigKey, Hmac, IsHmac}
use bind9_sdk.Net.Transfer.Stream.{axfr_new, closed}
use bind9_sdk.Net.Transfer.Axfr.{IsTransfer, ClosedBy-IsTransfer}
use bind9_sdk.Net.Transfer.Verifier.{verifier_new}
use bind9_sdk.Net.Transfer.Authentic.{Timed, IsSignedStream}
use bind9_sdk.Net.Transfer.Signed.{verify_messages-IsSignedStream}
use bind9_sdk.Net.Transfer.WireStream.{axfr_stream}
use bind9_sdk.Net.Transfer.Ended.{all_answers, axfr_stream_read}

-- What a signed transfer that ends has been: the messages read, signed as a whole from the MAC of
-- the request on; and the zone that their answers hold, yielded in order.
pub record IsSignedTransfer (h : Hmac) (key : TsigKey) (expected_id : ℕ) (request_mac : Bytes)
    (zone : DomainName) (max_records qtype : ℕ) (ms : List Timed) (ys : List TransferRecord)
    : Type 0 where
  pub used : List Timed
  pub unused : List Timed
  pub contents : List Bytes
  pub answers : List (List ResourceRecord)
  pub splits : ms ≡ used ++ unused
  pub signed : IsSignedStream h key expected_id true request_mac used contents
  pub parsed : all_answers zone qtype contents ≡ ok answers
  pub whole : IsTransfer zone max_records (flatten answers) ys

-- Where the query was signed, a stream that ends has read messages that are signed as a whole under
-- the key, from the MAC of the request on, the last one with a MAC of its own; each of them, without
-- its TSIG record, is an acceptable response for the zone, and the answers of these
-- messages, and of no other ones, are a whole transfer, whose records the stream has yielded in
-- their order.
pub axfr_stream-IsSignedTransfer :
    (h : Hmac) (key : TsigKey) (expected_id : ℕ) (request_mac : Bytes) (zone : DomainName)
    (max_records qtype : ℕ) (ms : List Timed) (ys : List TransferRecord)
    → IsHmac h
    → axfr_stream h zone max_records qtype
        (verifier_new expected_id (some key) (some request_mac))
        axfr_new
        ms
      ≡ (ys, closed)
    → IsSignedTransfer h key expected_id request_mac zone max_records qtype ms ys
axfr_stream-IsSignedTransfer h key expected_id request_mac zone max_records qtype ms ys law e =
    let r = axfr_stream_read h zone max_records qtype ms _ axfr_new ys e in
    record {
      used = r.used;
      unused = r.unused;
      contents = r.contents;
      answers = r.answers;
      splits = r.splits;
      signed =
          verify_messages-IsSignedStream h law key expected_id request_mac r.used r.verified
            r.agreed;
      parsed = r.parsed;
      whole = ClosedBy-IsTransfer zone max_records axfr_new r.answers ys refl r.yields;
    }
