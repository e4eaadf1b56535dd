-- ===== src/Net/NsUpdate.antt =====
-- The sender of dynamic updates: crates/bind9-sdk-net/src/nsupdate.rs. The two ways to the server,
-- UDP and TCP, are functions from a message to the answer or an error of the connection, and the time
-- of the clock is an argument. Positions do not overflow.
pub mod Walk
pub mod Verified
use bind9_sdk.Common.{
  ℕ, String, ◌&&◌, zero, suc, ◌+◌, ◌-◌, ◌/◌, Bool, true, false, not, Option, none, some, List, [],
  ◌∷◌, ◌++◌, ltb, leb, ◌==◌, if◌then◌else◌, bit_and, length, take, drop, Result, ok, err, stuck,
  ◌>>=◌, ◌>>◌, ensure, ok_or, map_err,
}
use bind9_sdk.Common.Bytes.{Bytes, u16_from, set_arcount}
use bind9_sdk.Errors.{CoreError, NetError, protocol, tsig_rejected}
use bind9_sdk.Core.Protocol.{Rcode, rcode_from_value}
use bind9_sdk.Core.Tsig.{Hmac, TsigKey}
use bind9_sdk.Core.Tsig.Record.{TsigRecord, verify_response}
use bind9_sdk.Core.Tsig.Wire.{parse_from_wire}
use bind9_sdk.Core.Update.{UpdateMessage}
use bind9_sdk.Core.Update.Message.{arcount}
use bind9_sdk.Net.Wire.Record.{record_fields}

pub record UpdateResult : Type 0 where
  pub rcode : Rcode
  pub id : ℕ

-- The tests of the flags, once the header is there.
unfoldable pub parse_flags : ℕ → ℕ → ℕ → Result NetError UpdateResult
parse_flags id flags1 flags2 = do
  ensure (not (bit_and flags1 0x80 == 0)) (protocol "DNS update packet is not a response (QR=0)")
  ensure (bit_and (flags1 / 8) 0x0F == 5) (protocol "DNS update response has opcode")
  ensure (bit_and flags2 0xF0 == 0) (protocol "DNS update response has non-zero reserved bits")
  ok (record { rcode = rcode_from_value (bit_and flags2 0x0F); id = id })

unfoldable pub parse_dns_response : Bytes → Result NetError UpdateResult
unfolding parse_flags
parse_dns_response (i ∷ i' ∷ flags1 ∷ flags2 ∷ rest) = do
  ensure (leb 8 (length rest)) (protocol "DNS response too short")
  parse_flags (u16_from i i') flags1 flags2
parse_dns_response _ = err (protocol "DNS response too short")

unfoldable pub is_truncated : Bytes → Bool
is_truncated (i ∷ i' ∷ flags1 ∷ rest) =
    if ltb (length rest) 9 then false else not (bit_and flags1 0x02 == 0)
is_truncated _ = false

-- A round of `skip_wire_name` on the octets from a position on, which ends or goes on from `next`. An
-- octet has both bits of 0xC0 exactly if it is 192 at least.
unfoldable pub skip_label : Bytes → ℕ → (ℕ → Result NetError ℕ) → Result NetError ℕ
skip_label [] pos next = err (protocol "truncated DNS name in response")
skip_label (len ∷ rest) pos next =
    if len == 0 then ok (pos + 1) else if leb 192 len then ok (pos + 2) else next (pos + (1 + len))

-- The loop of `skip_wire_name` from a position on: the position behind the name.
unfoldable pub skip_wire_name : ℕ → Bytes → ℕ → Result NetError ℕ
skip_wire_name zero wire pos = stuck
skip_wire_name (suc fuel) wire pos = skip_label (drop pos wire) pos (skip_wire_name fuel wire)

-- A round takes an octet at least.
abbrev pub name_end : Bytes → ℕ → Result NetError ℕ
name_end wire pos = skip_wire_name (suc (length wire)) wire pos

-- The loop over the questions.
unfoldable pub skip_question_section : ℕ → Bytes → ℕ → Result NetError ℕ
skip_question_section zero wire pos = ok pos
skip_question_section (suc n) wire pos = do
  behind ← name_end wire pos
  ensure (leb (behind + 4) (length wire)) (protocol "truncated question section")
  skip_question_section n wire (behind + 4)

-- One record: its type, and the position behind it.
unfoldable pub skip_rr : NetError → NetError → Bytes → ℕ → Result NetError (ℕ × ℕ)
skip_rr truncated_rr truncated_rdata wire pos = do
  behind ← name_end wire pos
  (rtype, _, _, rdlength) ← ok_or (record_fields (drop behind wire)) truncated_rr
  ensure (leb (behind + 10 + rdlength) (length wire)) truncated_rdata
  ok (rtype, behind + 10 + rdlength)

-- The loop over the answer and authority records.
unfoldable pub skip_rrs : ℕ → Bytes → ℕ → Result NetError ℕ
unfolding skip_rr
skip_rrs zero wire pos = ok pos
skip_rrs (suc n) wire pos = do
  (_, behind) ←
      skip_rr (protocol "truncated RR in response") (protocol "truncated RDATA in response") wire
        pos
  skip_rrs n wire behind

-- The loop over the additional records, with the start and the type of the last one.
unfoldable pub last_rr : ℕ → Bytes → ℕ → Option ℕ → ℕ → Result NetError (Option ℕ × ℕ)
unfolding skip_rr
last_rr zero wire pos last_rr_start last_rr_type = ok (last_rr_start, last_rr_type)
last_rr (suc n) wire pos last_rr_start last_rr_type = do
  (rtype, behind) ←
      skip_rr (protocol "truncated additional RR") (protocol "truncated additional RDATA") wire pos
  last_rr n wire behind (some pos) rtype

-- The three walks, by the counts of the header.
unfoldable pub find_last : Bytes → ℕ → ℕ → ℕ → Result NetError (Option ℕ)
find_last wire qdcount rrcount arcount = do
  behind_questions ← skip_question_section qdcount wire 12
  behind_records ← skip_rrs rrcount wire behind_questions
  (last_rr_start, last_rr_type) ← last_rr arcount wire behind_records none 0
  ok (if last_rr_type == 250 then last_rr_start else none)

unfoldable pub find_tsig_in_response : Bytes → Result NetError (Option ℕ)
find_tsig_in_response (i ∷ i' ∷ f ∷ f' ∷ q ∷ q' ∷ n ∷ n' ∷ a ∷ a' ∷ r ∷ r' ∷ rest) =
    let wire = i ∷ i' ∷ f ∷ f' ∷ q ∷ q' ∷ n ∷ n' ∷ a ∷ a' ∷ r ∷ r' ∷ rest in
    let found = find_last wire (u16_from q q') (u16_from n n' + u16_from a a') (u16_from r r') in
    if u16_from r r' == 0 then ok none else found
find_tsig_in_response _ = ok none

unfoldable pub tsig_error_name : ℕ → String
tsig_error_name code =
    if code == 16
    then "BADSIG"
    else if code == 17
    then "BADKEY"
    else if code == 18
    then "BADTIME"
    else if code == 22
    then "BADTRUNC"
    else "TSIGERROR"

-- The message that the server signed: without the TSIG record, and with one additional record less.
unfoldable pub msg_sans_tsig : Bytes → Bytes
msg_sans_tsig message =
    if leb 12 (length message) && ltb 0 (arcount message)
    then set_arcount (arcount message - 1) message
    else message

-- `update.is_signed() && tsig_key.is_none()` does not hold.
unfoldable pub has_key : Option Bytes → Option TsigKey → Bool
has_key (some mac) none = false
has_key _ _ = true

module _ (h : Hmac) where
  -- The check of a response to a signed request, at the position of its TSIG record.
  unfoldable pub verify_at : TsigKey → Bytes → Bytes → ℕ → ℕ → Result NetError (Unit {0})
  verify_at key request_mac response now tsig_offset = do
    response_tsig ←
        map_err (λ _. protocol "failed to parse response TSIG")
          (parse_from_wire (drop tsig_offset response))
    ensure (response_tsig.error == 0)
        (tsig_rejected response_tsig.error (tsig_error_name response_tsig.error))
    map_err (λ _. protocol "response TSIG verification failed")
        (verify_response h key (msg_sans_tsig (take tsig_offset response)) response_tsig request_mac
          now)

  unfoldable pub verify_signed : TsigKey → Bytes → Bytes → ℕ → Result NetError (Unit {0})
  verify_signed key request_mac response now = do
    found ← find_tsig_in_response response
    tsig_offset ← ok_or found (protocol "signed request but response contains no TSIG record")
    verify_at key request_mac response now tsig_offset

  -- `if let (Some(key), Some(request_mac))`
  unfoldable pub verify_if_signed :
      Option TsigKey → Option Bytes → Bytes → ℕ → Result NetError (Unit {0})
  verify_if_signed (some key) (some request_mac) response now =
      verify_signed key request_mac response now
  verify_if_signed none _ response now = ok tt
  verify_if_signed (some key) none response now = ok tt

  -- What `send` does with a response.
  unfoldable pub accept_response :
      UpdateMessage → Option TsigKey → ℕ → Bytes → Result NetError UpdateResult
  accept_response update tsig_key now response = do
    result ← parse_dns_response response
    ensure (result.id == update.id) (protocol "response ID does not match request ID")
    verify_if_signed tsig_key update.request_mac response now
    ok result

  unfoldable pub send :
      UpdateMessage
      → Option TsigKey
      → ℕ
      → (Bytes → Result NetError Bytes)
      → (Bytes → Result NetError Bytes)
      → Result NetError UpdateResult
  send update tsig_key now send_udp send_tcp = do
    ensure (has_key update.request_mac tsig_key)
        (protocol "signed DNS update requires its TSIG key for response verification")
    udp_response ← send_udp update.wire_bytes
    response ← (if is_truncated udp_response then send_tcp update.wire_bytes else ok udp_response)
    accept_response update tsig_key now response
