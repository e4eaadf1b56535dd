-- ===== src/Net/NsUpdate/Verified.antt =====
-- `send` (crates/bind9-sdk-net/src/nsupdate.rs): what is known of a response that is accepted.
use bind9_sdk.Common.{
  ℕ, ◌≡◌, ◌⊎◌, inl, inr, refl, sym, ap, ◌∙◌, Bool, true, false, if◌then◌else◌, Option, none, some,
  ◌==◌, ==_iff, take, drop, Result, ok, >>=-eq-ok, ok_or, ok_or-eq-ok, ensure-eq-ok, map_err-eq-ok,
  ok-injective,
}
use bind9_sdk.Common.Bytes.{Bytes}
use bind9_sdk.Errors.{NetError}
use bind9_sdk.Core.Tsig.{Hmac, IsHmac, TsigKey}
use bind9_sdk.Core.Tsig.Record.{TsigRecord, verify_response}
use bind9_sdk.Core.Tsig.Wire.{parse_from_wire}
use bind9_sdk.Core.Tsig.Response.{IsVerified, verify_response_iff}
use bind9_sdk.Core.Update.{UpdateMessage}
use bind9_sdk.Net.NsUpdate.{
  UpdateResult, parse_dns_response, is_truncated, find_tsig_in_response, msg_sans_tsig, verify_at,
  verify_signed, verify_if_signed, accept_response, has_key, send,
}

-- A response whose TSIG record, at `offset`, verifies what is in front of it.
pub record IsSignedResponse (h : Hmac) (key : TsigKey) (request_mac response : Bytes) (now : ℕ)
    : Type 0 where
  pub offset : ℕ
  pub tsig : TsigRecord
  pub found : find_tsig_in_response response ≡ ok (some offset)
  pub parsed : parse_from_wire (drop offset response) ≡ ok tsig
  pub no_error : tsig.error ≡ 0
  pub verified : IsVerified h key (msg_sans_tsig (take offset response)) tsig request_mac now

-- The response is that of UDP or that of TCP.
way :
    (truncated : Bool) (udp : Bytes) (tcp : Result NetError Bytes) (response : Bytes)
    → (if truncated then tcp else ok udp) ≡ ok response
    → ((truncated ≡ false) × (udp ≡ response)) ⊎ ((truncated ≡ true) × (tcp ≡ ok response))
way true udp tcp response e = inr (refl, e)
way false udp tcp response e = inl (refl, ok-injective e)

module _ (h : Hmac) where
  verify_signed-IsSignedResponse :
      (key : TsigKey) (request_mac response : Bytes) (now : ℕ)
      → IsHmac h
      → verify_signed h key request_mac response now ≡ ok tt
      → IsSignedResponse h key request_mac response now
  unfolding verify_signed verify_at
  verify_signed-IsSignedResponse key request_mac response now law v =
      let (found, e₁, v₁) = >>=-eq-ok (find_tsig_in_response response) _ v in
      let (offset, e₂, v₂) = >>=-eq-ok (ok_or found _) _ v₁ in
      let (tsig, e₃, v₃) = >>=-eq-ok _ _ v₂ in
      let (clean, v₄) = ensure-eq-ok (tsig.error == 0) _ _ v₃ in
      let message = msg_sans_tsig (take offset response) in
      record {
        offset = offset;
        tsig = tsig;
        found = e₁ ∙ ap (λ o. ok o) (ok_or-eq-ok _ _ e₂);
        parsed = map_err-eq-ok (parse_from_wire (drop offset response)) _ e₃;
        no_error = (==_iff tsig.error 0).0 clean;
        verified =
            (verify_response_iff h key message tsig request_mac now law).0
              (map_err-eq-ok (verify_response h key message tsig request_mac now) _ v₄);
      }

  verify_if_signed-IsSignedResponse :
      (tsig_key : Option TsigKey) (request_mac response : Bytes) (now : ℕ)
      → IsHmac h
      → has_key (some request_mac) tsig_key ≡ true
      → verify_if_signed h tsig_key (some request_mac) response now ≡ ok tt
      → (key : TsigKey) × (tsig_key ≡ some key) × IsSignedResponse h key request_mac response now
  unfolding verify_if_signed has_key
  verify_if_signed-IsSignedResponse none request_mac response now law keyed v = cc
  verify_if_signed-IsSignedResponse (some key) request_mac response now law keyed v =
      (key, refl, verify_signed-IsSignedResponse key request_mac response now law v)

  -- A response that is accepted for a signed update, with the key at hand, came over UDP and is not
  -- truncated, or over TCP after a UDP response that is; it has the flags of an update response and the
  -- ID of the request, and the result is read from it; and it ends in a TSIG record without an error
  -- that verifies all in front of it, with one additional record less, against the MAC of the request.
  pub send-IsSignedResponse :
      (update : UpdateMessage) (tsig_key : Option TsigKey) (now : ℕ)
      (send_udp send_tcp : Bytes → Result NetError Bytes) (request_mac : Bytes)
      {result : UpdateResult}
      → IsHmac h
      → update.request_mac ≡ some request_mac
      → send h update tsig_key now send_udp send_tcp ≡ ok result
      → (key : TsigKey) × (udp response : Bytes) × (tsig_key ≡ some key)
        × (send_udp update.wire_bytes ≡ ok udp)
        × (((is_truncated udp ≡ false) × (udp ≡ response))
            ⊎ ((is_truncated udp ≡ true) × (send_tcp update.wire_bytes ≡ ok response)))
        × (parse_dns_response response ≡ ok result)
        × (result.id ≡ update.id)
        × IsSignedResponse h key request_mac response now
  unfolding send accept_response
  send-IsSignedResponse update tsig_key now send_udp send_tcp request_mac law signed e =
      let (keyed, e₁) = ensure-eq-ok (has_key update.request_mac tsig_key) _ _ e in
      let (udp, e₂, e₃) = >>=-eq-ok (send_udp update.wire_bytes) _ e₁ in
      let (response, e₄, e₅) = >>=-eq-ok _ _ e₃ in
      let (result', e₆, e₇) = >>=-eq-ok (parse_dns_response response) _ e₅ in
      let (same, e₈) = ensure-eq-ok (result'.id == update.id) _ _ e₇ in
      let (_, e₉, e₁₀) =
        >>=-eq-ok (verify_if_signed h tsig_key update.request_mac response now) _ e₈ in
      let made = ok-injective e₁₀ in
      let (key, has, verified) =
        verify_if_signed-IsSignedResponse tsig_key request_mac response now law
          (ap (λ m. has_key m tsig_key) (sym signed) ∙ keyed)
          (ap (λ m. verify_if_signed h tsig_key m response now) (sym signed) ∙ e₉) in
      (
        key,
        udp,
        response,
        has,
        e₂,
        way (is_truncated udp) udp (send_tcp update.wire_bytes) response e₄,
        e₆ ∙ ap (λ r. ok r) made,
        ap (λ r. r.id) (sym made) ∙ (==_iff result'.id update.id).0 same,
        verified,
      )
