-- ===== src/Net/Rndc/Authentic.antt =====
-- `verify_authenticated_response` (crates/bind9-sdk-net/src/rndc/mod.rs): when the answer to a
-- request is accepted.
use bind9_sdk.Common.{
  ℕ, ◌≤◌, ◌≡◌, ◌↔◌, refl, sym, ap, ◌∙◌, true, false, not, ◌||◌, Option, some, [], ◌∷◌, ◌++◌, arith,
  ◌==◌, ==_iff, length, drop, drop-append_length, ok, >>=-eq-ok, ok_or, ok_or-eq-ok, ensure-eq-ok,
  map_err-eq-ok,
}
use mathlib.Core.Path.{subst}
use bind9_sdk.Common.Bytes.{Bytes, codes}
use bind9_sdk.Common.Utf8.{is_utf8}
use bind9_sdk.Core.Tsig.{TsigKey, Hmac, IsHmac, verify}
use bind9_sdk.Core.Tsig.Response.{verify_iff}
use bind9_sdk.Net.Rndc.{IscMap, get_map, get_binary, read_byte}
use bind9_sdk.Net.Rndc.Session.{
  Base64, isccc_algorithm_byte, zeros, until_nul, any_nonzero, map_string, type_agrees,
  validate_response_ctrl, verify_isccc_hmac, verify_authenticated_response,
}
use bind9_sdk.Net.Rndc.Fresh.{
  ensure-accepted, IsFresh, validate_response_ctrl-IsFresh, IsFresh-validate_response_ctrl,
}
use bind9_sdk.Net.Rndc.Padding.{
  HasNoNul, until_nul-HasNoNul, until_nul-drop, any_nonzero-zeros, until_nul-append,
  zeros-any_nonzero,
}

-- An `_auth.hsha` value that signs the input with the key.
pub record IsSigned (h : Hmac) (base64 : Base64) (key : TsigKey) (input received : Bytes)
    : Type 0 where
  pub algorithm : ℕ
  pub text : Bytes
  pub padding : ℕ
  pub same_algorithm : isccc_algorithm_byte key.algorithm ≡ ok algorithm
  pub framed : received ≡ algorithm ∷ (text ++ zeros padding)
  pub sized : length received ≡ 89
  pub some_text : 1 ≤ length text
  pub no_nul : HasNoNul text
  pub readable : is_utf8 text ≡ true
  pub decoded : base64.decode text ≡ some (h.finalize key.algorithm key.key_material input)
  pub key_accepted : h.new_from_slice key.algorithm key.key_material ≡ true

pub nonempty : (text : Bytes) → 1 ≤ length text → (length text == 0) ≡ false
nonempty text h = ground arith

module _ (h : Hmac) (base64 : Base64) (key : TsigKey) where
  pub IsSigned-verify_isccc_hmac :
      (input received : Bytes)
      → IsHmac h
      → IsSigned h base64 key input received
      → verify_isccc_hmac h base64 key input received ≡ ok tt
  unfolding verify_isccc_hmac read_byte
  IsSigned-verify_isccc_hmac input received law s =
      let rest = s.text ++ zeros s.padding in
      subst (λ r. verify_isccc_hmac h base64 key input r ≡ ok tt) (sym s.framed)
        (rw
          (
            (==_iff (length (s.algorithm ∷ rest)) 89).1 (sym (ap length s.framed) ∙ s.sized),
            s.same_algorithm,
            (==_iff s.algorithm s.algorithm).1 refl,
            until_nul-append s.text s.padding s.no_nul,
            drop-append_length s.text (zeros s.padding),
            zeros-any_nonzero s.padding,
            nonempty s.text s.some_text,
            s.readable,
            s.decoded,
            (verify_iff h key input _ law).1 (s.key_accepted, refl),
          )
          refl)

  verify_isccc_hmac-IsSigned :
      (input received : Bytes)
      → IsHmac h
      → verify_isccc_hmac h base64 key input received ≡ ok tt
      → IsSigned h base64 key input received
  unfolding verify_isccc_hmac read_byte
  verify_isccc_hmac-IsSigned input [] law v = cc
  verify_isccc_hmac-IsSigned input (b ∷ rest) law v =
      let (sized, v₁) = ensure-eq-ok (length (b ∷ rest) == 89) _ _ v in
      let (a, e₂, v₂) = >>=-eq-ok (isccc_algorithm_byte key.algorithm) _ v₁ in
      let (same, v₃) = ensure-eq-ok (b == a) _ _ v₂ in
      let text = until_nul rest in
      let behind = drop (length text) rest in
      let (padded, v₄) = ensure-eq-ok (not (length text == 0 || any_nonzero behind)) _ _ v₃ in
      let (readable, v₅) = ensure-eq-ok (is_utf8 text) _ _ v₄ in
      let (mac, e₆, v₆) = >>=-eq-ok (ok_or (base64.decode text) _) _ v₅ in
      let (key_ok, exact) =
        (verify_iff h key input mac law).0 (map_err-eq-ok (verify h key input mac) _ v₆) in
      let quiet : any_nonzero behind ≡ false = ground (arith, padded) in
      record {
        algorithm = a;
        text = text;
        padding = length behind;
        same_algorithm = e₂;
        framed =
            ap (λ x. x ∷ rest) ((==_iff b a).0 same)
            ∙ ap (λ r. a ∷ r)
                (sym (until_nul-drop rest) ∙ ap (λ z. text ++ z) (any_nonzero-zeros behind quiet));
        sized = (==_iff _ 89).0 sized;
        some_text = ground (arith, padded);
        no_nul = until_nul-HasNoNul rest;
        readable = readable;
        decoded = ok_or-eq-ok _ _ e₆ ∙ ap (λ m. some m) exact;
        key_accepted = key_ok;
      }

-- An answer to the request with this serial, nonce and type, sent at this time.
pub record IsAuthentic (h : Hmac) (base64 : Base64) (key : TsigKey) (response : IscMap)
    (input : Bytes) (serial time : ℕ) (nonce type : Option Bytes) : Type 0 where
  pub auth : IscMap
  pub ctrl : IscMap
  pub payload : IscMap
  pub received : Bytes
  pub has_auth : get_map (codes "_auth") response ≡ some auth
  pub has_ctrl : get_map (codes "_ctrl") response ≡ some ctrl
  pub has_data : get_map (codes "_data") response ≡ some payload
  pub has_hmac : get_binary (codes "hsha") auth ≡ some received
  pub signed : IsSigned h base64 key input received
  pub fresh : IsFresh ctrl serial time nonce
  pub same_type : type_agrees type (map_string payload (codes "type")) ≡ true

module _ (h : Hmac) (base64 : Base64) (key : TsigKey) (response : IscMap) (input : Bytes)
    (serial time : ℕ) (nonce type : Option Bytes) where
  verify_authenticated_response-IsAuthentic :
      IsHmac h
      → verify_authenticated_response h base64 key response input serial time nonce type ≡ ok tt
      → IsAuthentic h base64 key response input serial time nonce type
  unfolding verify_authenticated_response
  verify_authenticated_response-IsAuthentic law v =
      let (a, e₁, v₁) = >>=-eq-ok (ok_or (get_map (codes "_auth") response) _) _ v in
      let (c, e₂, v₂) = >>=-eq-ok (ok_or (get_map (codes "_ctrl") response) _) _ v₁ in
      let (d, e₃, v₃) = >>=-eq-ok (ok_or (get_map (codes "_data") response) _) _ v₂ in
      let (r, e₄, v₄) = >>=-eq-ok (ok_or (get_binary (codes "hsha") a) _) _ v₃ in
      let (_, e₅, v₅) = >>=-eq-ok (verify_isccc_hmac h base64 key input r) _ v₄ in
      let (_, e₆, v₆) = >>=-eq-ok (validate_response_ctrl c serial time nonce) _ v₅ in
      record {
        auth = a;
        ctrl = c;
        payload = d;
        received = r;
        has_auth = ok_or-eq-ok _ _ e₁;
        has_ctrl = ok_or-eq-ok _ _ e₂;
        has_data = ok_or-eq-ok _ _ e₃;
        has_hmac = ok_or-eq-ok _ _ e₄;
        signed = verify_isccc_hmac-IsSigned h base64 key input r law e₅;
        fresh = validate_response_ctrl-IsFresh c serial time nonce e₆;
        same_type = ensure-accepted (type_agrees type (map_string d (codes "type"))) _ v₆;
      }

  IsAuthentic-verify_authenticated_response :
      IsHmac h
      → IsAuthentic h base64 key response input serial time nonce type
      → verify_authenticated_response h base64 key response input serial time nonce type ≡ ok tt
  unfolding verify_authenticated_response
  IsAuthentic-verify_authenticated_response law i =
      rw
        (
          i.has_auth,
          i.has_ctrl,
          i.has_data,
          i.has_hmac,
          IsSigned-verify_isccc_hmac h base64 key input i.received law i.signed,
          IsFresh-validate_response_ctrl i.ctrl serial time nonce i.fresh,
          i.same_type,
        )
        refl

  -- An answer of the server is accepted exactly when its `_auth.hsha` has 89 octets: that of the
  -- algorithm of the key, the base64 text of the digest of the octets that were signed, and zeros;
  -- when its `_ctrl` table has the serial of the request as a decimal, a time from that of the request
  -- to 60 seconds later, an expiry 60 seconds after that time, the flag of a reply, and a nonce, which
  -- is that of the session if there is one; and when its type, if it has one, is that of the request.
  pub verify_authenticated_response_iff :
      IsHmac h
      → (verify_authenticated_response h base64 key response input serial time nonce type ≡ ok tt)
        ↔ IsAuthentic h base64 key response input serial time nonce type
  verify_authenticated_response_iff law =
      (verify_authenticated_response-IsAuthentic law, IsAuthentic-verify_authenticated_response law)
