-- ===== src/Core/Tsig/Response.antt =====
-- `verify_response` (crates/bind9-sdk-core/src/tsig/record.rs): what it accepts, and that it accepts
-- what a server signs with `TsigRecord::new`.
use bind9_sdk.Common.{
  ℕ, ◌+◌, ◌≤◌, ◌≡◌, ◌↔◌, refl, sym, ◌∙◌, ◌++◌, arith, true, some, ◌==◌, ==_iff, leb, leb→le, le→leb,
  length, ok, >>=-eq-ok, ensure-eq-ok, ok-injective,
}
use mathlib.Core.Path.{subst}
use bind9_sdk.Common.Bytes.{Bytes}
use bind9_sdk.Core.Domain.{name_eq}
use bind9_sdk.Core.Domain.Equality.{name_eq_refl}
use bind9_sdk.Core.Tsig.{
  TsigAlgorithm, hmac_sha256, hmac_sha512, hmac_sha1, algorithm_eq, Hmac, IsHmac, TsigKey, verify,
}
use bind9_sdk.Core.Tsig.Record.{
  TsigRecord, tsig_vars, counted, prior, message_id, abs_diff, verify_time, algorithm_name,
  tsig_new, verify_response,
}
use bind9_sdk.Core.Tsig.Made.{algorithm_domain, algorithm_name_lem, tsig_new-IsMade}

-- What RFC 8945 asks of the record of a response, at the time `now`.
pub record IsVerified (h : Hmac) (key : TsigKey) (message : Bytes) (tsig : TsigRecord)
    (request_mac : Bytes) (now : ℕ) : Type 0 where
  pub same_key : name_eq tsig.key_name key.name ≡ true
  pub same_algorithm : tsig.algorithm ≡ key.algorithm
  pub has_header : 12 ≤ length message
  pub same_id : tsig.original_id ≡ message_id message
  pub not_early : now ≤ tsig.time_signed + tsig.fudge
  pub not_late : tsig.time_signed ≤ now + tsig.fudge
  pub accepted : h.new_from_slice key.algorithm key.key_material ≡ true
  pub signed :
      tsig.mac
      ≡ h.finalize key.algorithm key.key_material (
          counted request_mac
          ++ (message
              ++ tsig_vars key.name
                  (algorithm_domain key.algorithm)
                  tsig.time_signed
                  tsig.fudge
                  tsig.error
                  tsig.other_data))

pub algorithm_eq_iff : (a b : TsigAlgorithm) → (algorithm_eq a b ≡ true) ↔ (a ≡ b)
unfolding algorithm_eq
algorithm_eq_iff hmac_sha256 b = ground arith
algorithm_eq_iff hmac_sha512 b = ground arith
algorithm_eq_iff hmac_sha1 b = ground arith

pub verify_iff :
    (h : Hmac) (key : TsigKey) (message mac : Bytes)
    → IsHmac h
    → (verify h key message mac ≡ ok tt) ↔ (
        (h.new_from_slice key.algorithm key.key_material ≡ true)
        × (mac ≡ h.finalize key.algorithm key.key_material message))
unfolding verify
verify_iff h key message mac law =
    ground (arith, law.exact key.algorithm key.key_material message mac)

pub verify_time_iff :
    (r : TsigRecord) (now : ℕ)
    → (verify_time r now ≡ ok tt)
      ↔ ((now ≤ r.time_signed + r.fudge) × (r.time_signed ≤ now + r.fudge))
unfolding verify_time abs_diff
verify_time_iff r now = ground arith

verify_response-IsVerified :
    (h : Hmac) (key : TsigKey) (message : Bytes) (tsig : TsigRecord) (request_mac : Bytes) (now : ℕ)
    → IsHmac h
    → verify_response h key message tsig request_mac now ≡ ok tt
    → IsVerified h key message tsig request_mac now
unfolding verify_response
verify_response-IsVerified h key message tsig request_mac now law e =
    let (same_key, e₁) = ensure-eq-ok (name_eq tsig.key_name key.name) _ _ e in
    let (same_algorithm, e₂) = ensure-eq-ok (algorithm_eq tsig.algorithm key.algorithm) _ _ e₁ in
    let (long, e₃) = ensure-eq-ok (leb 12 (length message)) _ _ e₂ in
    let (same_id, e₄) = ensure-eq-ok (tsig.original_id == message_id message) _ _ e₃ in
    let (_, in_window, e₅) = >>=-eq-ok (verify_time tsig now) _ e₄ in
    let (name, named, e₆) = >>=-eq-ok (algorithm_name key.algorithm) _ e₅ in
    let built_in : name ≡ algorithm_domain key.algorithm =
      ok-injective (sym named ∙ algorithm_name_lem key.algorithm) in
    let (accepted, signed) = (verify_iff h key _ tsig.mac law).0 e₆ in
    let (not_early, not_late) = (verify_time_iff tsig now).0 in_window in
    record {
      same_key = same_key;
      same_algorithm = (algorithm_eq_iff _ _).0 same_algorithm;
      has_header = leb→le _ _ long;
      same_id = (==_iff _ _).0 same_id;
      not_early = not_early;
      not_late = not_late;
      accepted = accepted;
      signed = rw (← built_in) signed;
    }

IsVerified-verify_response :
    (h : Hmac) (key : TsigKey) (message : Bytes) (tsig : TsigRecord) (request_mac : Bytes) (now : ℕ)
    → IsHmac h
    → IsVerified h key message tsig request_mac now
    → verify_response h key message tsig request_mac now ≡ ok tt
unfolding verify_response
IsVerified-verify_response h key message tsig request_mac now law v =
    rw
      (
        v.same_key,
        (algorithm_eq_iff tsig.algorithm key.algorithm).1 v.same_algorithm,
        le→leb 12 (length message) v.has_header,
        (==_iff tsig.original_id (message_id message)).1 v.same_id,
        (verify_time_iff tsig now).1 (v.not_early, v.not_late),
        algorithm_name_lem key.algorithm,
      )
      ((verify_iff h key _ tsig.mac law).1 (v.accepted, v.signed))

-- `verify_response` accepts a response exactly when its TSIG record names the key, case aside, and
-- its algorithm, has the ID of a message with a whole header, and was signed within its own fudge of
-- the given time, and when its MAC is the digest of the MAC of the request behind its length, of the
-- response and of the TSIG variables with the fields of the record.
pub verify_response_iff :
    (h : Hmac) (key : TsigKey) (message : Bytes) (tsig : TsigRecord) (request_mac : Bytes) (now : ℕ)
    → IsHmac h
    → (verify_response h key message tsig request_mac now ≡ ok tt)
      ↔ IsVerified h key message tsig request_mac now
verify_response_iff h key message tsig request_mac now law = (
  verify_response-IsVerified h key message tsig request_mac now law,
  IsVerified-verify_response h key message tsig request_mac now law,
)

-- What a server signs as its response, with the MAC of the request, is accepted by a client with the
-- same key whose clock differs by 300 seconds at most, if the response has a whole header.
pub verify_response-tsig_new :
    (h : Hmac) (key : TsigKey) (message : Bytes) (timestamp : ℕ) (request_mac : Bytes) (now : ℕ)
    {tsig : TsigRecord}
    → IsHmac h
    → tsig_new h key message timestamp (some request_mac) ≡ ok tsig
    → 12 ≤ length message
    → now ≤ timestamp + 300
    → timestamp ≤ now + 300
    → verify_response h key message tsig request_mac now ≡ ok tt
verify_response-tsig_new h key message timestamp request_mac now law made long early late =
    let m = tsig_new-IsMade h key message timestamp (some request_mac) made in
    subst (λ tsig. verify_response h key message tsig request_mac now ≡ ok tt) m.same
      (IsVerified-verify_response h key message _ request_mac now law record {
        same_key = name_eq_refl key.name;
        same_algorithm = refl;
        has_header = long;
        same_id = refl;
        not_early = early;
        not_late = late;
        accepted = m.accepted;
        signed = unfold prior in refl;
      })
