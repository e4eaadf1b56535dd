-- ===== src/Net/Transfer/Ended.antt =====
-- What an AXFR stream that ends has read (`transfer_record_stream` in
-- crates/bind9-sdk-net/src/transfer/mod.rs).
use bind9_sdk.Common.{
  ℕ, ◌≡◌, ◌≢◌, ◌⊎◌, refl, sym, ap, ◌∙◌, inl, inr, List, [], ◌∷◌, ◌++◌, arith, Result, ok, err,
  stuck, ◌>>=◌, >>=-eq-ok, ok-injective, Result-cases,
}
use mathlib.Core.Path.{subst}
use bind9_sdk.Common.Bytes.{Bytes}
use bind9_sdk.Errors.{NetError}
use bind9_sdk.Core.Domain.{DomainName}
use bind9_sdk.Core.Record.{ResourceRecord}
use bind9_sdk.Core.Transfer.{TransferRecord}
use bind9_sdk.Core.Tsig.{Hmac}
use bind9_sdk.Net.Wire.Header.{parse_header}
use bind9_sdk.Net.Transfer.Checks.{validate_transfer_response}
use bind9_sdk.Net.Transfer.Stream.{AxfrState, axfr_answers, AxfrOutcome, more, closed, failed}
use bind9_sdk.Net.Transfer.Messages.{ClosedBy, at_last, further}
use bind9_sdk.Net.Transfer.Verifier.{
  XfrTsigVerifier, verify_message, verify_messages, verifier_finish,
}
use bind9_sdk.Net.Transfer.Authentic.{Timed}
use bind9_sdk.Net.Transfer.WireStream.{wire_answers, open_message, axfr_stream}
use bind9_sdk.Net.Transfer.Read.{parse_answers, message_answers, wire_answers_read}

-- The answers of messages, each acceptable for a transfer of the zone.
unfoldable pub all_answers :
    DomainName → ℕ → List Bytes → Result NetError (List (List ResourceRecord))
all_answers zone qtype [] = ok []
all_answers zone qtype (u ∷ us) = do
  rs ← message_answers zone qtype u
  later ← all_answers zone qtype us
  ok (rs ∷ later)

all_answers-cons :
    (zone : DomainName) (qtype : ℕ) (u : Bytes) (us : List Bytes) {rs : List ResourceRecord}
    {later : List (List ResourceRecord)}
    → message_answers zone qtype u ≡ ok rs
    → all_answers zone qtype us ≡ ok later
    → all_answers zone qtype (u ∷ us) ≡ ok (rs ∷ later)
unfolding all_answers
all_answers-cons zone qtype u us e k = rw (e, k)

module _ (h : Hmac) (zone : DomainName) (max_records qtype : ℕ) where
  -- What a stream that ends has read of its messages, from a state of the verifier and one of the
  -- loop on.
  pub record IsReadStream (v : XfrTsigVerifier) (s : AxfrState) (ms : List Timed)
      (ys : List TransferRecord) : Type 0 where
    pub used : List Timed
    pub unused : List Timed
    pub contents : List Bytes
    pub answers : List (List ResourceRecord)
    pub last : XfrTsigVerifier
    pub splits : ms ≡ used ++ unused
    pub verified : verify_messages h v used ≡ ok (contents, last)
    pub agreed : verifier_finish last ≡ ok tt
    pub parsed : all_answers zone qtype contents ≡ ok answers
    pub yields : ClosedBy zone max_records s answers ys

  open_message-eq-ok :
      (v v' : XfrTsigVerifier) (now : ℕ) (raw msg : Bytes) (count offset : ℕ)
      → open_message h zone qtype v now raw ≡ ok (v', msg, count, offset)
      → (verify_message h v raw now ≡ ok (msg, v'))
        × (message_answers zone qtype msg ≡ parse_answers count msg offset)
  unfolding open_message message_answers
  open_message-eq-ok v v' now raw msg count offset e =
      let ((m, v₁), e₁, e₂) = >>=-eq-ok (verify_message h v raw now) _ e in
      let (header, e₃, e₄) = >>=-eq-ok (parse_header m) _ e₂ in
      let (off, e₅, e₆) = >>=-eq-ok (validate_transfer_response m header zone qtype) _ e₄ in
      let made = ok-injective e₆ in
      (
        e₁ ∙ ap (λ q. ok (q.1, q.0)) made,
        subst (λ q. message_answers zone qtype q.1 ≡ parse_answers q.2 q.1 q.3) made (rw (e₃, e₅)),
      )

  stream_ends :
      (v v' : XfrTsigVerifier) (s : AxfrState) (now : ℕ) (raw msg : Bytes) (ms : List Timed)
      (rs : List ResourceRecord) (ys : List TransferRecord)
      → verify_message h v raw now ≡ ok (msg, v')
      → message_answers zone qtype msg ≡ ok rs
      → axfr_answers zone max_records s rs ≡ (ys, closed)
      → verifier_finish v' ≡ ok tt
      → IsReadStream v s ((now, raw) ∷ ms) ys
  stream_ends v v' s now raw msg ms rs ys e p a f = record {
    used = (now, raw) ∷ [];
    unused = ms;
    contents = msg ∷ [];
    answers = rs ∷ [];
    last = v';
    splits = refl;
    verified = unfold verify_messages in rw e;
    agreed = f;
    parsed = all_answers-cons zone qtype msg [] p (unfold all_answers in refl);
    yields = at_last a;
  }

  stream_goes_on :
      (v v' : XfrTsigVerifier) (s s' : AxfrState) (now : ℕ) (raw msg : Bytes) (ms : List Timed)
      (rs : List ResourceRecord) (here later : List TransferRecord)
      → verify_message h v raw now ≡ ok (msg, v')
      → message_answers zone qtype msg ≡ ok rs
      → axfr_answers zone max_records s rs ≡ (here, more s')
      → IsReadStream v' s' ms later
      → IsReadStream v s ((now, raw) ∷ ms) (here ++ later)
  stream_goes_on v v' s s' now raw msg ms rs here later e p a r = record {
    used = (now, raw) ∷ r.used;
    unused = r.unused;
    contents = msg ∷ r.contents;
    answers = rs ∷ r.answers;
    last = r.last;
    splits = ap (◌∷◌ (now, raw)) r.splits;
    verified = unfold verify_messages in rw (e, r.verified);
    agreed = r.agreed;
    parsed = all_answers-cons zone qtype msg r.contents p r.parsed;
    yields = further a r.yields refl;
  }

  module _ (v v' : XfrTsigVerifier) (s : AxfrState) (now : ℕ) (raw msg : Bytes) (count offset : ℕ)
      (ms : List Timed) (here : List TransferRecord)
      (e : open_message h zone qtype v now raw ≡ ok (v', msg, count, offset)) where
    stream-closed :
        wire_answers zone max_records v' count msg offset s ≡ (here, closed)
        → axfr_stream h zone max_records qtype v s ((now, raw) ∷ ms) ≡ (here, closed)
    unfolding axfr_stream
    stream-closed a = ground (arith, e, a)

    stream-more :
        (s' : AxfrState)
        → wire_answers zone max_records v' count msg offset s ≡ (here, more s')
        → axfr_stream h zone max_records qtype v s ((now, raw) ∷ ms)
          ≡ (let rest = axfr_stream h zone max_records qtype v' s' ms in (here ++ rest.0, rest.1))
    unfolding axfr_stream
    stream-more s' a = ground (arith, e, a)

    stream-failed :
        (x : NetError)
        → wire_answers zone max_records v' count msg offset s ≡ (here, failed x)
        → axfr_stream h zone max_records qtype v s ((now, raw) ∷ ms) ≡ (here, failed x)
    unfolding axfr_stream
    stream-failed x a = ground (arith, e, a)

  stream-refused :
      (v : XfrTsigVerifier) (s : AxfrState) (now : ℕ) (raw : Bytes) (ms : List Timed)
      → ((x : NetError) × (open_message h zone qtype v now raw ≡ err x))
        ⊎ (open_message h zone qtype v now raw ≡ stuck)
      → (axfr_stream h zone max_records qtype v s ((now, raw) ∷ ms)).1 ≢ closed
  unfolding axfr_stream
  stream-refused v s now raw ms (inl (x, e)) q = ground (arith, e)
  stream-refused v s now raw ms (inr e) q = ground (arith, e)

  by_outcome :
      (v v' : XfrTsigVerifier) (s : AxfrState) (now : ℕ) (raw msg : Bytes) (count offset : ℕ)
      (ms : List Timed) (rs : List ResourceRecord) (ys : List TransferRecord)
      → axfr_stream h zone max_records qtype v s ((now, raw) ∷ ms) ≡ (ys, closed)
      → open_message h zone qtype v now raw ≡ ok (v', msg, count, offset)
      → verify_message h v raw now ≡ ok (msg, v')
      → message_answers zone qtype msg ≡ ok rs
      → axfr_answers zone max_records s rs ≡ wire_answers zone max_records v' count msg offset s
      → ((wire_answers zone max_records v' count msg offset s).1 ≡ closed
          → verifier_finish v' ≡ ok tt)
      → ((s' : AxfrState) (later : List TransferRecord)
          → axfr_stream h zone max_records qtype v' s' ms ≡ (later, closed)
          → IsReadStream v' s' ms later)
      → (here : List TransferRecord) (outcome : AxfrOutcome)
      → wire_answers zone max_records v' count msg offset s ≡ (here, outcome)
      → IsReadStream v s ((now, raw) ∷ ms) ys
  by_outcome v v' s now raw msg count offset ms rs ys e o verified p same agreed ih here closed w =
      let all = stream-closed v v' s now raw msg count offset ms here o w in
      subst (IsReadStream v s ((now, raw) ∷ ms)) (ap (λ z. z.0) (sym all ∙ e))
        (stream_ends v v' s now raw msg ms rs here verified p (same ∙ w) (agreed (ap (λ z. z.1) w)))
  by_outcome v v' s now raw msg count offset ms rs ys e o verified p same agreed ih here (more s')
        w =
      let all = sym (stream-more v v' s now raw msg count offset ms here o s' w) ∙ e in
      let rest = axfr_stream h zone max_records qtype v' s' ms in
      subst (IsReadStream v s ((now, raw) ∷ ms)) (ap (λ z. z.0) all) (
        stream_goes_on v v' s s' now raw msg ms rs here rest.0 verified p (same ∙ w)
          (ih s' rest.0 (ap (λ z. (rest.0, z)) (ap (λ z. z.1) all))))
  by_outcome v v' s now raw msg count offset ms rs ys e o verified p same agreed ih here (failed x)
        w =
      absurd (cc (sym (stream-failed v v' s now raw msg count offset ms here o x w) ∙ e))

  pub axfr_stream_read :
      (ms : List Timed) (v : XfrTsigVerifier) (s : AxfrState) (ys : List TransferRecord)
      → axfr_stream h zone max_records qtype v s ms ≡ (ys, closed)
      → IsReadStream v s ms ys
  axfr_stream_read [] v s ys e = unfold axfr_stream in cc
  axfr_stream_read ((now, raw) ∷ ms) v s ys e =
      elim (Result-cases (open_message h zone qtype v now raw)) [
        | inl ((v', msg, count, offset), o) ↦
            let (verified, answers) = open_message-eq-ok v v' now raw msg count offset o in
            elim (wire_answers_read zone max_records count v' msg offset s) [
              | inl (rs, parsed, same, agreed) ↦
                  by_outcome v v' s now raw msg count offset ms rs ys e o verified
                    (answers ∙ parsed) same agreed (axfr_stream_read ms v')
                    (wire_answers zone max_records v' count msg offset s).0
                    (wire_answers zone max_records v' count msg offset s).1 refl
              | inr (x, broken) ↦
                  let here = (wire_answers zone max_records v' count msg offset s).0 in
                  absurd (
                    cc (
                      sym e
                      ∙ stream-failed v v' s now raw msg count offset ms here o x
                          (ap (λ z. (here, z)) broken)))
            ]
        | inr refused ↦ absurd (stream-refused v s now raw ms refused (ap (λ z. z.1) e))
      ]
