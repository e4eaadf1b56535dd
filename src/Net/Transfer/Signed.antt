-- ===== src/Net/Transfer/Signed.antt =====
-- A stream that `XfrTsigVerifier` lets end is signed as a whole
-- (crates/bind9-sdk-net/src/transfer/mod.rs).
use bind9_sdk.Common.{
  ℕ, suc, ◌≤◌, ◌≡◌, refl, sym, ap, ◌∙◌, inl, inr, Bool, true, false, some, List, [], ◌∷◌, ◌++◌,
  arith, length, length-append, ok, >>=-eq-ok, ok-injective,
}
use mathlib.Core.List.{flatten, append_assoc, Forall₂}
use mathlib.Core.Path.{subst, subst₂}
use bind9_sdk.Common.Bytes.{Bytes}
use bind9_sdk.Core.Tsig.{TsigKey, Hmac, IsHmac}
use bind9_sdk.Net.Transfer.Verifier.{
  XfrTsigVerifier, verifier_new, verify_message, verify_messages, verifier_finish,
}
use bind9_sdk.Net.Transfer.Authentic.{Timed, IsUnsigned, IsSignedStream, end, group}
use bind9_sdk.Net.Transfer.Between.{between, Forall₂-snoc, verify_message-between}

length-Forall₂ :
    {R : Timed → Bytes → Type 0} {xs : List Timed} {us : List Bytes}
    → Forall₂ R xs us
    → length xs ≡ length us
length-Forall₂ Forall₂.nil = refl
length-Forall₂ (Forall₂.cons r rs) = ap suc (length-Forall₂ rs)

-- The first message, and those behind it.
verify_messages-cons :
    (h : Hmac) (v : XfrTsigVerifier) (m : Timed) (ms : List Timed) {cs : List Bytes}
    {v'' : XfrTsigVerifier}
    → verify_messages h v (m ∷ ms) ≡ ok (cs, v'')
    → (c : Bytes) × (v' : XfrTsigVerifier) × (later : List Bytes) × (verify_message h v m.1 m.0
        ≡ ok (c, v'))
      × (verify_messages h v' ms ≡ ok (later, v''))
      × (c ∷ later ≡ cs)
unfolding verify_messages
verify_messages-cons h v m ms e =
    let ((c, v'), e₁, e₂) = >>=-eq-ok (verify_message h v m.1 m.0) _ e in
    let ((later, last), e₃, e₄) = >>=-eq-ok (verify_messages h v' ms) _ e₂ in
    let made = ok-injective e₄ in
    (c, v', later, e₁, e₃ ∙ ap (λ x. ok (later, x)) (ap (λ x. x.1) made), ap (λ x. x.0) made)

module _ (h : Hmac) (law : IsHmac h) (key : TsigKey) (expected_id : ℕ) where
  -- The stream ends behind a signed message.
  finish-between :
      (prior_mac : Bytes) (first : Bool) (us : List Bytes) (last : Bool)
      → verifier_finish (between expected_id key prior_mac first us last) ≡ ok tt
      → last ≡ true
  unfolding verifier_finish
  finish-between prior_mac first us last e = ground arith

  -- From any point of a stream, behind messages without a TSIG record.
  messages_from :
      (ms : List Timed) (prior_mac : Bytes) (first : Bool) (plain : List Timed) (us : List Bytes)
      (last : Bool) (cs : List Bytes) (v : XfrTsigVerifier)
      → Forall₂ (IsUnsigned expected_id) plain us
      → length us ≤ 99
      → (first ≡ true → (plain ≡ []) × (us ≡ []))
      → (last ≡ true → (first ≡ false) × (plain ≡ []) × (us ≡ []))
      → verify_messages h (between expected_id key prior_mac first us last) ms ≡ ok (cs, v)
      → verifier_finish v ≡ ok tt
      → IsSignedStream h key expected_id first prior_mac (plain ++ ms) (us ++ cs)
  unfolding verify_messages
  messages_from [] prior_mac first plain us last cs v unsigned few start rest e f =
      let made = ok-injective e in
      let on_end = subst (λ x. verifier_finish x ≡ ok tt) (sym (ap (λ x. x.1) made)) f in
      let (later, none_before, none_held) = rest (finish-between prior_mac first us last on_end) in
      rw (later, none_before, none_held, ← ap (λ x. x.0) made) end
  messages_from (m ∷ ms) prior_mac first plain us last cs v unsigned few start rest e f =
      let (c, v', cs', e₁, e₂, made) = verify_messages-cons h _ m ms e in
      subst (λ x. IsSignedStream h key expected_id first prior_mac (plain ++ (m ∷ ms)) (us ++ x))
        made
        (elim (verify_message-between h law key expected_id prior_mac first us last m c v'
          (λ q. (start q).1) e₁) [
            | inl (is_plain, later, room, next) ↦ rw later (
                subst₂ (IsSignedStream h key expected_id false prior_mac)
                  (append_assoc plain (m ∷ []) ms) (append_assoc us (c ∷ []) cs')
                  (messages_from ms prior_mac false (plain ++ (m ∷ [])) (us ++ (c ∷ [])) false cs' v
                    (Forall₂-snoc unsigned is_plain)
                    (omega (arith, room, length-append us (c ∷ []))) (λ q. cc) (λ q. cc)
                    (subst (λ x. verify_messages h x ms ≡ ok (cs', v)) next e₂) f))
            | inr (mac, signed, next) ↦
                group unsigned (omega (arith, length-Forall₂ unsigned)) (λ q. (start q).0) signed
                  (messages_from ms mac false [] [] true cs' v Forall₂.nil (omega arith) (λ q. cc)
                    (λ q. (refl, refl, refl))
                    (subst (λ x. verify_messages h x ms ≡ ok (cs', v)) next e₂) f)
          ])

  -- If every message of a stream is accepted, and the stream may end behind the last one, then it
  -- consists of groups of at most 99 messages without a TSIG record and one with it, the first group
  -- a single message: every octet of every message is under the MAC of its group, which the key has
  -- made in time, and each MAC is under the next one, the first under that of the request.
  pub verify_messages-IsSignedStream :
      (request_mac : Bytes) (ms : List Timed) {us : List Bytes} {v : XfrTsigVerifier}
      → verify_messages h (verifier_new expected_id (some key) (some request_mac)) ms ≡ ok (us, v)
      → verifier_finish v ≡ ok tt
      → IsSignedStream h key expected_id true request_mac ms us
  unfolding verifier_new
  verify_messages-IsSignedStream request_mac ms {us} {v} e f =
      messages_from ms request_mac true [] [] false us v Forall₂.nil (omega arith)
        (λ q. (refl, refl)) (λ q. cc) (unfold flatten in e) f
