-- ===== src/Net/Transfer/Read.antt =====
-- The answers of one message, as the stream reads them one by one, and as a whole
-- (`transfer_record_stream` in crates/bind9-sdk-net/src/transfer/mod.rs).
use bind9_sdk.Common.{
  ℕ, zero, suc, ◌+◌, ◌≡◌, ◌≢◌, ◌⊎◌, refl, sym, ap, ◌∙◌, inl, inr, Bool, true, false, List, [], ◌∷◌,
  arith, ◌==◌, ==_iff, Result, ok, err, stuck, ◌>>=◌, >>=-eq-ok, ok-injective, Result-cases,
}
use bind9_sdk.Common.Bytes.{Bytes}
use bind9_sdk.Errors.{NetError}
use bind9_sdk.Core.Domain.{DomainName}
use bind9_sdk.Core.Record.{ResourceRecord}
use bind9_sdk.Core.Transfer.{TransferRecord}
use bind9_sdk.Net.Wire.Header.{parse_header}
use bind9_sdk.Net.Wire.Record.{parse_resource_record}
use bind9_sdk.Net.Wire.Extent.{parse_resource_record-ne-stuck}
use bind9_sdk.Net.Transfer.Checks.{validate_transfer_response}
use bind9_sdk.Net.Transfer.Stream.{AxfrState, axfr_answer, axfr_answers, is_nil, closed, failed}
use bind9_sdk.Net.Transfer.Answers.{answer-ne-stuck}
use bind9_sdk.Net.Transfer.Verifier.{XfrTsigVerifier, verifier_finish}
use bind9_sdk.Net.Transfer.WireStream.{closing, wire_answers}

-- Records that follow one another in a message.
unfoldable pub parse_answers : ℕ → Bytes → ℕ → Result NetError (List ResourceRecord)
parse_answers zero msg offset = ok []
parse_answers (suc left) msg offset = do
  (r, consumed) ← parse_resource_record msg offset
  rs ← parse_answers left msg (offset + consumed)
  ok (r ∷ rs)

-- The answers of an acceptable message of a transfer.
unfoldable pub message_answers : DomainName → ℕ → Bytes → Result NetError (List ResourceRecord)
message_answers zone qtype msg = do
  header ← parse_header msg
  offset ← validate_transfer_response msg header zone qtype
  parse_answers header.answer_count msg offset

parse_answers_nil :
    (left : ℕ) (msg : Bytes) (offset : ℕ) {rs : List ResourceRecord}
    → parse_answers left msg offset ≡ ok rs
    → is_nil rs ≡ (left == 0)
unfolding parse_answers
parse_answers_nil zero msg offset e = ap is_nil (sym (ok-injective e))
parse_answers_nil (suc left) msg offset e =
    let ((r, consumed), _, e₁) = >>=-eq-ok (parse_resource_record msg offset) _ e in
    let (rs, _, e₂) = >>=-eq-ok (parse_answers left msg (offset + consumed)) _ e₁ in
    ap is_nil (sym (ok-injective e₂)) ∙ ground arith

parse_answers-cons :
    (left : ℕ) (msg : Bytes) (offset consumed : ℕ) (r : ResourceRecord) (rs : List ResourceRecord)
    → parse_resource_record msg offset ≡ ok (r, consumed)
    → parse_answers left msg (offset + consumed) ≡ ok rs
    → parse_answers (suc left) msg offset ≡ ok (r ∷ rs)
unfolding parse_answers
parse_answers-cons left msg offset consumed r rs e k = rw (e, k)

verifier_finish-ne-stuck : (v : XfrTsigVerifier) → verifier_finish v ≢ stuck
unfolding verifier_finish
verifier_finish-ne-stuck v e = ground arith

module _ (zone : DomainName) (max_records : ℕ) where
  -- Only the last answer of a message ends the stream.
  answer_stops :
      (last : Bool) (s s' : AxfrState) (r : ResourceRecord) (y : TransferRecord)
      → axfr_answer zone max_records last s r ≡ ok (s', y, true)
      → last ≡ true
  unfolding axfr_answer
  answer_stops last s s' r y e = ground arith

  -- What the answers of a message yield, one by one: either an error, or what all of them yield
  -- after they have been parsed; and the verifier has agreed to the end.
  abbrev pub IsReadWhole : XfrTsigVerifier → ℕ → Bytes → ℕ → AxfrState → Type 0
  IsReadWhole v left msg offset s =
      (rs : List ResourceRecord) × (parse_answers left msg offset ≡ ok rs)
      × (axfr_answers zone max_records s rs ≡ wire_answers zone max_records v left msg offset s)
      × ((wire_answers zone max_records v left msg offset s).1 ≡ closed → verifier_finish v ≡ ok tt)

  abbrev pub IsBroken : XfrTsigVerifier → ℕ → Bytes → ℕ → AxfrState → Type 0
  IsBroken v left msg offset s =
      (e : NetError) × ((wire_answers zone max_records v left msg offset s).1 ≡ failed e)

  -- One round, by what the parser and `axfr_answer` say.
  wire-unread :
      (left : ℕ) (v : XfrTsigVerifier) (msg : Bytes) (offset : ℕ) (s : AxfrState) (x : NetError)
      → parse_resource_record msg offset ≡ err x
      → wire_answers zone max_records v (suc left) msg offset s ≡ ([], failed x)
  unfolding wire_answers
  wire-unread left v msg offset s x e = rw (e, wire_answers)

  wire-refused :
      (left : ℕ) (v : XfrTsigVerifier) (msg : Bytes) (offset consumed : ℕ) (s : AxfrState)
      (r : ResourceRecord) (x : NetError)
      → parse_resource_record msg offset ≡ ok (r, consumed)
      → axfr_answer zone max_records (left == 0) s r ≡ err x
      → wire_answers zone max_records v (suc left) msg offset s ≡ ([], failed x)
  unfolding wire_answers
  wire-refused left v msg offset consumed s r x e k = rw (e, k, wire_answers)

  module _ (left : ℕ) (v : XfrTsigVerifier) (msg : Bytes) (offset consumed : ℕ) (s s' : AxfrState)
      (r : ResourceRecord) (y : TransferRecord)
      (e : parse_resource_record msg offset ≡ ok (r, consumed)) where
    wire-stops :
        axfr_answer zone max_records (left == 0) s r ≡ ok (s', y, true)
        → wire_answers zone max_records v (suc left) msg offset s ≡ closing v s' y
    unfolding wire_answers
    wire-stops k = rw (e, k, wire_answers)

    wire-next :
        axfr_answer zone max_records (left == 0) s r ≡ ok (s', y, false)
        → wire_answers zone max_records v (suc left) msg offset s ≡ (
            let rest = wire_answers zone max_records v left msg (offset + consumed) s' in
            (y ∷ rest.0, rest.1))
    unfolding wire_answers
    wire-next k = rw (e, k, wire_answers)

  answers-next :
      (s s' : AxfrState) (r : ResourceRecord) (rs : List ResourceRecord) (y : TransferRecord)
      → axfr_answer zone max_records (is_nil rs) s r ≡ ok (s', y, false)
      → axfr_answers zone max_records s (r ∷ rs)
        ≡ (let rest = axfr_answers zone max_records s' rs in (y ∷ rest.0, rest.1))
  unfolding axfr_answers
  answers-next s s' r rs y k = rw (k, axfr_answers)

  answers-stop :
      (s s' : AxfrState) (r : ResourceRecord) (y : TransferRecord)
      → axfr_answer zone max_records true s r ≡ ok (s', y, true)
      → axfr_answers zone max_records s (r ∷ []) ≡ (y ∷ [], closed)
  unfolding axfr_answers
  answers-stop s s' r y k = rw (k, axfr_answers)

  closing-ok :
      (v : XfrTsigVerifier) (s : AxfrState) (y : TransferRecord)
      → verifier_finish v ≡ ok tt
      → closing v s y ≡ (y ∷ [], closed)
  unfolding closing
  closing-ok v s y f = rw (f, closing)

  closing-err :
      (v : XfrTsigVerifier) (s : AxfrState) (y : TransferRecord) (x : NetError)
      → verifier_finish v ≡ err x
      → closing v s y ≡ ([], failed x)
  unfolding closing
  closing-err v s y x f = rw (f, closing)

  module _ (left : ℕ) (v : XfrTsigVerifier) (msg : Bytes) (offset consumed : ℕ) (s s' : AxfrState)
      (r : ResourceRecord) (y : TransferRecord)
      (e : parse_resource_record msg offset ≡ ok (r, consumed)) where
    read_on :
        axfr_answer zone max_records (left == 0) s r ≡ ok (s', y, false)
        → IsReadWhole v left msg (offset + consumed) s' ⊎ IsBroken v left msg (offset + consumed) s'
        → IsReadWhole v (suc left) msg offset s ⊎ IsBroken v (suc left) msg offset s
    read_on k (inl (rs, parsed, same, agreed)) =
        let next = wire-next left v msg offset consumed s s' r y e k in
        let at_end = parse_answers_nil left msg (offset + consumed) parsed in
        inl (
          r ∷ rs,
          parse_answers-cons left msg offset consumed r rs e parsed,
          answers-next s s' r rs y (ap (λ b. axfr_answer zone max_records b s r) at_end ∙ k)
              ∙ ap (λ q. (y ∷ q.0, q.1)) same
              ∙ sym next,
          λ q. agreed (sym (ap (λ z. z.1) next) ∙ q),
        )
    read_on k (inr (x, broken)) =
        inr (x, ap (λ z. z.1) (wire-next left v msg offset consumed s s' r y e k) ∙ broken)

    read_last :
        axfr_answer zone max_records (left == 0) s r ≡ ok (s', y, true)
        → IsReadWhole v (suc left) msg offset s ⊎ IsBroken v (suc left) msg offset s
    read_last k =
        let at_end = answer_stops (left == 0) s s' r y k in
        let none_left : left ≡ 0 = (==_iff left 0).0 at_end in
        let stop = wire-stops left v msg offset consumed s s' r y e k in
        elim (Result-cases (verifier_finish v)) [
          | inl (u, f) ↦ inl (
            r ∷ [],
            parse_answers-cons left msg offset consumed r [] e
                (rw none_left (unfold parse_answers in refl)),
            answers-stop s s' r y (ap (λ b. axfr_answer zone max_records b s r) (sym at_end) ∙ k)
                ∙ sym (stop ∙ closing-ok v s' y f),
            λ q. f,
          )
          | inr (inl (x, f)) ↦ inr (x, ap (λ z. z.1) (stop ∙ closing-err v s' y x f))
          | inr (inr f) ↦ absurd (verifier_finish-ne-stuck v f)
        ]

  by_answer :
      (left : ℕ) (v : XfrTsigVerifier) (msg : Bytes) (offset consumed : ℕ) (s : AxfrState)
      (r : ResourceRecord)
      → parse_resource_record msg offset ≡ ok (r, consumed)
      → ((s' : AxfrState)
          → IsReadWhole v left msg (offset + consumed) s'
            ⊎ IsBroken v left msg (offset + consumed) s')
      → (a : Result NetError (AxfrState × TransferRecord × Bool))
      → axfr_answer zone max_records (left == 0) s r ≡ a
      → IsReadWhole v (suc left) msg offset s ⊎ IsBroken v (suc left) msg offset s
  by_answer left v msg offset consumed s r e rest (ok (s', y, true)) k =
      read_last left v msg offset consumed s s' r y e k
  by_answer left v msg offset consumed s r e rest (ok (s', y, false)) k =
      read_on left v msg offset consumed s s' r y e k (rest s')
  by_answer left v msg offset consumed s r e rest (err x) k =
      inr (x, ap (λ z. z.1) (wire-refused left v msg offset consumed s r x e k))
  by_answer left v msg offset consumed s r e rest stuck k =
      absurd (answer-ne-stuck zone max_records s r (left == 0) k)

  pub wire_answers_read :
      (left : ℕ) (v : XfrTsigVerifier) (msg : Bytes) (offset : ℕ) (s : AxfrState)
      → IsReadWhole v left msg offset s ⊎ IsBroken v left msg offset s
  wire_answers_read zero v msg offset s =
      unfold wire_answers in
      inl ([], unfold parse_answers in refl, unfold axfr_answers in refl, λ q. cc)
  wire_answers_read (suc left) v msg offset s =
      elim (Result-cases (parse_resource_record msg offset)) [
        | inl ((r, consumed), e) ↦
            by_answer left v msg offset consumed s r e
              (wire_answers_read left v msg (offset + consumed))
              (axfr_answer zone max_records (left == 0) s r) refl
        | inr (inl (x, e)) ↦ inr (x, ap (λ q. q.1) (wire-unread left v msg offset s x e))
        | inr (inr e) ↦ absurd (parse_resource_record-ne-stuck msg offset e)
      ]
