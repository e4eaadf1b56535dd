-- ===== src/Net/Transfer/Accepted.antt =====
-- What `validate_transfer_response` accepts.
use bind9_sdk.Common.{
  ℕ, zero, suc, ◌+◌, ◌≤◌, ◌≡◌, ◌⊎◌, ◌↔◌, refl, sym, ap, ◌∙◌, inl, inr, true, false, not, ◌&&◌, some,
  arith, drop, leb, leb→le, le→leb, ◌==◌, ok, >>=-eq-ok, ok-injective, ok_or, ok_or-eq-ok,
  ensure-eq-ok,
}
use bind9_sdk.Common.Bytes.{Bytes}
use bind9_sdk.Core.Domain.{DomainName, name_eq}
use bind9_sdk.Net.Wire.{parse_name}
use bind9_sdk.Net.Wire.Header.{DnsHeader}
use bind9_sdk.Net.Transfer.Checks.{question_fields, check_questions, validate_transfer_response}

-- A header of an answer to a standard query that can be taken.
pub record IsAnswer (h : DnsHeader) : Type 0 where
  pub response : h.is_response ≡ true
  pub query : h.opcode ≡ 0
  pub authority : h.authoritative ≡ true
  pub whole : h.truncated ≡ false
  pub success : h.rcode ≡ 0

-- The question for `zone` at offset 12, up to `end`.
pub record IsQuestion (message : Bytes) (zone : DomainName) (qtype end : ℕ) : Type 0 where
  pub name : DomainName
  pub name_len : ℕ
  pub parsed : parse_name message 12 ≡ ok (name, name_len)
  pub same_name : name_eq name zone ≡ true
  pub fields : question_fields (drop (12 + name_len) message) ≡ some (qtype, 1)
  pub ends : end ≡ 12 + name_len + 4

-- No question, or the one that was asked.
pub HasQuestions : Bytes → DomainName → ℕ → ℕ → ℕ → Type 0
HasQuestions message zone qtype count end =
    ((count ≡ 0) × (end ≡ 12)) ⊎ ((count ≡ 1) × IsQuestion message zone qtype end)

no_question :
    (message : Bytes) (zone : DomainName) (qtype offset : ℕ)
    → check_questions message zone qtype 0 offset ≡ ok offset
unfolding check_questions
no_question message zone qtype offset = refl

check_questions-IsQuestion :
    (message : Bytes) (zone : DomainName) (qtype end : ℕ)
    → check_questions message zone qtype 1 12 ≡ ok end
    → IsQuestion message zone qtype end
unfolding check_questions
check_questions-IsQuestion message zone qtype end h =
    let ((name, len), e, h₁) = >>=-eq-ok (parse_name message 12) _ h in
    let ((t, c), e₁, h₂) = >>=-eq-ok (ok_or (question_fields (drop (12 + len) message)) _) _ h₁ in
    let (good, h₃) = ensure-eq-ok (name_eq name zone && (t == qtype) && (c == 1)) _ _ h₂ in
    record {
      name = name;
      name_len = len;
      parsed = e;
      same_name = ground (arith, good);
      fields = ok_or-eq-ok _ _ e₁ ∙ ground (arith, good);
      ends = sym (ok-injective h₃);
    }

check_questions_accepts :
    (message : Bytes) (zone : DomainName) (qtype end : ℕ)
    → IsQuestion message zone qtype end
    → check_questions message zone qtype 1 12 ≡ ok end
unfolding check_questions
check_questions_accepts message zone qtype end q =
    let asked : (qtype == qtype) ≡ true = ground arith in
    rw (q.parsed, q.fields, q.same_name, asked) (ap ok (sym q.ends))

questions_few :
    (message : Bytes) (zone : DomainName) (qtype count end : ℕ)
    → HasQuestions message zone qtype count end
    → count ≤ 1
unfolding HasQuestions
questions_few message zone qtype count end h = elim h [
  | inl (e, _) ↦ omega (arith, e)
  | inr (e, _) ↦ omega (arith, e)
]

questions_iff :
    (message : Bytes) (zone : DomainName) (qtype count end : ℕ)
    → count ≤ 1
    → (check_questions message zone qtype count 12 ≡ ok end)
      ↔ HasQuestions message zone qtype count end
unfolding HasQuestions
questions_iff message zone qtype zero end h = (
  λ e. inl (refl, sym (ok-injective (sym (no_question message zone qtype 12) ∙ e))),
  λ k. elim k [
    | inl (_, e) ↦ no_question message zone qtype 12 ∙ ap ok (sym e)
    | inr (one, _) ↦ absurd (cc one)
  ],
)
questions_iff message zone qtype (suc zero) end h = (
  λ e. inr (refl, check_questions-IsQuestion message zone qtype end e),
  λ k. elim k [
    | inl (none_there, _) ↦ absurd (cc none_there)
    | inr (_, q) ↦ check_questions_accepts message zone qtype end q
  ],
)
questions_iff message zone qtype (suc (suc n)) end h = absurd (omega (arith, h))

-- A message is accepted, with the offset of its answers, exactly when its header is that of an
-- authoritative, whole and successful answer to a standard query, and it has either no question or
-- one, which is the question that was asked; the answers begin behind it.
pub validate_transfer_response_iff :
    (message : Bytes) (header : DnsHeader) (zone : DomainName) (qtype end : ℕ)
    → (validate_transfer_response message header zone qtype ≡ ok end)
      ↔ (IsAnswer header × HasQuestions message zone qtype header.question_count end)
unfolding validate_transfer_response
validate_transfer_response_iff message header zone qtype end = (
  λ h.
      let (a, h₁) = ensure-eq-ok header.is_response _ _ h in
      let (b, h₂) = ensure-eq-ok (header.opcode == 0) _ _ h₁ in
      let (c, h₃) = ensure-eq-ok header.authoritative _ _ h₂ in
      let (d, h₄) = ensure-eq-ok (not header.truncated) _ _ h₃ in
      let (e, h₅) = ensure-eq-ok (header.rcode == 0) _ _ h₄ in
      let (f, h₆) = ensure-eq-ok (leb header.question_count 1) _ _ h₅ in
      (
        record {
          response = a;
          query = ground (arith, b);
          authority = c;
          whole = ground (arith, d);
          success = ground (arith, e);
        },
        (questions_iff message zone qtype header.question_count end (leb→le _ _ f)).0 h₆,
      ),
  λ (a, q).
      let query : (header.opcode == 0) ≡ true = ground (arith, a.query) in
      let whole : not header.truncated ≡ true = ground (arith, a.whole) in
      let success : (header.rcode == 0) ≡ true = ground (arith, a.success) in
      let few = questions_few message zone qtype header.question_count end q in
      rw (a.response, query, a.authority, whole, success, le→leb _ _ few)
        ((questions_iff message zone qtype header.question_count end few).1 q),
)
