-- ===== src/Net/Transfer/Answers.antt =====
-- One message of an AXFR stream, between the opening SOA and the closing one.
use bind9_sdk.Common.{
  ℕ, ◌+◌, ◌≤◌, ◌≡◌, refl, sym, ap, ◌∙◌, inl, inr, ◌⊎◌, ◌≢◌, true, false, none, some, List, [], ◌∷◌,
  ◌++◌, arith, map, length, All, ok, stuck, Bool, Option-cases, Result-cases,
}
use mathlib.Core.Path.{subst}
use bind9_sdk.Errors.{NetError}
use bind9_sdk.Core.Domain.{DomainName}
use bind9_sdk.Core.Record.{ResourceRecord}
use bind9_sdk.Core.Transfer.{TransferRecord, zone_record, last_soa}
use bind9_sdk.Net.Transfer.{apex_soa_serial}
use bind9_sdk.Net.Transfer.Stream.{
  AxfrState, axfr_answer, axfr_answers, is_nil, AxfrOutcome, more, closed, failed,
}

-- The state between the opening SOA and the closing one, after `n` records.
abbrev pub opened : ℕ → ℕ → AxfrState
opened serial n = record {
  awaiting_first_soa = false;
  opening_serial = some serial;
  soa_count = 1;
  record_count = n;
}

is_nil-eq_nil : (rs : List ResourceRecord) → is_nil rs ≡ true → rs ≡ []
is_nil-eq_nil [] h = refl
is_nil-eq_nil (r ∷ rs) h = cc

module _ (zone : DomainName) (max_records : ℕ) where
  abbrev pub IsPlain : ResourceRecord → Type 0
  IsPlain r = apex_soa_serial r zone ≡ none

  -- The records behind the opening SOA with `serial`, as they are yielded.
  pub record IsClosing (serial : ℕ) (rs : List ResourceRecord) (ys : List TransferRecord)
      : Type 0 where
    pub body : List ResourceRecord
    pub last : ResourceRecord
    pub splits : rs ≡ body ++ (last ∷ [])
    pub plain : All IsPlain body
    pub same_serial : apex_soa_serial last zone ≡ some serial
    pub yields : ys ≡ map zone_record body ++ (last_soa last ∷ [])

  pub IsClosing-cons :
      (serial : ℕ) (r : ResourceRecord) {rs : List ResourceRecord} {ys : List TransferRecord}
      → IsPlain r
      → IsClosing serial rs ys
      → IsClosing serial (r ∷ rs) (zone_record r ∷ ys)
  IsClosing-cons serial r p c = record {
    body = r ∷ c.body;
    last = c.last;
    splits = ap (◌∷◌ r) c.splits;
    plain = (p, c.plain);
    same_serial = c.same_serial;
    yields = ap (◌∷◌ (zone_record r)) c.yields;
  }

  pub answer-opened :
      (serial n : ℕ) (at_end : Bool) (r : ResourceRecord) (s : AxfrState) (y : TransferRecord)
      (stop : Bool)
      → axfr_answer zone max_records at_end (opened serial n) r ≡ ok (s, y, stop)
      → (n + 1 ≤ max_records)
        × ((IsPlain r × (s ≡ opened serial (n + 1)) × (y ≡ zone_record r) × (stop ≡ false))
            ⊎ ((apex_soa_serial r zone ≡ some serial)
                × (at_end ≡ true)
                × (y ≡ last_soa r)
                × (stop ≡ true)))
  unfolding axfr_answer
  answer-opened serial n at_end r s y stop h = elim (Option-cases (apex_soa_serial r zone)) [
    | inl plain ↦ (ground (arith, plain), inl (ground (arith, plain)))
    | inr (t, a) ↦ (ground (arith, a), inr (ground (arith, a)))
  ]

  pub answer-ne-stuck :
      (s : AxfrState) (r : ResourceRecord) (at_end : Bool)
      → axfr_answer zone max_records at_end s r ≢ stuck
  unfolding axfr_answer
  answer-ne-stuck s r at_end h = ground arith

  -- The first answer of a message, between the opening and the closing SOA.
  answers-cons :
      (serial n : ℕ) (r : ResourceRecord) (rs : List ResourceRecord) (ys : List TransferRecord)
      (o : AxfrOutcome)
      → axfr_answers zone max_records (opened serial n) (r ∷ rs) ≡ (ys, o)
      → ((later : List TransferRecord) × IsPlain r
          × (n + 1 ≤ max_records)
          × (axfr_answers zone max_records (opened serial (n + 1)) rs ≡ (later, o))
          × (ys ≡ zone_record r ∷ later))
        ⊎ (((apex_soa_serial r zone ≡ some serial)
              × (rs ≡ [])
              × (n + 1 ≤ max_records)
              × (ys ≡ last_soa r ∷ [])
              × (o ≡ closed))
            ⊎ ((e : NetError) × (ys ≡ []) × (o ≡ failed e)))
  unfolding axfr_answers
  answers-cons serial n r rs ys o h =
      elim (Result-cases (axfr_answer zone max_records (is_nil rs) (opened serial n) r)) [
        | inl ((s', y, stop), e) ↦
            let (room, which) = answer-opened serial n (is_nil rs) r s' y stop e in
            elim which [
              | inl (plain, s'', y', go_on) ↦ inl (
                (axfr_answers zone max_records (opened serial (n + 1)) rs).0,
                plain,
                room,
                ground (arith, e, s'', go_on),
                ground (arith, e, s'', y', go_on),
              )
              | inr (a, at_end, y', stops) ↦ inr (
                  inl (
                    a,
                    is_nil-eq_nil rs at_end,
                    room,
                    ground (arith, e, y', stops),
                    ground (arith, e, stops),
                  ))
            ]
        | inr (inl (x, e)) ↦ inr (inr (x, ground (arith, e), ground (arith, e)))
        | inr (inr e) ↦ absurd (answer-ne-stuck (opened serial n) r (is_nil rs) e)
      ]

  pub answers-closed :
      (serial n : ℕ) (rs : List ResourceRecord) (ys : List TransferRecord)
      → axfr_answers zone max_records (opened serial n) rs ≡ (ys, closed)
      → IsClosing serial rs ys × (n + length rs ≤ max_records)
  answers-closed serial n [] ys h = unfold axfr_answers in cc
  answers-closed serial n (r ∷ rs) ys h = elim (answers-cons serial n r rs ys closed h) [
    | inl (later, plain, room, k, made) ↦
        let (c, fits) = answers-closed serial (n + 1) rs later k in
        (
          subst (IsClosing serial (r ∷ rs)) (sym made) (IsClosing-cons serial r plain c),
          omega (arith, fits),
        )
    | inr (inl (a, empty, room, made, _)) ↦ (
      record {
        body = [];
        last = r;
        splits = ap (◌∷◌ r) empty;
        plain = tt;
        same_serial = a;
        yields = made;
      },
      omega (arith, ap length empty),
    )
    | inr (inr (x, _, o)) ↦ absurd (cc o)
  ]

  pub answers-more :
      (serial n : ℕ) (rs : List ResourceRecord) (ys : List TransferRecord) (s : AxfrState)
      → axfr_answers zone max_records (opened serial n) rs ≡ (ys, more s)
      → All IsPlain rs × (ys ≡ map zone_record rs) × (s ≡ opened serial (n + length rs))
  answers-more serial n [] ys s h = unfold axfr_answers in (tt, ground arith, ground arith)
  answers-more serial n (r ∷ rs) ys s h = elim (answers-cons serial n r rs ys (more s) h) [
    | inl (later, plain, room, k, made) ↦
        let (all, same, state) = answers-more serial (n + 1) rs later s k in
        (
          (plain, all),
          made ∙ ap (◌∷◌ (zone_record r)) same,
          state ∙ ap (opened serial) (omega arith),
        )
    | inr (inl (_, _, _, _, o)) ↦ absurd (cc o)
    | inr (inr (x, _, o)) ↦ absurd (cc o)
  ]

  pub IsClosing-append :
      (serial : ℕ) (front : List ResourceRecord) {rs : List ResourceRecord}
      {ys : List TransferRecord}
      → All IsPlain front
      → IsClosing serial rs ys
      → IsClosing serial (front ++ rs) (map zone_record front ++ ys)
  IsClosing-append serial [] p c = c
  IsClosing-append serial (r ∷ front) p c =
      IsClosing-cons serial r p.0 (IsClosing-append serial front p.1 c)
