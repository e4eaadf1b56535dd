-- ===== src/Net/Transfer/Axfr.antt =====
-- What an AXFR stream that ends has yielded.
use bind9_sdk.Common.{
  ℕ, ◌+◌, ◌≤◌, ◌≡◌, refl, sym, ap, ◌∙◌, inl, inr, ◌⊎◌, false, some, List, [], ◌∷◌, ◌++◌, arith, map,
  length, length-append, ok, Bool, Option-cases, Result-cases,
}
use mathlib.Core.Path.{subst}
use mathlib.Core.List.{append-nil, flatten}
use bind9_sdk.Errors.{NetError}
use bind9_sdk.Core.Domain.{DomainName}
use bind9_sdk.Core.Record.{ResourceRecord}
use bind9_sdk.Core.Transfer.{TransferRecord, begin_soa, zone_record}
use bind9_sdk.Net.Transfer.{apex_soa_serial}
use bind9_sdk.Net.Transfer.Stream.{
  AxfrState, axfr_new, axfr_answer, axfr_answers, axfr_messages, is_nil, AxfrOutcome, more, closed,
  failed,
}
use bind9_sdk.Net.Transfer.Answers.{
  opened, IsClosing, IsClosing-append, answers-closed, answers-more, answer-ne-stuck,
}
use bind9_sdk.Net.Transfer.Messages.{
  ClosedBy, at_last, further, axfr_messages_read, ClosedBy-IsClosing,
}

module _ (zone : DomainName) (max_records : ℕ) where
  -- The records of a whole transfer, and what is yielded for them.
  pub record IsTransfer (rs : List ResourceRecord) (ys : List TransferRecord) : Type 0 where
    pub serial : ℕ
    pub first : ResourceRecord
    pub rest : List ResourceRecord
    pub rest_yields : List TransferRecord
    pub begins : rs ≡ first ∷ rest
    pub opens : apex_soa_serial first zone ≡ some serial
    pub yields : ys ≡ begin_soa first ∷ rest_yields
    pub closes : IsClosing zone max_records serial rest rest_yields
    pub fits : length rs ≤ max_records

  -- The first answer of all.
  first-answer :
      (at_end : Bool) (r : ResourceRecord) (s : AxfrState) (y : TransferRecord) (stop : Bool)
      → axfr_answer zone max_records at_end axfr_new r ≡ ok (s, y, stop)
      → (serial : ℕ) × (apex_soa_serial r zone ≡ some serial)
        × (s ≡ opened serial 1)
        × (y ≡ begin_soa r)
        × (stop ≡ false)
        × (1 ≤ max_records)
  unfolding axfr_answer axfr_new
  first-answer at_end r s y stop h = elim (Option-cases (apex_soa_serial r zone)) [
    | inl none_there ↦ absurd (ground (arith, none_there))
    | inr (t, a) ↦
        (t, a, ground (arith, a), ground (arith, a), ground (arith, a), ground (arith, a))
  ]

  first-answers :
      (r : ResourceRecord) (rs : List ResourceRecord) (ys : List TransferRecord) (o : AxfrOutcome)
      → axfr_answers zone max_records axfr_new (r ∷ rs) ≡ (ys, o)
      → ((serial : ℕ) × (later : List TransferRecord) × (apex_soa_serial r zone ≡ some serial)
          × (1 ≤ max_records)
          × (axfr_answers zone max_records (opened serial 1) rs ≡ (later, o))
          × (ys ≡ begin_soa r ∷ later))
        ⊎ ((e : NetError) × (o ≡ failed e))
  unfolding axfr_answers
  first-answers r rs ys o h =
      elim (Result-cases (axfr_answer zone max_records (is_nil rs) axfr_new r)) [
        | inl ((s, y, stop), e) ↦
            let (serial, a, s', y', stop', room) = first-answer (is_nil rs) r s y stop e in
            inl (
              serial,
              (axfr_answers zone max_records (opened serial 1) rs).0,
              a,
              room,
              ground (arith, e, s', stop'),
              ground (arith, e, s', y', stop'),
            )
        | inr (inl (x, e)) ↦ inr (x, ground (arith, e))
        | inr (inr e) ↦ absurd (answer-ne-stuck zone max_records axfr_new r (is_nil rs) e)
      ]

  nothing_yet :
      (here : List TransferRecord) (s : AxfrState)
      → axfr_answers zone max_records axfr_new [] ≡ (here, more s)
      → (here ≡ []) × (s ≡ axfr_new)
  unfolding axfr_answers
  nothing_yet here s h = ground arith

  not_closed :
      (ys : List TransferRecord) → axfr_answers zone max_records axfr_new [] ≡ (ys, closed) → ⊥
  unfolding axfr_answers
  not_closed ys h = cc

  -- The message that begins with the opening SOA.
  IsTransfer-from :
      (s : AxfrState) (r : ResourceRecord) (rs : List ResourceRecord)
      (ms : List (List ResourceRecord)) (ys : List TransferRecord)
      → s ≡ axfr_new
      → ClosedBy zone max_records s ((r ∷ rs) ∷ ms) ys
      → IsTransfer (flatten ((r ∷ rs) ∷ ms)) ys
  unfolding flatten
  IsTransfer-from s r rs [] ys state (at_last e) =
      elim (first-answers r rs ys closed
        (subst (λ x. axfr_answers zone max_records x (r ∷ rs) ≡ (ys, closed)) state e)) [
          | inl (serial, later, a, room, k, made) ↦
              let (c, fits) = answers-closed zone max_records serial 1 rs later k in
              rw append-nil (record {
                serial = serial;
                first = r;
                rest = rs;
                rest_yields = later;
                begins = refl;
                opens = a;
                yields = made;
                closes = c;
                fits = omega (arith, fits);
              })
          | inr (x, o) ↦ absurd (cc o)
        ]
  IsTransfer-from s r rs ms ys state (further {s'} {here} {later} e k made) =
      elim (first-answers r rs here (more s')
        (subst (λ x. axfr_answers zone max_records x (r ∷ rs) ≡ (here, more s')) state e)) [
          | inl (serial, after, a, room, k', made') ↦
              let (plain, same, next) = answers-more zone max_records serial 1 rs after s' k' in
              let (c, fits) =
                ClosedBy-IsClosing zone max_records serial (1 + length rs) s' ms later next k in
              record {
                serial = serial;
                first = r;
                rest = rs ++ flatten ms;
                rest_yields = map zone_record rs ++ later;
                begins = refl;
                opens = a;
                yields = made ∙ ap (λ x. x ++ later) (made' ∙ ap (◌∷◌ (begin_soa r)) same);
                closes = IsClosing-append zone max_records serial rs plain c;
                fits = omega (arith, fits, length-append rs (flatten ms));
              }
          | inr (x, o) ↦ absurd (cc o)
        ]

  -- The messages that a new stream reads up to its end are a whole transfer.
  pub ClosedBy-IsTransfer :
      (s : AxfrState) (ms : List (List ResourceRecord)) (ys : List TransferRecord)
      → s ≡ axfr_new
      → ClosedBy zone max_records s ms ys
      → IsTransfer (flatten ms) ys
  unfolding flatten
  ClosedBy-IsTransfer s [] ys state k = elim k [ ]
  ClosedBy-IsTransfer s ([] ∷ []) ys state (at_last e) =
      absurd
        (not_closed ys (subst (λ x. axfr_answers zone max_records x [] ≡ (ys, closed)) state e))
  ClosedBy-IsTransfer s ([] ∷ ms) ys state (further {s'} {here} {later} e k made) =
      let (none_yet, same) =
        nothing_yet here s'
          (subst (λ x. axfr_answers zone max_records x [] ≡ (here, more s')) state e) in
      subst (IsTransfer (flatten ms)) (sym (made ∙ ap (λ x. x ++ later) none_yet))
        (ClosedBy-IsTransfer s' ms later same k)
  ClosedBy-IsTransfer s ((r ∷ rs) ∷ ms) ys state k = IsTransfer-from s r rs ms ys state k

  -- A stream that ends has read a whole transfer in its first messages, and has yielded its records
  -- in their order: an apex SOA, records that are none, and an apex SOA with the same serial, the
  -- last answer of its message; and no more records than are allowed.
  pub axfr_messages-closed :
      (ms : List (List ResourceRecord)) (ys : List TransferRecord)
      → axfr_messages zone max_records axfr_new ms ≡ (ys, closed)
      → (used unused : List (List ResourceRecord)) × (ms ≡ used ++ unused)
        × IsTransfer (flatten used) ys
  axfr_messages-closed ms ys h =
      let (used, unused, splits, c) = axfr_messages_read zone max_records axfr_new ms ys h in
      (used, unused, splits, ClosedBy-IsTransfer axfr_new used ys refl c)
