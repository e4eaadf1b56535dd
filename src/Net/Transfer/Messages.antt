-- ===== src/Net/Transfer/Messages.antt =====
-- The messages of an AXFR behind its first SOA, one by one.
use bind9_sdk.Common.{
  ℕ, ◌+◌, ◌≤◌, ◌≡◌, refl, sym, ap, ◌∙◌, inl, inr, ◌⊎◌, List, [], ◌∷◌, ◌++◌, arith, length,
  length-append,
}
use mathlib.Core.Path.{subst}
use mathlib.Core.List.{append-nil, flatten}
use bind9_sdk.Core.Domain.{DomainName}
use bind9_sdk.Core.Record.{ResourceRecord}
use bind9_sdk.Core.Transfer.{TransferRecord}
use bind9_sdk.Net.Transfer.Stream.{
  AxfrState, axfr_answers, axfr_messages, AxfrOutcome, more, closed, failed,
}
use bind9_sdk.Net.Transfer.Answers.{
  opened, IsClosing, IsClosing-append, answers-closed, answers-more,
}

module _ (zone : DomainName) (max_records : ℕ) where
  -- The first message, and those behind it.
  pub messages-cons :
      (s : AxfrState) (m : List ResourceRecord) (ms : List (List ResourceRecord))
      (ys : List TransferRecord)
      → axfr_messages zone max_records s (m ∷ ms) ≡ (ys, closed)
      → (axfr_answers zone max_records s m ≡ (ys, closed))
        ⊎ ((s' : AxfrState) × (here later : List TransferRecord) × (axfr_answers zone max_records s
                m
              ≡ (here, more s'))
            × (axfr_messages zone max_records s' ms ≡ (later, closed))
            × (ys ≡ here ++ later))
  unfolding axfr_messages
  messages-cons s m ms ys h = by_outcome (axfr_answers zone max_records s m) refl
    where
      by_outcome :
          (x : List TransferRecord × AxfrOutcome)
          → axfr_answers zone max_records s m ≡ x
          → (axfr_answers zone max_records s m ≡ (ys, closed))
            ⊎ ((s' : AxfrState) × (here later : List TransferRecord) × (axfr_answers zone
                    max_records s m
                  ≡ (here, more s'))
                × (axfr_messages zone max_records s' ms ≡ (later, closed))
                × (ys ≡ here ++ later))
      by_outcome (here, more s') e = inr (
        s',
        here,
        (axfr_messages zone max_records s' ms).0,
        e,
        ground (arith, e),
        ground (arith, e),
      )
      by_outcome (here, closed) e = inl (ground (arith, e))
      by_outcome (here, failed x) e = absurd (ground (arith, e))

  -- The messages of a stream from a state on, the last of which ends it, and what they yield.
  pub data ClosedBy : AxfrState → List (List ResourceRecord) → List TransferRecord → Type 0 where
    at_last :
        {s : AxfrState} {m : List ResourceRecord} {ys : List TransferRecord}
        → axfr_answers zone max_records s m ≡ (ys, closed)
        → ClosedBy s (m ∷ []) ys
    further :
        {s s' : AxfrState} {m : List ResourceRecord} {ms : List (List ResourceRecord)}
        {here later ys : List TransferRecord}
        → axfr_answers zone max_records s m ≡ (here, more s')
        → ClosedBy s' ms later
        → ys ≡ here ++ later
        → ClosedBy s (m ∷ ms) ys

  pub axfr_messages_read :
      (s : AxfrState) (ms : List (List ResourceRecord)) (ys : List TransferRecord)
      → axfr_messages zone max_records s ms ≡ (ys, closed)
      → (used unused : List (List ResourceRecord)) × (ms ≡ used ++ unused) × ClosedBy s used ys
  axfr_messages_read s [] ys h = unfold axfr_messages in cc
  axfr_messages_read s (m ∷ ms) ys h = elim (messages-cons s m ms ys h) [
    | inl e ↦ (m ∷ [], ms, refl, at_last e)
    | inr (s', here, later, e, k, made) ↦
        let (used, unused, splits, c) = axfr_messages_read s' ms later k in
        (m ∷ used, unused, ap (◌∷◌ m) splits, further e c made)
  ]

  pub ClosedBy-IsClosing :
      (serial n : ℕ) (s : AxfrState) (ms : List (List ResourceRecord)) (ys : List TransferRecord)
      → s ≡ opened serial n
      → ClosedBy s ms ys
      → IsClosing zone max_records serial (flatten ms) ys × (n + length (flatten ms) ≤ max_records)
  unfolding flatten
  ClosedBy-IsClosing serial n s [] ys state k = elim k [ ]
  ClosedBy-IsClosing serial n s (m ∷ []) ys state (at_last e) =
      let (c, fits) =
        answers-closed zone max_records serial n m ys
          (subst (λ x. axfr_answers zone max_records x m ≡ (ys, closed)) state e) in
      (rw append-nil c, rw append-nil fits)
  ClosedBy-IsClosing serial n s (m ∷ ms) ys state (further {s'} {here} {later} e k made) =
      let (plain, same, next) =
        answers-more zone max_records serial n m here s'
          (subst (λ x. axfr_answers zone max_records x m ≡ (here, more s')) state e) in
      let (c, fits) = ClosedBy-IsClosing serial (n + length m) s' ms later next k in
      (
        subst (IsClosing zone max_records serial (m ++ flatten ms))
            (sym (made ∙ ap (λ x. x ++ later) same))
            (IsClosing-append zone max_records serial m plain c),
        omega (arith, fits, length-append m (flatten ms)),
      )
