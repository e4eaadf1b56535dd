-- ===== src/Net/Transfer/Sequence.antt =====
-- The messages of an IXFR stream, as a run of the phases up to its end.
use bind9_sdk.Common.{
  ℕ, ◌≡◌, ◌⊎◌, refl, sym, ap, ◌∙◌, inl, inr, true, not, ◌&&◌, List, [], ◌∷◌, ◌++◌, arith, ◌==◌,
  length, ok, Bool-cases, ok-injective, >>=-eq-ok,
}
use mathlib.Core.List.{append_assoc, append-nil, flatten}
use bind9_sdk.Core.Domain.{DomainName}
use bind9_sdk.Core.Record.{ResourceRecord}
use bind9_sdk.Core.Transfer.{IxfrEvent, no_change}
use bind9_sdk.Net.Transfer.{
  IxfrPhase, await_first, await_second, axfr, delete, add, complete, IxfrState, apex_soa_serial,
  ixfr_step, finish, is_complete,
}
use bind9_sdk.Net.Transfer.Machine.{phase_run}
use bind9_sdk.Net.Transfer.Incremental.{
  IxfrOutcome, going, ended, broken, yielding, finishing, ixfr_answers, after_message,
  ixfr_messages,
}
use bind9_sdk.Net.Transfer.Streamed.{IsBroken, at, phase_run-step, answers_run}

module _ (zone : DomainName) (requested : ℕ) (max_records : ℕ) where
  -- What is yielded last for the phase in which the records have left the machine.
  abbrev pub AtEnd : IxfrPhase → List IxfrEvent → Type 0
  AtEnd q last =
      ((q ≡ complete) × (last ≡ []))
      ⊎ ((current : ResourceRecord) × (serial : ℕ) × (q ≡ await_second current serial)
          × (last ≡ no_change current ∷ []))

  finishing-AtEnd :
      (p : IxfrPhase) (es : List IxfrEvent)
      → finishing (at zone requested max_records p) ≡ (es, ended)
      → AtEnd p es
  unfolding finishing finish
  finishing-AtEnd await_first es h = absurd (ground arith)
  finishing-AtEnd (await_second c cs) es h = inr (c, cs, refl, ground arith)
  finishing-AtEnd (axfr cs) es h = absurd (ground arith)
  finishing-AtEnd (delete cs from) es h = absurd (ground arith)
  finishing-AtEnd (add cs to) es h = absurd (ground arith)
  finishing-AtEnd complete es h = inl (refl, ground arith)

  pub is_complete-complete :
      (p : IxfrPhase) → is_complete (at zone requested max_records p) ≡ true → p ≡ complete
  unfolding is_complete
  is_complete-complete await_first h = cc
  is_complete-complete (await_second c cs) h = cc
  is_complete-complete (axfr cs) h = cc
  is_complete-complete (delete cs from) h = cc
  is_complete-complete (add cs to) h = cc
  is_complete-complete complete h = refl

  after_message-ended :
      (n : ℕ) (q : IxfrPhase) (later : List IxfrEvent × IxfrOutcome) (es : List IxfrEvent)
      → after_message n (at zone requested max_records q) later ≡ (es, ended)
      → AtEnd q es ⊎ (later ≡ (es, ended))
  unfolding after_message
  after_message-ended n q later es h =
      elim (Bool-cases ((n == 1) && not (is_complete (at zone requested max_records q)))) [
        | inl e ↦ inl (finishing-AtEnd q es (rw e at h))
        | inr e ↦ elim (Bool-cases (is_complete (at zone requested max_records q))) [
          | inl done ↦ inl (inl (is_complete-complete q done, ground (arith, e, done)))
          | inr more ↦ inr (rw (e, more) at h)
        ]
      ]

  pub messages-cons :
      (s s' : IxfrState) (count n : ℕ) (m : List ResourceRecord) (ms : List (List ResourceRecord))
      → (ixfr_answers max_records s count m).1 ≡ going s' n
      → ixfr_messages max_records s count (m ∷ ms)
        ≡ yielding
            (ixfr_answers max_records s count m).0
            (after_message (length m) s' (ixfr_messages max_records s' n ms))
  unfolding ixfr_messages
  messages-cons s s' count n m ms o = ground (arith, o)

  ixfr_messages-IsBroken :
      (s : IxfrState) (count : ℕ) (m : List ResourceRecord) (ms : List (List ResourceRecord))
      → IsBroken (ixfr_answers max_records s count m).1
      → IsBroken (ixfr_messages max_records s count (m ∷ ms)).1
  unfolding ixfr_messages
  ixfr_messages-IsBroken s count m ms b = by_outcome (ixfr_answers max_records s count m).1 refl
    where
      by_outcome :
          (o : IxfrOutcome)
          → (ixfr_answers max_records s count m).1 ≡ o
          → IsBroken (ixfr_messages max_records s count (m ∷ ms)).1
      by_outcome (going s' n) e = absurd (ground (arith, e, b))
      by_outcome ended e = absurd (ground (arith, e, b))
      by_outcome (broken x) e = ground (arith, e)

  phase_run-append :
      (xs ys : List ResourceRecord) (p q r : IxfrPhase) (es fs : List IxfrEvent)
      → phase_run zone requested p xs ≡ ok (q, es)
      → phase_run zone requested q ys ≡ ok (r, fs)
      → phase_run zone requested p (xs ++ ys) ≡ ok (r, es ++ fs)
  unfolding phase_run
  phase_run-append [] ys p q r es fs h k = ground (arith, h, k)
  phase_run-append (x ∷ xs) ys p q r es fs h k =
      let ((p', ev), e, h₁) = >>=-eq-ok (ixfr_step requested p x (apex_soa_serial x zone)) _ h in
      let ((q', later), e₁, h₂) = >>=-eq-ok (phase_run zone requested p' xs) _ h₁ in
      let made = ok-injective h₂ in
      let tail =
        phase_run-append xs ys p' q r later fs (e₁ ∙ ap (λ v. ok (v, later)) (ap (λ x'. x'.0) made))
          k in
      phase_run-step zone requested max_records p p' r x (xs ++ ys) ev (later ++ fs) e tail
      ∙ ap (λ v. ok (r, v))
          (sym (append_assoc ev later fs) ∙ ap (λ v. v ++ fs) (ap (λ x'. x'.1) made))

  -- A stream that ends has run its first messages through the phases.
  pub record Ran (p : IxfrPhase) (ms : List (List ResourceRecord)) (es : List IxfrEvent)
      : Type 0 where
    pub used : List (List ResourceRecord)
    pub unused : List (List ResourceRecord)
    pub phase : IxfrPhase
    pub events : List IxfrEvent
    pub last : List IxfrEvent
    pub splits : ms ≡ used ++ unused
    pub runs : phase_run zone requested p (flatten used) ≡ ok (phase, events)
    pub yields : es ≡ events ++ last
    pub at_end : AtEnd phase last

  pub messages-Ran :
      (ms : List (List ResourceRecord)) (p : IxfrPhase) (count : ℕ) (es : List IxfrEvent)
      → ixfr_messages max_records (at zone requested max_records p) count ms ≡ (es, ended)
      → Ran p ms es
  unfolding flatten
  messages-Ran [] p count es h = record {
    used = [];
    unused = [];
    phase = p;
    events = [];
    last = es;
    splits = refl;
    runs = unfold phase_run in refl;
    yields = refl;
    at_end = finishing-AtEnd p es (unfold ixfr_messages in h);
  }
  messages-Ran (m ∷ ms) p count es h = elim (answers_run zone requested max_records m p count) [
    | inr b ↦ absurd (
        not_ended (ap (λ x. x.1) h)
          (ixfr_messages-IsBroken (at zone requested max_records p) count m ms b))
    | inl (q, n, o, run) ↦
        let here = (ixfr_answers max_records (at zone requested max_records p) count m).0 in
        let later = ixfr_messages max_records (at zone requested max_records q) n ms in
        let after = after_message (length m) (at zone requested max_records q) later in
        let cut =
          sym (
            messages-cons (at zone requested max_records p) (at zone requested max_records q) count
              n m ms o)
          ∙ h in
        let split : es ≡ here ++ after.0 = sym (ap (λ x. x.0) cut) in
        elim (after_message-ended (length m) q later after.0
          (ap (λ o'. (after.0, o')) (ap (λ x. x.1) cut))) [
            | inl end ↦ record {
              used = m ∷ [];
              unused = ms;
              phase = q;
              events = here;
              last = after.0;
              splits = refl;
              runs = rw append-nil run;
              yields = split;
              at_end = end;
            }
            | inr more ↦
                let t = messages-Ran ms q n after.0 more in
                record {
                  used = m ∷ t.used;
                  unused = t.unused;
                  phase = t.phase;
                  events = here ++ t.events;
                  last = t.last;
                  splits = ap (◌∷◌ m) t.splits;
                  runs = phase_run-append m (flatten t.used) p q t.phase here t.events run t.runs;
                  yields =
                      split
                      ∙ ap (λ x. here ++ x) t.yields
                      ∙ sym (append_assoc here t.events t.last);
                  at_end = t.at_end;
                }
          ]
  ]
    where
      not_ended : {o : IxfrOutcome} → o ≡ ended → IsBroken o → ⊥
      not_ended e b = ground (arith, e, b)
