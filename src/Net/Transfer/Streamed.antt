-- ===== src/Net/Transfer/Streamed.antt =====
-- The answers of one message of an IXFR stream, as a run of the phases.
use bind9_sdk.Common.{
  ℕ, ◌+◌, ◌≡◌, ◌≢◌, ◌⊎◌, refl, sym, ap, ◌∙◌, inl, inr, Bool, true, false, not, ◌&&◌, Option, none,
  some, List, [], ◌∷◌, ◌++◌, arith, ltb, ok, err, stuck, Bool-cases, Result-cases,
}
use mathlib.Core.Path.{subst}
use bind9_sdk.Errors.{NetError}
use bind9_sdk.Core.Domain.{DomainName}
use bind9_sdk.Core.Record.{ResourceRecord}
use bind9_sdk.Core.Transfer.{IxfrEvent}
use bind9_sdk.Net.Transfer.{
  IxfrPhase, await_first, await_second, axfr, delete, add, complete, IxfrState, apex_soa_serial,
  ixfr_step, second_soa, delete_end, add_end, push, is_complete,
}
use bind9_sdk.Net.Transfer.Machine.{phase_run}
use bind9_sdk.Net.Transfer.Stream.{is_nil}
use bind9_sdk.Net.Transfer.Incremental.{IxfrOutcome, going, broken, yielding, ixfr_answers}

ixfr_step-ne-stuck :
    (requested : ℕ) (p : IxfrPhase) (r : ResourceRecord) (s : Option ℕ)
    → ixfr_step requested p r s ≢ stuck
unfolding ixfr_step second_soa delete_end add_end
ixfr_step-ne-stuck requested await_first r none h = cc
ixfr_step-ne-stuck requested await_first r (some _) h = cc
ixfr_step-ne-stuck requested (await_second c cs) r none h = cc
ixfr_step-ne-stuck requested (await_second c cs) r (some base) h = ground arith
ixfr_step-ne-stuck requested (axfr cs) r none h = cc
ixfr_step-ne-stuck requested (axfr cs) r (some _) h = ground arith
ixfr_step-ne-stuck requested (delete cs from) r none h = cc
ixfr_step-ne-stuck requested (delete cs from) r (some to) h = ground arith
ixfr_step-ne-stuck requested (add cs to) r none h = cc
ixfr_step-ne-stuck requested (add cs to) r (some serial) h = ground arith
ixfr_step-ne-stuck requested complete r s h = cc

-- The stream has yielded an error.
abbrev pub breaks : IxfrOutcome → Bool
breaks (broken x) = true
breaks _ = false

abbrev pub IsBroken : IxfrOutcome → Type 0
IsBroken o = breaks o ≡ true

module _ (zone : DomainName) (requested : ℕ) (max_records : ℕ) where
  -- The state in a phase.
  abbrev pub at : IxfrPhase → IxfrState
  at p = record { zone = zone; requested_serial = requested; phase = p }

  pub push-ok :
      (p q : IxfrPhase) (r : ResourceRecord) (ev : List IxfrEvent)
      → ixfr_step requested p r (apex_soa_serial r zone) ≡ ok (q, ev)
      → push (at p) r ≡ (at q, ok ev)
  unfolding push ixfr_step
  push-ok p q r ev e = rw e

  push-err :
      (p : IxfrPhase) (r : ResourceRecord) (x : NetError)
      → ixfr_step requested p r (apex_soa_serial r zone) ≡ err x
      → push (at p) r ≡ (at complete, err x)
  unfolding push ixfr_step
  push-err p r x e = rw e

  pub answers-cons :
      (s s' : IxfrState) (count : ℕ) (r : ResourceRecord) (rs : List ResourceRecord)
      (ev : List IxfrEvent)
      → ltb max_records (count + 1) ≡ false
      → push s r ≡ (s', ok ev)
      → (is_complete s' && not (is_nil rs)) ≡ false
      → ixfr_answers max_records s count (r ∷ rs)
        ≡ yielding ev (ixfr_answers max_records s' (count + 1) rs)
  unfolding ixfr_answers
  answers-cons s s' count r rs ev room e b = rw (room, ap (λ x. x.1) e, ap (λ x. x.0) e, b)

  answers-over :
      (s : IxfrState) (count : ℕ) (r : ResourceRecord) (rs : List ResourceRecord)
      → ltb max_records (count + 1) ≡ true
      → IsBroken (ixfr_answers max_records s count (r ∷ rs)).1
  unfolding ixfr_answers
  answers-over s count r rs over = rw over

  answers-extra :
      (s s' : IxfrState) (count : ℕ) (r : ResourceRecord) (rs : List ResourceRecord)
      (ev : List IxfrEvent)
      → ltb max_records (count + 1) ≡ false
      → push s r ≡ (s', ok ev)
      → (is_complete s' && not (is_nil rs)) ≡ true
      → IsBroken (ixfr_answers max_records s count (r ∷ rs)).1
  unfolding ixfr_answers
  answers-extra s s' count r rs ev room e b = rw (room, ap (λ x. x.1) e, ap (λ x. x.0) e, b)

  answers-refused :
      (s s' : IxfrState) (count : ℕ) (r : ResourceRecord) (rs : List ResourceRecord) (x : NetError)
      → ltb max_records (count + 1) ≡ false
      → push s r ≡ (s', err x)
      → IsBroken (ixfr_answers max_records s count (r ∷ rs)).1
  unfolding ixfr_answers
  answers-refused s s' count r rs x room e = rw (room, ap (λ x. x.1) e)

  pub phase_run-step :
      (p q last : IxfrPhase) (r : ResourceRecord) (rs : List ResourceRecord)
      (ev es : List IxfrEvent)
      → ixfr_step requested p r (apex_soa_serial r zone) ≡ ok (q, ev)
      → phase_run zone requested q rs ≡ ok (last, es)
      → phase_run zone requested p (r ∷ rs) ≡ ok (last, ev ++ es)
  unfolding phase_run
  phase_run-step p q last r rs ev es e k = rw (e, k)

  -- The answers of a message that do not break the stream are a run of the phases.
  pub answers_run :
      (rs : List ResourceRecord) (p : IxfrPhase) (count : ℕ)
      → ((q : IxfrPhase) × (n : ℕ) × ((ixfr_answers max_records (at p) count rs).1 ≡ going (at q) n)
          × (phase_run zone requested p rs ≡ ok (q, (ixfr_answers max_records (at p) count rs).0)))
        ⊎ IsBroken (ixfr_answers max_records (at p) count rs).1
  answers_run [] p count =
      inl (p, count, unfold ixfr_answers in refl, unfold ixfr_answers phase_run in refl)
  answers_run (r ∷ rs) p count = elim (Bool-cases (ltb max_records (count + 1))) [
    | inl over ↦ inr (answers-over (at p) count r rs over)
    | inr room ↦ elim (Result-cases (ixfr_step requested p r (apex_soa_serial r zone))) [
      | inl ((q, ev), e) ↦ elim (Bool-cases (is_complete (at q) && not (is_nil rs))) [
        | inl b ↦ inr (answers-extra (at p) (at q) count r rs ev room (push-ok p q r ev e) b)
        | inr b ↦
            let cut = answers-cons (at p) (at q) count r rs ev room (push-ok p q r ev e) b in
            elim (answers_run rs q (count + 1)) [
              | inl (last, n, o, run) ↦ inl (
                last,
                n,
                ap (λ x. x.1) cut ∙ o,
                phase_run-step p q last r rs ev _ e run ∙ ap (λ x. ok (last, x.0)) (sym cut),
              )
              | inr o ↦ inr (subst IsBroken (ap (λ y. y.1) (sym cut)) o)
            ]
      ]
      | inr (inl (x, e)) ↦
          inr (answers-refused (at p) (at complete) count r rs x room (push-err p r x e))
      | inr (inr e) ↦ absurd (ixfr_step-ne-stuck requested p r _ e)
    ]
  ]
