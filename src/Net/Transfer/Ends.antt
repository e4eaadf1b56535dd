-- ===== src/Net/Transfer/Ends.antt =====
-- What an IXFR stream that ends has yielded (`ixfr_record_stream` in
-- crates/bind9-sdk-net/src/transfer/mod.rs).
use bind9_sdk.Common.{
  ℕ, ◌≡◌, ◌≢◌, ◌⊎◌, refl, sym, ap, ◌∙◌, inl, inr, Bool, true, false, Option, none, some, List, [],
  ◌∷◌, ◌++◌, arith, ok, ok-injective, >>=-eq-ok,
}
use mathlib.Core.Path.{subst}
use mathlib.Core.List.{append-nil, flatten}
use bind9_sdk.Core.Domain.{DomainName}
use bind9_sdk.Core.Record.{ResourceRecord}
use bind9_sdk.Core.Transfer.{IxfrEvent, no_change}
use bind9_sdk.Net.Transfer.{
  IxfrPhase, await_first, await_second, axfr, delete, add, complete, ixfr_new, apex_soa_serial,
  ixfr_step, second_soa, delete_end, add_end,
}
use bind9_sdk.Net.Transfer.Grammar.{Response}
use bind9_sdk.Net.Transfer.Machine.{phase_run, phase_run-Rest}
use bind9_sdk.Net.Transfer.Incremental.{ended, ixfr_messages}
use bind9_sdk.Net.Transfer.Sequence.{messages-Ran}

-- The phases behind the second record.
late : IxfrPhase → Bool
late await_first = false
late (await_second _ _) = false
late _ = true

step-late :
    (requested : ℕ) (p q : IxfrPhase) (r : ResourceRecord) (s : Option ℕ) (ev : List IxfrEvent)
    → p ≢ await_first
    → ixfr_step requested p r s ≡ ok (q, ev)
    → late q ≡ true
unfolding late ixfr_step second_soa delete_end add_end
step-late requested await_first q r s ev np h = absurd (np refl)
step-late requested (await_second c cs) q r none ev np h = ground arith
step-late requested (await_second c cs) q r (some base) ev np h = ground arith
step-late requested (axfr cs) q r none ev np h = ground arith
step-late requested (axfr cs) q r (some _) ev np h = ground arith
step-late requested (delete cs from) q r none ev np h = ground arith
step-late requested (delete cs from) q r (some to) ev np h = ground arith
step-late requested (add cs to) q r none ev np h = ground arith
step-late requested (add cs to) q r (some serial) ev np h = ground arith
step-late requested complete q r s ev np h = cc

late-not_first : (p : IxfrPhase) → late p ≡ true → p ≢ await_first
unfolding late
late-not_first await_first h = cc
late-not_first (await_second c cs) h = cc
late-not_first (axfr cs) h = λ e. cc
late-not_first (delete cs from) h = λ e. cc
late-not_first (add cs to) h = λ e. cc
late-not_first complete h = λ e. cc

run-late :
    (zone : DomainName) (requested : ℕ) (rs : List ResourceRecord) (p q : IxfrPhase)
    (es : List IxfrEvent)
    → late p ≡ true
    → phase_run zone requested p rs ≡ ok (q, es)
    → late q ≡ true
unfolding phase_run
run-late zone requested [] p q es h k = ground (arith, h, k)
run-late zone requested (r ∷ rs) p q es h k =
    let ((p', ev), e, k₁) = >>=-eq-ok (ixfr_step requested p r (apex_soa_serial r zone)) _ k in
    let ((q', later), e₁, k₂) = >>=-eq-ok (phase_run zone requested p' rs) _ k₁ in
    let on = step-late requested p p' r (apex_soa_serial r zone) ev (late-not_first p h) e in
    subst (λ x. late x ≡ true) (ap (λ x. x.0) (ok-injective k₂))
      (run-late zone requested rs p' q' later on e₁)

first-step-ok :
    (requested : ℕ) (p : IxfrPhase) (r : ResourceRecord) (s : Option ℕ) (ev : List IxfrEvent)
    → ixfr_step requested await_first r s ≡ ok (p, ev)
    → (serial : ℕ) × (s ≡ some serial) × (p ≡ await_second r serial) × (ev ≡ [])
unfolding ixfr_step
first-step-ok requested p r none ev h = cc
first-step-ok requested p r (some t) ev h = (t, refl, ground arith, ground arith)

second_not_late : (c : ResourceRecord) (cs : ℕ) → late (await_second c cs) ≡ true → ⊥
unfolding late
second_not_late c cs h = cc

second-run :
    (zone : DomainName) (requested : ℕ) (rs : List ResourceRecord) (r current : ResourceRecord)
    (t serial : ℕ) (es : List IxfrEvent)
    → phase_run zone requested (await_second r t) rs ≡ ok (await_second current serial, es)
    → (rs ≡ []) × (r ≡ current) × (t ≡ serial) × (es ≡ [])
unfolding phase_run
second-run zone requested [] r current t serial es h = ground (arith, h)
second-run zone requested (x ∷ xs) r current t serial es h =
    let ((p, ev), e, h₁) =
      >>=-eq-ok (ixfr_step requested (await_second r t) x (apex_soa_serial x zone)) _ h in
    let ((q, later), e₁, h₂) = >>=-eq-ok (phase_run zone requested p xs) _ h₁ in
    let on = step-late requested (await_second r t) p x (apex_soa_serial x zone) ev (λ k. cc) e in
    let end = run-late zone requested xs p q later on e₁ in
    absurd (
      second_not_late current serial
        (subst (λ y. late y ≡ true) (ap (λ y. y.0) (ok-injective h₂)) end))

-- A run that ends at the second record has read the first alone.
run-second :
    (zone : DomainName) (requested : ℕ) (rs : List ResourceRecord) (current : ResourceRecord)
    (serial : ℕ) (es : List IxfrEvent)
    → phase_run zone requested await_first rs ≡ ok (await_second current serial, es)
    → (apex_soa_serial current zone ≡ some serial) × (rs ≡ current ∷ []) × (es ≡ [])
unfolding phase_run
run-second zone requested [] current serial es h = cc
run-second zone requested (r ∷ rs) current serial es h =
    let ((p, ev), e, h₁) =
      >>=-eq-ok (ixfr_step requested await_first r (apex_soa_serial r zone)) _ h in
    let ((q, later), e₁, h₂) = >>=-eq-ok (phase_run zone requested p rs) _ h₁ in
    let (t, apex, at_second, silent) = first-step-ok requested p r (apex_soa_serial r zone) ev e in
    let made = ok-injective h₂ in
    let run : phase_run zone requested (await_second r t) rs
        ≡ ok (await_second current serial, later) =
      subst (λ x. phase_run zone requested x rs ≡ ok (await_second current serial, later)) at_second
        (e₁ ∙ ap (λ x. ok (x, later)) (ap (λ x. x.0) made)) in
    let (nothing, same, number, quiet) =
      second-run zone requested rs r current t serial later run in
    (
      ap (λ x. apex_soa_serial x zone) (sym same) ∙ apex ∙ ap some number,
      cc (nothing, same),
      sym (ap (λ x. x.1) made) ∙ cc (silent, quiet),
    )

-- An IXFR stream that ends has read, in its first messages, either a response to the requested serial
-- and has yielded the events that it stands for, or one SOA record of the zone alone, and has yielded
-- that there is no change.
pub ixfr_messages-ended :
    (zone : DomainName) (requested max_records : ℕ) (ms : List (List ResourceRecord))
    (es : List IxfrEvent)
    → ixfr_messages max_records (ixfr_new zone requested) 0 ms ≡ (es, ended)
    → (used unused : List (List ResourceRecord)) × (ms ≡ used ++ unused)
      × (Response zone requested (flatten used) es
          ⊎ ((current : ResourceRecord) × (serial : ℕ) × (apex_soa_serial current zone
                ≡ some serial)
              × (flatten used ≡ current ∷ [])
              × (es ≡ no_change current ∷ [])))
unfolding ixfr_new
ixfr_messages-ended zone requested max_records ms es h =
    let t = messages-Ran zone requested max_records ms await_first 0 es h in
    (
      t.used,
      t.unused,
      t.splits,
      elim t.at_end [
        | inl (done, quiet) ↦ inl (
            subst (Response zone requested (flatten t.used))
              (sym (t.yields ∙ ap (λ x. t.events ++ x) quiet ∙ append-nil t.events))
              (phase_run-Rest zone requested (flatten t.used) await_first t.events
                (t.runs ∙ ap (λ x. ok (x, t.events)) done)))
        | inr (current, serial, done, last) ↦
            let (apex, alone, quiet) =
              run-second zone requested (flatten t.used) current serial t.events
                (t.runs ∙ ap (λ x. ok (x, t.events)) done) in
            inr (current, serial, apex, alone, t.yields ∙ cc (quiet, last))
      ],
    )
