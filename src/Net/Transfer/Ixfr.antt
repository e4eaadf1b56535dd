-- ===== src/Net/Transfer/Ixfr.antt =====
-- `IxfrState` (crates/bind9-sdk-net/src/transfer/mod.rs) on a whole response.
use bind9_sdk.Common.{ℕ, ◌≡◌, inl, inr, ◌↔◌, List, [], ◌∷◌, arith, ok, >>=-eq-ok, Result-cases}
use bind9_sdk.Core.Domain.{DomainName}
use bind9_sdk.Core.Record.{ResourceRecord}
use bind9_sdk.Core.Transfer.{IxfrEvent}
use bind9_sdk.Net.Transfer.{
  IxfrPhase, await_first, complete, IxfrState, ixfr_new, apex_soa_serial, ixfr_step, push, push_all,
}
use bind9_sdk.Net.Transfer.Grammar.{Response}
use bind9_sdk.Net.Transfer.Machine.{phase_run, phase_run-Rest}
use bind9_sdk.Net.Transfer.Runs.{Response-run}

-- The pushes of a state are the run of its phase.
push_all-phase_run :
    (rs : List ResourceRecord) (s : IxfrState) (q : IxfrPhase) (es : List IxfrEvent)
    → phase_run s.zone s.requested_serial s.phase rs ≡ ok (q, es)
    → push_all s rs ≡ (record s { phase = q }, ok es)
unfolding push_all phase_run push
push_all-phase_run [] s q es h = ground arith
push_all-phase_run (r ∷ rs) s q es h =
    let step = ixfr_step s.requested_serial s.phase r (apex_soa_serial r s.zone) in
    let ((p, ev), e, h₁) = >>=-eq-ok step _ h in
    let ((q', later), e₁, h₂) = >>=-eq-ok (phase_run s.zone s.requested_serial p rs) _ h₁ in
    let ih = push_all-phase_run rs (record s { phase = p }) q' later e₁ in ground (arith, e, ih, h₂)

pub phase_run-push_all :
    (rs : List ResourceRecord) (s s' : IxfrState) (es : List IxfrEvent)
    → push_all s rs ≡ (s', ok es)
    → phase_run s.zone s.requested_serial s.phase rs ≡ ok (s'.phase, es)
unfolding push_all phase_run push
phase_run-push_all [] s s' es h = ground arith
phase_run-push_all (r ∷ rs) s s' es h =
    elim (Result-cases (ixfr_step s.requested_serial s.phase r (apex_soa_serial r s.zone))) [
      | inl ((p, ev), e) ↦ elim (Result-cases (push_all (record s { phase = p }) rs).1) [
        | inl (later, e') ↦
            let next = (push_all (record s { phase = p }) rs).0 in
            let ih = phase_run-push_all rs (record s { phase = p }) next later (cc e') in
            ground (arith, e, e', ih)
        | inr (inl (x, e')) ↦ absurd (ground (arith, e, e'))
        | inr (inr e') ↦ absurd (ground (arith, e, e'))
      ]
      | inr (inl (x, e)) ↦ absurd (ground (arith, e))
      | inr (inr e) ↦ absurd (ground (arith, e))
    ]

-- Pushed into a fresh state, the records of a response bring it to its end, with the events `es`,
-- exactly when they are a response to the requested serial that stands for these events.
pub push_all-Response :
    (zone : DomainName) (requested : ℕ) (rs : List ResourceRecord) (es : List IxfrEvent)
    → (push_all (ixfr_new zone requested) rs
        ≡ (record { zone = zone; requested_serial = requested; phase = complete }, ok es))
      ↔ Response zone requested rs es
unfolding ixfr_new
push_all-Response zone requested rs es = (
  λ h. phase_run-Rest zone requested rs await_first es (phase_run-push_all rs _ _ es h),
  λ k. push_all-phase_run rs _ complete es (Response-run zone requested rs es k),
)
