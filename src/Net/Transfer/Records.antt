-- ===== src/Net/Transfer/Records.antt =====
-- The records that `IxfrState` (crates/bind9-sdk-net/src/transfer/mod.rs) reports, and its end.
use bind9_sdk.Common.{
  ℕ, ◌≡◌, sym, ap, ◌∙◌, Option, none, some, List, [], ◌∷◌, ◌++◌, arith, map, Result, ok, err,
  >>=-eq-ok,
}
use mathlib.Core.List.{append_assoc, append-nil, map-append}
use bind9_sdk.Errors.{NetError, xfr_protocol_error}
use bind9_sdk.Core.Domain.{DomainName}
use bind9_sdk.Core.Record.{ResourceRecord}
use bind9_sdk.Core.Transfer.{
  TransferRecord, begin_soa, zone_record, last_soa, IxfrEvent, no_change, current_soa, delete_soa,
  deleted, add_soa, added, end_soa, axfr_fallback,
}
use bind9_sdk.Net.Transfer.{
  IxfrPhase, await_first, await_second, axfr, delete, add, complete, IxfrState, ixfr_new,
  apex_soa_serial, ixfr_step, push_all, finish,
}
use bind9_sdk.Net.Transfer.Machine.{phase_run}
use bind9_sdk.Net.Transfer.Ixfr.{phase_run-push_all}

abbrev pub transfer_record : TransferRecord → ResourceRecord
transfer_record (begin_soa r) = r
transfer_record (zone_record r) = r
transfer_record (last_soa r) = r

abbrev pub event_record : IxfrEvent → ResourceRecord
event_record (no_change r) = r
event_record (current_soa r) = r
event_record (delete_soa r) = r
event_record (deleted r) = r
event_record (add_soa r) = r
event_record (added r) = r
event_record (end_soa r) = r
event_record (axfr_fallback t) = transfer_record t

-- A record that has been read and not reported yet.
pending : IxfrPhase → List ResourceRecord
pending (await_second r _) = r ∷ []
pending _ = []

step_records :
    (requested : ℕ) (p q : IxfrPhase) (r : ResourceRecord) (s : Option ℕ) (ev : List IxfrEvent)
    → ixfr_step requested p r s ≡ ok (q, ev)
    → pending p ++ (r ∷ []) ≡ map event_record ev ++ pending q
unfolding ixfr_step pending
step_records requested await_first q r none ev h = cc
step_records requested await_first q r (some _) ev h = ground arith
step_records requested (await_second c cs) q r none ev h = ground arith
step_records requested (await_second c cs) q r (some base) ev h = ground arith
step_records requested (axfr cs) q r none ev h = ground arith
step_records requested (axfr cs) q r (some _) ev h = ground arith
step_records requested (delete cs from) q r none ev h = ground arith
step_records requested (delete cs from) q r (some to) ev h = ground arith
step_records requested (add cs to) q r none ev h = ground arith
step_records requested (add cs to) q r (some serial) ev h = ground arith
step_records requested complete q r none ev h = cc
step_records requested complete q r (some _) ev h = cc

glue :
    (a : List ResourceRecord) (r : ResourceRecord) (rs m m' p q : List ResourceRecord)
    → a ++ (r ∷ []) ≡ m ++ p
    → p ++ rs ≡ m' ++ q
    → a ++ (r ∷ rs) ≡ (m ++ m') ++ q
glue a r rs m m' p q h k =
    sym (append_assoc a (r ∷ []) rs)
    ∙ ap (λ x. x ++ rs) h
    ∙ append_assoc m p rs
    ∙ ap (λ x. m ++ x) k
    ∙ sym (append_assoc m m' q)

phase_run_records :
    (zone : DomainName) (requested : ℕ) (rs : List ResourceRecord) (p q : IxfrPhase)
    (es : List IxfrEvent)
    → phase_run zone requested p rs ≡ ok (q, es)
    → pending p ++ rs ≡ map event_record es ++ pending q
unfolding phase_run
phase_run_records zone requested [] p q es h =
    let e : (p ≡ q) × (es ≡ []) = ground arith in
    append-nil (pending p) ∙ ap pending e.0 ∙ ap (λ x. map event_record x ++ pending q) (sym e.1)
phase_run_records zone requested (r ∷ rs) p q es h =
    let ((p', ev), e, h₁) = >>=-eq-ok (ixfr_step requested p r (apex_soa_serial r zone)) _ h in
    let ((q', later), e₁, h₂) = >>=-eq-ok (phase_run zone requested p' rs) _ h₁ in
    let here = step_records requested p p' r (apex_soa_serial r zone) ev e in
    let ih = phase_run_records zone requested rs p' q' later e₁ in
    let done : (q' ≡ q) × (es ≡ ev ++ later) = ground (arith, h₂) in
    glue (pending p) r rs (map event_record ev) (map event_record later) (pending p') (pending q')
      here ih
    ∙ ap (λ x. x ++ pending q') (sym (map-append event_record ev later))
    ∙ ap (λ x. map event_record (ev ++ later) ++ pending x) done.0
    ∙ ap (λ x. map event_record x ++ pending q) (sym done.1)

finish_records :
    (s s' : IxfrState) (last : List IxfrEvent)
    → finish s ≡ (s', ok last)
    → pending s.phase ≡ map event_record last
unfolding finish pending
finish_records s s' last h = ground arith

-- If every push of a response and the `finish` behind them succeed, the records of the events that
-- they return, `finish` included, are the records of the response in their order.
pub push_all_records :
    (zone : DomainName) (requested : ℕ) (rs : List ResourceRecord) {s s' : IxfrState}
    {es last : List IxfrEvent}
    → push_all (ixfr_new zone requested) rs ≡ (s, ok es)
    → finish s ≡ (s', ok last)
    → map event_record (es ++ last) ≡ rs
unfolding ixfr_new pending
push_all_records zone requested rs {s} {s'} {es} {last} h k =
    map-append event_record es last
    ∙ ap (λ x. map event_record es ++ x) (sym (finish_records s s' last k))
    ∙ sym (
        phase_run_records zone requested rs await_first s.phase es (phase_run-push_all rs _ s es h))

abbrev pub after_completion : Result NetError (List IxfrEvent)
after_completion = err (xfr_protocol_error "received records after IXFR completion")
