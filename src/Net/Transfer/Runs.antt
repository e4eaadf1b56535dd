-- ===== src/Net/Transfer/Runs.antt =====
-- From a derivation in the grammar of responses to a run of the phases of `IxfrState`.
use bind9_sdk.Common.{ℕ, ◌≡◌, ◌≢◌, refl, Option, none, some, List, [], ◌∷◌, ◌++◌, arith, ok}
use bind9_sdk.Core.Domain.{DomainName}
use bind9_sdk.Core.Record.{ResourceRecord, greater, serial_cmp}
use bind9_sdk.Core.Transfer.{
  begin_soa, zone_record, last_soa, IxfrEvent, current_soa, delete_soa, deleted, add_soa, added,
  end_soa, axfr_fallback,
}
use bind9_sdk.Net.Transfer.{
  IxfrPhase, await_first, await_second, axfr, delete, add, complete, apex_soa_serial, ixfr_step,
  delete_end,
}
use bind9_sdk.Net.Transfer.Grammar.{
  IsBetween, AxfrRest, axfr_record, axfr_end, Deletions, one_deleted, then_added, Additions,
  one_added, next_difference, last_difference, Response, differences, full_zone, empty_zone,
}
use bind9_sdk.Core.Record.Order.{serial_cmp_self}
use bind9_sdk.Net.Transfer.Machine.{phase_run}

delete_end-between :
    (cs from to : ℕ) (r : ResourceRecord)
    → IsBetween from cs to
    → delete_end cs from to r ≡ ok (add cs to, add_soa r ∷ [])
unfolding delete_end
delete_end-between cs from to r b = ground (arith, b.newer, b.reached)

module _ (zone : DomainName) (requested : ℕ) where
  phase_run-cons :
      (p q last : IxfrPhase) (r : ResourceRecord) (rs : List ResourceRecord) (s : Option ℕ)
      (ev es : List IxfrEvent)
      → apex_soa_serial r zone ≡ s
      → ixfr_step requested p r s ≡ ok (q, ev)
      → phase_run zone requested q rs ≡ ok (last, es)
      → phase_run zone requested p (r ∷ rs) ≡ ok (last, ev ++ es)
  unfolding phase_run
  phase_run-cons p q last r rs s ev es a e k = rw (a, e, k)

  ended : phase_run zone requested complete [] ≡ ok (complete, [])
  unfolding phase_run
  ended = refl

  AxfrRest-run :
      (cs : ℕ) {rs : List ResourceRecord} {es : List IxfrEvent}
      → AxfrRest zone cs rs es
      → phase_run zone requested (axfr cs) rs ≡ ok (complete, es)
  unfolding ixfr_step
  AxfrRest-run cs (axfr_record {r} {rs} {es} a k) =
      phase_run-cons (axfr cs) (axfr cs) complete r rs none (axfr_fallback (zone_record r) ∷ []) es
        a refl (AxfrRest-run cs k)
  AxfrRest-run cs (axfr_end {r} a) =
      phase_run-cons (axfr cs) complete complete r [] (some cs) (axfr_fallback (last_soa r) ∷ []) []
        a (ground arith) ended

  deleted-step :
      (cs from : ℕ) (r : ResourceRecord)
      → ixfr_step requested (delete cs from) r none ≡ ok (delete cs from, deleted r ∷ [])
  unfolding ixfr_step
  deleted-step cs from r = refl

  delete_end-step :
      (cs from to : ℕ) (r : ResourceRecord)
      → IsBetween from cs to
      → ixfr_step requested (delete cs from) r (some to) ≡ ok (add cs to, add_soa r ∷ [])
  unfolding ixfr_step
  delete_end-step cs from to r b = delete_end-between cs from to r b

  added-step :
      (cs to : ℕ) (r : ResourceRecord)
      → ixfr_step requested (add cs to) r none ≡ ok (add cs to, added r ∷ [])
  unfolding ixfr_step
  added-step cs to r = refl

  next-step :
      (cs to : ℕ) (r : ResourceRecord)
      → to ≢ cs
      → ixfr_step requested (add cs to) r (some to) ≡ ok (delete cs to, delete_soa r ∷ [])
  unfolding ixfr_step
  next-step cs to r ne = ground arith

  last-step :
      (cs to : ℕ) (r : ResourceRecord)
      → ixfr_step requested (add cs to) r (some cs) ≡ ok (complete, end_soa r ∷ [])
  unfolding ixfr_step
  last-step cs to r = ground arith

  mutual
    Deletions-run :
        (cs from : ℕ) {rs : List ResourceRecord} {es : List IxfrEvent}
        → Deletions zone cs from rs es
        → phase_run zone requested (delete cs from) rs ≡ ok (complete, es)
    Deletions-run cs from (one_deleted {r} {rs} {es} a k) =
        phase_run-cons (delete cs from) (delete cs from) complete r rs none (deleted r ∷ []) es a
          (deleted-step cs from r) (Deletions-run cs from k)
    Deletions-run cs from (then_added to {r} {rs} {es} a b k) =
        phase_run-cons (delete cs from) (add cs to) complete r rs (some to) (add_soa r ∷ []) es a
          (delete_end-step cs from to r b) (Additions-run cs to k)

    Additions-run :
        (cs to : ℕ) {rs : List ResourceRecord} {es : List IxfrEvent}
        → Additions zone cs to rs es
        → phase_run zone requested (add cs to) rs ≡ ok (complete, es)
    Additions-run cs to (one_added {r} {rs} {es} a k) =
        phase_run-cons (add cs to) (add cs to) complete r rs none (added r ∷ []) es a
          (added-step cs to r) (Additions-run cs to k)
    Additions-run cs to (next_difference {r} {rs} {es} a ne k) =
        phase_run-cons (add cs to) (delete cs to) complete r rs (some to) (delete_soa r ∷ []) es a
          (next-step cs to r ne) (Deletions-run cs to k)
    Additions-run cs to (last_difference {r} a) =
        phase_run-cons (add cs to) complete complete r [] (some cs) (end_soa r ∷ []) [] a
          (last-step cs to r) ended

  first-step :
      (cs : ℕ) (r : ResourceRecord)
      → ixfr_step requested await_first r (some cs) ≡ ok (await_second r cs, [])
  unfolding ixfr_step
  first-step cs r = refl

  difference-step :
      (cs : ℕ) (first r : ResourceRecord)
      → serial_cmp cs requested ≡ some greater
      → ixfr_step requested (await_second first cs) r (some requested)
        ≡ ok (delete cs requested, current_soa first ∷ delete_soa r ∷ [])
  unfolding ixfr_step
  difference-step cs first r h = ground (arith, serial_cmp_self requested)

  full-step :
      (cs : ℕ) (first r : ResourceRecord)
      → ixfr_step requested (await_second first cs) r none
        ≡ ok (axfr cs, axfr_fallback (begin_soa first) ∷ axfr_fallback (zone_record r) ∷ [])
  unfolding ixfr_step
  full-step cs first r = refl

  empty-step :
      (cs : ℕ) (first r : ResourceRecord)
      → ixfr_step requested (await_second first cs) r (some cs)
        ≡ ok (complete, axfr_fallback (begin_soa first) ∷ axfr_fallback (last_soa r) ∷ [])
  unfolding ixfr_step
  empty-step cs first r = ground arith

  pub Response-run :
      (rs : List ResourceRecord) (es : List IxfrEvent)
      → Response zone requested rs es
      → phase_run zone requested await_first rs ≡ ok (complete, es)
  Response-run rs es (differences cs {first} {second} {rs = rs'} {es = es'} a b newer k) =
      phase_run-cons await_first (await_second first cs) complete first (second ∷ rs') (some cs) []
        (current_soa first ∷ delete_soa second ∷ es') a (first-step cs first)
        (phase_run-cons (await_second first cs) (delete cs requested) complete second rs'
          (some requested) (current_soa first ∷ delete_soa second ∷ []) es' b
          (difference-step cs first second newer) (Deletions-run cs requested k))
  Response-run rs es (full_zone cs {first} {second} {rs = rs'} {es = es'} a b k) =
      phase_run-cons await_first (await_second first cs) complete first (second ∷ rs') (some cs) []
        (axfr_fallback (begin_soa first) ∷ axfr_fallback (zone_record second) ∷ es') a
        (first-step cs first)
        (phase_run-cons (await_second first cs) (axfr cs) complete second rs' none
          (axfr_fallback (begin_soa first) ∷ axfr_fallback (zone_record second) ∷ []) es' b
          (full-step cs first second) (AxfrRest-run cs k))
  Response-run rs es (empty_zone cs {first} {second} a b) =
      phase_run-cons await_first (await_second first cs) complete first (second ∷ []) (some cs) []
        (axfr_fallback (begin_soa first) ∷ axfr_fallback (last_soa second) ∷ []) a
        (first-step cs first)
        (phase_run-cons (await_second first cs) complete complete second [] (some cs)
          (axfr_fallback (begin_soa first) ∷ axfr_fallback (last_soa second) ∷ []) [] b
          (empty-step cs first second) ended)
