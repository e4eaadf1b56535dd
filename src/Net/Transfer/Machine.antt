-- ===== src/Net/Transfer/Machine.antt =====
-- From a run of the phases of `IxfrState` to a derivation in the grammar of responses.
use bind9_sdk.Common.{
  ℕ, ◌≡◌, ◌≢◌, refl, sym, ap, ◌∙◌, inl, inr, ◌⊎◌, Option, none, some, List, [], ◌∷◌, ◌++◌, arith,
  Result, ok, ◌>>=◌, >>=-eq-ok,
}
use mathlib.Core.Path.{subst}
use bind9_sdk.Errors.{NetError}
use bind9_sdk.Core.Domain.{DomainName}
use bind9_sdk.Core.Record.{ResourceRecord, greater, serial_cmp}
use bind9_sdk.Core.Transfer.{
  begin_soa, last_soa, IxfrEvent, current_soa, delete_soa, add_soa, end_soa, axfr_fallback,
}
use bind9_sdk.Net.Transfer.{
  IxfrPhase, await_first, await_second, axfr, delete, add, complete, apex_soa_serial, Step,
  ixfr_step, delete_end, add_end, second_soa,
}
use bind9_sdk.Net.Transfer.Grammar.{
  IsBetween, AxfrRest, axfr_record, axfr_end, Deletions, one_deleted, then_added, Additions,
  one_added, next_difference, last_difference, Response, differences, full_zone, empty_zone,
}

delete_end-ok :
    (cs from to : ℕ) (r : ResourceRecord) (p : IxfrPhase) (ev : List IxfrEvent)
    → delete_end cs from to r ≡ ok (p, ev)
    → IsBetween from cs to × (p ≡ add cs to) × (ev ≡ add_soa r ∷ [])
unfolding delete_end
delete_end-ok cs from to r p ev h = ground arith

add_end-ok :
    (cs to serial : ℕ) (r : ResourceRecord) (p : IxfrPhase) (ev : List IxfrEvent)
    → add_end cs to serial r ≡ ok (p, ev)
    → ((serial ≡ cs) × (p ≡ complete) × (ev ≡ end_soa r ∷ []))
      ⊎ ((serial ≡ to) × (to ≢ cs) × (p ≡ delete cs to) × (ev ≡ delete_soa r ∷ []))
unfolding add_end
add_end-ok cs to serial r p ev h = ground arith

second_soa-ok :
    (requested cs base : ℕ) (current r : ResourceRecord) (p : IxfrPhase) (ev : List IxfrEvent)
    → second_soa requested current cs base r ≡ ok (p, ev)
    → ((base ≡ cs)
        × (p ≡ complete)
        × (ev ≡ axfr_fallback (begin_soa current) ∷ axfr_fallback (last_soa r) ∷ []))
      ⊎ ((base ≡ requested)
          × (serial_cmp cs base ≡ some greater)
          × (p ≡ delete cs base)
          × (ev ≡ current_soa current ∷ delete_soa r ∷ []))
unfolding second_soa
second_soa-ok requested cs base current r p ev h = ground arith

-- The pushes without the state around the phase.
unfoldable pub phase_run :
    DomainName → ℕ → IxfrPhase → List ResourceRecord → Result NetError (IxfrPhase × List IxfrEvent)
phase_run zone requested p [] = ok (p, [])
phase_run zone requested p (r ∷ rs) = do
  (p', events) ← ixfr_step requested p r (apex_soa_serial r zone)
  (q, later) ← phase_run zone requested p' rs
  ok (q, events ++ later)

moved :
    {p q : IxfrPhase} {ev es : List IxfrEvent}
    → ◌≡◌ {A = Step} (ok (p, ev)) (ok (q, es))
    → (q ≡ p) × (es ≡ ev)
moved h = ground arith

closes :
    (cs serial : ℕ) (r : ResourceRecord) (q : IxfrPhase) (ev : List IxfrEvent)
    → ixfr_step 0 (axfr cs) r (some serial) ≡ ok (q, ev)
    → (serial ≡ cs) × (q ≡ complete) × (ev ≡ axfr_fallback (last_soa r) ∷ [])
unfolding ixfr_step
closes cs serial r q ev h = ground arith

module _ (zone : DomainName) (requested : ℕ) where
  -- What completes a response from a phase on.
  abbrev pub Rest : IxfrPhase → List ResourceRecord → List IxfrEvent → Type 0
  Rest await_first rs es = Response zone requested rs es
  Rest (await_second first cs) rs es =
      apex_soa_serial first zone ≡ some cs → Response zone requested (first ∷ rs) es
  Rest (axfr cs) rs es = AxfrRest zone cs rs es
  Rest (delete cs from) rs es = Deletions zone cs from rs es
  Rest (add cs to) rs es = Additions zone cs to rs es
  Rest complete rs es = (rs ≡ []) × (es ≡ [])

  -- A step to a known phase, with known events.
  along :
      (p : IxfrPhase) {q q' : IxfrPhase} (rs rs' : List ResourceRecord) {ev ev' : List IxfrEvent}
      (es : List IxfrEvent)
      → (q ≡ q') × (ev ≡ ev')
      → Rest q rs es
      → (Rest q' rs es → Rest p rs' (ev' ++ es))
      → Rest p rs' (ev ++ es)
  along p rs rs' es (e, e') rest k =
      subst (λ x. Rest p rs' (x ++ es)) (sym e') (k (subst (λ x. Rest x rs es) e rest))

  finished :
      (P : List ResourceRecord → List IxfrEvent → Type 0) (rs : List ResourceRecord)
      (es : List IxfrEvent)
      → Rest complete rs es
      → P [] []
      → P rs es
  finished P rs es (e, e') x = subst (λ t. P t es) (sym e) (subst (P []) (sym e') x)

  -- One record, and what completes the response behind it.
  Rest-step :
      (p q : IxfrPhase) (r : ResourceRecord) (rs : List ResourceRecord) (s : Option ℕ)
      (ev es : List IxfrEvent)
      → apex_soa_serial r zone ≡ s
      → ixfr_step requested p r s ≡ ok (q, ev)
      → Rest q rs es
      → Rest p (r ∷ rs) (ev ++ es)
  unfolding ixfr_step
  Rest-step await_first q r rs none ev es a h rest = cc
  Rest-step await_first q r rs (some serial) ev es a h rest =
      along await_first rs (r ∷ rs) es (moved h) rest (λ k. k a)
  Rest-step (await_second first cs) q r rs none ev es a h rest =
      along (await_second first cs) rs (r ∷ rs) es (moved h) rest (λ k a'. full_zone cs a' a k)
  Rest-step (await_second first cs) q r rs (some base) ev es a h rest =
      elim (second_soa-ok requested cs base first r q ev h) [
        | inl (same, q', ev') ↦
            along (await_second first cs) rs (r ∷ rs) es (q', ev') rest
              λ k a'.
                finished
                  (λ t u.
                    Response zone requested (first ∷ r ∷ t)
                      (axfr_fallback (begin_soa first) ∷ axfr_fallback (last_soa r) ∷ u))
                  rs es k (empty_zone cs a' (a ∙ ap some same))
        | inr (same, newer, q', ev') ↦
            along (await_second first cs) rs (r ∷ rs) es (q', ev') rest
              λ k a'.
                differences cs a' (a ∙ ap some same)
                  (subst (λ b. serial_cmp cs b ≡ some greater) same newer)
                  (subst (λ b. Deletions zone cs b rs es) same k)
      ]
  Rest-step (axfr cs) q r rs none ev es a h rest =
      along (axfr cs) rs (r ∷ rs) es (moved h) rest (λ k. axfr_record a k)
  Rest-step (axfr cs) q r rs (some serial) ev es a h rest =
      let (same, q', ev') = closes cs serial r q ev h in
      along (axfr cs) rs (r ∷ rs) es (q', ev') rest
        λ k.
          finished (λ t u. AxfrRest zone cs (r ∷ t) (axfr_fallback (last_soa r) ∷ u)) rs es k
            (axfr_end (a ∙ ap some same))
  Rest-step (delete cs from) q r rs none ev es a h rest =
      along (delete cs from) rs (r ∷ rs) es (moved h) rest (λ k. one_deleted a k)
  Rest-step (delete cs from) q r rs (some to) ev es a h rest =
      let (between, q', ev') = delete_end-ok cs from to r q ev h in
      along (delete cs from) rs (r ∷ rs) es (q', ev') rest (λ k. then_added to a between k)
  Rest-step (add cs to) q r rs none ev es a h rest =
      along (add cs to) rs (r ∷ rs) es (moved h) rest (λ k. one_added a k)
  Rest-step (add cs to) q r rs (some serial) ev es a h rest =
      elim (add_end-ok cs to serial r q ev h) [
        | inl (same, q', ev') ↦
            along (add cs to) rs (r ∷ rs) es (q', ev') rest
              λ k.
                finished (λ t u. Additions zone cs to (r ∷ t) (end_soa r ∷ u)) rs es k
                  (last_difference (a ∙ ap some same))
        | inr (same, ne, q', ev') ↦
            along (add cs to) rs (r ∷ rs) es (q', ev') rest
              (λ k. next_difference (a ∙ ap some same) ne k)
      ]
  Rest-step complete q r rs none ev es a h rest = cc
  Rest-step complete q r rs (some serial) ev es a h rest = cc

  pub phase_run-Rest :
      (rs : List ResourceRecord) (p : IxfrPhase) (es : List IxfrEvent)
      → phase_run zone requested p rs ≡ ok (complete, es)
      → Rest p rs es
  unfolding phase_run
  phase_run-Rest [] p es h = let (e, e') = moved h in subst (λ x. Rest x [] es) e (refl, e')
  phase_run-Rest (r ∷ rs) p es h =
      let ((q, ev), e, h₁) = >>=-eq-ok (ixfr_step requested p r (apex_soa_serial r zone)) _ h in
      let ((last, later), e₁, h₂) = >>=-eq-ok (phase_run zone requested q rs) _ h₁ in
      let (l, c) = moved h₂ in
      let rest =
        phase_run-Rest rs q later
          (subst (λ x. phase_run zone requested q rs ≡ ok (x, later)) (sym l) e₁) in
      subst (Rest p (r ∷ rs)) (sym c) (Rest-step p q r rs _ ev later refl e rest)
