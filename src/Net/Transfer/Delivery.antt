-- ===== src/Net/Transfer/Delivery.antt =====
-- That an IXFR stream brings a whole response to its end (`ixfr_record_stream` in
-- crates/bind9-sdk-net/src/transfer/mod.rs).
use bind9_sdk.Common.{
  ℕ, ◌+◌, ◌≤◌, ◌≡◌, ◌≢◌, refl, sym, ap, ◌∙◌, inl, inr, false, not, ◌&&◌, List, [], ◌∷◌, ◌++◌, arith,
  length, length-append, All, ok, Bool-cases, ok-injective, >>=-eq-ok,
}
use mathlib.Core.Path.{subst}
use mathlib.Core.List.{append_assoc, append-nil, flatten}
use bind9_sdk.Core.Domain.{DomainName}
use bind9_sdk.Core.Record.{ResourceRecord}
use bind9_sdk.Core.Transfer.{IxfrEvent}
use bind9_sdk.Net.Transfer.{
  IxfrPhase, await_first, complete, ixfr_new, apex_soa_serial, ixfr_step, is_complete,
}
use bind9_sdk.Net.Transfer.Grammar.{Response}
use bind9_sdk.Net.Transfer.Stream.{is_nil}
use bind9_sdk.Net.Transfer.Machine.{phase_run}
use bind9_sdk.Net.Transfer.Runs.{Response-run}
use bind9_sdk.Net.Transfer.Incremental.{
  IxfrOutcome, going, ended, yielding, ixfr_answers, after_message, ixfr_messages,
}
use bind9_sdk.Net.Transfer.Streamed.{at, push-ok, answers-cons}
use bind9_sdk.Net.Transfer.Sequence.{messages-cons, is_complete-complete}

module _ (zone : DomainName) (requested : ℕ) where
  -- A run over two lists, cut where the second begins.
  run-cut :
      (xs ys : List ResourceRecord) (p r : IxfrPhase) (es : List IxfrEvent)
      → phase_run zone requested p (xs ++ ys) ≡ ok (r, es)
      → (q : IxfrPhase) × (here later : List IxfrEvent) × (phase_run zone requested p xs
          ≡ ok (q, here))
        × (phase_run zone requested q ys ≡ ok (r, later))
        × (here ++ later ≡ es)
  unfolding phase_run
  run-cut [] ys p r es h = (p, [], es, refl, h, refl)
  run-cut (x ∷ xs) ys p r es h =
      let ((p', ev), e, h₁) = >>=-eq-ok (ixfr_step requested p x (apex_soa_serial x zone)) _ h in
      let ((r', es'), e₁, h₂) = >>=-eq-ok (phase_run zone requested p' (xs ++ ys)) _ h₁ in
      let made = ok-injective h₂ in
      let (q, here, later, k, k', same) = run-cut xs ys p' r' es' e₁ in
      (
        q,
        ev ++ here,
        later,
        rw (e, k),
        k' ∙ ap (λ z. ok (z, later)) (ap (λ z. z.0) made),
        append_assoc ev here later ∙ ap (λ z. ev ++ z) same ∙ ap (λ z. z.1) made,
      )

  -- The phase behind the end takes no record.
  complete-run :
      (xs : List ResourceRecord) (q : IxfrPhase) (es : List IxfrEvent)
      → phase_run zone requested complete xs ≡ ok (q, es)
      → (xs ≡ []) × (es ≡ [])
  unfolding phase_run ixfr_step
  complete-run [] q es h = (refl, ground (arith, h))
  complete-run (x ∷ xs) q es h = absurd (ground (arith, h))

  module _ (max_records : ℕ) where
    -- No answer follows the end in the message.
    run-at_end :
        (p q : IxfrPhase) (rs : List ResourceRecord) (es : List IxfrEvent)
        → phase_run zone requested p rs ≡ ok (q, es)
        → (is_complete (at zone requested max_records p) && not (is_nil rs)) ≡ false
    run-at_end p q rs es h = elim (Bool-cases (is_complete (at zone requested max_records p))) [
      | inl done ↦
          let (none_left, _) = complete-run rs q es (
            subst (λ x. phase_run zone requested x rs ≡ ok (q, es))
              (is_complete-complete zone requested max_records p done) h) in
          rw (done, none_left) refl
      | inr more ↦ rw more refl
    ]

    -- The answers of a message that the phases can run yield the events of the run.
    run-answers :
        (rs : List ResourceRecord) (p q : IxfrPhase) (count : ℕ) (es : List IxfrEvent)
        → phase_run zone requested p rs ≡ ok (q, es)
        → count + length rs ≤ max_records
        → ixfr_answers max_records (at zone requested max_records p) count rs
          ≡ (es, going (at zone requested max_records q) (count + length rs))
    unfolding phase_run
    run-answers [] p q count es h room = unfold ixfr_answers in ground (arith, h)
    run-answers (r ∷ rs) p q count es h room =
        let ((p', ev), e, h₁) = >>=-eq-ok (ixfr_step requested p r (apex_soa_serial r zone)) _ h in
        let ((q', later), e₁, h₂) = >>=-eq-ok (phase_run zone requested p' rs) _ h₁ in
        let ih = run-answers rs p' q' (count + 1) later e₁ (omega (arith, room)) in
        answers-cons zone requested max_records (at zone requested max_records p)
          (at zone requested max_records p') count r rs ev (ground (arith, room))
          (push-ok zone requested max_records p p' r ev e) (run-at_end p' q' rs later e₁)
        ∙ ap (yielding ev) ih
        ∙ ap (λ z. (z.1, going (at zone requested max_records z.0) (count + 1 + length rs)))
            (ok-injective h₂)
        ∙ ap (λ n. (es, going (at zone requested max_records q) n)) (omega arith)

    after-end :
        (n : ℕ) (later : List IxfrEvent × IxfrOutcome)
        → after_message n (at zone requested max_records complete) later ≡ ([], ended)
    unfolding after_message is_complete
    after-end n later = ground arith

    after-several :
        (n : ℕ) (q : IxfrPhase) (later : List IxfrEvent × IxfrOutcome)
        → n ≢ 1
        → is_complete (at zone requested max_records q) ≡ false
        → after_message n (at zone requested max_records q) later ≡ later
    unfolding after_message
    after-several n q later several more = ground (arith, several, more)

    -- A message that the phases can run, and those behind it.
    message-run :
        (m : List ResourceRecord) (ms : List (List ResourceRecord)) (p q : IxfrPhase) (count : ℕ)
        (es : List IxfrEvent)
        → phase_run zone requested p m ≡ ok (q, es)
        → count + length m ≤ max_records
        → ixfr_messages max_records (at zone requested max_records p) count (m ∷ ms)
          ≡ yielding es (
              after_message
                (length m)
                (at zone requested max_records q)
                (ixfr_messages max_records (at zone requested max_records q) (count + length m) ms))
    message-run m ms p q count es h room =
        let answers = run-answers m p q count es h room in
        messages-cons zone requested max_records (at zone requested max_records p)
          (at zone requested max_records q) count (count + length m) m ms (ap (λ z. z.1) answers)
        ∙ ap
            (λ z. yielding z (
              after_message (length m) (at zone requested max_records q) (
                ixfr_messages max_records (at zone requested max_records q) (count + length m) ms)))
            (ap (λ z. z.0) answers)

    last-message :
        (m : List ResourceRecord) (ms : List (List ResourceRecord)) (p : IxfrPhase) (count : ℕ)
        (es : List IxfrEvent)
        → phase_run zone requested p m ≡ ok (complete, es)
        → count + length m ≤ max_records
        → ixfr_messages max_records (at zone requested max_records p) count (m ∷ ms) ≡ (es, ended)
    last-message m ms p count es h room =
        message-run m ms p complete count es h room
        ∙ ap (yielding es) (after-end (length m) _)
        ∙ ap (λ z. (z, ended)) (append-nil es)

    -- From any phase: messages that run it to the end, all but the last of several records or none.
    messages_delivered :
        (front : List (List ResourceRecord)) (last : List ResourceRecord)
        (unused : List (List ResourceRecord)) (p : IxfrPhase) (count : ℕ) (es : List IxfrEvent)
        → phase_run zone requested p (flatten (front ++ (last ∷ []))) ≡ ok (complete, es)
        → count + length (flatten (front ++ (last ∷ []))) ≤ max_records
        → All (λ m. length m ≢ 1) front
        → ixfr_messages max_records
            (at zone requested max_records p)
            count
            ((front ++ (last ∷ [])) ++ unused)
          ≡ (es, ended)
    unfolding flatten
    messages_delivered [] last unused p count es h room several =
        last-message last unused p count es (rw append-nil at h) (rw append-nil at room)
    messages_delivered (m ∷ front) last unused p count es h room several =
        let behind = flatten (front ++ (last ∷ [])) in
        let (q, here, later, run, run', same) = run-cut m behind p complete es h in
        let fits : count + length m + length behind ≤ max_records =
          omega (arith, room, length-append m behind) in
        elim (Bool-cases (is_complete (at zone requested max_records q))) [
          | inl done ↦
              let at_end = is_complete-complete zone requested max_records q done in
              let (_, quiet) = complete-run behind complete later (
                subst (λ x. phase_run zone requested x behind ≡ ok (complete, later)) at_end
                  run') in
              last-message m ((front ++ (last ∷ [])) ++ unused) p count here
                (run ∙ ap (λ x. ok (x, here)) at_end) (omega (arith, fits))
              ∙ ap (λ z. (z, ended))
                  (sym (append-nil here) ∙ ap (λ z. here ++ z) (sym quiet) ∙ same)
          | inr more ↦
              message-run m ((front ++ (last ∷ [])) ++ unused) p q count here run
                (omega (arith, fits))
              ∙ ap (yielding here) (
                  after-several (length m) q _ several.0 more
                  ∙ messages_delivered front last unused q (count + length m) later run' fits
                      several.1)
              ∙ ap (λ z. (z, ended)) same
        ]

-- A response to the requested serial, of at most as many records as are allowed, is streamed to its
-- end, with the events that it stands for, however it is cut into messages, if none but the last of
-- them holds a single record; and whatever messages follow.
pub ixfr_messages_complete :
    (zone : DomainName) (requested max_records : ℕ) (front : List (List ResourceRecord))
    (last : List ResourceRecord) (unused : List (List ResourceRecord)) (es : List IxfrEvent)
    → Response zone requested (flatten (front ++ (last ∷ []))) es
    → length (flatten (front ++ (last ∷ []))) ≤ max_records
    → All (λ m. length m ≢ 1) front
    → ixfr_messages max_records (ixfr_new zone requested) 0 ((front ++ (last ∷ [])) ++ unused)
      ≡ (es, ended)
unfolding ixfr_new
ixfr_messages_complete zone requested max_records front last unused es k room several =
    messages_delivered zone requested max_records front last unused await_first 0 es
      (Response-run zone requested _ es k) (omega (arith, room)) several
