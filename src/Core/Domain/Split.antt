-- ===== src/Core/Domain/Split.antt =====
-- Lemmas on the scan for dots, `split_domain_labels` (crates/bind9-sdk-core/src/domain.rs).
use bind9_sdk.Common.{
  ℕ, zero, suc, ◌≤◌, ◌≡◌, ◌≢◌, refl, ◌∙◌, inl, inr, List, [], ◌∷◌, ◌++◌, arith, length,
  length-append, Result, ok, stuck, Result-cases,
}
use mathlib.Core.List.{append_assoc, append-nil}
use bind9_sdk.Common.Bytes.{Bytes}
use bind9_sdk.Errors.{CoreError}
use bind9_sdk.Core.Domain.{decimal_escape, label_octet, decode_loop, split_chunk, split_loop}
use bind9_sdk.Core.Domain.Labels.{label_octet_takes, decode_loop-cons}

pub split_chunk_takes :
    (b : ℕ) (bs taken rest : Bytes)
    → split_chunk b bs ≡ ok (taken, rest)
    → (b ∷ bs ≡ taken ++ rest) × (length rest ≤ length bs)
unfolding split_chunk decimal_escape
split_chunk_takes b [] taken rest h = ground arith
split_chunk_takes b (c ∷ []) taken rest h = ground arith
split_chunk_takes b (c ∷ d ∷ []) taken rest h = ground arith
split_chunk_takes b (c ∷ d ∷ e ∷ cs) taken rest h = ground arith

split_chunk-ne-stuck : (b : ℕ) (bs : Bytes) → split_chunk b bs ≢ stuck
unfolding split_chunk decimal_escape
split_chunk-ne-stuck b [] h = ground arith
split_chunk-ne-stuck b (c ∷ []) h = ground arith
split_chunk-ne-stuck b (c ∷ d ∷ []) h = ground arith
split_chunk-ne-stuck b (c ∷ d ∷ e ∷ cs) h = ground arith

-- Any fuel that covers the text gives the same answer.
split_loop-fuel :
    (f g : ℕ) (text label : Bytes) (labels : List Bytes)
    → length text ≤ f
    → length text ≤ g
    → split_loop f text label labels ≡ split_loop g text label labels
unfolding split_loop
split_loop-fuel f g [] [] labels hf hg = refl
split_loop-fuel f g [] (l ∷ ls) labels hf hg = refl
split_loop-fuel zero g (b ∷ bs) label labels hf hg = absurd (omega arith)
split_loop-fuel (suc f) zero (b ∷ bs) label labels hf hg = absurd (omega arith)
split_loop-fuel (suc f) (suc g) (b ∷ bs) label labels hf hg =
    elim (Result-cases (split_chunk b bs)) [
      | inl ((taken, rest), e) ↦
          let shorter = (split_chunk_takes b bs taken rest e).1 in
          rw e (split_loop-fuel f g rest _ _ (omega arith) (omega arith))
      | inr (inl (x, e)) ↦ rw e
      | inr (inr e) ↦ rw e
    ]

pub split_loop-ne-stuck :
    (f : ℕ) (text label : Bytes) (labels : List Bytes)
    → length text ≤ f
    → split_loop f text label labels ≢ stuck
unfolding split_loop
split_loop-ne-stuck f [] [] labels h = λ e. cc
split_loop-ne-stuck f [] (l ∷ ls) labels h = λ e. cc
split_loop-ne-stuck zero (b ∷ bs) label labels h = absurd (omega arith)
split_loop-ne-stuck (suc f) (b ∷ bs) label labels h = elim (Result-cases (split_chunk b bs)) [
  | inl ((taken, rest), e) ↦
      let shorter = (split_chunk_takes b bs taken rest e).1 in
      rw e (split_loop-ne-stuck f rest _ _ (omega arith))
  | inr (inl (x, e)) ↦ rw e (λ p. cc)
  | inr (inr e) ↦ absurd (split_chunk-ne-stuck b bs e)
]

-- Where `decode_label` takes a step inside a label, the scan for dots passes over the same bytes,
-- whatever follows the dot behind the label.
abbrev taken_of : Result CoreError (Bytes × Bytes) → Bytes
taken_of (ok (taken, _)) = taken
taken_of _ = []

chunk_of_octet :
    (b : ℕ) (bs : Bytes) (o : ℕ) (rest more : Bytes)
    → label_octet b bs ≡ ok (o, rest)
    → (b ≢ b'.')
      × (split_chunk b (bs ++ (b'.' ∷ more))
          ≡ ok (taken_of (split_chunk b bs), rest ++ (b'.' ∷ more)))
      × (b ∷ bs ≡ taken_of (split_chunk b bs) ++ rest)
unfolding label_octet split_chunk decimal_escape
chunk_of_octet b [] o rest more h = ground arith
chunk_of_octet b (c ∷ []) o rest [] h = ground arith
chunk_of_octet b (c ∷ []) o rest (x ∷ more) h = ground arith
chunk_of_octet b (c ∷ d ∷ []) o rest more h = ground arith
chunk_of_octet b (c ∷ d ∷ e ∷ cs) o rest more h = ground arith

split_loop-dot :
    (f : ℕ) (more label : Bytes) (labels : List Bytes)
    → length (b'.' ∷ more) ≤ f
    → split_loop f (b'.' ∷ more) label labels
      ≡ split_loop (length more) more [] (labels ++ (label ∷ []))
unfolding split_loop split_chunk
split_loop-dot zero more label labels h = absurd (omega arith)
split_loop-dot (suc f) more label labels h =
    split_loop-fuel f (length more) more [] (labels ++ (label ∷ [])) (omega arith) (omega arith)

split_loop-step :
    (f b : ℕ) (bs label : Bytes) (labels : List Bytes) {taken rest : Bytes}
    → b ≢ b'.'
    → split_chunk b bs ≡ ok (taken, rest)
    → split_loop (suc f) (b ∷ bs) label labels ≡ split_loop f rest (label ++ taken) labels
unfolding split_loop
split_loop-step f b bs label labels no_dot e = rw e (ground arith)

-- A text that `decode_label` accepts is one label for the scan.
pub split_loop-label :
    (k f : ℕ) (text decoded more label : Bytes) (labels : List Bytes) {w : Bytes}
    → decode_loop k text decoded ≡ ok w
    → length (text ++ (b'.' ∷ more)) ≤ f
    → split_loop f (text ++ (b'.' ∷ more)) label labels
      ≡ split_loop (length more) more [] (labels ++ ((label ++ text) ∷ []))
split_loop-label k f [] decoded more label labels h hf =
    rw append-nil (split_loop-dot f more label labels hf)
split_loop-label zero f (b ∷ bs) decoded more label labels h hf = unfold decode_loop in cc
split_loop-label (suc k) zero (b ∷ bs) decoded more label labels h hf = absurd (omega arith)
split_loop-label (suc k) (suc f) (b ∷ bs) decoded more label labels h hf =
    let (o, rest, e, next) = decode_loop-cons k b bs decoded h in
    let (no_dot, chunk, cut) = chunk_of_octet b bs o rest more e in
    let shorter = label_octet_takes b bs o rest e in
    split_loop-step f b (bs ++ (b'.' ∷ more)) label labels no_dot chunk
    ∙ split_loop-label k f rest (decoded ++ (o ∷ [])) more _ labels next
        (omega (arith, shorter, length-append bs (b'.' ∷ more), length-append rest (b'.' ∷ more)))
    ∙ rw (append_assoc, ← cut)
