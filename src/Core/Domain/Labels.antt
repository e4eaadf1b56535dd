-- ===== src/Core/Domain/Labels.antt =====
-- Lemmas on `decode_label` and `Label::new` (crates/bind9-sdk-core/src/domain.rs): their termination
-- and bounds.
use bind9_sdk.Common.{
  ℕ, zero, suc, ◌+◌, ◌≤◌, ◌≡◌, ◌≢◌, inl, inr, [], ◌∷◌, ◌++◌, arith, length, length-append, All,
  All-append, ok, stuck, >>=-eq-ok, Result-cases,
}
use bind9_sdk.Common.Bytes.{Bytes, IsByte}
use bind9_sdk.Core.Domain.{Label, decimal_escape, label_octet, decode_loop, decode_label, label_new}

-- A round takes a byte at least, and gives an octet if its input is octets.
pub label_octet_takes :
    (b : ℕ) (bs : Bytes) (o : ℕ) (rest : Bytes)
    → label_octet b bs ≡ ok (o, rest)
    → length rest ≤ length bs
unfolding label_octet decimal_escape
label_octet_takes b [] o rest h = ground arith
label_octet_takes b (c ∷ []) o rest h = ground arith
label_octet_takes b (c ∷ d ∷ []) o rest h = ground arith
label_octet_takes b (c ∷ d ∷ e ∷ cs) o rest h = ground arith

label_octet-ne-stuck : (b : ℕ) (bs : Bytes) → label_octet b bs ≢ stuck
unfolding label_octet decimal_escape
label_octet-ne-stuck b [] h = ground arith
label_octet-ne-stuck b (c ∷ []) h = ground arith
label_octet-ne-stuck b (c ∷ d ∷ []) h = ground arith
label_octet-ne-stuck b (c ∷ d ∷ e ∷ cs) h = ground arith

label_octet-IsByte :
    (b : ℕ) (bs : Bytes) (o : ℕ) (rest : Bytes)
    → IsByte b
    → All IsByte bs
    → label_octet b bs ≡ ok (o, rest)
    → IsByte o × All IsByte rest
unfolding label_octet decimal_escape
label_octet-IsByte b [] o rest hb hbs h = ground arith
label_octet-IsByte b (c ∷ []) o rest hb hbs h = ground arith
label_octet-IsByte b (c ∷ d ∷ []) o rest hb hbs h = ground arith
label_octet-IsByte b (c ∷ d ∷ e ∷ cs) o rest hb hbs h = ground arith

pub decode_loop-ne-stuck :
    (fuel : ℕ) (text decoded : Bytes) → length text ≤ fuel → decode_loop fuel text decoded ≢ stuck
unfolding decode_loop
decode_loop-ne-stuck fuel [] decoded h = λ e. cc
decode_loop-ne-stuck zero (b ∷ bs) decoded h = absurd (omega arith)
decode_loop-ne-stuck (suc fuel) (b ∷ bs) decoded h = elim (Result-cases (label_octet b bs)) [
  | inl ((o, rest), e) ↦ rw e (
      decode_loop-ne-stuck fuel rest (decoded ++ (o ∷ []))
        (omega (arith, label_octet_takes b bs o rest e)))
  | inr (inl (x, e)) ↦ rw e (λ p. cc)
  | inr (inr e) ↦ absurd (label_octet-ne-stuck b bs e)
]

-- One round, taken back from a success.
pub decode_loop-cons :
    (fuel b : ℕ) (bs decoded : Bytes) {w : Bytes}
    → decode_loop (suc fuel) (b ∷ bs) decoded ≡ ok w
    → (o : ℕ) × (rest : Bytes) × (label_octet b bs ≡ ok (o, rest))
      × (decode_loop fuel rest (decoded ++ (o ∷ [])) ≡ ok w)
unfolding decode_loop
decode_loop-cons fuel b bs decoded h =
    let ((o, rest), e, more) = >>=-eq-ok (label_octet b bs) _ h in (o, rest, e, more)

decode_loop_shape :
    (fuel : ℕ) (text decoded : Bytes) {w : Bytes}
    → All IsByte text
    → All IsByte decoded
    → decode_loop fuel text decoded ≡ ok w
    → All IsByte w × (length decoded ≤ length w) × (length w ≤ length decoded + length text)
unfolding decode_loop
decode_loop_shape fuel [] decoded ht hd h = ground arith
decode_loop_shape zero (b ∷ bs) decoded ht hd h = cc
decode_loop_shape (suc fuel) (b ∷ bs) decoded ht hd h =
    let (o, rest, e, more) = decode_loop-cons fuel b bs decoded h in
    let (ho, hrest) = label_octet-IsByte b bs o rest ht.0 ht.1 e in
    let (p, q, r) =
      decode_loop_shape fuel rest (decoded ++ (o ∷ [])) hrest
        (All-append IsByte decoded (o ∷ []) hd (ho, tt)) more in
    let grown = length-append decoded (o ∷ []) in
    (p, omega (arith, grown), omega (arith, grown, label_octet_takes b bs o rest e))

-- A text with a byte in it decodes to an octet at least.
decode_loop_grows :
    (fuel b : ℕ) (bs decoded : Bytes) {w : Bytes}
    → All IsByte (b ∷ bs)
    → All IsByte decoded
    → decode_loop fuel (b ∷ bs) decoded ≡ ok w
    → suc (length decoded) ≤ length w
unfolding decode_loop
decode_loop_grows zero b bs decoded ht hd h = cc
decode_loop_grows (suc fuel) b bs decoded ht hd h =
    let (o, rest, e, more) = decode_loop-cons fuel b bs decoded h in
    let (ho, hrest) = label_octet-IsByte b bs o rest ht.0 ht.1 e in
    omega (
      arith,
      length-append decoded (o ∷ []),
      (decode_loop_shape fuel rest (decoded ++ (o ∷ [])) hrest
          (All-append IsByte decoded (o ∷ []) hd (ho, tt)) more).1,
    )

pub record IsLabel (l : Label) : Type 0 where
  pub nonempty : 1 ≤ length l.wire
  pub short : length l.wire ≤ 63
  pub octets : All IsByte l.wire

pub label_new-IsLabel :
    (text : Bytes) {l : Label} → All IsByte text → label_new text ≡ ok l → IsLabel l
unfolding label_new
label_new-IsLabel [] ht h = cc
label_new-IsLabel (b ∷ bs) ht h =
    let (w, e, more) = >>=-eq-ok (decode_label (b ∷ bs)) _ h in
    let (octets, _, _) = decode_loop_shape (length (b ∷ bs)) (b ∷ bs) [] ht tt (opened w e) in
    let long = decode_loop_grows (length (b ∷ bs)) b bs [] ht tt (opened w e) in
    record {
      nonempty = ground (arith, more, long);
      short = ground (arith, more);
      octets = ground (arith, more, octets);
    }
  where
    opened :
        (w : Bytes)
        → decode_label (b ∷ bs) ≡ ok w
        → decode_loop (length (b ∷ bs)) (b ∷ bs) [] ≡ ok w
    opened w e = unfold decode_label in e

-- `inner` is the text itself.
pub label_new-inner : (text : Bytes) {l : Label} → label_new text ≡ ok l → l.inner ≡ text
unfolding label_new
label_new-inner [] h = cc
label_new-inner (b ∷ bs) h = ground arith

pub label_new-ne-stuck : (text : Bytes) → label_new text ≢ stuck
unfolding label_new decode_label
label_new-ne-stuck [] h = cc
label_new-ne-stuck (b ∷ bs) h =
    ground (arith, decode_loop-ne-stuck (length (b ∷ bs)) (b ∷ bs) [] (omega arith))

pub label_new-decodes :
    (text : Bytes) {l : Label}
    → label_new text ≡ ok l
    → (w : Bytes) × (decode_loop (length text) text [] ≡ ok w)
unfolding label_new decode_label
label_new-decodes [] h = cc
label_new-decodes (b ∷ bs) h =
    let (w, e, _) = >>=-eq-ok (decode_loop (length (b ∷ bs)) (b ∷ bs) []) _ h in (w, e)
