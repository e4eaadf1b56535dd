-- ===== src/Core/Domain/Names.antt =====
-- `DomainName::new` and `Display` (crates/bind9-sdk-core/src/domain.rs).
use bind9_sdk.Common.{
  ℕ, ◌≤◌, ◌≡◌, ◌≢◌, refl, sym, ap, ◌∙◌, inl, inr, true, List, [], ◌∷◌, ◌++◌, arith, length, All, ok,
  stuck, >>=-eq-ok, Result-cases, Bool-cases, map_err, map, ok-injective, map_err-eq-ok, ◌==◌,
}
use mathlib.Core.List.{append_assoc, append-nil}
use mathlib.Core.Path.{subst}
use bind9_sdk.Common.Bytes.{Bytes, join_dots}
use bind9_sdk.Errors.{invalid_name}
use bind9_sdk.Core.Domain.{
  Label, DomainName, label_new, split_loop, display_labels, labels_of, name_of_parts,
  name_of_labels, domain_new, display_name, wire_len, labels_len, root, split_domain_labels,
}
use bind9_sdk.Core.Domain.Labels.{label_new-decodes, label_new-inner, label_new-ne-stuck}
use bind9_sdk.Core.Domain.Split.{split_loop-ne-stuck, split_loop-label}

-- What `DomainName::new` has checked.
abbrev pub IsParsed : Label → Type 0
IsParsed l = label_new l.inner ≡ ok l

abbrev inners : List Label → List Bytes
inners ls = map (λ l. l.inner) ls

split_loop-display :
    (ls : List Label) (f : ℕ) (labels : List Bytes)
    → All IsParsed ls
    → length (display_labels ls) ≤ f
    → split_loop f (display_labels ls) [] labels ≡ ok (labels ++ inners ls, true)
unfolding display_labels
split_loop-display [] f labels h hf = rw append-nil (unfold split_loop in refl)
split_loop-display (l ∷ ls) f labels h hf =
    let (w, e) = label_new-decodes l.inner h.0 in
    split_loop-label (length l.inner) f l.inner [] (display_labels ls) [] labels e hf
    ∙ split_loop-display ls _ (labels ++ (l.inner ∷ [])) h.1 (omega arith)
    ∙ rw append_assoc

labels_of-cons :
    (text : Bytes) (parts : List Bytes) {l : Label} {ls : List Label}
    → label_new text ≡ ok l
    → labels_of parts ≡ ok ls
    → labels_of (text ∷ parts) ≡ ok (l ∷ ls)
unfolding labels_of
labels_of-cons [] parts h k = unfold label_new in cc
labels_of-cons (b ∷ bs) parts h k = rw (h, k)

labels_of-inners : (ls : List Label) → All IsParsed ls → labels_of (inners ls) ≡ ok ls
labels_of-inners [] h = unfold labels_of in refl
labels_of-inners (l ∷ ls) h = labels_of-cons l.inner (inners ls) h.0 (labels_of-inners ls h.1)

labels_of-IsParsed :
    (parts : List Bytes) {ls : List Label} → labels_of parts ≡ ok ls → All IsParsed ls
unfolding labels_of
labels_of-IsParsed [] {ls} h = subst (All IsParsed) (ok-injective h) tt
labels_of-IsParsed ([] ∷ parts) h = cc
labels_of-IsParsed ((b ∷ bs) ∷ parts) h =
    let (l, e, more) =
      >>=-eq-ok (map_err (λ x. invalid_name "invalid label") (label_new (b ∷ bs))) _ h in
    let (rest, e', last) = >>=-eq-ok (labels_of parts) _ more in
    let made = map_err-eq-ok (label_new (b ∷ bs)) _ e in
    subst (All IsParsed) (ok-injective last) (
      subst (λ t. label_new t ≡ ok l) (sym (label_new-inner (b ∷ bs) made)) made,
      labels_of-IsParsed parts e',
    )

-- What `DomainName::new` guarantees.
pub record IsName (n : DomainName) : Type 0 where
  pub parsed : All IsParsed n.labels
  pub fits : wire_len n ≤ 255

name_of_labels_fits :
    (ls : List Label) {n : DomainName}
    → name_of_labels ls ≡ ok n
    → (n.labels ≡ ls) × (wire_len n ≤ 255)
unfolding name_of_labels
name_of_labels_fits ls h = ground arith

name_of_parts-IsName : (text : Bytes) {n : DomainName} → name_of_parts text ≡ ok n → IsName n
unfolding name_of_parts
name_of_parts-IsName text h =
    let ((parts, absolute), _, more) = >>=-eq-ok (split_domain_labels text) _ h in
    let (ls, e, last) = >>=-eq-ok (labels_of parts) _ more in
    let (same, fits) = name_of_labels_fits ls last in
    record { parsed = subst (All IsParsed) (sym same) (labels_of-IsParsed parts e); fits = fits }

pub root-IsName : IsName root
unfolding root wire_len labels_len
root-IsName = record { parsed = tt; fits = omega arith }

pub domain_new-IsName : (text : Bytes) {n : DomainName} → domain_new text ≡ ok n → IsName n
unfolding domain_new
domain_new-IsName [] h = name_of_parts-IsName [] h
domain_new-IsName (b ∷ []) h = elim (Bool-cases (b == b'.')) [
  | inl e ↦ subst IsName (ok-injective (rw e at h)) root-IsName
  | inr e ↦ name_of_parts-IsName (b ∷ []) (rw e at h)
]
domain_new-IsName (b ∷ c ∷ cs) h = name_of_parts-IsName (b ∷ c ∷ cs) h

name_of_parts-display :
    (ls : List Label) → All IsParsed ls → name_of_parts (display_labels ls) ≡ name_of_labels ls
unfolding name_of_parts split_domain_labels
name_of_parts-display ls h =
    rw
      (split_loop-display ls (length (display_labels ls)) [] h (omega arith), labels_of-inners ls h)

name_of_labels-same : (n : DomainName) → wire_len n ≤ 255 → name_of_labels n.labels ≡ ok n
unfolding name_of_labels
name_of_labels-same n h = ground arith

domain_new-display_cons :
    (l : Label) (ls : List Label)
    → IsParsed l
    → domain_new (display_labels (l ∷ ls)) ≡ name_of_parts (display_labels (l ∷ ls))
unfolding domain_new
domain_new-display_cons l ls h = unfold display_labels in long l.inner (display_labels ls) h
  where
    long :
        (t rest : Bytes) {x : Label}
        → label_new t ≡ ok x
        → domain_new (t ++ (b'.' ∷ rest)) ≡ name_of_parts (t ++ (b'.' ∷ rest))
    long [] rest h = unfold label_new in cc
    long (b ∷ []) rest h = refl
    long (b ∷ c ∷ cs) rest h = refl

pub display_labels-IsName :
    (ls : List Label)
    → IsName (record { labels = ls })
    → domain_new (display_name (record { labels = ls })) ≡ ok (record { labels = ls })
unfolding display_name
display_labels-IsName [] h = unfold domain_new root in refl
display_labels-IsName (l ∷ ls) h =
    domain_new-display_cons l ls h.parsed.0
    ∙ name_of_parts-display (l ∷ ls) h.parsed
    ∙ name_of_labels-same (record { labels = l ∷ ls }) h.fits

-- `format!("{}.", labels.join("."))` is what `Display` writes for the labels.
pub join_dots-display_labels :
    (l : Label) (ls : List Label)
    → join_dots (map (λ x. x.inner) (l ∷ ls)) ++ (b'.' ∷ []) ≡ display_labels (l ∷ ls)
unfolding join_dots display_labels
join_dots-display_labels l [] = refl
join_dots-display_labels l (m ∷ ls) =
    append_assoc l.inner _ _ ∙ ap (λ x. l.inner ++ (b'.' ∷ x)) (join_dots-display_labels m ls)

-- Whatever text `DomainName::new` accepts, the name that it returns is read back, label for label,
-- from the text that `Display` writes for it.
pub domain_new-display_name :
    (text : Bytes) {n : DomainName} → domain_new text ≡ ok n → domain_new (display_name n) ≡ ok n
domain_new-display_name text {n} h = display_labels-IsName n.labels (domain_new-IsName text h)

labels_of-ne-stuck : (parts : List Bytes) → labels_of parts ≢ stuck
unfolding labels_of
labels_of-ne-stuck [] = λ e. cc
labels_of-ne-stuck ([] ∷ ps) = λ e. cc
labels_of-ne-stuck ((b ∷ bs) ∷ ps) = elim (Result-cases (label_new (b ∷ bs))) [
  | inl (l, e) ↦ elim (Result-cases (labels_of ps)) [
    | inl (ls, e') ↦ rw (e, e') (λ p. cc)
    | inr (inl (x, e')) ↦ rw (e, e') (λ p. cc)
    | inr (inr e') ↦ absurd (labels_of-ne-stuck ps e')
  ]
  | inr (inl (x, e)) ↦ rw e (λ p. cc)
  | inr (inr e) ↦ absurd (label_new-ne-stuck (b ∷ bs) e)
]

name_of_parts-ne-stuck : (text : Bytes) → name_of_parts text ≢ stuck
unfolding name_of_parts split_domain_labels name_of_labels
name_of_parts-ne-stuck text = elim (Result-cases (split_loop (length text) text [] [])) [
  | inl ((parts, absolute), e) ↦ elim (Result-cases (labels_of parts)) [
    | inl (ls, e') ↦ rw (e, e') (ground arith)
    | inr (inl (x, e')) ↦ rw (e, e') (λ p. cc)
    | inr (inr e') ↦ absurd (labels_of-ne-stuck parts e')
  ]
  | inr (inl (x, e)) ↦ rw e (λ p. cc)
  | inr (inr e) ↦ absurd (split_loop-ne-stuck (length text) text [] [] (omega arith) e)
]

-- `DomainName::new` returns on every input: neither of its loops runs out of fuel.
pub domain_new-ne-stuck : (text : Bytes) → domain_new text ≢ stuck
unfolding domain_new
domain_new-ne-stuck [] = name_of_parts-ne-stuck []
domain_new-ne-stuck (b ∷ []) = λ e. ground (arith, name_of_parts-ne-stuck (b ∷ []))
domain_new-ne-stuck (b ∷ c ∷ cs) = name_of_parts-ne-stuck (b ∷ c ∷ cs)
