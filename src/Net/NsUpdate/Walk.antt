-- ===== src/Net/NsUpdate/Walk.antt =====
-- The walk of `find_tsig_in_response` (crates/bind9-sdk-net/src/nsupdate.rs) over any response.
use bind9_sdk.Common.{
  ℕ, zero, suc, ◌+◌, ◌≤◌, ◌<◌, ◌≡◌, ◌≢◌, inl, inr, ap, Bool, true, false, Bool-cases, Option, none,
  some, [], ◌∷◌, arith, leb, leb→le, ◌==◌, if◌then◌else◌, length, drop, length-drop, Result, ok,
  stuck, >>=-eq-ok, >>=-ne-stuck, ok_or, ok_or-ne-stuck, ensure-eq-ok, ensure-ne-stuck,
  ok-injective,
}
use mathlib.Core.Path.{subst}
use bind9_sdk.Common.Bytes.{Bytes, u16_from}
use bind9_sdk.Errors.{NetError}
use bind9_sdk.Net.Wire.Record.{record_fields}
use bind9_sdk.Net.NsUpdate.{
  skip_label, skip_wire_name, name_end, skip_question_section, skip_rr, skip_rrs, last_rr,
  find_last, find_tsig_in_response,
}

skip_label-ne-stuck :
    (bytes : Bytes) (pos : ℕ) (next : ℕ → Result NetError ℕ)
    → (1 ≤ length bytes → (p : ℕ) → pos + 1 ≤ p → next p ≢ stuck)
    → skip_label bytes pos next ≢ stuck
unfolding skip_label
skip_label-ne-stuck [] pos next h = λ p. cc
skip_label-ne-stuck (len ∷ rest) pos next h =
    λ e. ground (arith, h (omega arith) (pos + (1 + len)) (omega arith))

skip_wire_name-ne-stuck :
    (fuel : ℕ) (wire : Bytes) (pos : ℕ)
    → 1 ≤ fuel
    → length wire < fuel + pos
    → skip_wire_name fuel wire pos ≢ stuck
unfolding skip_wire_name
skip_wire_name-ne-stuck zero wire pos some_fuel h = absurd (omega arith)
skip_wire_name-ne-stuck (suc fuel) wire pos some_fuel h =
    skip_label-ne-stuck (drop pos wire) pos (skip_wire_name fuel wire) λ more p on.
      skip_wire_name-ne-stuck fuel wire p (omega (arith, length-drop pos wire)) (omega arith)

skip_label-forward :
    (bytes : Bytes) (pos : ℕ) (next : ℕ → Result NetError ℕ) {end : ℕ}
    → ((p : ℕ) → next p ≡ ok end → p ≤ end)
    → skip_label bytes pos next ≡ ok end
    → pos + 1 ≤ end
unfolding skip_label
skip_label-forward [] pos next h e = cc
skip_label-forward (len ∷ rest) pos next {end} h e = ground (arith, h (pos + (1 + len)))

skip_wire_name-forward :
    (fuel : ℕ) (wire : Bytes) (pos : ℕ) {end : ℕ}
    → skip_wire_name fuel wire pos ≡ ok end
    → pos + 1 ≤ end
unfolding skip_wire_name
skip_wire_name-forward zero wire pos h = cc
skip_wire_name-forward (suc fuel) wire pos h =
    skip_label-forward (drop pos wire) pos (skip_wire_name fuel wire)
      (λ p e. omega (arith, skip_wire_name-forward fuel wire p e)) h

name_end-ne-stuck : (wire : Bytes) (pos : ℕ) → name_end wire pos ≢ stuck
name_end-ne-stuck wire pos =
    skip_wire_name-ne-stuck (suc (length wire)) wire pos (omega arith) (omega arith)

skip_rr-ne-stuck : (e e' : NetError) (wire : Bytes) (pos : ℕ) → skip_rr e e' wire pos ≢ stuck
unfolding skip_rr
skip_rr-ne-stuck e e' wire pos =
    >>=-ne-stuck (name_end wire pos) _ (name_end-ne-stuck wire pos) λ behind x.
      >>=-ne-stuck (ok_or (record_fields (drop behind wire)) e) _ (ok_or-ne-stuck _ _)
        λ (t, c, l, n) x'. ensure-ne-stuck (leb (behind + 10 + n) (length wire)) _ _ λ p. cc

-- A record takes 11 octets at least, all in the message.
skip_rr-forward :
    (e e' : NetError) (wire : Bytes) (pos : ℕ) {rtype behind : ℕ}
    → skip_rr e e' wire pos ≡ ok (rtype, behind)
    → (pos + 11 ≤ behind) × (behind ≤ length wire)
unfolding skip_rr
skip_rr-forward e e' wire pos h =
    let (named, e₁, h₁) = >>=-eq-ok (name_end wire pos) _ h in
    let ((t, c, l, n), _, h₂) = >>=-eq-ok (ok_or (record_fields (drop named wire)) e) _ h₁ in
    let (fits, h₃) = ensure-eq-ok (leb (named + 10 + n) (length wire)) _ _ h₂ in
    let size = ap (λ x. x.1) (ok-injective h₃) in
    let on = skip_wire_name-forward (suc (length wire)) wire pos e₁ in
    (omega (arith, size, on), omega (arith, size, leb→le _ _ fits))

skip_question_section-ne-stuck :
    (n : ℕ) (wire : Bytes) (pos : ℕ) → skip_question_section n wire pos ≢ stuck
unfolding skip_question_section
skip_question_section-ne-stuck zero wire pos = λ p. cc
skip_question_section-ne-stuck (suc n) wire pos =
    >>=-ne-stuck (name_end wire pos) _ (name_end-ne-stuck wire pos) λ behind x.
      ensure-ne-stuck (leb (behind + 4) (length wire)) _ _
        (skip_question_section-ne-stuck n wire (behind + 4))

skip_question_section-forward :
    (n : ℕ) (wire : Bytes) (pos : ℕ) {end : ℕ}
    → skip_question_section n wire pos ≡ ok end
    → pos ≤ end
unfolding skip_question_section
skip_question_section-forward zero wire pos h = omega (arith, ok-injective h)
skip_question_section-forward (suc n) wire pos h =
    let (behind, e₁, h₁) = >>=-eq-ok (name_end wire pos) _ h in
    let (_, h₂) = ensure-eq-ok (leb (behind + 4) (length wire)) _ _ h₁ in
    omega (
      arith,
      skip_wire_name-forward (suc (length wire)) wire pos e₁,
      skip_question_section-forward n wire (behind + 4) h₂,
    )

skip_rrs-ne-stuck : (n : ℕ) (wire : Bytes) (pos : ℕ) → skip_rrs n wire pos ≢ stuck
unfolding skip_rrs
skip_rrs-ne-stuck zero wire pos = λ p. cc
skip_rrs-ne-stuck (suc n) wire pos =
    >>=-ne-stuck (skip_rr _ _ wire pos) _ (skip_rr-ne-stuck _ _ wire pos)
      λ (t, behind) x. skip_rrs-ne-stuck n wire behind

skip_rrs-forward :
    (n : ℕ) (wire : Bytes) (pos : ℕ) {end : ℕ} → skip_rrs n wire pos ≡ ok end → pos ≤ end
unfolding skip_rrs
skip_rrs-forward zero wire pos h = omega (arith, ok-injective h)
skip_rrs-forward (suc n) wire pos h =
    let ((t, behind), e₁, h₁) = >>=-eq-ok (skip_rr _ _ wire pos) _ h in
    omega (arith, skip_rr-forward _ _ wire pos e₁, skip_rrs-forward n wire behind h₁)

last_rr-ne-stuck :
    (n : ℕ) (wire : Bytes) (pos : ℕ) (start : Option ℕ) (rtype : ℕ)
    → last_rr n wire pos start rtype ≢ stuck
unfolding last_rr
last_rr-ne-stuck zero wire pos start rtype = λ p. cc
last_rr-ne-stuck (suc n) wire pos start rtype =
    >>=-ne-stuck (skip_rr _ _ wire pos) _ (skip_rr-ne-stuck _ _ wire pos)
      λ (t, behind) x. last_rr-ne-stuck n wire behind (some pos) t

-- The start of a record, behind the header and 11 octets before the end at least.
abbrev IsStart : Bytes → Option ℕ → Type 0
IsStart wire none = Unit {0}
IsStart wire (some start) = (12 ≤ start) × (start + 11 ≤ length wire)

last_rr-IsStart :
    (n : ℕ) (wire : Bytes) (pos : ℕ) (start : Option ℕ) (rtype : ℕ) {end : Option ℕ} {t : ℕ}
    → 12 ≤ pos
    → IsStart wire start
    → last_rr n wire pos start rtype ≡ ok (end, t)
    → IsStart wire end
unfolding last_rr
last_rr-IsStart zero wire pos start rtype some_header h e =
    subst (IsStart wire) (ap (λ x. x.0) (ok-injective e)) h
last_rr-IsStart (suc n) wire pos start rtype some_header h e =
    let ((t, behind), e₁, e₂) = >>=-eq-ok (skip_rr _ _ wire pos) _ e in
    let (on, inside) = skip_rr-forward _ _ wire pos e₁ in
    last_rr-IsStart n wire behind (some pos) t (omega (arith, on)) (some_header, omega arith) e₂

find_last-ne-stuck : (wire : Bytes) (q n r : ℕ) → find_last wire q n r ≢ stuck
unfolding find_last
find_last-ne-stuck wire q n r =
    >>=-ne-stuck (skip_question_section q wire 12) _ (skip_question_section-ne-stuck q wire 12)
      λ p₁ x. >>=-ne-stuck (skip_rrs n wire p₁) _ (skip_rrs-ne-stuck n wire p₁) λ p₂ x'.
        >>=-ne-stuck (last_rr r wire p₂ none 0) _ (last_rr-ne-stuck r wire p₂ none 0)
          λ (start, t) x'' p. cc

chosen :
    (wire : Bytes) (start : Option ℕ) (t : ℕ) {offset : ℕ}
    → IsStart wire start
    → (if t == 250 then start else none) ≡ some offset
    → IsStart wire (some offset)
chosen wire start t h e = elim (Bool-cases (t == 250)) [
  | inl e' ↦ subst (IsStart wire) (rw e' at e) h
  | inr e' ↦ let e'' = rw e' at e in cc
]

find_last-IsStart :
    (wire : Bytes) (q n r : ℕ) {offset : ℕ}
    → find_last wire q n r ≡ ok (some offset)
    → IsStart wire (some offset)
unfolding find_last
find_last-IsStart wire q n r h =
    let (p₁, e₁, h₁) = >>=-eq-ok (skip_question_section q wire 12) _ h in
    let (p₂, e₂, h₂) = >>=-eq-ok (skip_rrs n wire p₁) _ h₁ in
    let ((start, t), e₃, h₃) = >>=-eq-ok (last_rr r wire p₂ none 0) _ h₂ in
    let far : 12 ≤ p₂ =
      omega (arith, skip_question_section-forward q wire 12 e₁, skip_rrs-forward n wire p₁ e₂) in
    chosen wire start t (last_rr-IsStart r wire p₂ none 0 far tt e₃) (ok-injective h₃)

searched :
    (empty : Bool) (wire : Bytes) (q n r : ℕ)
    → ((if empty then ok none else find_last wire q n r) ≢ stuck)
      × ((offset : ℕ)
          → (if empty then ok none else find_last wire q n r) ≡ ok (some offset)
          → (12 ≤ offset) × (offset + 11 ≤ length wire))
searched true wire q n r = (λ p. cc, λ offset p. cc)
searched false wire q n r = (find_last-ne-stuck wire q n r, λ offset. find_last-IsStart wire q n r)

-- The search for a TSIG record ends on every response, and where it finds one, the record starts
-- behind the header and has 11 octets at least of the response, so that no slice is out of bounds.
pub find_tsig_in_response-bounds :
    (wire : Bytes)
    → (find_tsig_in_response wire ≢ stuck)
      × ((offset : ℕ)
          → find_tsig_in_response wire ≡ ok (some offset)
          → (12 ≤ offset) × (offset + 11 ≤ length wire))
unfolding find_tsig_in_response
find_tsig_in_response-bounds (i ∷ i' ∷ f ∷ f' ∷ q ∷ q' ∷ n ∷ n' ∷ a ∷ a' ∷ r ∷ r' ∷ rest) =
    searched (u16_from r r' == 0) (i ∷ i' ∷ f ∷ f' ∷ q ∷ q' ∷ n ∷ n' ∷ a ∷ a' ∷ r ∷ r' ∷ rest)
      (u16_from q q') (u16_from n n' + u16_from a a') (u16_from r r')
find_tsig_in_response-bounds _ = (λ p. cc, λ offset p. cc)
