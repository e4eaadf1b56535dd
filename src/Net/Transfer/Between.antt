-- ===== src/Net/Transfer/Between.antt =====
-- One step of `XfrTsigVerifier` between two messages (crates/bind9-sdk-net/src/transfer/mod.rs).
use bind9_sdk.Common.{
  ℕ, ◌+◌, ◌≤◌, ◌≡◌, refl, sym, ap, ◌∙◌, ◌⊎◌, inl, inr, Bool, true, false, Option, none, some, List,
  [], ◌∷◌, ◌++◌, arith, ==_iff, ◌==◌, length, length-append, ok, >>=-eq-ok, ensure-eq-ok,
  map_err-eq-ok, ok-injective,
}
use mathlib.Core.List.{flatten, append_assoc, append-nil, Forall₂}
use mathlib.Core.Path.{subst}
use bind9_sdk.Common.Bytes.{Bytes}
use bind9_sdk.Errors.{core}
use bind9_sdk.Core.Domain.{name_eq}
use bind9_sdk.Core.Tsig.{TsigKey, Hmac, IsHmac, algorithm_eq}
use bind9_sdk.Core.Tsig.Record.{TsigRecord, counted, verify_time}
use bind9_sdk.Core.Tsig.Response.{
  verify_response_iff, verify_time_iff, verify_iff, algorithm_eq_iff,
}
use bind9_sdk.Net.Wire.Header.{DnsHeader, parse_header}
use bind9_sdk.Net.Wire.Tsig.{split_final_tsig}
use bind9_sdk.Net.Transfer.Verifier.{
  XfrTsigVerifier, take_unsigned, check_mac, take_signed, take_split, verify_message,
}
use bind9_sdk.Net.Transfer.Authentic.{Timed, IsUnsigned, trailer, IsSigned}

-- The verifier between two messages: behind messages without a TSIG record that hold `us`.
abbrev pub between : ℕ → TsigKey → Bytes → Bool → List Bytes → Bool → XfrTsigVerifier
between expected_id key prior_mac first us last = record {
  expected_id = expected_id;
  key = some key;
  prior_mac = some prior_mac;
  first_message = first;
  unsigned_messages = flatten us;
  unsigned_message_count = length us;
  last_message_signed = last;
}

flatten-snoc : (us : List Bytes) (u : Bytes) → flatten (us ++ (u ∷ [])) ≡ flatten us ++ u
unfolding flatten
flatten-snoc [] u = append-nil u
flatten-snoc (x ∷ us) u = ap (λ y. x ++ y) (flatten-snoc us u) ∙ sym (append_assoc x (flatten us) u)

pub Forall₂-snoc :
    {R : Timed → Bytes → Type 0} {xs : List Timed} {us : List Bytes} {x : Timed} {u : Bytes}
    → Forall₂ R xs us
    → R x u
    → Forall₂ R (xs ++ (x ∷ [])) (us ++ (u ∷ []))
Forall₂-snoc Forall₂.nil r = Forall₂.cons r Forall₂.nil
Forall₂-snoc (Forall₂.cons h t) r = Forall₂.cons h (Forall₂-snoc t r)

module _ (h : Hmac) (law : IsHmac h) (key : TsigKey) (expected_id : ℕ) where
  take_unsigned-between :
      (prior_mac : Bytes) (first : Bool) (us : List Bytes) (last : Bool) (u c : Bytes)
      (v : XfrTsigVerifier)
      → take_unsigned (between expected_id key prior_mac first us last) u ≡ ok (c, v)
      → (first ≡ false)
        × (length us ≤ 98)
        × (c ≡ u)
        × (v ≡ between expected_id key prior_mac false (us ++ (u ∷ [])) false)
  unfolding take_unsigned
  take_unsigned-between prior_mac first us last u c v e =
      ground (arith, flatten-snoc us u, length-append us (u ∷ []))

  -- The check of the MAC says when the message was signed, and over what.
  check_mac-between :
      (prior_mac : Bytes) (first : Bool) (us : List Bytes) (last : Bool) (u : Bytes)
      (tsig : TsigRecord) (now : ℕ)
      → (first ≡ true → us ≡ [])
      → check_mac h (between expected_id key prior_mac first us last) key u tsig prior_mac now
        ≡ ok tt
      → (now ≤ tsig.time_signed + tsig.fudge)
        × (tsig.time_signed ≤ now + tsig.fudge)
        × (tsig.mac
            ≡ h.finalize key.algorithm key.key_material
                (counted prior_mac ++ (flatten us ++ (u ++ trailer key tsig first))))
  unfolding check_mac
  check_mac-between prior_mac true us last u tsig now none_yet e =
      let v = (verify_response_iff h key u tsig prior_mac now law).0 (map_err-eq-ok _ core e) in
      (
        v.not_early,
        v.not_late,
        subst
            (λ us.
              tsig.mac
              ≡ h.finalize key.algorithm key.key_material
                  (counted prior_mac ++ (flatten us ++ (u ++ trailer key tsig true))))
            (sym (none_yet refl)) (unfold flatten in v.signed),
      )
  check_mac-between prior_mac false us last u tsig now none_yet e =
      let (_, in_window, checked) = >>=-eq-ok (verify_time tsig now) _ (map_err-eq-ok _ core e) in
      let (not_early, not_late) = (verify_time_iff tsig now).0 in_window in
      (not_early, not_late, ((verify_iff h key _ tsig.mac law).0 checked).1)

  take_signed-between :
      (prior_mac : Bytes) (first : Bool) (us : List Bytes) (last : Bool) (m : Timed)
      (header : DnsHeader) (tsig : TsigRecord) (u c : Bytes) (v : XfrTsigVerifier)
      → (first ≡ true → us ≡ [])
      → parse_header m.1 ≡ ok header
      → header.id ≡ expected_id
      → split_final_tsig m.1 ≡ ok (record { unsigned_message = u; tsig = some tsig })
      → take_signed h (between expected_id key prior_mac first us last) key u tsig m.0 ≡ ok (c, v)
      → (c ≡ u)
        × (v ≡ between expected_id key tsig.mac false [] true)
        × IsSigned h key expected_id prior_mac first (flatten us) m u tsig.mac
  unfolding take_signed
  take_signed-between prior_mac first us last m header tsig u c v none_yet reads same_id splits e =
      let (same_key, e₁) = ensure-eq-ok (name_eq tsig.key_name key.name) _ _ e in
      let (same_algorithm, e₂) = ensure-eq-ok (algorithm_eq tsig.algorithm key.algorithm) _ _ e₁ in
      let (original_id, e₃) = ensure-eq-ok (tsig.original_id == expected_id) _ _ e₂ in
      let (no_error, e₄) = ensure-eq-ok (tsig.error == 0) _ _ e₃ in
      let (_, checked, e₅) =
        >>=-eq-ok
          (check_mac h (between expected_id key prior_mac first us last) key u tsig prior_mac m.0) _
          e₄ in
      let (not_early, not_late, signed) =
        check_mac-between prior_mac first us last u tsig m.0 none_yet checked in
      let made = ok-injective e₅ in
      (
        sym (ap (λ x. x.0) made),
        sym (ap (λ x. x.1) made) ∙ unfold flatten in refl,
        record {
          header = header;
          tsig = tsig;
          reads = reads;
          same_id = same_id;
          splits = splits;
          same_key = same_key;
          same_algorithm = (algorithm_eq_iff _ _).0 same_algorithm;
          original_id = (==_iff _ _).0 original_id;
          no_error = (==_iff _ _).0 no_error;
          not_early = not_early;
          not_late = not_late;
          kept = refl;
          signed = signed;
        },
      )

  -- One message: without a TSIG record it joins those behind the last MAC, with one it is signed.
  pub verify_message-between :
      (prior_mac : Bytes) (first : Bool) (us : List Bytes) (last : Bool) (m : Timed) (c : Bytes)
      (v : XfrTsigVerifier)
      → (first ≡ true → us ≡ [])
      → verify_message h (between expected_id key prior_mac first us last) m.1 m.0 ≡ ok (c, v)
      → (IsUnsigned expected_id m c
          × (first ≡ false)
          × (length us ≤ 98)
          × (v ≡ between expected_id key prior_mac false (us ++ (c ∷ [])) false))
        ⊎ ((mac : Bytes) × IsSigned h key expected_id prior_mac first (flatten us) m c mac
            × (v ≡ between expected_id key mac false [] true))
  unfolding verify_message take_split
  verify_message-between prior_mac first us last m c v none_yet e =
      let (header, reads, e₁) = >>=-eq-ok (parse_header m.1) _ e in
      let (same, e₂) = ensure-eq-ok (header.id == expected_id) _ _ e₁ in
      let (split, splits, e₃) = >>=-eq-ok (split_final_tsig m.1) _ e₂ in
      by_tsig header reads ((==_iff _ _).0 same) split.unsigned_message split.tsig splits e₃
    where
      by_tsig :
          (header : DnsHeader)
          → parse_header m.1 ≡ ok header
          → header.id ≡ expected_id
          → (u : Bytes) (tsig : Option TsigRecord)
          → split_final_tsig m.1 ≡ ok (record { unsigned_message = u; tsig = tsig })
          → take_split h
              (between expected_id key prior_mac first us last)
              key
              (record { unsigned_message = u; tsig = tsig })
              m.0
            ≡ ok (c, v)
          → (IsUnsigned expected_id m c
              × (first ≡ false)
              × (length us ≤ 98)
              × (v ≡ between expected_id key prior_mac false (us ++ (c ∷ [])) false))
            ⊎ ((mac : Bytes) × IsSigned h key expected_id prior_mac first (flatten us) m c mac
                × (v ≡ between expected_id key mac false [] true))
      by_tsig header reads same_id u none splits e =
          let (later, few, kept, next) = take_unsigned-between prior_mac first us last u c v e in
          inl (
            record {
              header = header;
              reads = reads;
              same_id = same_id;
              splits =
                  splits ∙ ap (λ x. ok (record { unsigned_message = x; tsig = none })) (sym kept);
            },
            later,
            few,
            next
                ∙ ap (λ x. between expected_id key prior_mac false (us ++ (x ∷ [])) false)
                    (sym kept),
          )
      by_tsig header reads same_id u (some tsig) splits e =
          let (kept, next, signed) =
            take_signed-between prior_mac first us last m header tsig u c v none_yet reads same_id
              splits e in
          inr (
            tsig.mac,
            subst (λ x. IsSigned h key expected_id prior_mac first (flatten us) m x tsig.mac)
                (sym kept) signed,
            next,
          )
