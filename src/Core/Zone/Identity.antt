-- ===== src/Core/Zone/Identity.antt =====
-- Records with the same name, class and data, as `Zone::diff` compares them.
use bind9_sdk.Common.{ℕ, ◌≡◌, ◌↔◌, refl, sym, ap, ◌∙◌, true, false, arith, Bool, ◌==◌, List}
use bind9_sdk.Common.Bytes.{Bytes}
use bind9_sdk.Core.Domain.Equality.{folded, name_eq_iff}
use bind9_sdk.Core.Rdata.{RecordData, soa, variant, is_soa_data}
use bind9_sdk.Core.Rdata.Equality.{FieldKey, rdata_key, rdata_eq_iff}
use bind9_sdk.Core.Record.{
  RecordClass, internet, chaos, hesiod, any_class, unknown_class, ResourceRecord,
}
use bind9_sdk.Core.Zone.{class_eq, same_record, is_soa}

class_eq_iff : (a b : RecordClass) → (class_eq a b ≡ true) ↔ (a ≡ b)
unfolding class_eq
class_eq_iff internet b = ground arith
class_eq_iff chaos b = ground arith
class_eq_iff hesiod b = ground arith
class_eq_iff any_class b = ground arith
class_eq_iff (unknown_class m) b = ground arith

-- What two records share when they are the same.
abbrev identity : ResourceRecord → List Bytes × RecordClass × (ℕ × List FieldKey)
identity r = (folded r.name.labels, r.class, rdata_key r.rdata)

same_record_iff : (a b : ResourceRecord) → (same_record a b ≡ true) ↔ (identity a ≡ identity b)
unfolding same_record
same_record_iff a b =
    ground
      (arith, name_eq_iff a.name b.name, class_eq_iff a.class b.class, rdata_eq_iff a.rdata b.rdata)

pub same_record_refl : (a : ResourceRecord) → same_record a a ≡ true
same_record_refl a = (same_record_iff a a).1 refl

Bool-iff : (p q : Bool) → (p ≡ true → q ≡ true) → (q ≡ true → p ≡ true) → p ≡ q
Bool-iff true true f g = refl
Bool-iff true false f g = sym (f refl)
Bool-iff false true f g = g refl
Bool-iff false false f g = refl

pub same_record-sym : (a b : ResourceRecord) → same_record a b ≡ same_record b a
same_record-sym a b =
    Bool-iff _ _ (λ h. (same_record_iff b a).1 (sym ((same_record_iff a b).0 h)))
      (λ h. (same_record_iff a b).1 (sym ((same_record_iff b a).0 h)))

-- Same records are the same as, and other than, the same records.
pub same_record-congr :
    (a b c : ResourceRecord) → same_record a b ≡ true → same_record a c ≡ same_record b c
same_record-congr a b c h =
    let e = (same_record_iff a b).0 h in
    Bool-iff _ _ (λ k. (same_record_iff b c).1 (sym e ∙ (same_record_iff a c).0 k))
      (λ k. (same_record_iff a c).1 (e ∙ (same_record_iff b c).0 k))

pub same_record-congr_right :
    (c a b : ResourceRecord) → same_record a b ≡ true → same_record c a ≡ same_record c b
same_record-congr_right c a b h =
    same_record-sym c a ∙ same_record-congr a b c h ∙ same_record-sym b c

is_soa-variant : (d : RecordData) → is_soa_data d ≡ (variant d == 5)
unfolding is_soa_data variant
is_soa-variant (soa _ _ _ _ _ _ _) = refl
is_soa-variant _ = refl

pub same_record-is_soa : (a b : ResourceRecord) → same_record a b ≡ true → is_soa a ≡ is_soa b
unfolding is_soa rdata_key
same_record-is_soa a b h =
    let e : variant a.rdata ≡ variant b.rdata = ap (λ k. k.2.0) ((same_record_iff a b).0 h) in
    is_soa-variant a.rdata ∙ ap (λ v. v == 5) e ∙ sym (is_soa-variant b.rdata)
