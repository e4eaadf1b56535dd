-- ===== src/Core/Rdata/Equality.antt =====
-- The derived equality of record data, on keys in which names are folded to lower case.
use bind9_sdk.Common.{ℕ, ◌≡◌, ◌↔◌, refl, sym, ◌∙◌, true, List, [], ◌∷◌, arith}
use bind9_sdk.Common.Bytes.{Bytes, equal_iff}
use bind9_sdk.Core.Domain.Equality.{folded, name_eq_iff}
use bind9_sdk.Core.Rdata.{
  RecordData, RdataField, number, octets, name, field_eq, fields_eq, variant, fields, rdata_eq,
}

pub data FieldKey : Type 0 where
  number_key : ℕ → FieldKey
  octets_key : Bytes → FieldKey
  name_key : List Bytes → FieldKey

unfoldable pub field_key : RdataField → FieldKey
field_key (number n) = number_key n
field_key (octets x) = octets_key x
field_key (name n) = name_key (folded n.labels)

unfoldable pub field_keys : List RdataField → List FieldKey
field_keys [] = []
field_keys (x ∷ xs) = field_key x ∷ field_keys xs

field_eq_iff : (x y : RdataField) → (field_eq x y ≡ true) ↔ (field_key x ≡ field_key y)
unfolding field_eq field_key
field_eq_iff (number m) (number n) = ground arith
field_eq_iff (octets x) (octets y) = ground (arith, equal_iff x y)
field_eq_iff (name m) (name n) = ground (arith, name_eq_iff m n)
field_eq_iff _ _ = ground arith

fields_eq_iff :
    (xs ys : List RdataField) → (fields_eq xs ys ≡ true) ↔ (field_keys xs ≡ field_keys ys)
unfolding fields_eq field_keys
fields_eq_iff (x ∷ xs) (y ∷ ys) = ground (arith, field_eq_iff x y, fields_eq_iff xs ys)
fields_eq_iff _ _ = ground arith

unfoldable pub rdata_key : RecordData → ℕ × List FieldKey
rdata_key r = (variant r, field_keys (fields r))

pub rdata_eq_iff : (x y : RecordData) → (rdata_eq x y ≡ true) ↔ (rdata_key x ≡ rdata_key y)
unfolding rdata_eq rdata_key
rdata_eq_iff x y = ground (arith, fields_eq_iff (fields x) (fields y))

pub rdata_eq_refl : (x : RecordData) → rdata_eq x x ≡ true
rdata_eq_refl x = (rdata_eq_iff x x).1 refl

pub rdata_eq-sym : (x y : RecordData) → rdata_eq x y ≡ true → rdata_eq y x ≡ true
rdata_eq-sym x y h = (rdata_eq_iff y x).1 (sym ((rdata_eq_iff x y).0 h))

pub rdata_eq_trans :
    (x y z : RecordData) → rdata_eq x y ≡ true → rdata_eq y z ≡ true → rdata_eq x z ≡ true
rdata_eq_trans x y z h k = (rdata_eq_iff x z).1 ((rdata_eq_iff x y).0 h ∙ (rdata_eq_iff y z).0 k)
