-- ===== src/Core/Domain/Equality.antt =====
-- `PartialEq` for `DomainName`, and the octets of `write_wire` and `write_wire_canonical`.
use bind9_sdk.Common.{
  suc, ◌+◌, ◌≤◌, ◌≡◌, ◌↔◌, refl, sym, ap, ◌∙◌, true, List, [], ◌∷◌, ◌++◌, arith, length,
  length-append, All, map,
}
use bind9_sdk.Common.Bytes.{Bytes, to_ascii_lowercase, eq_ignore_ascii_case}
use bind9_sdk.Core.Domain.{
  Label, DomainName, octets_eq, labels_eq, name_eq, labels_len, wire_len, write_labels, write_wire,
  write_labels_canonical, write_wire_canonical,
}

abbrev pub lower : Bytes → Bytes
lower bs = map to_ascii_lowercase bs

octets_eq_iff : (a b : Bytes) → (octets_eq a b ≡ true) ↔ (lower a ≡ lower b)
unfolding octets_eq eq_ignore_ascii_case
octets_eq_iff (x ∷ a) (y ∷ b) = ground (arith, octets_eq_iff a b)
octets_eq_iff _ _ = ground arith

-- The labels of a name, without case.
unfoldable pub folded : List Label → List Bytes
folded [] = []
folded (l ∷ ls) = lower l.wire ∷ folded ls

labels_eq_iff : (as' bs : List Label) → (labels_eq as' bs ≡ true) ↔ (folded as' ≡ folded bs)
unfolding labels_eq folded
labels_eq_iff (x ∷ a) (y ∷ b) = ground (arith, labels_eq_iff a b, octets_eq_iff x.wire y.wire)
labels_eq_iff _ _ = ground arith

pub name_eq_iff : (a b : DomainName) → (name_eq a b ≡ true) ↔ (folded a.labels ≡ folded b.labels)
unfolding name_eq
name_eq_iff a b = labels_eq_iff a.labels b.labels

pub name_eq_refl : (a : DomainName) → name_eq a a ≡ true
name_eq_refl a = (name_eq_iff a a).1 refl

pub name_eq-sym : (a b : DomainName) → name_eq a b ≡ true → name_eq b a ≡ true
name_eq-sym a b h = (name_eq_iff b a).1 (sym ((name_eq_iff a b).0 h))

pub name_eq_trans :
    (a b c : DomainName) → name_eq a b ≡ true → name_eq b c ≡ true → name_eq a c ≡ true
name_eq_trans a b c h k = (name_eq_iff a c).1 ((name_eq_iff a b).0 h ∙ (name_eq_iff b c).0 k)

pub length-lower : (bs : Bytes) → length (lower bs) ≡ length bs
length-lower [] = refl
length-lower (b ∷ bs) = ap suc (length-lower bs)

length-write_labels : (ls : List Label) → length (write_labels ls) ≡ labels_len ls + 1
unfolding write_labels labels_len
length-write_labels [] = omega arith
length-write_labels (l ∷ ls) =
    omega (arith, length-append l.wire (write_labels ls), length-write_labels ls)

pub length-write_wire : (n : DomainName) → length (write_wire n) ≡ wire_len n
unfolding write_wire wire_len
length-write_wire n = length-write_labels n.labels

abbrev pub IsNonempty : Label → Type 0
IsNonempty l = 1 ≤ length l.wire

-- Lists cut at the same length.
append-cut : (a b x y : Bytes) → length a ≡ length b → a ++ x ≡ b ++ y → (a ≡ b) × (x ≡ y)
append-cut [] [] x y e h = (refl, h)
append-cut [] (c ∷ b) x y e h = absurd (omega arith)
append-cut (c ∷ a) [] x y e h = absurd (omega arith)
append-cut (c ∷ a) (d ∷ b) x y e h = ground (arith, append-cut a b x y)

-- The wire form of a list of octet strings.
framed : List Bytes → Bytes
framed [] = 0 ∷ []
framed (w ∷ ws) = length w ∷ (w ++ framed ws)

abbrev IsFull : Bytes → Type 0
IsFull w = 1 ≤ length w

framed-injective : (v w : List Bytes) → All IsFull v → All IsFull w → framed v ≡ framed w → v ≡ w
unfolding framed
framed-injective [] [] hv hw h = refl
framed-injective [] (y ∷ w) hv hw h = absurd (ground arith)
framed-injective (x ∷ v) [] hv hw h = absurd (ground arith)
framed-injective (x ∷ v) (y ∷ w) hv hw h =
    let same_len : length x ≡ length y = ground arith in
    let (e, rest) = append-cut x y (framed v) (framed w) same_len (ground arith) in
    cc (e, framed-injective v w hv.1 hw.1 rest)

canonical-framed : (ls : List Label) → write_labels_canonical ls ≡ framed (folded ls)
unfolding write_labels_canonical framed folded
canonical-framed [] = refl
canonical-framed (l ∷ ls) = cc (canonical-framed ls, length-lower l.wire)

folded-IsFull : (ls : List Label) → All IsNonempty ls → All IsFull (folded ls)
unfolding folded
folded-IsFull [] h = tt
folded-IsFull (l ∷ ls) h = (omega (arith, length-lower l.wire), folded-IsFull ls h.1)

-- Two names without empty labels are equal, case aside, exactly when their canonical wire forms are
-- the same octets.
pub name_eq-canonical :
    (a b : DomainName)
    → All IsNonempty a.labels
    → All IsNonempty b.labels
    → (name_eq a b ≡ true) ↔ (write_wire_canonical a ≡ write_wire_canonical b)
unfolding write_wire_canonical
name_eq-canonical a b ha hb = (
  λ h.
      canonical-framed a.labels
      ∙ ap framed ((name_eq_iff a b).0 h)
      ∙ sym (canonical-framed b.labels),
  λ h. (name_eq_iff a b).1 (
      framed-injective _ _ (folded-IsFull a.labels ha) (folded-IsFull b.labels hb)
        (sym (canonical-framed a.labels) ∙ h ∙ canonical-framed b.labels)),
)
