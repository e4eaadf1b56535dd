-- ===== src/Core/Zone/Apply.antt =====
-- What one entry of a difference does to the records of a zone: their TTLs and their number by
-- identity, and the SOA records.
use bind9_sdk.Common.{
  ℕ, suc, ◌-◌, ◌≡◌, refl, ap, true, false, Option, none, some, List, [], ◌∷◌, ◌++◌, if◌then◌else◌,
  arith, Bool-cases, inl, inr,
}
use bind9_sdk.Core.Record.{ResourceRecord}
use bind9_sdk.Core.Zone.{find, same_record, remove_first, set_first_ttl}
use bind9_sdk.Core.Zone.Identity.{same_record-congr, same_record-congr_right}

-- The TTL of the first record with the identity of `r`.
unfoldable pub ttl_of : ResourceRecord → List ResourceRecord → Option ℕ
ttl_of r [] = none
ttl_of r (x ∷ xs) = if same_record x r then some x.ttl else ttl_of r xs

-- How many records have the identity of `r`.
unfoldable pub count : ResourceRecord → List ResourceRecord → ℕ
count r [] = 0
count r (x ∷ xs) = if same_record x r then suc (count r xs) else count r xs

pub ttl_of-count_zero :
    (r : ResourceRecord) (xs : List ResourceRecord) → count r xs ≡ 0 → ttl_of r xs ≡ none
unfolding ttl_of count
ttl_of-count_zero r [] h = refl
ttl_of-count_zero r (x ∷ xs) h = ground (arith, ttl_of-count_zero r xs)

-- The TTL of the record that a search found.
abbrev pub found_ttl : Option ResourceRecord → Option ℕ
found_ttl none = none
found_ttl (some x) = some x.ttl

pub ttl_of-find :
    (r : ResourceRecord) (xs : List ResourceRecord)
    → ttl_of r xs ≡ found_ttl (find (λ x. same_record x r) xs)
unfolding ttl_of find
ttl_of-find r [] = refl
ttl_of-find r (x ∷ xs) = elim (Bool-cases (same_record x r)) [
  | inl h ↦ rw h
  | inr h ↦ rw (h, ttl_of-find r xs)
]

pub find-same :
    (r s : ResourceRecord) (xs : List ResourceRecord)
    → same_record r s ≡ true
    → find (λ x. same_record x r) xs ≡ find (λ x. same_record x s) xs
find-same r s xs h = ap (λ p. find p xs) (λ i x. same_record-congr_right x r s h i)

-- An added record
pub ttl_of-append_other :
    (r n : ResourceRecord) (xs : List ResourceRecord)
    → same_record n r ≡ false
    → ttl_of r (xs ++ (n ∷ [])) ≡ ttl_of r xs
unfolding ttl_of
ttl_of-append_other r n [] h = ground (arith, h)
ttl_of-append_other r n (x ∷ xs) h = rw (ttl_of-append_other r n xs h)

pub ttl_of-append_same :
    (r n : ResourceRecord) (xs : List ResourceRecord)
    → same_record n r ≡ true
    → ttl_of r xs ≡ none
    → ttl_of r (xs ++ (n ∷ [])) ≡ some n.ttl
unfolding ttl_of
ttl_of-append_same r n [] h k = ground (arith, h)
ttl_of-append_same r n (x ∷ xs) h k = ground (arith, ttl_of-append_same r n xs h)

pub count-append_other :
    (r n : ResourceRecord) (xs : List ResourceRecord)
    → same_record n r ≡ false
    → count r (xs ++ (n ∷ [])) ≡ count r xs
unfolding count
count-append_other r n [] h = ground (arith, h)
count-append_other r n (x ∷ xs) h = rw (count-append_other r n xs h)

-- A removed record
pub ttl_of-remove_other :
    (r n : ResourceRecord) (xs : List ResourceRecord)
    → same_record n r ≡ false
    → ttl_of r (remove_first n xs) ≡ ttl_of r xs
unfolding ttl_of remove_first
ttl_of-remove_other r n [] h = refl
ttl_of-remove_other r n (x ∷ xs) h =
    ground (arith, ttl_of-remove_other r n xs h, same_record-congr x n r)

pub count-remove :
    (r n : ResourceRecord) (xs : List ResourceRecord)
    → count r (remove_first n xs) ≡ (if same_record n r then count r xs - 1 else count r xs)
unfolding count remove_first
count-remove r n [] = ground arith
count-remove r n (x ∷ xs) =
    ground (arith, count-remove r n xs, same_record-congr x n r, same_record-congr_right x n r)

-- A record whose TTL is set
pub same_record-set_ttl :
    (x r : ResourceRecord) (t : ℕ) → same_record (record x { ttl = t }) r ≡ same_record x r
unfolding same_record
same_record-set_ttl x r t = refl

pub ttl_of-set_other :
    (r n : ResourceRecord) (t : ℕ) (xs : List ResourceRecord)
    → same_record n r ≡ false
    → ttl_of r (set_first_ttl n t xs) ≡ ttl_of r xs
unfolding ttl_of set_first_ttl
ttl_of-set_other r n t [] h = refl
ttl_of-set_other r n t (x ∷ xs) h =
    ground (arith, ttl_of-set_other r n t xs h, same_record-congr x n r, same_record-set_ttl x r t)

pub ttl_of-set_same :
    (r n : ResourceRecord) (t u : ℕ) (xs : List ResourceRecord)
    → same_record n r ≡ true
    → ttl_of r xs ≡ some u
    → ttl_of r (set_first_ttl n t xs) ≡ some t
unfolding ttl_of set_first_ttl
ttl_of-set_same r n t u [] h k = cc
ttl_of-set_same r n t u (x ∷ xs) h k = ground (
  arith,
  ttl_of-set_same r n t u xs h,
  same_record-congr_right x n r h,
  same_record-set_ttl x r t,
)

pub count-set :
    (r n : ResourceRecord) (t : ℕ) (xs : List ResourceRecord)
    → count r (set_first_ttl n t xs) ≡ count r xs
unfolding count set_first_ttl
count-set r n t [] = refl
count-set r n t (x ∷ xs) = ground (arith, count-set r n t xs, same_record-set_ttl x r t)
