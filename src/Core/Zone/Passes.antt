-- ===== src/Core/Zone/Passes.antt =====
-- What the two passes of `Zone::diff` do to the TTL that a zone has for an identity.
use bind9_sdk.Common.{
  ◌-◌, ◌≡◌, ◌≢◌, refl, ap, ◌∙◌, true, false, Option, none, some, List, [], ◌∷◌, ◌++◌, if◌then◌else◌,
  arith,
}
use bind9_sdk.Core.Record.{ResourceRecord}
use bind9_sdk.Core.Zone.{
  DiffEntry, find, same_record, entry_new, entry_old, diff_new, diff_old, apply_entry,
  apply_entries,
}
use bind9_sdk.Core.Zone.Identity.{same_record-sym}
use bind9_sdk.Core.Zone.Apply.{
  ttl_of, count, found_ttl, ttl_of-find, find-same, ttl_of-append_other, ttl_of-append_same,
  count-append_other, ttl_of-remove_other, count-remove, ttl_of-set_other, ttl_of-set_same,
  count-set,
}

pub apply_entries-append :
    (ds es : List DiffEntry) (xs : List ResourceRecord)
    → apply_entries (ds ++ es) xs ≡ apply_entries es (apply_entries ds xs)
unfolding apply_entries
apply_entries-append [] es xs = refl
apply_entries-append (d ∷ ds) es xs = apply_entries-append ds es (apply_entry d xs)

found_ttl-same :
    (r n : ResourceRecord) (os : List ResourceRecord)
    → same_record n r ≡ true
    → ttl_of r os ≡ found_ttl (find (λ o. same_record o n) os)
found_ttl-same r n os h =
    ttl_of-find r os ∙ ap found_ttl (find-same r n os (same_record-sym r n ∙ h))

-- The entry for a new record with another identity, or for one that is the same.
entry_new_other :
    (r n : ResourceRecord) (found : Option ResourceRecord) (xs : List ResourceRecord)
    → same_record n r ≡ false
    → (ttl_of r (apply_entries (entry_new n found) xs) ≡ ttl_of r xs)
      × (count r (apply_entries (entry_new n found) xs) ≡ count r xs)
unfolding entry_new apply_entries apply_entry
entry_new_other r n none xs h = (ttl_of-append_other r n xs h, count-append_other r n xs h)
entry_new_other r n (some o) xs h =
    ground (arith, ttl_of-set_other r n n.ttl xs h, count-set r n n.ttl xs)

entry_new_same :
    (r n : ResourceRecord) (found : Option ResourceRecord) (xs : List ResourceRecord)
    → same_record n r ≡ true
    → ttl_of r xs ≡ found_ttl found
    → ttl_of r (apply_entries (entry_new n found) xs) ≡ some n.ttl
unfolding entry_new apply_entries apply_entry
entry_new_same r n none xs h k = ttl_of-append_same r n xs h k
entry_new_same r n (some o) xs h k = ground (arith, ttl_of-set_same r n n.ttl o.ttl xs h k)

-- Without a new record of its identity, the first pass leaves an identity as it is.
pub diff_new_other :
    (r : ResourceRecord) (os ns xs : List ResourceRecord)
    → count r ns ≡ 0
    → (ttl_of r (apply_entries (diff_new os ns) xs) ≡ ttl_of r xs)
      × (count r (apply_entries (diff_new os ns) xs) ≡ count r xs)
unfolding diff_new count apply_entries
diff_new_other r os [] xs h = (refl, refl)
diff_new_other r os (n ∷ ns) xs h =
    let e = find (λ o. same_record o n) os in
    let tail = diff_new_other r os ns (apply_entries (entry_new n e) xs) in
    let head = entry_new_other r n e xs in
    let seam = apply_entries-append (entry_new n e) (diff_new os ns) xs in
    ground (arith, tail, head, seam)

-- With one new record of its identity, the zone has that record's TTL after the first pass.
pub diff_new_same :
    (r : ResourceRecord) (os ns xs : List ResourceRecord)
    → count r ns ≡ 1
    → ttl_of r xs ≡ ttl_of r os
    → ttl_of r (apply_entries (diff_new os ns) xs) ≡ ttl_of r ns
unfolding diff_new count ttl_of
diff_new_same r os [] xs h k = ground (arith, h)
diff_new_same r os (n ∷ ns) xs h k =
    let e = find (λ o. same_record o n) os in
    let ys = apply_entries (entry_new n e) xs in
    ground (
      arith,
      apply_entries-append (entry_new n e) (diff_new os ns) xs,
      found_ttl-same r n os,
      entry_new_same r n e xs,
      entry_new_other r n e xs,
      diff_new_other r os ns ys,
      diff_new_same r os ns ys,
    )

entry_old_keeps :
    (r o : ResourceRecord) (found : Option ResourceRecord) (xs : List ResourceRecord)
    → (same_record o r ≡ true → found_ttl found ≢ none)
    → ttl_of r (apply_entries (entry_old o found) xs) ≡ ttl_of r xs
unfolding entry_old apply_entries apply_entry
entry_old_keeps r o none xs h = ground (arith, h, ttl_of-remove_other r o xs)
entry_old_keeps r o (some n) xs h = refl

count-entry_old :
    (r o : ResourceRecord) (found : Option ResourceRecord) (xs : List ResourceRecord)
    → (same_record o r ≡ true → found_ttl found ≡ none)
    → count r (apply_entries (entry_old o found) xs)
      ≡ (if same_record o r then count r xs - 1 else count r xs)
unfolding entry_old apply_entries apply_entry
count-entry_old r o none xs h = count-remove r o xs
count-entry_old r o (some n) xs h = ground (arith, h)

-- The second pass leaves an identity that the new records have.
pub diff_old_present :
    (r : ResourceRecord) (new os xs : List ResourceRecord)
    → ttl_of r new ≢ none
    → ttl_of r (apply_entries (diff_old new os) xs) ≡ ttl_of r xs
unfolding diff_old apply_entries
diff_old_present r new [] xs h = refl
diff_old_present r new (o ∷ os) xs h =
    let e = find (λ n. same_record n o) new in
    let ys = apply_entries (entry_old o e) xs in
    ground (
      arith,
      h,
      apply_entries-append (entry_old o e) (diff_old new os) xs,
      found_ttl-same r o new,
      entry_old_keeps r o e xs,
      diff_old_present r new os ys h,
    )

-- It removes as many records of another identity as the old zone had.
pub diff_old_absent :
    (r : ResourceRecord) (new os xs : List ResourceRecord)
    → ttl_of r new ≡ none
    → count r (apply_entries (diff_old new os) xs) ≡ count r xs - count r os
unfolding diff_old apply_entries count
diff_old_absent r new [] xs h = omega arith
diff_old_absent r new (o ∷ os) xs h =
    let e = find (λ n. same_record n o) new in
    let ys = apply_entries (entry_old o e) xs in
    ground (
      arith,
      h,
      apply_entries-append (entry_old o e) (diff_old new os) xs,
      found_ttl-same r o new,
      count-entry_old r o e xs,
      diff_old_absent r new os ys h,
    )
