-- ===== src/Core/Zone/Diff.antt =====
-- `Zone::apply_diff` after `Zone::diff`.
use bind9_sdk.Common.{◌≤◌, ◌≡◌, refl, Bool, false, not, none, List, [], ◌∷◌, ◌++◌, arith}
use bind9_sdk.Core.Record.{ResourceRecord}
use bind9_sdk.Core.Zone.{
  Zone, keep, is_soa, diff_new, diff_old, zone_diff, apply_entries, apply_diff,
}
use bind9_sdk.Core.Zone.Identity.{same_record-is_soa}
use bind9_sdk.Core.Zone.Apply.{ttl_of, count, ttl_of-count_zero}
use bind9_sdk.Core.Zone.Passes.{
  apply_entries-append, diff_new_other, diff_new_same, diff_old_present, diff_old_absent,
}

abbrev plain : ResourceRecord → Bool
plain r = not (is_soa r)

ttl_of-keep :
    (r : ResourceRecord) (xs : List ResourceRecord)
    → is_soa r ≡ false
    → ttl_of r (keep plain xs) ≡ ttl_of r xs
unfolding ttl_of keep
ttl_of-keep r [] h = refl
ttl_of-keep r (x ∷ xs) h = ground (arith, h, ttl_of-keep r xs h, same_record-is_soa x r)

count-keep :
    (r : ResourceRecord) (xs : List ResourceRecord)
    → is_soa r ≡ false
    → count r (keep plain xs) ≡ count r xs
unfolding count keep
count-keep r [] h = refl
count-keep r (x ∷ xs) h = ground (arith, h, count-keep r xs h, same_record-is_soa x r)

count-ttl_of-none :
    (r : ResourceRecord) (xs : List ResourceRecord) → ttl_of r xs ≡ none → count r xs ≡ 0
unfolding ttl_of count
count-ttl_of-none r [] h = refl
count-ttl_of-none r (x ∷ xs) h = ground (arith, h, count-ttl_of-none r xs)

-- Both passes over lists of records: an identity that is at most once among the new records.
passes-ttl_of :
    (r : ResourceRecord) (os ns xs : List ResourceRecord)
    → count r ns ≤ 1
    → ttl_of r xs ≡ ttl_of r os
    → count r xs ≡ count r os
    → ttl_of r (apply_entries (diff_new os ns ++ diff_old ns os) xs) ≡ ttl_of r ns
passes-ttl_of r os ns xs h k c =
    let ys = apply_entries (diff_new os ns) xs in
    ground (
      arith,
      apply_entries-append (diff_new os ns) (diff_old ns os) xs,
      diff_new_other r os ns xs,
      diff_new_same r os ns xs,
      diff_old_present r ns os ys,
      diff_old_absent r ns os ys,
      ttl_of-count_zero r ns,
      count-ttl_of-none r ns,
      ttl_of-count_zero r (apply_entries (diff_old ns os) ys),
    )

-- The difference of two zones, applied to the old one, gives every record identity (name, class and
-- data) that is no SOA, and that the new zone has at most once, the TTL it has in the new zone: it
-- is there with that TTL if the new zone has it, and is gone if the new zone does not.
pub apply_diff-zone_diff :
    (old new : Zone) (r : ResourceRecord)
    → is_soa r ≡ false
    → count r new.records ≤ 1
    → ttl_of r (apply_diff old (zone_diff old new)).records ≡ ttl_of r new.records
unfolding apply_diff zone_diff
apply_diff-zone_diff old new r h k = ground (
  arith,
  h,
  k,
  passes-ttl_of r (keep plain old.records) (keep plain new.records) old.records,
  ttl_of-keep r old.records h,
  ttl_of-keep r new.records h,
  count-keep r old.records h,
  count-keep r new.records h,
)
