-- ===== src/Core/Zone/Soa.antt =====
-- The SOA records of a zone to which a difference is applied.
use bind9_sdk.Common.{
  ℕ, ◌≡◌, refl, ◌∙◌, Bool, true, false, not, Option, none, some, List, [], ◌∷◌, ◌++◌, ◌==◌,
  if◌then◌else◌, arith, All, All-append,
}
use bind9_sdk.Core.Record.{ResourceRecord}
use bind9_sdk.Core.Zone.{
  Zone, DiffEntry, record_added, record_removed, ttl_changed, keep, is_soa, entry_new, entry_old,
  diff_new, diff_old, zone_diff, remove_first, set_first_ttl, apply_entry, apply_entries,
  apply_diff,
}
use bind9_sdk.Core.Zone.Identity.{same_record-is_soa}

abbrev entry_record : DiffEntry → ResourceRecord
entry_record (record_added r) = r
entry_record (record_removed r) = r
entry_record (ttl_changed r _ _) = r

abbrev IsPlain : ResourceRecord → Type 0
IsPlain r = is_soa r ≡ false

abbrev pub IsPlainEntry : DiffEntry → Type 0
IsPlainEntry e = IsPlain (entry_record e)

keep-append :
    (xs : List ResourceRecord) (r : ResourceRecord)
    → IsPlain r
    → keep is_soa (xs ++ (r ∷ [])) ≡ keep is_soa xs
unfolding keep
keep-append [] r h = ground (arith, h)
keep-append (x ∷ xs) r h = ground (arith, h, keep-append xs r h)

keep-remove_first :
    (r : ResourceRecord) (xs : List ResourceRecord)
    → IsPlain r
    → keep is_soa (remove_first r xs) ≡ keep is_soa xs
unfolding keep remove_first
keep-remove_first r [] h = refl
keep-remove_first r (x ∷ xs) h = ground (arith, h, keep-remove_first r xs h, same_record-is_soa x r)

is_soa-set_ttl : (x : ResourceRecord) (t : ℕ) → is_soa (record x { ttl = t }) ≡ is_soa x
unfolding is_soa
is_soa-set_ttl x t = refl

keep-set_first_ttl :
    (r : ResourceRecord) (t : ℕ) (xs : List ResourceRecord)
    → IsPlain r
    → keep is_soa (set_first_ttl r t xs) ≡ keep is_soa xs
unfolding keep set_first_ttl
keep-set_first_ttl r t [] h = refl
keep-set_first_ttl r t (x ∷ xs) h =
    ground (arith, h, keep-set_first_ttl r t xs h, same_record-is_soa x r, is_soa-set_ttl x t)

keep-apply_entry :
    (e : DiffEntry) (xs : List ResourceRecord)
    → IsPlainEntry e
    → keep is_soa (apply_entry e xs) ≡ keep is_soa xs
unfolding apply_entry
keep-apply_entry (record_added r) xs h = keep-append xs r h
keep-apply_entry (record_removed r) xs h = keep-remove_first r xs h
keep-apply_entry (ttl_changed r _ t) xs h = keep-set_first_ttl r t xs h

keep-apply_entries :
    (es : List DiffEntry) (xs : List ResourceRecord)
    → All IsPlainEntry es
    → keep is_soa (apply_entries es xs) ≡ keep is_soa xs
unfolding apply_entries
keep-apply_entries [] xs h = refl
keep-apply_entries (e ∷ es) xs h =
    keep-apply_entries es (apply_entry e xs) h.1 ∙ keep-apply_entry e xs h.0

All-if {ℓ κ} :
    {A : Type ℓ} (P : A → Type κ) (b : Bool) (xs ys : List A)
    → (b ≡ true → All P xs)
    → (b ≡ false → All P ys)
    → All P (if b then xs else ys)
All-if P true xs ys hx hy = hx refl
All-if P false xs ys hx hy = hy refl

keep-IsPlain : (xs : List ResourceRecord) → All IsPlain (keep (λ r. not (is_soa r)) xs)
unfolding keep
keep-IsPlain [] = tt
keep-IsPlain (x ∷ xs) =
    All-if IsPlain (not (is_soa x)) (x ∷ keep (λ r. not (is_soa r)) xs) _
      (λ b. (ground (arith, b), keep-IsPlain xs)) (λ b. keep-IsPlain xs)

entry_new-IsPlain :
    (n : ResourceRecord) (found : Option ResourceRecord)
    → IsPlain n
    → All IsPlainEntry (entry_new n found)
unfolding entry_new
entry_new-IsPlain n none h = (h, tt)
entry_new-IsPlain n (some o) h =
    All-if IsPlainEntry (not (o.ttl == n.ttl)) (ttl_changed n o.ttl n.ttl ∷ []) [] (λ b. (h, tt))
      (λ b. tt)

diff_new-IsPlain :
    (old new : List ResourceRecord) → All IsPlain new → All IsPlainEntry (diff_new old new)
unfolding diff_new
diff_new-IsPlain old [] h = tt
diff_new-IsPlain old (n ∷ ns) h =
    All-append IsPlainEntry _ _ (entry_new-IsPlain n _ h.0) (diff_new-IsPlain old ns h.1)

entry_old-IsPlain :
    (o : ResourceRecord) (found : Option ResourceRecord)
    → IsPlain o
    → All IsPlainEntry (entry_old o found)
unfolding entry_old
entry_old-IsPlain o none h = (h, tt)
entry_old-IsPlain o (some n) h = tt

diff_old-IsPlain :
    (new old : List ResourceRecord) → All IsPlain old → All IsPlainEntry (diff_old new old)
unfolding diff_old
diff_old-IsPlain new [] h = tt
diff_old-IsPlain new (o ∷ os) h =
    All-append IsPlainEntry _ _ (entry_old-IsPlain o _ h.0) (diff_old-IsPlain new os h.1)

zone_diff-IsPlain : (old new : Zone) → All IsPlainEntry (zone_diff old new)
unfolding zone_diff
zone_diff-IsPlain old new =
    All-append IsPlainEntry _ _ (diff_new-IsPlain _ _ (keep-IsPlain new.records))
      (diff_old-IsPlain _ _ (keep-IsPlain old.records))

-- The difference of two zones names no SOA record, and, applied to the old one, leaves the SOA
-- records of the old one as they are, in their order.
pub apply_diff_soa :
    (old new : Zone)
    → All IsPlainEntry (zone_diff old new)
      × (keep is_soa (apply_diff old (zone_diff old new)).records ≡ keep is_soa old.records)
unfolding apply_diff
apply_diff_soa old new =
    let plain = zone_diff-IsPlain old new in
    (plain, keep-apply_entries (zone_diff old new) old.records plain)
