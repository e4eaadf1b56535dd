-- ===== src/Core/Zone.antt =====
-- Zones and the difference of two zones: crates/bind9-sdk-core/src/zone/mod.rs (the data of a zone)
-- and crates/bind9-sdk-core/src/zone/diff.rs.
pub mod Identity
pub mod Apply
pub mod Passes
pub mod Diff
pub mod Soa
use bind9_sdk.Common.{
  ℕ, Bool, true, false, not, ◌&&◌, Option, none, some, List, [], ◌∷◌, ◌++◌, ◌==◌, if◌then◌else◌,
}
use bind9_sdk.Core.Domain.{DomainName, name_eq}
use bind9_sdk.Core.Rdata.{RecordData, soa, rdata_eq, is_soa_data}
use bind9_sdk.Core.Record.{
  RecordClass, internet, chaos, hesiod, any_class, unknown_class, ResourceRecord,
}

pub record Zone : Type 0 where
  pub name : DomainName
  pub class : RecordClass
  pub records : List ResourceRecord

pub data DiffEntry : Type 0 where
  record_added : ResourceRecord → DiffEntry
  record_removed : ResourceRecord → DiffEntry
  -- record, old_ttl, new_ttl
  ttl_changed : ResourceRecord → ℕ → ℕ → DiffEntry

-- `Iterator::filter`, `find` and `any`, with their predicate.
module _ {ℓ} {A : Type ℓ} where
  unfoldable pub keep : (A → Bool) → List A → List A
  keep p [] = []
  keep p (x ∷ xs) = if p x then x ∷ keep p xs else keep p xs

  unfoldable pub find : (A → Bool) → List A → Option A
  find p [] = none
  find p (x ∷ xs) = if p x then some x else find p xs

-- The derived `PartialEq` for `RecordClass`.
unfoldable pub class_eq : RecordClass → RecordClass → Bool
class_eq internet internet = true
class_eq chaos chaos = true
class_eq hesiod hesiod = true
class_eq any_class any_class = true
class_eq (unknown_class m) (unknown_class n) = m == n
class_eq _ _ = false

-- `a.name == b.name && a.class == b.class && a.rdata == b.rdata`
unfoldable pub same_record : ResourceRecord → ResourceRecord → Bool
same_record a b = name_eq a.name b.name && class_eq a.class b.class && rdata_eq a.rdata b.rdata

unfoldable pub is_soa : ResourceRecord → Bool
is_soa r = is_soa_data r.rdata

-- The first pass of `Zone::diff`: what it pushes for a new record, given the old record that is the
-- same, if there is one, and what it pushes for all of them.
unfoldable pub entry_new : ResourceRecord → Option ResourceRecord → List DiffEntry
entry_new n none = record_added n ∷ []
entry_new n (some o) = if not (o.ttl == n.ttl) then ttl_changed n o.ttl n.ttl ∷ [] else []

unfoldable pub diff_new : List ResourceRecord → List ResourceRecord → List DiffEntry
diff_new old [] = []
diff_new old (n ∷ ns) = entry_new n (find (λ o. same_record o n) old) ++ diff_new old ns

-- The second pass: the old records that are not there any more.
unfoldable pub entry_old : ResourceRecord → Option ResourceRecord → List DiffEntry
entry_old o none = record_removed o ∷ []
entry_old o (some n) = []

unfoldable pub diff_old : List ResourceRecord → List ResourceRecord → List DiffEntry
diff_old new [] = []
diff_old new (o ∷ os) = entry_old o (find (λ n. same_record n o) new) ++ diff_old new os

unfoldable pub zone_diff : Zone → Zone → List DiffEntry
unfolding diff_new diff_old
zone_diff self other =
    let old = keep (λ r. not (is_soa r)) self.records in
    let new = keep (λ r. not (is_soa r)) other.records in diff_new old new ++ diff_old new old

-- `position` and `remove`
unfoldable pub remove_first : ResourceRecord → List ResourceRecord → List ResourceRecord
remove_first r [] = []
remove_first r (x ∷ xs) = if same_record x r then xs else x ∷ remove_first r xs

-- `iter_mut().find` and the write of the TTL
unfoldable pub set_first_ttl : ResourceRecord → ℕ → List ResourceRecord → List ResourceRecord
set_first_ttl r ttl [] = []
set_first_ttl r ttl (x ∷ xs) =
    if same_record x r then record x { ttl = ttl } ∷ xs else x ∷ set_first_ttl r ttl xs

unfoldable pub apply_entry : DiffEntry → List ResourceRecord → List ResourceRecord
apply_entry (record_added r) records = records ++ (r ∷ [])
apply_entry (record_removed r) records = remove_first r records
apply_entry (ttl_changed r _ new_ttl) records = set_first_ttl r new_ttl records

unfoldable pub apply_entries : List DiffEntry → List ResourceRecord → List ResourceRecord
apply_entries [] records = records
apply_entries (e ∷ es) records = apply_entries es (apply_entry e records)

unfoldable pub apply_diff : Zone → List DiffEntry → Zone
apply_diff self diff = record self { records = apply_entries diff self.records }
