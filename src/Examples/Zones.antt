-- ===== src/Examples/Zones.antt =====
-- The difference of two zones: crates/bind9-sdk-core/src/zone/diff.rs.
use bind9_sdk.Common.{ℕ, ◌≡◌, refl, false, [], ◌∷◌, arith, All}
use bind9_sdk.Common.Bytes.{equal, eq_ignore_ascii_case, to_ascii_lowercase}
use bind9_sdk.Core.Domain.{DomainName, name_eq, labels_eq, octets_eq}
use bind9_sdk.Core.Rdata.{a, soa, rdata_eq, fields_eq, field_eq, fields, variant, is_soa_data}
use bind9_sdk.Core.Record.{internet, ResourceRecord}
use bind9_sdk.Core.Zone.{
  Zone, record_added, record_removed, ttl_changed, zone_diff, diff_new, diff_old, entry_new,
  entry_old, keep, find, is_soa, same_record, class_eq, apply_diff,
}
use bind9_sdk.Core.Zone.Apply.{ttl_of, count}
use bind9_sdk.Core.Zone.Diff.{apply_diff-zone_diff}
use bind9_sdk.Core.Zone.Soa.{IsPlainEntry, apply_diff_soa}

abbrev name_of : ℕ → DomainName
name_of letter = record { labels = record { inner = letter ∷ []; wire = letter ∷ [] } ∷ [] }

abbrev address : ℕ → ℕ → ℕ → ResourceRecord
address letter octet ttl = record {
  name = name_of letter;
  class = internet;
  ttl = ttl;
  rdata = a (192 ∷ 0 ∷ 2 ∷ octet ∷ []);
}

abbrev soa_record : ℕ → ResourceRecord
soa_record serial = record {
  name = name_of b'z';
  class = internet;
  ttl = 60;
  rdata = soa (name_of b'z') (name_of b'z') serial 1 2 3 4;
}

abbrev old_zone : Zone
old_zone = record {
  name = name_of b'z';
  class = internet;
  records = soa_record 1 ∷ address b'x' 1 60 ∷ address b'y' 2 60 ∷ [];
}

abbrev new_zone : Zone
new_zone = record {
  name = name_of b'z';
  class = internet;
  records = soa_record 2 ∷ address b'X' 1 90 ∷ address b'w' 3 60 ∷ [];
}

zone_diff-zones :
    zone_diff old_zone new_zone
    ≡ ttl_changed (address b'X' 1 90) 60 90
      ∷ record_added (address b'w' 3 60)
      ∷ record_removed (address b'y' 2 60)
      ∷ []
unfolding zone_diff diff_new diff_old entry_new entry_old keep find is_soa is_soa_data same_record
    class_eq rdata_eq fields_eq field_eq fields variant name_eq labels_eq octets_eq
    eq_ignore_ascii_case to_ascii_lowercase equal
zone_diff-zones = refl

address-plain : is_soa (address b'x' 1 0) ≡ false
unfolding is_soa is_soa_data
address-plain = refl

address-once : count (address b'x' 1 0) new_zone.records ≡ 1
unfolding count same_record class_eq rdata_eq fields_eq field_eq fields variant name_eq labels_eq
    octets_eq eq_ignore_ascii_case to_ascii_lowercase equal
address-once = refl

apply_diff-zone_diff_example :
    ttl_of (address b'x' 1 0) (apply_diff old_zone (zone_diff old_zone new_zone)).records
    ≡ ttl_of (address b'x' 1 0) new_zone.records
apply_diff-zone_diff_example =
    apply_diff-zone_diff old_zone new_zone (address b'x' 1 0) address-plain
      (omega (arith, address-once))

apply_diff_soa_example :
    All IsPlainEntry (zone_diff old_zone new_zone)
    × (keep is_soa (apply_diff old_zone (zone_diff old_zone new_zone)).records
        ≡ keep is_soa old_zone.records)
apply_diff_soa_example = apply_diff_soa old_zone new_zone
