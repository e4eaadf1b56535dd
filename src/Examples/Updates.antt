-- ===== src/Examples/Updates.antt =====
-- Update messages on concrete data: crates/bind9-sdk-core/src/update/ and `split_final_tsig` in
-- crates/bind9-sdk-net/src/transfer/wire.rs.
use bind9_sdk.Common.{ℕ, ◌≤◌, ◌≡◌, refl, some, none, [], ◌∷◌, ◌++◌, arith, length, ok}
use bind9_sdk.Common.Bytes.{Bytes, set_arcount}
use bind9_sdk.Core.Domain.{DomainName, wire_len, labels_len, write_wire, write_labels}
use bind9_sdk.Core.Domain.Plain.{plain_label, lowered}
use bind9_sdk.Core.Protocol.{a_type, type_value}
use bind9_sdk.Core.Rdata.{a}
use bind9_sdk.Core.Record.{internet, class_value}
use bind9_sdk.Core.Tsig.{TsigKey, hmac_sha1, sign, mac_length}
use bind9_sdk.Core.Tsig.Record.{
  TsigRecord, tsig_new, tsig_wire, tsig_rdata, mac_too_long, message_id,
}
use bind9_sdk.Core.Tsig.Made.{made_record, algorithm_name_lem}
use bind9_sdk.Core.Update.{
  UpdateBuilder, UpdateMessage, with_id, require_name_exists, require_rrset_not_exists, add_record,
  delete_name, wire_rr_count, name_exists, rrset_not_exists, add, remove_name,
}
use bind9_sdk.Core.Update.Rdata.{encode_rdata_with_length, encode_rdata, rdata_type_value}
use bind9_sdk.Core.Update.Message.{
  rr_octets, empty_rr, encode_prerequisite, encode_update_entry, prerequisite_count,
  encode_prerequisites, encode_updates, update_header, zone_section, encode_update_message,
  build_unsigned, arcount, sign_update,
}
use bind9_sdk.Core.Update.Sections.{IsWireName}
use bind9_sdk.Net.Wire.Tsig.{split_final_tsig}
use bind9_sdk.Net.Wire.Updates.{IsUpdate, split_final_tsig-build_unsigned}
use bind9_sdk.Net.Wire.SignedUpdates.{split_final_tsig-sign_update}
use bind9_sdk.Examples.Code.{name_code}
use bind9_sdk.Examples.Digest.{sum_hmac, sum_hmac-IsHmac}

abbrev zone : DomainName
zone = record { labels = plain_label (b'a' ∷ []) ∷ [] }

abbrev key : TsigKey
key = record {
  name = record { labels = plain_label (b'K' ∷ b'1' ∷ []) ∷ [] };
  algorithm = hmac_sha1;
  key_material = 1 ∷ 2 ∷ 3 ∷ [];
}

-- `a.` must exist and have no A record; it gets one, and is deleted.
abbrev builder : UpdateBuilder
builder = record {
  id = 7;
  zone = zone;
  class = internet;
  prerequisites = name_exists zone ∷ rrset_not_exists zone a_type ∷ [];
  updates =
      add (record { name = zone; class = internet; ttl = 60; rdata = a (192 ∷ 0 ∷ 2 ∷ 1 ∷ []) })
      ∷ remove_name zone
      ∷ [];
}

builder-made :
    delete_name
      (add_record
        (require_rrset_not_exists (require_name_exists (with_id 7 zone internet) zone) zone a_type)
        (record { name = zone; class = internet; ttl = 60; rdata = a (192 ∷ 0 ∷ 2 ∷ 1 ∷ []) }))
      zone
    ≡ builder
unfolding with_id require_name_exists require_rrset_not_exists add_record delete_name
builder-made = refl

-- Its message, with `ar` additional records in the header.
abbrev octets : ℕ → Bytes
octets ar =
    0 ∷ 7 ∷ 0x28 ∷ 0 ∷ 0 ∷ 1 ∷ 0 ∷ 2 ∷ 0 ∷ 2 ∷ 0 ∷ ar ∷ 1 ∷ b'a' ∷ 0 ∷ 0 ∷ 6 ∷ 0 ∷ 1 ∷ 1 ∷ b'a' ∷ 0
    ∷ 0 ∷ 255 ∷ 0 ∷ 255 ∷ 0 ∷ 0 ∷ 0 ∷ 0 ∷ 0 ∷ 0 ∷ 1 ∷ b'a' ∷ 0 ∷ 0 ∷ 1 ∷ 0 ∷ 254 ∷ 0 ∷ 0 ∷ 0 ∷ 0 ∷ 0
    ∷ 0 ∷ 1 ∷ b'a' ∷ 0 ∷ 0 ∷ 1 ∷ 0 ∷ 1 ∷ 0 ∷ 0 ∷ 0 ∷ 60 ∷ 0 ∷ 4 ∷ 192 ∷ 0 ∷ 2 ∷ 1 ∷ 1 ∷ b'a' ∷ 0 ∷ 0
    ∷ 255 ∷ 0 ∷ 255 ∷ 0 ∷ 0 ∷ 0 ∷ 0 ∷ 0 ∷ 0 ∷ []

abbrev unsigned : UpdateMessage
unsigned = record { wire_bytes = octets 0; id = 7; request_mac = none; pre_tsig_len = none }

unsigned-built : build_unsigned builder ≡ ok unsigned
unfolding build_unsigned encode_update_message encode_prerequisites encode_updates
    encode_prerequisite encode_update_entry update_header zone_section prerequisite_count
    wire_rr_count rr_octets empty_rr encode_rdata_with_length encode_rdata rdata_type_value
    write_wire write_labels type_value class_value
unsigned-built = refl

abbrev tsig : TsigRecord
tsig = made_record sum_hmac key (octets 0) 1000 none

tsig-made : tsig_new sum_hmac key (octets 0) 1000 none ≡ ok tsig
unfolding tsig_new sign mac_too_long message_id
tsig-made = rw (algorithm_name_lem hmac_sha1)

abbrev signed : UpdateMessage
signed = record {
  wire_bytes = octets 1 ++ tsig.wire_bytes;
  id = 7;
  request_mac = some tsig.mac;
  pre_tsig_len = some 75;
}

signed-made : sign_update sum_hmac builder key 1000 ≡ ok signed
unfolding sign_update arcount message_id set_arcount tsig_wire tsig_rdata mac_length name_code
signed-made = rw (unsigned-built, tsig-made) refl

zone-IsWireName : IsWireName zone
unfolding wire_len labels_len
zone-IsWireName = record {
  labels = (record { nonempty = omega arith; short = omega arith; octets = omega arith }, tt);
  fits = omega arith;
}

builder-IsUpdate : IsUpdate builder
unfolding type_value rdata_type_value
builder-IsUpdate = record {
  short_id = omega arith;
  zone = zone-IsWireName;
  prerequisites = (zone-IsWireName, ((zone-IsWireName, omega arith), tt));
  updates = ((zone-IsWireName, omega arith), (zone-IsWireName, tt));
}

split_final_tsig-build_unsigned_example :
    split_final_tsig unsigned.wire_bytes
    ≡ ok (record { unsigned_message = unsigned.wire_bytes; tsig = none })
split_final_tsig-build_unsigned_example =
    split_final_tsig-build_unsigned builder builder-IsUpdate unsigned-built

key-wire_len : wire_len key.name ≤ 255
unfolding wire_len labels_len
key-wire_len = omega arith

split_final_tsig-sign_update_example :
    (u : UpdateMessage) × (t : TsigRecord) × (build_unsigned builder ≡ ok u)
    × (tsig_new sum_hmac key u.wire_bytes 1000 none ≡ ok t)
    × (split_final_tsig signed.wire_bytes
        ≡ ok (record {
          unsigned_message = u.wire_bytes;
          tsig = some (record t { key_name = lowered key.name });
        }))
    × (signed.request_mac ≡ some t.mac)
    × (signed.pre_tsig_len ≡ some (length u.wire_bytes))
split_final_tsig-sign_update_example =
    split_final_tsig-sign_update sum_hmac builder key 1000 sum_hmac-IsHmac builder-IsUpdate
      (omega arith) key-wire_len signed-made
