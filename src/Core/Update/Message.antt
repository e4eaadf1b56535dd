-- ===== src/Core/Update/Message.antt =====
-- Update messages in the wire format: `encode_update_message` in
-- crates/bind9-sdk-core/src/update/message.rs, and `build_unsigned` and `sign_inner` in builder.rs.
use bind9_sdk.Common.{
  ℕ, ◌+◌, none, some, List, [], ◌∷◌, ◌++◌, leb, length, drop, Result, ok, ◌>>=◌, ◌>>◌, ensure,
}
use bind9_sdk.Common.Bytes.{Bytes, u16_bytes, u32_bytes, set_arcount}
use bind9_sdk.Errors.{CoreError, invalid_record}
use bind9_sdk.Core.Domain.{DomainName, write_wire}
use bind9_sdk.Core.Protocol.{type_value}
use bind9_sdk.Core.Record.{RecordClass, class_value, ResourceRecord}
use bind9_sdk.Core.Tsig.{Hmac, TsigKey}
use bind9_sdk.Core.Tsig.Record.{message_id, tsig_new}
use bind9_sdk.Core.Update.{
  Prerequisite, rrset_exists, rrset_not_exists, name_exists, name_not_exists,
  rrset_exists_with_data, wire_rr_count, UpdateEntry, add, remove_rrset, remove, remove_name,
  UpdateBuilder, UpdateMessage,
}
use bind9_sdk.Core.Update.Rdata.{rdata_type_value, encode_rdata_with_length}

-- Name, type, class, TTL, and the data with its length in front.
unfoldable pub rr_octets : DomainName → ℕ → ℕ → ℕ → Bytes → Bytes
rr_octets name rtype class ttl rdata =
    write_wire name ++ (u16_bytes rtype ++ (u16_bytes class ++ (u32_bytes ttl ++ rdata)))

-- TTL 0 and RDLENGTH 0.
unfoldable pub empty_rr : DomainName → ℕ → ℕ → Bytes
unfolding rr_octets
empty_rr name rtype class = rr_octets name rtype class 0 (u16_bytes 0)

-- The loop over the records of `RrsetExistsWithData`.
unfoldable pub encode_with_data : DomainName → ℕ → ℕ → List ResourceRecord → Result CoreError Bytes
encode_with_data name rtype class [] = ok []
encode_with_data name rtype class (r ∷ rs) = do
  rdata ← encode_rdata_with_length r.rdata
  later ← encode_with_data name rtype class rs
  ok (rr_octets name rtype class 0 rdata ++ later)

unfoldable pub encode_prerequisite : Prerequisite → RecordClass → Result CoreError Bytes
unfolding empty_rr
encode_prerequisite (rrset_exists name rtype) zone_class = ok (empty_rr name (type_value rtype) 255)
encode_prerequisite (rrset_not_exists name rtype) zone_class =
    ok (empty_rr name (type_value rtype) 254)
encode_prerequisite (name_exists name) zone_class = ok (empty_rr name 255 255)
encode_prerequisite (name_not_exists name) zone_class = ok (empty_rr name 255 254)
encode_prerequisite (rrset_exists_with_data name rtype records) zone_class =
    encode_with_data name (type_value rtype) (class_value zone_class) records

unfoldable pub encode_update_entry : UpdateEntry → Result CoreError Bytes
unfolding empty_rr
encode_update_entry (add rr) = do
  rdata ← encode_rdata_with_length rr.rdata
  ok (rr_octets rr.name (rdata_type_value rr.rdata) (class_value rr.class) rr.ttl rdata)
encode_update_entry (remove_rrset name rtype) = ok (empty_rr name (type_value rtype) 255)
encode_update_entry (remove rr) = do
  rdata ← encode_rdata_with_length rr.rdata
  ok (rr_octets rr.name (rdata_type_value rr.rdata) 254 0 rdata)
encode_update_entry (remove_name name) = ok (empty_rr name 255 255)

-- `try_fold` over `wire_rr_count`: a sum of lengths of lists does not overflow.
unfoldable pub prerequisite_count : List Prerequisite → ℕ
prerequisite_count [] = 0
prerequisite_count (p ∷ ps) = wire_rr_count p + prerequisite_count ps

-- The loops over the two sections.
unfoldable pub encode_prerequisites : List Prerequisite → RecordClass → Result CoreError Bytes
encode_prerequisites [] class = ok []
encode_prerequisites (p ∷ ps) class = do
  here ← encode_prerequisite p class
  later ← encode_prerequisites ps class
  ok (here ++ later)

unfoldable pub encode_updates : List UpdateEntry → Result CoreError Bytes
encode_updates [] = ok []
encode_updates (u ∷ us) = do
  here ← encode_update_entry u
  later ← encode_updates us
  ok (here ++ later)

-- ID, flags with the opcode UPDATE, one zone, and the counts of the other sections.
unfoldable pub update_header : ℕ → ℕ → ℕ → Bytes
update_header id prcount upcount =
    u16_bytes id
    ++ (0x28 ∷ 0 ∷ (u16_bytes 1 ++ (u16_bytes prcount ++ (u16_bytes upcount ++ u16_bytes 0))))

-- The zone section: name, type SOA and class.
unfoldable pub zone_section : DomainName → RecordClass → Bytes
zone_section zone class = write_wire zone ++ (u16_bytes 6 ++ u16_bytes (class_value class))

unfoldable pub encode_update_message :
    ℕ
    → DomainName
    → RecordClass
    → List Prerequisite
    → List UpdateEntry
    → Result CoreError UpdateMessage
encode_update_message id zone class prerequisites updates = do
  let prcount = prerequisite_count prerequisites
  ensure (leb prcount 65535) (invalid_record "prerequisite count exceeds 65535")
  ensure (leb (length updates) 65535) (invalid_record "update count exceeds 65535")
  prerequisite_section ← encode_prerequisites prerequisites class
  update_section ← encode_updates updates
  let wire =
      update_header id prcount (length updates)
      ++ (zone_section zone class ++ (prerequisite_section ++ update_section))
  ensure (leb (length wire) 65535) (invalid_record "DNS update message exceeds 65535 bytes")
  ok (record { wire_bytes = wire; id = id; request_mac = none; pre_tsig_len = none })

-- `build_unsigned`
unfoldable pub build_unsigned : UpdateBuilder → Result CoreError UpdateMessage
build_unsigned b = encode_update_message b.id b.zone b.class b.prerequisites b.updates

-- `u16::from_be_bytes([wire[10], wire[11]])`: the message has a header.
unfoldable pub arcount : Bytes → ℕ
unfolding message_id
arcount wire = message_id (drop 10 wire)

-- `sign_inner` and `build`. The count has room: there is no additional record before.
unfoldable pub sign_update : Hmac → UpdateBuilder → TsigKey → ℕ → Result CoreError UpdateMessage
sign_update h b key timestamp = do
  unsigned ← build_unsigned b
  tsig ← tsig_new h key unsigned.wire_bytes timestamp none
  let wire = set_arcount (arcount unsigned.wire_bytes + 1) unsigned.wire_bytes ++ tsig.wire_bytes
  ensure (leb (length wire) 65535) (invalid_record "TSIG-signed DNS update exceeds 65535 bytes")
  ok (record {
    wire_bytes = wire;
    id = b.id;
    request_mac = some tsig.mac;
    pre_tsig_len = some (length unsigned.wire_bytes);
  })
