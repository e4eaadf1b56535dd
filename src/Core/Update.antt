-- ===== src/Core/Update.antt =====
-- Dynamic updates (RFC 2136): crates/bind9-sdk-core/src/update/mod.rs and builder.rs.
-- The random ID of `UpdateBuilder::new` and the time of `sign_now` are arguments.
pub mod Rdata
pub mod Message
pub mod Sections
pub mod Encoded
use bind9_sdk.Common.{
  ℕ, ◌+◌, ◌^◌, Option, none, some, List, [], ◌∷◌, ◌++◌, leb, length, Result, ok, err, ◌>>=◌, ◌>>◌,
  ensure,
}
use bind9_sdk.Common.Bytes.{Bytes, set_arcount}
use bind9_sdk.Errors.{CoreError, invalid_record}
use bind9_sdk.Core.Domain.{DomainName}
use bind9_sdk.Core.Protocol.{RecordType}
use bind9_sdk.Core.Record.{RecordClass, ResourceRecord}

pub data Prerequisite : Type 0 where
  rrset_exists : DomainName → RecordType → Prerequisite
  rrset_not_exists : DomainName → RecordType → Prerequisite
  name_exists : DomainName → Prerequisite
  name_not_exists : DomainName → Prerequisite
  rrset_exists_with_data : DomainName → RecordType → List ResourceRecord → Prerequisite

-- `Prerequisite::wire_rr_count`
unfoldable pub wire_rr_count : Prerequisite → ℕ
wire_rr_count (rrset_exists_with_data _ _ records) = length records
wire_rr_count _ = 1

pub data UpdateEntry : Type 0 where
  add : ResourceRecord → UpdateEntry
  remove_rrset : DomainName → RecordType → UpdateEntry
  remove : ResourceRecord → UpdateEntry
  remove_name : DomainName → UpdateEntry

-- `UpdateBuilder<Unsigned>`
pub record UpdateBuilder : Type 0 where
  pub id : ℕ
  pub zone : DomainName
  pub class : RecordClass
  pub prerequisites : List Prerequisite
  pub updates : List UpdateEntry

pub record UpdateMessage : Type 0 where
  pub wire_bytes : Bytes
  pub id : ℕ
  pub request_mac : Option Bytes
  pub pre_tsig_len : Option ℕ

unfoldable pub with_id : ℕ → DomainName → RecordClass → UpdateBuilder
with_id id zone class = record {
  id = id;
  zone = zone;
  class = class;
  prerequisites = [];
  updates = [];
}

abbrev require : Prerequisite → UpdateBuilder → UpdateBuilder
require p b = record b { prerequisites = b.prerequisites ++ (p ∷ []) }

abbrev update : UpdateEntry → UpdateBuilder → UpdateBuilder
update u b = record b { updates = b.updates ++ (u ∷ []) }

unfoldable pub require_rrset_exists : UpdateBuilder → DomainName → RecordType → UpdateBuilder
require_rrset_exists b name rtype = require (rrset_exists name rtype) b

unfoldable pub require_rrset_not_exists : UpdateBuilder → DomainName → RecordType → UpdateBuilder
require_rrset_not_exists b name rtype = require (rrset_not_exists name rtype) b

unfoldable pub require_name_exists : UpdateBuilder → DomainName → UpdateBuilder
require_name_exists b name = require (name_exists name) b

unfoldable pub require_name_not_exists : UpdateBuilder → DomainName → UpdateBuilder
require_name_not_exists b name = require (name_not_exists name) b

unfoldable pub require_rrset_exists_with_data :
    UpdateBuilder → DomainName → RecordType → List ResourceRecord → Result CoreError UpdateBuilder
require_rrset_exists_with_data b name rtype [] =
    err (invalid_record "RrsetExistsWithData requires non-empty records")
require_rrset_exists_with_data b name rtype (r ∷ rs) =
    ok (require (rrset_exists_with_data name rtype (r ∷ rs)) b)

unfoldable pub add_record : UpdateBuilder → ResourceRecord → UpdateBuilder
add_record b r = update (add r) b

unfoldable pub delete_rrset : UpdateBuilder → DomainName → RecordType → UpdateBuilder
delete_rrset b name rtype = update (remove_rrset name rtype) b

unfoldable pub delete_record : UpdateBuilder → ResourceRecord → UpdateBuilder
delete_record b r = update (remove r) b

unfoldable pub delete_name : UpdateBuilder → DomainName → UpdateBuilder
delete_name b name = update (remove_name name) b
