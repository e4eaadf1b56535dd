-- ===== src/Core/Transfer.antt =====
-- Zone transfer sessions, records and events: crates/bind9-sdk-core/src/transfer.rs.
use bind9_sdk.Core.Record.{ResourceRecord}

pub data TransferRecord : Type 0 where
  begin_soa : ResourceRecord → TransferRecord
  zone_record : ResourceRecord → TransferRecord
  last_soa : ResourceRecord → TransferRecord

pub data IxfrEvent : Type 0 where
  no_change : ResourceRecord → IxfrEvent
  current_soa : ResourceRecord → IxfrEvent
  delete_soa : ResourceRecord → IxfrEvent
  deleted : ResourceRecord → IxfrEvent
  add_soa : ResourceRecord → IxfrEvent
  added : ResourceRecord → IxfrEvent
  end_soa : ResourceRecord → IxfrEvent
  axfr_fallback : TransferRecord → IxfrEvent
