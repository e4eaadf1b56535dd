-- ===== src/Net/Transfer.antt =====
-- Zone transfers as the client reads them: crates/bind9-sdk-net/src/transfer/mod.rs.
-- `IxfrState`, the state machine over the records of an IXFR response.
pub mod Records
pub mod Grammar
pub mod Machine
pub mod Runs
pub mod Ixfr
pub mod Stream
pub mod Answers
pub mod Messages
pub mod Axfr
pub mod Incremental
pub mod Streamed
pub mod Sequence
pub mod Ends
pub mod Delivery
pub mod Checks
pub mod Accepted
pub mod Verifier
pub mod WireStream
pub mod Authentic
pub mod Between
pub mod Signed
pub mod Read
pub mod Ended
pub mod Closed
use bind9_sdk.Common.{
  ℕ, ◌+◌, Bool, true, false, not, ◌&&◌, ◌||◌, Option, none, some, List, [], ◌∷◌, ◌++◌, ltb, leb,
  ◌==◌, if◌then◌else◌, Result, ok, err, stuck, ◌>>=◌,
}
use bind9_sdk.Errors.{
  NetError, xfr_protocol_error, serial_mismatch, incomplete_transfer, transfer_failed,
}
use bind9_sdk.Core.Domain.{DomainName, name_eq}
use bind9_sdk.Core.Rdata.{RecordData, soa}
use bind9_sdk.Core.Record.{ResourceRecord, SerialOrdering, less, equal, greater, serial_cmp}
use bind9_sdk.Core.Transfer.{
  TransferRecord, begin_soa, zone_record, last_soa, IxfrEvent, no_change, current_soa, delete_soa,
  deleted, add_soa, added, end_soa, axfr_fallback,
}

pub data IxfrPhase : Type 0 where
  await_first : IxfrPhase
  -- current_soa, current_serial
  await_second : ResourceRecord → ℕ → IxfrPhase
  -- current_serial
  axfr : ℕ → IxfrPhase
  -- current_serial, from_serial
  delete : ℕ → ℕ → IxfrPhase
  -- current_serial, to_serial
  add : ℕ → ℕ → IxfrPhase
  complete : IxfrPhase

pub record IxfrState : Type 0 where
  pub zone : DomainName
  pub requested_serial : ℕ
  pub phase : IxfrPhase

unfoldable pub ixfr_new : DomainName → ℕ → IxfrState
ixfr_new zone serial = record { zone = zone; requested_serial = serial; phase = await_first }

unfoldable pub soa_serial : RecordData → Option ℕ
soa_serial (soa _ _ serial _ _ _ _) = some serial
soa_serial _ = none

unfoldable pub apex_soa_serial : ResourceRecord → DomainName → Option ℕ
apex_soa_serial r zone = if not (name_eq r.name zone) then none else soa_serial r.rdata

abbrev pub Step : Type 0
Step = Result NetError (IxfrPhase × List IxfrEvent)

-- The second record is an apex SOA with `base`.
unfoldable pub second_soa : ℕ → ResourceRecord → ℕ → ℕ → ResourceRecord → Step
second_soa requested current current_serial base r =
    if base == current_serial
    then ok (complete, axfr_fallback (begin_soa current) ∷ axfr_fallback (last_soa r) ∷ [])
    else if not (base == requested)
    then err (serial_mismatch requested base)
    else elim (serial_cmp current_serial base) [
      | some greater ↦ ok (delete current_serial base, current_soa current ∷ delete_soa r ∷ [])
      | some _ ↦ err (xfr_protocol_error "IXFR current serial is not newer than base serial")
      | none ↦ err (xfr_protocol_error "IXFR serial ordering is undefined by RFC 1982")
    ]

-- The apex SOA with the serial `to` that ends the deletions of a difference.
unfoldable pub delete_end : ℕ → ℕ → ℕ → ResourceRecord → Step
delete_end current_serial from to r = elim (serial_cmp to from) [
  | none ↦ err (xfr_protocol_error "IXFR serial ordering is undefined by RFC 1982")
  | some after_from ↦ elim (serial_cmp to current_serial) [
    | none ↦ err (xfr_protocol_error "IXFR serial ordering is undefined by RFC 1982")
    | some against_current ↦ elim after_from [
      | greater ↦ elim against_current [
        | greater ↦ err (xfr_protocol_error "invalid IXFR serial transition")
        | _ ↦ ok (add current_serial to, add_soa r ∷ [])
      ]
      | _ ↦ err (xfr_protocol_error "invalid IXFR serial transition")
    ]
  ]
]

-- The apex SOA with `serial` that ends the additions of a difference.
unfoldable pub add_end : ℕ → ℕ → ℕ → ResourceRecord → Step
add_end current_serial to serial r =
    if serial == current_serial
    then ok (complete, end_soa r ∷ [])
    else if serial == to
    then ok (delete current_serial to, delete_soa r ∷ [])
    else err (serial_mismatch to serial)

-- The `match phase` of `push`, on the record and its apex serial, if it has one.
unfoldable pub ixfr_step : ℕ → IxfrPhase → ResourceRecord → Option ℕ → Step
unfolding second_soa delete_end add_end
ixfr_step requested await_first r none =
    err (xfr_protocol_error "first record in IXFR response must be the zone SOA")
ixfr_step requested await_first r (some serial) = ok (await_second r serial, [])
ixfr_step requested (await_second current cs) r (some base) = second_soa requested current cs base r
ixfr_step requested (await_second current cs) r none =
    ok (axfr cs, axfr_fallback (begin_soa current) ∷ axfr_fallback (zone_record r) ∷ [])
ixfr_step requested (axfr cs) r (some serial) =
    if not (serial == cs)
    then err (serial_mismatch cs serial)
    else ok (complete, axfr_fallback (last_soa r) ∷ [])
ixfr_step requested (axfr cs) r none = ok (axfr cs, axfr_fallback (zone_record r) ∷ [])
ixfr_step requested (delete cs from) r (some to) = delete_end cs from to r
ixfr_step requested (delete cs from) r none = ok (delete cs from, deleted r ∷ [])
ixfr_step requested (add cs to) r (some serial) = add_end cs to serial r
ixfr_step requested (add cs to) r none = ok (add cs to, added r ∷ [])
ixfr_step requested complete r s = err (xfr_protocol_error "received records after IXFR completion")

-- `mem::replace` leaves `Complete` behind, so that is the phase after an error.
unfoldable pub push : IxfrState → ResourceRecord → IxfrState × Result NetError (List IxfrEvent)
push s r = elim (ixfr_step s.requested_serial s.phase r (apex_soa_serial r s.zone)) [
  | ok (phase, events) ↦ (record s { phase = phase }, ok events)
  | err e ↦ (record s { phase = complete }, err e)
  | stuck ↦ (record s { phase = complete }, stuck)
]

unfoldable pub finish : IxfrState → IxfrState × Result NetError (List IxfrEvent)
finish s = (
  record s { phase = complete },
  (elim s.phase [
    | await_second current _ ↦ ok (no_change current ∷ [])
    | complete ↦ ok []
    | _ ↦ err (incomplete_transfer "IXFR response ended before a complete delta or AXFR fallback")
  ]),
)

unfoldable pub is_complete : IxfrState → Bool
is_complete s = elim s.phase [ complete ↦ true | _ ↦ false ]

-- The records of a response, pushed one by one up to the first error.
unfoldable pub push_all :
    IxfrState → List ResourceRecord → IxfrState × Result NetError (List IxfrEvent)
push_all s [] = (s, ok [])
push_all s (r ∷ rs) =
    let (s', result) = push s r in
    elim result [
      | ok events ↦
          let (s'', more) = push_all s' rs in (s'', (more >>= λ later. ok (events ++ later)))
      | err e ↦ (s', err e)
      | stuck ↦ (s', stuck)
    ]
