-- ===== src/Net/Transfer/Grammar.antt =====
-- The responses that the client accepts, as derivations, with the events that they stand for
-- (`IxfrState` in crates/bind9-sdk-net/src/transfer/mod.rs). Beyond RFC 1995, an SOA
-- with the current serial ends a response behind the additions of any difference, whatever serial
-- that difference leads to.
use bind9_sdk.Common.{ℕ, ◌≡◌, ◌≢◌, ◌⊎◌, none, some, List, [], ◌∷◌}
use bind9_sdk.Core.Domain.{DomainName}
use bind9_sdk.Core.Record.{ResourceRecord, less, equal, greater, serial_cmp}
use bind9_sdk.Core.Transfer.{
  begin_soa, zone_record, last_soa, IxfrEvent, current_soa, delete_soa, deleted, add_soa, added,
  end_soa, axfr_fallback,
}
use bind9_sdk.Net.Transfer.{apex_soa_serial}

-- `to` is a serial that a difference may lead to: newer than `from`, and not newer than `current`.
pub record IsBetween (from current to : ℕ) : Type 0 where
  pub newer : serial_cmp to from ≡ some greater
  pub reached : (serial_cmp to current ≡ some less) ⊎ (serial_cmp to current ≡ some equal)

module _ (zone : DomainName) where
  -- The records behind the first SOA of a full transfer, up to the closing SOA.
  pub data AxfrRest (cs : ℕ) : List ResourceRecord → List IxfrEvent → Type 0 where
    axfr_record :
        {r : ResourceRecord} {rs : List ResourceRecord} {es : List IxfrEvent}
        → apex_soa_serial r zone ≡ none
        → AxfrRest cs rs es
        → AxfrRest cs (r ∷ rs) (axfr_fallback (zone_record r) ∷ es)
    axfr_end :
        {r : ResourceRecord}
        → apex_soa_serial r zone ≡ some cs
        → AxfrRest cs (r ∷ []) (axfr_fallback (last_soa r) ∷ [])

  -- Differences, oldest first: the deletions of one from `from` on, or its additions to `to`.
  mutual
    pub data Deletions (cs : ℕ) : ℕ → List ResourceRecord → List IxfrEvent → Type 0 where
      one_deleted :
          {from : ℕ} {r : ResourceRecord} {rs : List ResourceRecord} {es : List IxfrEvent}
          → apex_soa_serial r zone ≡ none
          → Deletions cs from rs es
          → Deletions cs from (r ∷ rs) (deleted r ∷ es)
      then_added :
          {from : ℕ} (to : ℕ) {r : ResourceRecord} {rs : List ResourceRecord} {es : List IxfrEvent}
          → apex_soa_serial r zone ≡ some to
          → IsBetween from cs to
          → Additions cs to rs es
          → Deletions cs from (r ∷ rs) (add_soa r ∷ es)

    pub data Additions (cs : ℕ) : ℕ → List ResourceRecord → List IxfrEvent → Type 0 where
      one_added :
          {to : ℕ} {r : ResourceRecord} {rs : List ResourceRecord} {es : List IxfrEvent}
          → apex_soa_serial r zone ≡ none
          → Additions cs to rs es
          → Additions cs to (r ∷ rs) (added r ∷ es)
      next_difference :
          {to : ℕ} {r : ResourceRecord} {rs : List ResourceRecord} {es : List IxfrEvent}
          → apex_soa_serial r zone ≡ some to
          → to ≢ cs
          → Deletions cs to rs es
          → Additions cs to (r ∷ rs) (delete_soa r ∷ es)
      last_difference :
          {to : ℕ} {r : ResourceRecord}
          → apex_soa_serial r zone ≡ some cs
          → Additions cs to (r ∷ []) (end_soa r ∷ [])

  -- A whole response to a request with the serial `requested`.
  pub data Response (requested : ℕ) : List ResourceRecord → List IxfrEvent → Type 0 where
    differences :
        (cs : ℕ) {first second : ResourceRecord} {rs : List ResourceRecord} {es : List IxfrEvent}
        → apex_soa_serial first zone ≡ some cs
        → apex_soa_serial second zone ≡ some requested
        → serial_cmp cs requested ≡ some greater
        → Deletions cs requested rs es
        → Response requested (first ∷ second ∷ rs) (current_soa first ∷ delete_soa second ∷ es)
    full_zone :
        (cs : ℕ) {first second : ResourceRecord} {rs : List ResourceRecord} {es : List IxfrEvent}
        → apex_soa_serial first zone ≡ some cs
        → apex_soa_serial second zone ≡ none
        → AxfrRest cs rs es
        → Response requested
            (first ∷ second ∷ rs)
            (axfr_fallback (begin_soa first) ∷ axfr_fallback (zone_record second) ∷ es)
    empty_zone :
        (cs : ℕ) {first second : ResourceRecord}
        → apex_soa_serial first zone ≡ some cs
        → apex_soa_serial second zone ≡ some cs
        → Response requested
            (first ∷ second ∷ [])
            (axfr_fallback (begin_soa first) ∷ axfr_fallback (last_soa second) ∷ [])
