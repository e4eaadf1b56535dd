-- ===== src/Core/Record.antt =====
-- TTLs, serials and their arithmetic, record classes, resource records:
-- crates/bind9-sdk-core/src/record.rs. A u32 is a number below 2 ^ 32 and its wrap is written out.
-- The system clock is an argument: the seconds since the Unix epoch.
pub mod Order
pub mod Strategy
pub mod Civil
use bind9_sdk.Common.{
  ℕ, ◌+◌, ◌-◌, ◌*◌, ◌/◌, ◌%◌, ◌^◌, Bool, true, false, ◌&&◌, Option, none, some, ltb, leb, ◌==◌,
  if◌then◌else◌, Result, ok, err,
}
use bind9_sdk.Errors.{CoreError, invalid_record}
use bind9_sdk.Core.Domain.{DomainName}
use bind9_sdk.Core.Rdata.{RecordData}

-- `Ttl::new`: the value if it is in range.
unfoldable pub ttl_new : ℕ → Result CoreError ℕ
ttl_new value =
    if ltb 2147483647 value then err (invalid_record "TTL exceeds maximum 2147483647") else ok value

-- `core::cmp::Ordering`
pub data SerialOrdering : Type 0 where
  less equal greater : SerialOrdering

-- `a.wrapping_sub(b)` and `a.wrapping_add(b)` on u32
abbrev pub wrapping_sub : ℕ → ℕ → ℕ
wrapping_sub a b = (a + 2 ^ 32 - b) % 2 ^ 32

abbrev pub wrapping_add : ℕ → ℕ → ℕ
wrapping_add a b = (a + b) % 2 ^ 32

-- `impl PartialOrd for Serial`
unfoldable pub serial_cmp : ℕ → ℕ → Option SerialOrdering
serial_cmp a b =
    let diff = wrapping_sub a b in
    if a == b
    then some equal
    else if diff == 2 ^ 31
    then none
    else if ltb diff (2 ^ 31)
    then some greater
    else some less

-- The operator `>` that `PartialOrd` derives from it.
unfoldable pub serial_gt : ℕ → ℕ → Bool
unfolding serial_cmp
serial_gt a b = elim (serial_cmp a b) [ some greater ↦ true | some _ ↦ false | none ↦ false ]

-- `impl Add<u32> for Serial`
unfoldable pub serial_add : ℕ → ℕ → ℕ
serial_add a rhs = wrapping_add a rhs

-- The year (as its u32 bit pattern), the month and the day. The code calls it with days that are
-- not negative, where the era is `z / 146097`.
unfoldable pub days_to_civil : ℕ → ℕ × ℕ × ℕ
days_to_civil days =
    let z = days + 719468 in
    let era = z / 146097 in
    let doe = z - era * 146097 in
    let yoe = (doe - doe / 1460 + doe / 36524 - doe / 146096) / 365 in
    let y = yoe + era * 400 in
    let doy = doe - (365 * yoe + yoe / 4 - yoe / 100) in
    let mp = (5 * doy + 2) / 153 in
    let d = doy - (153 * mp + 2) / 5 + 1 in
    let m = if ltb mp 10 then mp + 3 else mp - 9 in ((if leb m 2 then y + 1 else y) % 2 ^ 32, m, d)

unfoldable pub date_base : ℕ → ℕ
unfolding days_to_civil
date_base now =
    let (year, month, day) = days_to_civil (now / 86400) in
    (year * 10000 + month * 100 + day) % 2 ^ 32 * 100 % 2 ^ 32

-- `compute_date_counter_serial`, behind the computation of `today_base`.
unfoldable pub date_counter : ℕ → ℕ → ℕ
unfolding serial_gt serial_add
date_counter today_base current =
    if leb today_base current && ltb current (wrapping_add today_base 100)
    then (if leb 99 (current - today_base)
        then serial_add current 1
        else wrapping_add (today_base + (current - today_base)) 1)
    else if serial_gt today_base current
    then today_base
    else serial_add current 1

pub data SerialStrategy : Type 0 where
  date_counter_strategy unix_timestamp monotonic : SerialStrategy

-- `SerialStrategy::next` with the feature `std`, at the time `now`.
unfoldable pub next_serial : SerialStrategy → ℕ → ℕ → ℕ
unfolding serial_gt serial_add
next_serial monotonic now current = serial_add current 1
next_serial unix_timestamp now current =
    let stamp = now % 2 ^ 32 in if serial_gt stamp current then stamp else serial_add current 1
next_serial date_counter_strategy now current = date_counter (date_base now) current

pub data RecordClass : Type 0 where
  internet chaos hesiod any_class : RecordClass
  unknown_class : ℕ → RecordClass

unfoldable pub class_value : RecordClass → ℕ
class_value internet = 1
class_value chaos = 3
class_value hesiod = 4
class_value any_class = 255
class_value (unknown_class v) = v

unfoldable pub class_from_value : ℕ → RecordClass
class_from_value v =
    if v == 1
    then internet
    else if v == 3
    then chaos
    else if v == 4
    then hesiod
    else if v == 255
    then any_class
    else unknown_class v

pub record ResourceRecord : Type 0 where
  pub name : DomainName
  pub class : RecordClass
  pub ttl : ℕ
  pub rdata : RecordData
