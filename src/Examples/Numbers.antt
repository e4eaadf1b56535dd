-- ===== src/Examples/Numbers.antt =====
-- Serials, dates and code points: crates/bind9-sdk-core/src/record.rs and protocol.rs.
use bind9_sdk.Common.{ℕ, ◌+◌, ◌≤◌, ◌<◌, ◌^◌, ◌≡◌, ◌↔◌, refl, some, none, arith}
use bind9_sdk.Core.Record.{
  greater, serial_cmp, serial_add, next_serial, date_counter_strategy, days_to_civil, date_counter,
  date_base, serial_gt,
}
use bind9_sdk.Core.Record.Order.{serial_cmp-greater}
use bind9_sdk.Core.Record.Civil.{IsDate, ordinal, days_to_civil-IsDate, days_to_civil-ordinal}

serial_cmp_wraps : serial_cmp 5 4294967290 ≡ some greater
unfolding serial_cmp
serial_cmp_wraps = refl

serial_cmp_undefined : serial_cmp 0 2147483648 ≡ none
unfolding serial_cmp
serial_cmp_undefined = refl

-- 29 February 2024
days_to_civil_leap : days_to_civil 19782 ≡ (2024, 2, 29)
unfolding days_to_civil
days_to_civil_leap = refl

-- The counter of 19 May 2023 goes on, and behind 99 it leaves the day.
next_serial_counter : next_serial date_counter_strategy 1684500000 2023051907 ≡ 2023051908
unfolding next_serial date_counter date_base days_to_civil serial_add serial_gt serial_cmp
next_serial_counter = refl

next_serial_full : next_serial date_counter_strategy 1684500000 2023051999 ≡ 2023052000
unfolding next_serial date_counter date_base days_to_civil serial_add serial_gt serial_cmp
next_serial_full = refl

serial_cmp-greater_example :
    (serial_cmp 5 4294967290 ≡ some greater)
    ↔ ((n : ℕ) × (1 ≤ n) × (n < 2 ^ 31) × (5 ≡ serial_add 4294967290 n))
serial_cmp-greater_example = serial_cmp-greater 5 4294967290 (omega arith) (omega arith)

days_to_civil-ordinal_example : ordinal (days_to_civil 19782) ≡ 19782 + 719468
days_to_civil-ordinal_example = days_to_civil-ordinal 19782 (omega arith)

days_to_civil-IsDate_example : IsDate (days_to_civil 19782)
days_to_civil-IsDate_example = days_to_civil-IsDate 19782 (omega arith)
