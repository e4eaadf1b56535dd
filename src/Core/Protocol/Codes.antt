-- ===== src/Core/Protocol/Codes.antt =====
-- The numbers of the variants (crates/bind9-sdk-core/src/protocol.rs).
use bind9_sdk.Common.{ℕ, ◌≡◌, arith}
use bind9_sdk.Core.Protocol.{type_from_value, type_value, rcode_from_value, rcode_value}

-- The number of the record type that `from_value` makes of a number is that number.
type_value-from_value : (v : ℕ) → type_value (type_from_value v) ≡ v
unfolding type_value type_from_value
type_value-from_value v = ground arith

-- The number of the response code that `from_value` makes of a number is that number.
rcode_value-from_value : (v : ℕ) → rcode_value (rcode_from_value v) ≡ v
unfolding rcode_value rcode_from_value
rcode_value-from_value v = ground arith
