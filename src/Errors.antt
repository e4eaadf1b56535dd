-- ===== src/Errors.antt =====
-- The error types: crates/bind9-sdk-core/src/error.rs (`CoreError`) and
-- crates/bind9-sdk-net/src/error.rs (`NetError`).
-- A message is kept as its fixed text. The values that `format!` puts into it are dropped, since no
-- code looks at them; a payload that code does read (an RCODE, a serial) stays.
use bind9_sdk.Common.{ℕ, String, Option}

-- `CoreError`. The offending name and the path are dropped from `InvalidName`, `NamedConfParse`.
pub data CoreError : Type 0 where
  invalid_name : String → CoreError
  invalid_label : String → CoreError
  invalid_record : String → CoreError
  zone_parse : ℕ → Option ℕ → String → CoreError
  named_conf_parse : ℕ → String → CoreError
  wire_format : String → CoreError
  tsig_error : String → CoreError

-- `NetError`. An RCODE is its number.
pub data NetError : Type 0 where
  connection : String → NetError
  timeout : ℕ → NetError
  auth_failed : String → NetError
  protocol : String → NetError
  tls : String → NetError
  http : ℕ → NetError
  prerequisite_failed : ℕ → NetError
  tsig_rejected : ℕ → String → NetError
  update_rejected : String → NetError
  update_not_applied : ℕ → ℕ → NetError
  core : CoreError → NetError
  transfer_failed : String → NetError
  serial_mismatch : ℕ → ℕ → NetError
  incomplete_transfer : String → NetError
  xfr_protocol_error : String → NetError
  tls_required : NetError
  io : NetError
