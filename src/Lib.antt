-- ===== src/Lib.antt =====
-- bind9-sdk: a client library for BIND 9. It speaks the rndc control protocol, transfers zones,
-- sends dynamic updates, and reads, writes and compares zones.
--
-- The parts and their models (paths from the root of the repository):
-- - Core.Domain: crates/bind9-sdk-core/src/domain.rs. `label_new` and `domain_new` are `Label::new`
--   and `DomainName::new` with `decode_label` and `split_domain_labels`; `write_wire`,
--   `write_wire_canonical`, `name_eq` and `display_name` are the methods and trait implementations
--   of these names. A text is the list of its UTF-8 bytes.
-- - Core.Rdata: crates/bind9-sdk-core/src/rdata/mod.rs, the variants of `RecordData` and the derived
--   equality.
-- - Core.Record: crates/bind9-sdk-core/src/record.rs. `serial_cmp` and `serial_add` are `PartialOrd`
--   and `Add` of `Serial`, `next_serial` is `SerialStrategy::next`, `days_to_civil` and
--   `date_counter` are the functions below it.
-- - Core.Protocol: crates/bind9-sdk-core/src/protocol.rs, record types and response codes.
-- - Core.Transfer: crates/bind9-sdk-core/src/transfer.rs, the records and events of a transfer.
-- - Core.Tsig: crates/bind9-sdk-core/src/tsig/. `tsig_new`, `parse_from_wire`, `verify_time` and
--   `verify_response` are the functions of `TsigRecord`, `key_new`, `sign` and `verify` those of
--   `TsigKey`. HMAC, which the crates hmac, sha1 and sha2 compute, is a parameter, the record `Hmac`;
--   `IsHmac` says that a digest has the octets of its algorithm and is compared exactly.
-- - Core.Update: crates/bind9-sdk-core/src/update/, `UpdateBuilder` with its operations, and the
--   encoding of a message (`encode_update_message`, `encode_rdata`). `build_unsigned` and
--   `sign_update` are the two ways to end; the types of the builder, which tell a signed one from an
--   unsigned one, are left out. An operation that appends to the message returns what it appends.
-- - Core.Zone: crates/bind9-sdk-core/src/zone/diff.rs, `zone_diff` and `apply_diff` for `Zone::diff`
--   and `Zone::apply_diff`.
-- - Net.Rndc: crates/bind9-sdk-net/src/rndc/protocol.rs, `IscMessage` with `encode`, `decode`,
--   `extract_hmac_input` and `frame_message`. Below it, crates/bind9-sdk-net/src/rndc/mod.rs:
--   Net.Rndc.Session has the control table and the checks of an answer, Net.Rndc.Connection
--   `authenticate` and `command`, and Net.Rndc.Answer the text of an answer with `RndcResponse` of
--   rndc/command.rs. base64 is a parameter, the record `Base64`, and the other end of the connection
--   is a function from what is written to it to what it answers.
-- - Net.Transfer: crates/bind9-sdk-net/src/transfer/mod.rs. `push` and `finish` are the methods of
--   `IxfrState`, whose phases are `IxfrPhase`; `axfr_answers` and `axfr_messages` are the two loops
--   of `transfer_record_stream`, and `ixfr_messages` that of `ixfr_record_stream`, on the records that
--   their parser returns, without a TSIG key. Net.Transfer.Verifier is `XfrTsigVerifier`, and
--   Net.Transfer.WireStream is `transfer_record_stream` from the octets on, with the verifier, the
--   checks and the parser; each message comes with the time of the clock at which it is read. `validate_transfer_response` stands in
--   Net.Transfer.Checks.
-- - Net.Wire: crates/bind9-sdk-net/src/transfer/wire.rs, the header of a message (`parse_header`),
--   names (`parse_name`, whose loop carries its variables in a `NameState`), and in Net.Wire.Record
--   resource records (`parse_resource_record`), in Net.Wire.Tsig `split_final_tsig`. Positions do not overflow: they stay near the length
--   of a message.
-- - Net.NsUpdate: crates/bind9-sdk-net/src/nsupdate.rs, `NsUpdateSender::send` with its own walk over a
--   response (`find_tsig_in_response`); UDP and TCP are functions from a message to an answer.
-- - Errors: the two error.rs files. A text that the source formats keeps its fixed part.
-- - Common: helpers on lists, results, bytes and UTF-8. Examples: runs on concrete data.
--
-- The crates meet as the source composes them: transfers compare names by `name_eq` and serials by
-- `serial_cmp`, the difference of zones compares names by `name_eq`, an update is signed by `tsig_new`,
-- and the verifier of a transfer checks its messages by `split_final_tsig`, `parse_from_wire` and
-- `verify_response`.
--
-- Numbers: a u8, u16 or u32 is a natural number, and where the source wraps the model has the
-- remainder written out. A `BTreeMap` is the list of its entries in key order,
-- with `map_insert` and `map_get` for its insertion and its lookup.
--
-- Fuel: a decimal has 20 digits at most, which is enough for a u64. A loop over byte positions takes
-- the number of the bytes that are left as fuel, which is enough since each round takes a byte at
-- least, and answers `stuck`, which is no result of the program, if it runs out. The loop of
-- `parse_name` has fuel for the 129 rounds that its own count of the depth allows. All other loops
-- are structural.
--
-- Not modelled: sockets, TLS, timeouts, random numbers and the clock (an argument), and so far the
-- queries of a transfer, keys in base64, the texts of the rndc commands, the parser and the serializer of
-- zone files, named.conf, statistics, the bindings and the command line.
pub mod Common
pub mod Errors
pub mod Core
pub mod Net
pub mod Examples
