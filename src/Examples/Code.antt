-- ===== src/Examples/Code.antt =====
-- What a run of the readers and writers of messages computes with: to unfold one of these names is
-- to unfold all that stands on its line.
use bind9_sdk.Common.Bytes.{
  set_arcount, equal, join_dots, is_ascii_digit, is_ascii_graphic, to_ascii_lowercase,
  eq_ignore_ascii_case,
}
use bind9_sdk.Common.Utf8.{is_utf8}
use bind9_sdk.Core.Domain.{
  domain_new, name_of_parts, split_domain_labels, split_loop, split_chunk, decimal_escape,
  labels_of, label_new, decode_label, decode_loop, label_octet, name_of_labels, wire_len,
  labels_len, root, write_wire, write_wire_canonical, name_eq, labels_eq, octets_eq,
}
use bind9_sdk.Core.Record.{ttl_new, class_from_value}
use bind9_sdk.Core.Protocol.{type_from_value}
use bind9_sdk.Core.Tsig.{dns_name, mac_length, algorithm_eq, sign, verify}
use bind9_sdk.Core.Tsig.Record.{
  message_id, algorithm_name, tsig_vars, counted, prior, tsig_rdata, tsig_wire, mac_too_long,
  verify_time, tsig_new, verify_response,
}
use bind9_sdk.Core.Tsig.Wire.{
  read_labels, read_wire_name, read_u16, read_u32, read_u48, read_octets, algorithm_of, tsig_header,
  tsig_fields, parse_from_wire,
}
use bind9_sdk.Net.Wire.{
  parse_name, name_loop, name_start, name_round, by_length, follow_pointer, take_label,
  escape_wire_label, escape_octet, name_of_wire_labels,
}
use bind9_sdk.Net.Wire.Header.{parse_header}
use bind9_sdk.Net.Wire.Record.{
  parse_resource_record, parse_rdata_wire, rdata_of, name_rdata, soa_rdata, soa_numbers,
  record_fields, ttl_or_zero, resource_record_type_and_len,
}
use bind9_sdk.Net.Wire.Tsig.{
  split_final_tsig, skip_questions, skip_records, scan_additional, cut_tsig,
}

unfoldable pub name_code : Unit {0}
unfolding domain_new name_of_parts split_domain_labels split_loop split_chunk decimal_escape
    labels_of label_new decode_label decode_loop label_octet name_of_labels wire_len labels_len root
    write_wire write_wire_canonical name_eq labels_eq octets_eq join_dots is_ascii_digit
    is_ascii_graphic to_ascii_lowercase eq_ignore_ascii_case
name_code = tt

unfoldable pub tsig_code : Unit {0}
unfolding equal is_utf8 name_code dns_name mac_length algorithm_eq sign verify message_id
    algorithm_name tsig_vars counted prior tsig_rdata tsig_wire mac_too_long verify_time tsig_new
    verify_response read_labels read_wire_name read_u16 read_u32 read_u48 read_octets algorithm_of
    tsig_header tsig_fields parse_from_wire
tsig_code = tt

unfoldable pub message_code : Unit {0}
unfolding tsig_code ttl_new class_from_value type_from_value parse_name name_loop name_start
    name_round by_length follow_pointer take_label escape_wire_label escape_octet
    name_of_wire_labels parse_header parse_resource_record parse_rdata_wire rdata_of name_rdata
    soa_rdata soa_numbers record_fields ttl_or_zero resource_record_type_and_len split_final_tsig
    skip_questions skip_records scan_additional set_arcount cut_tsig
message_code = tt
