-- ===== src/Net/Wire/Bounds.antt =====
-- `parse_name` (crates/bind9-sdk-net/src/transfer/wire.rs) on any message.
use bind9_sdk.Common.{
  ℕ, zero, suc, ◌+◌, ◌≤◌, ◌≡◌, ◌≢◌, inl, inr, List, [], ◌∷◌, arith, length, ok, stuck, >>=-eq-ok,
  ok-injective, >>=-ne-stuck, map_err-eq-ok, map_err-ne-stuck,
}
use mathlib.Core.Path.{subst}
use bind9_sdk.Common.Bytes.{Bytes}
use bind9_sdk.Core.Domain.{DomainName}
use bind9_sdk.Core.Domain.Names.{IsName, root-IsName, domain_new-IsName, domain_new-ne-stuck}
use bind9_sdk.Net.Wire.{
  NameState, name_start, name_round, name_loop, name_of_wire_labels, parse_name,
  max_compression_depth,
}
use bind9_sdk.Net.Wire.Rounds.{IsInside, name_round-IsInside, round-ne-stuck}

loop-ne-stuck :
    (fuel : ℕ) (buf : Bytes) (offset : ℕ) (s : NameState)
    → IsInside buf offset s
    → suc max_compression_depth ≤ fuel + s.depth
    → name_loop fuel buf offset s ≢ stuck
unfolding name_loop
loop-ne-stuck zero buf offset s inside h = absurd (omega (arith, inside.shallow))
loop-ne-stuck (suc fuel) buf offset s inside h =
    >>=-ne-stuck (name_round buf offset s) _ (round-ne-stuck buf offset s) λ (stop, s') e.
      elim (name_round-IsInside buf offset s s' stop inside e) [
        | inl (on, keeps, same) ↦ rw on (loop-ne-stuck fuel buf offset s' keeps (omega arith))
        | inr (off, _, _) ↦ rw off (λ p. cc)
      ]

loop_counted :
    (fuel : ℕ) (buf : Bytes) (offset : ℕ) (s r : NameState)
    → IsInside buf offset s
    → name_loop fuel buf offset s ≡ ok r
    → (1 ≤ r.bytes_consumed) × (offset + r.bytes_consumed ≤ length buf)
unfolding name_loop
loop_counted zero buf offset s r inside h = cc
loop_counted (suc fuel) buf offset s r inside h =
    let ((stop, s'), e, h₁) = >>=-eq-ok (name_round buf offset s) _ h in
    elim (name_round-IsInside buf offset s s' stop inside e) [
      | inl (on, keeps, same) ↦ loop_counted fuel buf offset s' r keeps (rw on at h₁)
      | inr (off, some_byte, fits) ↦
          let same : s' ≡ r = ok-injective (rw off at h₁) in
          subst (λ x. (1 ≤ x.bytes_consumed) × (offset + x.bytes_consumed ≤ length buf)) same
            (some_byte, fits)
    ]

name_start-IsInside : (buf : Bytes) (offset : ℕ) → IsInside buf offset (name_start offset)
unfolding name_start
name_start-IsInside buf offset = record {
  shallow = omega arith;
  ahead = λ e. omega arith;
  counted = λ e. absurd (cc e);
}

wire_labels-ne-stuck : (ls : List Bytes) → name_of_wire_labels ls ≢ stuck
unfolding name_of_wire_labels
wire_labels-ne-stuck [] = λ p. cc
wire_labels-ne-stuck (l ∷ ls) = map_err-ne-stuck _ _ (domain_new-ne-stuck _)

wire_labels-IsName : (ls : List Bytes) {n : DomainName} → name_of_wire_labels ls ≡ ok n → IsName n
unfolding name_of_wire_labels
wire_labels-IsName [] h = subst IsName (ok-injective h) root-IsName
wire_labels-IsName (l ∷ ls) h = domain_new-IsName _ (map_err-eq-ok _ _ h)

-- `parse_name` returns on every message and offset: the test of its depth ends the loop, whatever
-- pointers the message holds.
pub parse_name-ne-stuck : (buf : Bytes) (offset : ℕ) → parse_name buf offset ≢ stuck
unfolding parse_name
parse_name-ne-stuck buf offset =
    >>=-ne-stuck (name_loop (suc max_compression_depth) buf offset (name_start offset)) _
      (loop-ne-stuck _ buf offset (name_start offset) (name_start-IsInside buf offset)
        (omega arith))
      λ s e.
        >>=-ne-stuck (name_of_wire_labels s.labels) _ (wire_labels-ne-stuck s.labels) (λ n e' p. cc)

-- A name that `parse_name` returns is one that `DomainName::new` could have returned, and the bytes
-- that it has consumed are one at least and lie inside the message.
pub parse_name-IsName :
    (buf : Bytes) (offset : ℕ) {n : DomainName} {consumed : ℕ}
    → parse_name buf offset ≡ ok (n, consumed)
    → IsName n × (1 ≤ consumed) × (offset + consumed ≤ length buf)
unfolding parse_name
parse_name-IsName buf offset h =
    let (s, e, h₁) =
      >>=-eq-ok (name_loop (suc max_compression_depth) buf offset (name_start offset)) _ h in
    let (n, e', h₂) = >>=-eq-ok (name_of_wire_labels s.labels) _ h₁ in
    let (some_byte, fits) =
      loop_counted _ buf offset (name_start offset) s (name_start-IsInside buf offset) e in
    ground (arith, h₂, some_byte, fits, wire_labels-IsName s.labels e')
