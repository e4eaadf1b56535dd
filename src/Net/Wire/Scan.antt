-- ===== src/Net/Wire/Scan.antt =====
-- The loop of `parse_name` on the labels that `write_wire` writes.
use bind9_sdk.Common.{
  ℕ, zero, suc, ◌+◌, ◌-◌, ◌≤◌, ◌≡◌, refl, sym, ap, ◌∙◌, true, false, some, List, [], ◌∷◌, ◌++◌,
  arith, map, ◌==◌, length, leb, le→leb, length-append, All, ok, get_elem?, take, drop,
  take-append_length,
}
use mathlib.Core.List.{append_assoc, append-nil}
use bind9_sdk.Common.Bytes.{Bytes}
use bind9_sdk.Core.Domain.{Label, write_labels, labels_len}
use bind9_sdk.Core.Domain.Labels.{IsLabel}
use bind9_sdk.Net.Wire.{
  NameState, escape_wire_label, name_round, by_length, take_label, name_loop, max_compression_depth,
}

pub get_elem?-append :
    (pre : Bytes) (b : ℕ) (post : Bytes) → get_elem? (pre ++ (b ∷ post)) (length pre) ≡ some b
get_elem?-append [] b post = refl
get_elem?-append (x ∷ pre) b post = get_elem?-append pre b post

-- The octets behind a position.
behind :
    (pre : Bytes) (b : ℕ) (w post : Bytes)
    → take (length w) (drop (suc (length pre)) (pre ++ (b ∷ (w ++ post)))) ≡ w
behind [] b w post = take-append_length w post
behind (x ∷ pre) b w post = behind pre b w post

-- A round at a label.
take_label-append :
    (pre w post : Bytes) (s : NameState)
    → s.pos ≡ length pre
    → take_label (pre ++ (length w ∷ (w ++ post))) (length w) s
      ≡ ok (record s {
        labels = s.labels ++ (escape_wire_label w ∷ []);
        pos = suc (length pre) + length w;
      })
unfolding take_label
take_label-append pre w post s at_pos =
    let fits : s.pos + 1 + length w ≤ length (pre ++ (length w ∷ (w ++ post))) =
      omega (arith, length-append pre (length w ∷ (w ++ post)), length-append w post) in
    let start : s.pos + 1 ≡ suc (length pre) = omega arith in
    rw (le→leb _ _ fits, start, behind pre (length w) w post)

by_length-label :
    (buf : Bytes) (offset n : ℕ) (s s' : NameState)
    → 1 ≤ n
    → n ≤ 63
    → take_label buf n s ≡ ok s'
    → by_length buf offset n s ≡ ok (false, s')
unfolding by_length
by_length-label buf offset n s s' lo hi e =
    let not_zero : (n == 0) ≡ false = ground arith in
    let no_pointer : leb 192 n ≡ false = ground arith in rw (not_zero, no_pointer, e)

round_reads :
    (buf : Bytes) (offset b : ℕ) (s : NameState)
    → get_elem? buf s.pos ≡ some b
    → s.depth + 1 ≤ max_compression_depth
    → name_round buf offset s ≡ by_length buf offset b (record s { depth = s.depth + 1 })
unfolding name_round
round_reads buf offset b s e room = rw (e, le→leb _ _ room)

reads_byte :
    (buf pre : Bytes) (b : ℕ) (post : Bytes) (s : NameState)
    → buf ≡ pre ++ (b ∷ post)
    → s.pos ≡ length pre
    → get_elem? buf s.pos ≡ some b
reads_byte buf pre b post s hb hp =
    ap (λ x. get_elem? x s.pos) hb ∙ ap (get_elem? _) hp ∙ get_elem?-append pre b post

name_loop-stop :
    (fuel : ℕ) (buf : Bytes) (offset : ℕ) (s r : NameState)
    → name_round buf offset s ≡ ok (true, r)
    → name_loop (suc fuel) buf offset s ≡ ok r
unfolding name_loop
name_loop-stop fuel buf offset s r e = rw e

name_loop-next :
    (fuel : ℕ) (buf : Bytes) (offset : ℕ) (s s' : NameState)
    → name_round buf offset s ≡ ok (false, s')
    → name_loop (suc fuel) buf offset s ≡ name_loop fuel buf offset s'
unfolding name_loop
name_loop-next fuel buf offset s s' e = rw e

by_length-end :
    (buf : Bytes) (offset : ℕ) (s : NameState)
    → s.jumped ≡ false
    → by_length buf offset 0 s ≡ ok (true, record s { bytes_consumed = s.pos - offset + 1 })
unfolding by_length
by_length-end buf offset s h = rw h

name_loop-end :
    (fuel : ℕ) (buf pre post : Bytes) (offset : ℕ) (s : NameState)
    → buf ≡ pre ++ (0 ∷ post)
    → s.pos ≡ length pre
    → s.jumped ≡ false
    → s.depth + 1 ≤ max_compression_depth
    → 1 ≤ fuel
    → name_loop fuel buf offset s
      ≡ ok (record s { bytes_consumed = s.pos - offset + 1; depth = s.depth + 1 })
name_loop-end zero buf pre post offset s hb hp hj hd hf = absurd (omega arith)
name_loop-end (suc fuel) buf pre post offset s hb hp hj hd hf = name_loop-stop fuel buf offset s _ (
    round_reads buf offset 0 s (reads_byte buf pre 0 post s hb hp) hd
    ∙ by_length-end buf offset (record s { depth = s.depth + 1 }) hj)

-- The loop on the labels that are left, not yet behind a pointer: it adds their texts, and counts
-- their octets.
pub name_loop-write_labels :
    (ls : List Label) (fuel : ℕ) (buf pre post : Bytes) (offset : ℕ) (s : NameState)
    → buf ≡ pre ++ (write_labels ls ++ post)
    → s.pos ≡ length pre
    → s.jumped ≡ false
    → s.depth + length ls + 1 ≤ max_compression_depth
    → length ls + 1 ≤ fuel
    → All IsLabel ls
    → (r : NameState) × (name_loop fuel buf offset s ≡ ok r)
      × (r.labels ≡ s.labels ++ map (λ l. escape_wire_label l.wire) ls)
      × (r.bytes_consumed ≡ length pre + labels_len ls - offset + 1)
unfolding write_labels labels_len
name_loop-write_labels [] fuel buf pre post offset s hb hp hj hd hf h = (
  record s { bytes_consumed = s.pos - offset + 1; depth = s.depth + 1 },
  name_loop-end fuel buf pre post offset s hb hp hj (omega arith) hf,
  sym (append-nil s.labels),
  omega arith,
)
name_loop-write_labels (l ∷ ls) zero buf pre post offset s hb hp hj hd hf h = absurd (omega arith)
name_loop-write_labels (l ∷ ls) (suc fuel) buf pre post offset s hb hp hj hd hf h =
    let w = l.wire in
    let next : NameState = record s {
      labels = s.labels ++ (escape_wire_label w ∷ []);
      pos = suc (length pre) + length w;
      depth = s.depth + 1;
    } in
    let cut : buf ≡ pre ++ (length w ∷ (w ++ (write_labels ls ++ post))) =
      hb ∙ ap (λ x. pre ++ (length w ∷ x)) (append_assoc w (write_labels ls) post) in
    let round : name_round buf offset s ≡ ok (false, next) =
      round_reads buf offset (length w) s (reads_byte buf pre (length w) _ s cut hp) (omega arith)
      ∙ by_length-label buf offset (length w) _ next h.0.nonempty h.0.short (
          ap (λ x. take_label x (length w) (record s { depth = s.depth + 1 })) cut
          ∙ take_label-append pre w _ _ hp) in
    let more = pre ++ (length w ∷ w) in
    let at_more : next.pos ≡ length more = omega (arith, length-append pre (length w ∷ w)) in
    let (r, e, texts, count) =
      name_loop-write_labels ls fuel buf more post offset next
        (cut ∙ sym (append_assoc pre (length w ∷ w) (write_labels ls ++ post))) at_more hj
        (omega arith) (omega arith) h.1 in
    (
      r,
      name_loop-next fuel buf offset s next round ∙ e,
      texts ∙ append_assoc s.labels _ _,
      count ∙ omega (arith, length-append pre (length w ∷ w)),
    )
