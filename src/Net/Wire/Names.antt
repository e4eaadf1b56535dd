-- ===== src/Net/Wire/Names.antt =====
-- `parse_name` on what `write_wire` has written.
use bind9_sdk.Common.{
  suc, ◌+◌, ◌*◌, ◌≤◌, ◌≡◌, refl, ap, ◌∙◌, true, List, [], ◌∷◌, ◌++◌, arith, map, length, All, ok,
  map_err,
}
use bind9_sdk.Common.Bytes.{Bytes}
use bind9_sdk.Core.Domain.{
  Label, DomainName, name_eq, write_labels, write_wire, labels_len, wire_len, display_labels,
  display_name, domain_new, root,
}
use bind9_sdk.Core.Domain.Labels.{IsLabel}
use bind9_sdk.Core.Domain.Names.{IsName, IsParsed, display_labels-IsName, join_dots-display_labels}
use bind9_sdk.Core.Domain.Equality.{folded, name_eq_iff}
use bind9_sdk.Net.Wire.{
  name_start, escape_wire_label, name_of_wire_labels, parse_name, max_compression_depth,
}
use bind9_sdk.Net.Wire.Escape.{escaped_label, escaped_label-IsParsed}
use bind9_sdk.Net.Wire.Scan.{name_loop-write_labels}

-- The labels that are read for given ones: the same octets, with the text of `escape_wire_label`.
abbrev reread : List Label → List Label
reread ls = map (λ l. escaped_label l.wire) ls

reread-IsParsed : (ls : List Label) → All IsLabel ls → All IsParsed (reread ls)
reread-IsParsed [] h = tt
reread-IsParsed (l ∷ ls) h =
    (escaped_label-IsParsed l.wire h.0.nonempty h.0.short h.0.octets, reread-IsParsed ls h.1)

labels_len-reread : (ls : List Label) → labels_len (reread ls) ≡ labels_len ls
unfolding labels_len
labels_len-reread [] = refl
labels_len-reread (l ∷ ls) = omega (arith, labels_len-reread ls)

write_labels-reread : (ls : List Label) → write_labels (reread ls) ≡ write_labels ls
unfolding write_labels
write_labels-reread [] = refl
write_labels-reread (l ∷ ls) = ap (λ x. length l.wire ∷ (l.wire ++ x)) (write_labels-reread ls)

folded-reread : (ls : List Label) → folded (reread ls) ≡ folded ls
unfolding folded
folded-reread [] = refl
folded-reread (l ∷ ls) = cc (folded-reread ls)

reread-inner :
    (ls : List Label) → map (λ l. escape_wire_label l.wire) ls ≡ map (λ x. x.inner) (reread ls)
reread-inner [] = refl
reread-inner (l ∷ ls) = ap (◌∷◌ (escape_wire_label l.wire)) (reread-inner ls)

labels_of_texts :
    (ls : List Label)
    → IsName (record { labels = ls })
    → name_of_wire_labels (map (λ x. x.inner) ls) ≡ ok (record { labels = ls })
unfolding name_of_wire_labels
labels_of_texts [] h = unfold root in refl
labels_of_texts (l ∷ ls) h =
    let shown : domain_new (display_labels (l ∷ ls)) ≡ ok (record { labels = l ∷ ls }) =
      unfold display_name in display_labels-IsName (l ∷ ls) h in
    rw (join_dots-display_labels l ls) (ap (map_err _) shown)

-- Each label takes two octets at least.
labels_len-length : (ls : List Label) → All IsLabel ls → 2 * length ls ≤ labels_len ls
unfolding labels_len
labels_len-length [] h = omega arith
labels_len-length (l ∷ ls) h = omega (arith, labels_len-length ls h.1, h.0.nonempty)

-- A name of at most 255 octets, each label of 1 to 63 of them, is read back from its wire form
-- wherever that stands in a message: all its octets are consumed, and the name that is read has the
-- same wire form, so that it is equal to the first.
pub parse_name-write_wire :
    (n : DomainName) (pre post : Bytes)
    → All IsLabel n.labels
    → wire_len n ≤ 255
    → (m : DomainName) × (parse_name (pre ++ (write_wire n ++ post)) (length pre)
        ≡ ok (m, wire_len n))
      × (write_wire m ≡ write_wire n)
      × (name_eq m n ≡ true)
unfolding parse_name write_wire wire_len name_start
parse_name-write_wire n pre post h fits =
    let ls = n.labels in
    let (r, e, texts, count) =
      name_loop-write_labels ls (suc max_compression_depth) _ pre post (length pre)
        (name_start (length pre)) refl refl refl (omega (arith, labels_len-length ls h))
        (omega (arith, labels_len-length ls h)) h in
    let valid : IsName (record { labels = reread ls }) = record {
      parsed = reread-IsParsed ls h;
      fits = omega (arith, labels_len-reread ls);
    } in
    let named : name_of_wire_labels r.labels ≡ ok (record { labels = reread ls }) =
      ap name_of_wire_labels (texts ∙ reread-inner ls) ∙ labels_of_texts (reread ls) valid in
    let total : r.bytes_consumed ≡ labels_len ls + 1 = omega (arith, count) in
    (
      record { labels = reread ls },
      rw (e, named) (ap (λ k. ok (record { labels = reread ls }, k)) total),
      write_labels-reread ls,
      (name_eq_iff _ n).1 (folded-reread ls),
    )
