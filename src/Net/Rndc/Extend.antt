-- ===== src/Net/Rndc/Extend.antt =====
-- The insertion of the entries of a map, one by one.
use bind9_sdk.Common.{◌≡◌, refl, sym, ap, ◌∙◌, true, false, Bool-cases, inl, inr}
use bind9_sdk.Common.Bytes.{Bytes, lex_lt, lex_lt_irrefl, lex_lt_trans}
use bind9_sdk.Net.Rndc.{IscValue, IscMap, nil, entry, map_insert}
use bind9_sdk.Net.Rndc.Maps.{Before, IsMap, normal_map}

unfoldable pub extend : IscMap → IscMap → IscMap
extend acc nil = acc
extend acc (entry k v m) = extend (map_insert k v acc) m

concat : IscMap → IscMap → IscMap
concat nil m = m
concat (entry k v acc) m = entry k v (concat acc m)

-- Every key of the map precedes `key`.
abbrev Under : Bytes → IscMap → Type 0
Under key nil = Unit
Under key (entry k v m) = (lex_lt k key ≡ true) × Under key m

abbrev IsOrdered : IscMap → Type 0
IsOrdered nil = Unit
IsOrdered (entry k v m) = Before k m × IsOrdered m

abbrev Precedes : IscMap → IscMap → Type 0
Precedes acc nil = Unit
Precedes acc (entry k v m) = Under k acc

lex_lt-asym : (a b : Bytes) → lex_lt a b ≡ true → lex_lt b a ≡ false
lex_lt-asym a b h = elim (Bool-cases (lex_lt b a)) [
  | inl e ↦ absurd (cc (lex_lt_trans a b a h e, lex_lt_irrefl a))
  | inr e ↦ e
]

map_insert_last :
    (key : Bytes) (v : IscValue) (acc : IscMap)
    → Under key acc
    → map_insert key v acc ≡ concat acc (entry key v nil)
unfolding map_insert concat
map_insert_last key v nil h = refl
map_insert_last key v (entry k w acc) h =
    rw (lex_lt-asym k key h.0, h.0) (ap (entry k w) (map_insert_last key v acc h.1))

Under-trans : (a b : Bytes) (acc : IscMap) → lex_lt a b ≡ true → Under a acc → Under b acc
Under-trans a b nil h u = tt
Under-trans a b (entry k v acc) h u = (lex_lt_trans k a b u.0 h, Under-trans a b acc h u.1)

Under-concat :
    (key k : Bytes) (v : IscValue) (acc : IscMap)
    → Under key acc
    → lex_lt k key ≡ true
    → Under key (concat acc (entry k v nil))
unfolding concat
Under-concat key k v nil u h = (h, tt)
Under-concat key k v (entry j w acc) u h = (u.0, Under-concat key k v acc u.1 h)

concat_assoc : (a b c : IscMap) → concat (concat a b) c ≡ concat a (concat b c)
unfolding concat
concat_assoc nil b c = refl
concat_assoc (entry k v a) b c = ap (entry k v) (concat_assoc a b c)

concat-nil : (a : IscMap) → concat a nil ≡ a
unfolding concat
concat-nil nil = refl
concat-nil (entry k v a) = ap (entry k v) (concat-nil a)

Precedes-next :
    (k : Bytes) (v : IscValue) (acc m : IscMap)
    → Under k acc
    → Before k m
    → Precedes (concat acc (entry k v nil)) m
Precedes-next k v acc nil u b = tt
Precedes-next k v acc (entry j w m) u b = Under-concat j k v acc (Under-trans k j acc b u) b

extend-concat : (m acc : IscMap) → IsOrdered m → Precedes acc m → extend acc m ≡ concat acc m
unfolding extend
extend-concat nil acc o p = sym (concat-nil acc)
extend-concat (entry k v m) acc o p = rw (map_insert_last k v acc p) (
    extend-concat m (concat acc (entry k v nil)) o.1 (Precedes-next k v acc m p o.0)
    ∙ concat_assoc acc (entry k v nil) m
    ∙ unfold concat in refl)

normal_map-IsOrdered : (m : IscMap) → IsMap m → IsOrdered (normal_map m)
unfolding normal_map
normal_map-IsOrdered nil h = tt
normal_map-IsOrdered (entry k v nil) h = (tt, tt)
normal_map-IsOrdered (entry k v (entry j w m)) h = (h.2, normal_map-IsOrdered (entry j w m) h.3)

Precedes-nil : (m : IscMap) → Precedes nil m
Precedes-nil nil = tt
Precedes-nil (entry k v m) = tt

pub extend-normal_map : (m : IscMap) → IsMap m → extend nil (normal_map m) ≡ normal_map m
extend-normal_map m h =
    extend-concat (normal_map m) nil (normal_map-IsOrdered m h) (Precedes-nil (normal_map m))
    ∙ unfold concat in refl
