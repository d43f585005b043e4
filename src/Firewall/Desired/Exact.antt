-- ===== src/Firewall/Desired/Exact.antt =====
-- The desired set, described LBPort by LBPort.
use mathlib.Core.List.{Nodup}
use mathlib.Core.List.Perm
use bulb.Base.{
  ◌≡◌, refl, ap, ap₂, ◌∙◌, sym, subst, Bool, true, false, ◌&&◌, ◌||◌, List, [], ◌∷◌, map, Text, All,
  any, contains, ite, arith,
}
use bulb.Base.Dict.{
  lookup, keys, values, lookup-put, contains-keys-put, Distinct, put-Distinct, Distinct-Nodup, put,
}
use bulb.Base.Sort.{IsSorted, sort-IsSorted, any-sort, contains-sort, sort-perm}
use bulb.Api.{LbPort}
use bulb.Firewall.Ports.{PortSpec, PortKey, port_key_discrete, key, has_key, port_less}
use bulb.Firewall.Ports.Unique.{port_less-IsWeakOrder}
use bulb.Firewall.Desired.{
  applies_to_node, lbport_key, Seen, flag_of, current_spec, see_lbport, see_lbports,
  desired_ports_for_node,
}

-- The LBPort asks the node to expose the key.
abbrev pub claims : PortKey → Text → LbPort → Bool
claims k node_name l =
    applies_to_node l.spec.nodes node_name && ite (port_key_discrete k (lbport_key l)) true false

-- It does, and may use a privileged port.
abbrev pub claims_privileged : PortKey → Text → LbPort → Bool
claims_privileged k node_name l = claims k node_name l && l.spec.allow_privileged

-- The list grants the key the use of a privileged port.
unfoldable pub has_privileged : PortKey → List PortSpec → Bool
has_privileged k = any (λ p. ite (port_key_discrete k (key p)) p.allow_privileged false)

keys-see_lbport :
    (k : PortKey) (node_name : Text) (l : LbPort) (seen : Seen)
    → contains port_key_discrete k (keys (see_lbport node_name l seen))
      ≡ (contains port_key_discrete k (keys seen) || claims k node_name l)
unfolding see_lbport
keys-see_lbport k node_name l seen =
    ground (arith, contains-keys-put port_key_discrete (lbport_key l) k (current_spec l seen) seen)

keys-see_lbports :
    (k : PortKey) (node_name : Text) (ls : List LbPort) (seen : Seen)
    → contains port_key_discrete k (keys (see_lbports node_name ls seen))
      ≡ (contains port_key_discrete k (keys seen) || any (claims k node_name) ls)
unfolding see_lbports
keys-see_lbports k node_name [] seen = ground arith
keys-see_lbports k node_name (l ∷ ls) seen = ground (
  arith,
  keys-see_lbports k node_name ls (see_lbport node_name l seen),
  keys-see_lbport k node_name l seen,
)

abbrev seen_flag : PortKey → Seen → Bool
seen_flag k seen = flag_of (lookup port_key_discrete k seen)

flag-see_lbport :
    (k : PortKey) (node_name : Text) (l : LbPort) (seen : Seen)
    → seen_flag k (see_lbport node_name l seen)
      ≡ (seen_flag k seen || claims_privileged k node_name l)
unfolding see_lbport current_spec
flag-see_lbport k node_name l seen =
    ground (arith, lookup-put port_key_discrete (lbport_key l) k (current_spec l seen) seen)

flag-see_lbports :
    (k : PortKey) (node_name : Text) (ls : List LbPort) (seen : Seen)
    → seen_flag k (see_lbports node_name ls seen)
      ≡ (seen_flag k seen || any (claims_privileged k node_name) ls)
unfolding see_lbports
flag-see_lbports k node_name [] seen = ground arith
flag-see_lbports k node_name (l ∷ ls) seen = ground (
  arith,
  flag-see_lbports k node_name ls (see_lbport node_name l seen),
  flag-see_lbport k node_name l seen,
)

-- The map's invariant: each value stands under its own key, and no key twice.
abbrev IsKeyed : Seen → Type 0
IsKeyed seen = All (λ e. key e.1 ≡ e.0) seen

put-IsKeyed :
    (p : PortSpec) (seen : Seen) → IsKeyed seen → IsKeyed (put port_key_discrete (key p) p seen)
unfolding put
put-IsKeyed p [] h = (refl, tt)
put-IsKeyed p ((j, w) ∷ seen) (e, h) = ground (arith, put-IsKeyed p seen h)

key-current_spec : (l : LbPort) (seen : Seen) → key (current_spec l seen) ≡ lbport_key l
unfolding current_spec key lbport_key
key-current_spec l seen = refl

see_lbport-IsKeyed :
    (node_name : Text) (l : LbPort) (seen : Seen)
    → IsKeyed seen
    → IsKeyed (see_lbport node_name l seen)
unfolding see_lbport
see_lbport-IsKeyed node_name l seen h =
    let stored = rw (key-current_spec l seen) at (put-IsKeyed (current_spec l seen) seen h) in
    ground (arith, stored)

see_lbports-IsKeyed :
    (node_name : Text) (ls : List LbPort) (seen : Seen)
    → IsKeyed seen
    → IsKeyed (see_lbports node_name ls seen)
unfolding see_lbports
see_lbports-IsKeyed node_name [] seen h = h
see_lbports-IsKeyed node_name (l ∷ ls) seen h =
    see_lbports-IsKeyed node_name ls _ (see_lbport-IsKeyed node_name l seen h)

see_lbports-Distinct :
    (node_name : Text) (ls : List LbPort) (seen : Seen)
    → Distinct port_key_discrete seen
    → Distinct port_key_discrete (see_lbports node_name ls seen)
unfolding see_lbports see_lbport
see_lbports-Distinct node_name [] seen h = h
see_lbports-Distinct node_name (l ∷ ls) seen h =
    see_lbports-Distinct node_name ls _
      (ground (arith, put-Distinct port_key_discrete (lbport_key l) (current_spec l seen) seen h))

map-key-values : (seen : Seen) → IsKeyed seen → map key (values seen) ≡ keys seen
map-key-values [] h = refl
map-key-values (e ∷ seen) (p, h) = ap₂ ◌∷◌ p (map-key-values seen h)

not-has_privileged :
    (k : PortKey) (seen : Seen)
    → IsKeyed seen
    → contains port_key_discrete k (keys seen) ≡ false
    → has_privileged k (values seen) ≡ false
unfolding has_privileged
not-has_privileged k [] h absent = refl
not-has_privileged k (e ∷ seen) (p, h) absent = ground (arith, not-has_privileged k seen h)

has_privileged-values :
    (k : PortKey) (seen : Seen)
    → IsKeyed seen
    → Distinct port_key_discrete seen
    → has_privileged k (values seen) ≡ seen_flag k seen
unfolding has_privileged
has_privileged-values k [] h d = refl
has_privileged-values k (e ∷ seen) (p, h) (fresh, d) =
    ground (arith, has_privileged-values k seen h d, not-has_privileged k seen h)

module _ (lbports : List LbPort) (node_name : Text) where
  keyed : IsKeyed (see_lbports node_name lbports [])
  keyed = see_lbports-IsKeyed node_name lbports [] tt

  distinct : Distinct port_key_discrete (see_lbports node_name lbports [])
  distinct = see_lbports-Distinct node_name lbports [] tt

  -- A node exposes a key exactly when some LBPort that applies to it asks for the key.
  pub has_key-desired_ports_for_node :
      (k : PortKey)
      → has_key k (desired_ports_for_node lbports node_name) ≡ any (claims k node_name) lbports
  unfolding desired_ports_for_node has_key
  has_key-desired_ports_for_node k =
      contains-sort port_less port_key_discrete key k _
      ∙ ap (contains port_key_discrete k) (map-key-values _ keyed)
      ∙ keys-see_lbports k node_name lbports []

  -- A key may be privileged exactly when one of the LBPorts that ask for it says so.
  pub has_privileged-desired_ports_for_node :
      (k : PortKey)
      → has_privileged k (desired_ports_for_node lbports node_name)
        ≡ any (claims_privileged k node_name) lbports
  unfolding desired_ports_for_node has_privileged
  has_privileged-desired_ports_for_node k =
      any-sort port_less (λ p. ite (port_key_discrete k (key p)) p.allow_privileged false)
        (values (see_lbports node_name lbports []))
      ∙ has_privileged-values k _ keyed distinct
      ∙ flag-see_lbports k node_name lbports []

  pub desired_ports_for_node-Nodup : Nodup (map key (desired_ports_for_node lbports node_name))
  unfolding desired_ports_for_node
  desired_ports_for_node-Nodup =
      Perm.nodup (Perm.map key (Perm.symm (sort-perm port_less _)))
        (subst Nodup (sym (map-key-values _ keyed)) (Distinct-Nodup port_key_discrete _ distinct))

  pub desired_ports_for_node-IsSorted :
      IsSorted port_less (desired_ports_for_node lbports node_name)
  unfolding desired_ports_for_node
  desired_ports_for_node-IsSorted =
      sort-IsSorted port_less-IsWeakOrder (values (see_lbports node_name lbports []))
