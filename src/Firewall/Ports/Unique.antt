-- ===== src/Firewall/Ports/Unique.antt =====
-- The shape of `stableUniquePorts`' result: its order, its keys and its flags.
use mathlib.Core.List.{Nodup, Nodup-nil}
use mathlib.Core.List.Perm
use bulb.Base.{
  ◌≡◌, refl, true, false, List, [], ◌∷◌, map, arith, contains, All, Nodup-cons_of_contains,
  Bool-cases, inl, inr, text_less, text_less-IsOrder,
}
use bulb.Base.Sort.{IsSorted, IsWeakOrder, IsOrder-IsWeakOrder, sort-perm, sort-All, sort-IsSorted}
use bulb.Firewall.Ports.Sets.{has_key-stable_unique_ports}
use bulb.Firewall.Ports.{
  has_key, PortKey, PortSpec, PortKey, port_key_discrete, key, base, has_key, port_less,
  unique_from, stable_unique_ports,
}

-- Ports without a flag, as every set operation returns them.
abbrev pub IsBase : PortSpec → Type 0
IsBase p = p.allow_privileged ≡ false

unique_from-IsBase : (seen : List PortKey) (ps : List PortSpec) → All IsBase (unique_from seen ps)
unfolding unique_from
unique_from-IsBase seen [] = tt
unique_from-IsBase seen (p ∷ ps) =
    ground (arith, unique_from-IsBase seen ps, unique_from-IsBase (key (base p) ∷ seen) ps)

pub stable_unique_ports-IsBase : (ps : List PortSpec) → All IsBase (stable_unique_ports ps)
unfolding stable_unique_ports
stable_unique_ports-IsBase ps = sort-All port_less IsBase _ (unique_from-IsBase [] ps)

-- A key that was seen is not met again.
unique_from-fresh :
    (k : PortKey) (seen : List PortKey) (ps : List PortSpec)
    → contains port_key_discrete k seen ≡ true
    → has_key k (unique_from seen ps) ≡ false
unfolding has_key unique_from
unique_from-fresh k seen [] h = refl
unique_from-fresh k seen (p ∷ ps) h =
    ground (arith, unique_from-fresh k seen ps, unique_from-fresh k (key (base p) ∷ seen) ps)

unique_from-Nodup :
    (seen : List PortKey) (ps : List PortSpec) → Nodup (map key (unique_from seen ps))
unfolding has_key unique_from
unique_from-Nodup seen [] = Nodup-nil
unique_from-Nodup seen (p ∷ ps) = elim (Bool-cases (contains port_key_discrete (key p) seen)) [
  | inl old ↦ rw (old, unique_from) (unique_from-Nodup seen ps)
  | inr new ↦
      rw (new, unique_from)
        (Nodup-cons_of_contains port_key_discrete _ _
          (unique_from-fresh (key p) (key p ∷ seen) ps (ground arith))
          (unique_from-Nodup (key p ∷ seen) ps))
]

pub stable_unique_ports-Nodup : (ps : List PortSpec) → Nodup (map key (stable_unique_ports ps))
unfolding stable_unique_ports
stable_unique_ports-Nodup ps =
    Perm.nodup (Perm.map key (Perm.symm (sort-perm port_less (unique_from [] ps))))
      (unique_from-Nodup [] ps)

text_weak : IsWeakOrder text_less
text_weak = IsOrder-IsWeakOrder text_less-IsOrder

pub port_less-IsWeakOrder : IsWeakOrder port_less
unfolding port_less
port_less-IsWeakOrder = record {
  asym = λ p q h. ground (arith, text_weak.asym p.protocol q.protocol);
  not_less_trans =
      λ p q r h k. ground (arith, text_weak.not_less_trans p.protocol q.protocol r.protocol);
}

pub stable_unique_ports-IsSorted :
    (ps : List PortSpec) → IsSorted port_less (stable_unique_ports ps)
unfolding stable_unique_ports
stable_unique_ports-IsSorted ps = sort-IsSorted port_less-IsWeakOrder (unique_from [] ps)

-- The list as a set of ports: the same keys, each once, in order, without the flag.
pub record IsPortSet (given ps : List PortSpec) : Type 0 where
  pub same_keys : (k : PortKey) → has_key k ps ≡ has_key k given
  pub unique : Nodup (map key ps)
  pub sorted : IsSorted port_less ps
  pub plain : All IsBase ps

-- `stableUniquePorts` keeps the keys of its list, each once, ordered by number and then protocol,
-- and drops the privilege flag.
pub stable_unique_ports-IsPortSet : (ps : List PortSpec) → IsPortSet ps (stable_unique_ports ps)
stable_unique_ports-IsPortSet ps = record {
  same_keys = λ k. has_key-stable_unique_ports k ps;
  unique = stable_unique_ports-Nodup ps;
  sorted = stable_unique_ports-IsSorted ps;
  plain = stable_unique_ports-IsBase ps;
}
