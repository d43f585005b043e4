-- ===== src/Firewall/Ports/Kept.antt =====
-- What holds of the ports that an operation is given holds of those that it returns, for
-- predicates that do not read the flag; and what the state file's form keeps of a port.
use bulb.Base.{
  ◌≡◌, refl, ◌⊎◌, List, [], ◌∷◌, ◌++◌, map, Text, codes, arith, inl, inr, All, text_discrete,
  to_upper, if_pos, if_neg,
}
use bulb.Base.Sort.{sort-All}
use bulb.Firewall.Ports.{
  PortSpec, PortKey, key, base, has_key, port_less, unique_from, stable_unique_ports, absent_from,
  diff_ports, still_managed, next_managed_ports, port_keys, specs_from_keys, spec_from_key,
  protocol_string, protocol_from_string,
}

module _ (P : Text → Type 0) where
  -- The predicate, of a port's protocol.
  abbrev Holds : PortSpec → Type 0
  Holds p = P p.protocol

  unique_from-All :
      (seen : List PortKey) (ps : List PortSpec) → All Holds ps → All Holds (unique_from seen ps)
  unfolding unique_from
  unique_from-All seen [] h = tt
  unique_from-All seen (p ∷ ps) (q, h) =
      ground (arith, unique_from-All seen ps h, unique_from-All (key p ∷ seen) ps h)

  pub stable_unique_ports-All :
      (ps : List PortSpec) → All Holds ps → All Holds (stable_unique_ports ps)
  unfolding stable_unique_ports
  stable_unique_ports-All ps h = sort-All port_less Holds _ (unique_from-All [] ps h)

  absent_from-All :
      (right left : List PortSpec) → All Holds left → All Holds (absent_from right left)
  unfolding absent_from
  absent_from-All right [] h = tt
  absent_from-All right (p ∷ left) (q, h) = ground (arith, absent_from-All right left h)

  pub diff_ports-All :
      (left right : List PortSpec) → All Holds left → All Holds (diff_ports left right)
  unfolding diff_ports
  diff_ports-All left right h = stable_unique_ports-All _ (absent_from-All right left h)

  next_from-All :
      (desired current previous added : List PortSpec)
      → All Holds previous
      → All Holds added
      → All Holds (still_managed desired current previous ++ map base added)
  unfolding still_managed
  next_from-All desired current [] [] h k = tt
  next_from-All desired current [] (p ∷ added) h (q, k) =
      (q, next_from-All desired current [] added h k)
  next_from-All desired current (p ∷ previous) added (q, h) k =
      ground (arith, next_from-All desired current previous added h k)

  pub next_managed_ports-All :
      (previous desired current added : List PortSpec)
      → All Holds previous
      → All Holds added
      → All Holds (next_managed_ports previous desired current added)
  unfolding next_managed_ports
  next_managed_ports-All previous desired current added h k =
      stable_unique_ports-All _ (next_from-All desired current previous added h k)

-- The protocols that the state file can hold: the custom resource admits TCP and UDP only.
abbrev pub IsKnown : Text → Type 0
IsKnown protocol =
    (protocol_string protocol ≡ codes "tcp") ⊎ (protocol_string protocol ≡ codes "udp")

protocol_from_string-IsKnown : (s : Text) → IsKnown (protocol_from_string s)
unfolding protocol_from_string protocol_string
protocol_from_string-IsKnown s = elim (text_discrete (to_upper s) (codes "UDP")) [
  | yes udp ↦ inr (rw (if_pos _ udp))
  | no other ↦ inl (rw (if_neg _ other))
]

pub specs_from_keys-IsKnown :
    (ks : List PortKey) → All (λ p. IsKnown p.protocol) (specs_from_keys ks)
unfolding specs_from_keys spec_from_key
specs_from_keys-IsKnown [] = tt
specs_from_keys-IsKnown (k ∷ ks) =
    (protocol_from_string-IsKnown k.protocol, specs_from_keys-IsKnown ks)

key-spec_from_key : (p : PortSpec) → IsKnown p.protocol → key (spec_from_key (key p)) ≡ key p
unfolding key spec_from_key
key-spec_from_key p (inl e) = rw e
key-spec_from_key p (inr e) = rw e

pub has_key-specs_from_keys :
    (k : PortKey) (ps : List PortSpec)
    → All (λ p. IsKnown p.protocol) ps
    → has_key k (specs_from_keys (port_keys ps)) ≡ has_key k ps
unfolding has_key port_keys specs_from_keys
has_key-specs_from_keys k [] h = refl
has_key-specs_from_keys k (p ∷ ps) (known, h) =
    ground (arith, key-spec_from_key p known, has_key-specs_from_keys k ps h)
