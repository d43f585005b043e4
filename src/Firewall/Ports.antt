-- ===== src/Firewall/Ports.antt =====
-- Port sets of the firewall agent: `PortSpec`, `PortKey` and the set operations of
-- internal/firewall/firewalld.go, firewall.go and state.go. A Go map from keys that serves as a
-- set is the list that fills it, with membership as a test.
pub mod Kept
pub mod Sets
pub mod Unique
use bulb.Base.{
  ℕ, ◌==◌, ltb, if◌then◌else◌, Bool, true, false, not, ◌&&◌, List, [], ◌∷◌, ◌++◌, map, Text, codes,
  text_discrete, text_less, to_lower, to_upper, contains, ite, ℕ_discrete, is_empty,
}
use bulb.Base.Sort.{sort}

abbrev pub protocol_tcp : Text
protocol_tcp = codes "TCP"

abbrev pub protocol_udp : Text
protocol_udp = codes "UDP"

pub record PortSpec : Type 0 where
  pub port : ℕ
  pub protocol : Text
  pub allow_privileged : Bool

pub record PortKey : Type 0 where
  pub port : ℕ
  pub protocol : Text

unfoldable pub port_key_discrete : Discrete PortKey
unfolding ℕ_discrete text_discrete
port_key_discrete = hlevel (ℕ_discrete, text_discrete)

unfoldable pub protocol_string : Text → Text
unfolding to_lower
protocol_string protocol = if is_empty protocol then codes "tcp" else to_lower protocol

unfoldable pub protocol_from_string : Text → Text
unfolding to_upper text_discrete
protocol_from_string protocol =
    ite (text_discrete (to_upper protocol) (codes "UDP")) protocol_udp protocol_tcp

unfoldable pub key : PortSpec → PortKey
unfolding protocol_string
key p = record { port = p.port; protocol = protocol_string p.protocol }

-- The `PortSpec` literal that the set operations copy a port into: its flag is dropped.
abbrev pub base : PortSpec → PortSpec
base p = record { port = p.port; protocol = p.protocol; allow_privileged = false }

-- The keys of a list as a set.
unfoldable pub has_key : PortKey → List PortSpec → Bool
unfolding port_key_discrete key
has_key k ps = contains port_key_discrete k (map key ps)

unfoldable pub port_less : PortSpec → PortSpec → Bool
unfolding text_less
port_less p q = if p.port == q.port then text_less p.protocol q.protocol else ltb p.port q.port

unfoldable pub unique_from : List PortKey → List PortSpec → List PortSpec
unfolding port_key_discrete key
unique_from seen [] = []
unique_from seen (p ∷ ps) = elim (contains port_key_discrete (key (base p)) seen) [
  | true ↦ unique_from seen ps
  | false ↦ base p ∷ unique_from (key (base p) ∷ seen) ps
]

unfoldable pub stable_unique_ports : List PortSpec → List PortSpec
unfolding unique_from sort port_less
stable_unique_ports ps = sort port_less (unique_from [] ps)

unfoldable pub absent_from : List PortSpec → List PortSpec → List PortSpec
unfolding has_key
absent_from right [] = []
absent_from right (p ∷ left) =
    let rest = absent_from right left in if not (has_key (key p) right) then base p ∷ rest else rest

unfoldable pub diff_ports : List PortSpec → List PortSpec → List PortSpec
unfolding absent_from stable_unique_ports
diff_ports left right = stable_unique_ports (absent_from right left)

unfoldable pub present_in : List PortSpec → List PortSpec → List PortSpec
unfolding has_key
present_in right [] = []
present_in right (p ∷ left) =
    let rest = present_in right left in if has_key (key p) right then base p ∷ rest else rest

unfoldable pub intersect_ports : List PortSpec → List PortSpec → List PortSpec
unfolding present_in stable_unique_ports
intersect_ports left right = stable_unique_ports (present_in right left)

-- The first loop of `nextManagedPorts`: what was managed stays so while desired and present.
unfoldable pub still_managed : List PortSpec → List PortSpec → List PortSpec → List PortSpec
unfolding has_key
still_managed desired current [] = []
still_managed desired current (p ∷ previous) =
    let rest = still_managed desired current previous in
    if not (has_key (key p) desired)
    then rest
    else if has_key (key p) current
    then base p ∷ rest
    else rest

unfoldable pub next_managed_ports :
    List PortSpec → List PortSpec → List PortSpec → List PortSpec → List PortSpec
unfolding still_managed stable_unique_ports
next_managed_ports previous desired current added =
    stable_unique_ports (still_managed desired current previous ++ map base added)

unfoldable pub port_keys : List PortSpec → List PortKey
unfolding key
port_keys = map key

unfoldable pub spec_from_key : PortKey → PortSpec
unfolding protocol_from_string
spec_from_key k = record {
  port = k.port;
  protocol = protocol_from_string k.protocol;
  allow_privileged = false;
}

unfoldable pub specs_from_keys : List PortKey → List PortSpec
unfolding spec_from_key
specs_from_keys = map spec_from_key
