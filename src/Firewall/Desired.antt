-- ===== src/Firewall/Desired.antt =====
-- Which ports a node should expose: `appliesToNode` and `DesiredPortsForNode` of
-- internal/firewall/firewall.go.
pub mod Exact
use bulb.Base.{
  ℕ, if◌then◌else◌, Bool, true, false, not, ◌||◌, List, [], ◌∷◌, map, Text, text_discrete, ite,
  is_empty, Option, none, some,
}
use bulb.Base.Dict.{lookup, put, values}
use bulb.Base.Sort.{sort}
use bulb.Api.{LbPort, all_nodes_token}
use bulb.Firewall.Ports.{
  PortSpec, PortKey, port_key_discrete, protocol_tcp, protocol_string, port_less,
}

unfoldable pub applies_to_node : List Text → Text → Bool
unfolding text_discrete
applies_to_node [] node_name = false
applies_to_node (node ∷ nodes) node_name =
    ite (text_discrete node all_nodes_token) true
      (ite (text_discrete node node_name) true (applies_to_node nodes node_name))

-- The protocol of an LBPort, TCP where it is empty.
abbrev pub spec_protocol : LbPort → Text
spec_protocol l = if is_empty l.spec.protocol then protocol_tcp else l.spec.protocol

unfoldable pub lbport_key : LbPort → PortKey
unfolding protocol_string
lbport_key l = record { port = l.spec.port; protocol = protocol_string (spec_protocol l) }

abbrev pub Seen : Type 0
Seen = List (PortKey × PortSpec)

abbrev pub flag_of : Option PortSpec → Bool
flag_of none = false
flag_of (some p) = p.allow_privileged

-- The value that the loop stores: the flag sticks once an LBPort of the key has had it.
unfoldable pub current_spec : LbPort → Seen → PortSpec
current_spec l seen = record {
  port = l.spec.port;
  protocol = spec_protocol l;
  allow_privileged =
      if flag_of (lookup port_key_discrete (lbport_key l) seen)
      then true
      else l.spec.allow_privileged;
}

-- One round of the loop over the LBPorts.
unfoldable pub see_lbport : Text → LbPort → Seen → Seen
see_lbport node_name l seen =
    if not (applies_to_node l.spec.nodes node_name)
    then seen
    else put port_key_discrete (lbport_key l) (current_spec l seen) seen

unfoldable pub see_lbports : Text → List LbPort → Seen → Seen
see_lbports node_name [] seen = seen
see_lbports node_name (l ∷ ls) seen = see_lbports node_name ls (see_lbport node_name l seen)

unfoldable pub desired_ports_for_node : List LbPort → Text → List PortSpec
unfolding see_lbports see_lbport current_spec applies_to_node lbport_key port_key_discrete put sort
    port_less
desired_ports_for_node lbports node_name =
    sort port_less (values (see_lbports node_name lbports []))
