-- ===== src/Labeler/Tests.antt =====
-- The labeler against an API server with one Node.
use bulb.Base.{
  ◌≡◌, refl, if◌then◌else◌, [], ◌∷◌, Text, codes, text_discrete, ite, Option, none, some, arith,
  fields,
}
use bulb.Base.Dict.{put}
use bulb.Base.Result.{M, Result, ok, err}
use bulb.Api.{Labels, get_label}
use bulb.Labeler.{
  four, is_four, sixteen, NodeClient, annotate_node, new_annotations, see_addresses, see_address,
  is_loopback, is_link_local_unicast, is_link_local_multicast, is_private_v4,
  default_route_interface, default_route,
}
use bulb.Labeler.Annotations.{IsNodeClient, Annotates, annotate_node-IsAnnotated}

labeler : Unit {0}
unfolding text_discrete fields get_label put annotate_node new_annotations see_addresses see_address
    is_loopback is_link_local_unicast is_link_local_multicast is_private_v4 default_route_interface
    default_route
labeler = tt

abbrev node_a : Text
node_a = codes "node-a"

abbrev read_node : Text → Labels → Result Labels
read_node n s = ite (text_discrete n node_a) (ok s) (err (codes "not found"))

abbrev view_node : Labels → Text → Option Labels
view_node s n = ite (text_discrete n node_a) (some s) none

abbrev write_node : Text → Labels → M Labels (Unit {0})
write_node n a s = ite (text_discrete n node_a) (a, ok tt) (s, err (codes "not found"))

unfoldable sample_nodes : NodeClient Labels
sample_nodes = record { get = read_node; update = write_node }

sample_nodes-IsNodeClient : IsNodeClient sample_nodes view_node
unfolding sample_nodes
sample_nodes-IsNodeClient = record {
  got = λ n s a h. ground arith;
  updated = λ n a s h. ground arith;
  other = λ n a s m ne. ground arith;
}

abbrev public_ip : Text
public_ip = codes "203.0.113.7"

annotate_node-IsAnnotated_example :
    Annotates sample_nodes view_node sample_nodes-IsNodeClient node_a public_ip [] [] []
      (annotate_node sample_nodes node_a public_ip [] []).0
unfolding labeler sample_nodes
annotate_node-IsAnnotated_example =
    annotate_node-IsAnnotated sample_nodes view_node sample_nodes-IsNodeClient node_a public_ip []
      [] [] refl refl

-- The private and the link-local address are passed over.
detect_run :
    see_addresses
      (λ ip. if is_four ip then public_ip else codes "fe80::1")
      (four 10 0 0 5
        ∷ four 169 254 1 1
        ∷ four 203 0 113 7
        ∷ four 198 51 100 1
        ∷ sixteen (254 ∷ 128 ∷ [])
        ∷ [])
      ([], [])
    ≡ (public_ip, [])
unfolding labeler
detect_run = refl

route_run :
    default_route_interface ok (
      codes "Iface Destination Gateway"
      ∷ codes "lo 0000007F 00000000"
      ∷ codes "eth0 00000000 0100A8C0 0003"
      ∷ [])
    ≡ ok (codes "eth0")
unfolding labeler
route_run = refl
