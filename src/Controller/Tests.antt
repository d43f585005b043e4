-- ===== src/Controller/Tests.antt =====
-- Runs of the controller on concrete inputs, and its theorems at inputs that meet their
-- hypotheses.
use mathlib.Core.List.{Nodup}
use bulb.Base.{
  Bool, not, false, ℕ, ◌≡◌, refl, true, List, [], ◌∷◌, map, Text, codes, text_discrete, inl, inr,
  ◌&&◌, ◌||◌, ◌↔◌, Option, none, some, contains, text_less, any, is_empty,
}
use bulb.Base.Sort.{sort, IsSorted}
use bulb.Api.{get_label, Labels, LbPort, all_nodes_token}
use bulb.Firewall.Desired.{applies_to_node}
use bulb.Controller.Service.{
  Service, ServicePort, service_labels, lb_port_name, service_matches, annotation_dns_name,
}
use bulb.Controller.Conflicts.{
  is_all_nodes, overlapping_nodes, sorted_concrete_nodes, same_string_map, agrees_with,
  duplicate_service_port_conflict, duplicate_from, port_key, normalized_protocol,
}
use bulb.Controller.Conflicts.Overlap.{contains-overlapping_nodes}
use bulb.Controller.Conflicts.Duplicates.{key_of, duplicate-eq-none_iff}
use bulb.Controller.Conflicts.Ownership.{same_string_map_of_empty}
use bulb.Controller.LbPorts.{
  Node, build_lb_port, apply_lb_ports, apply_desired, delete_stale, apply_lb_port,
  lb_port_unchanged, lb_port_spec_discrete, labels_equal,
}
use bulb.Controller.LbPorts.Applied.{IsSynced, apply_lb_ports-IsSynced}
use bulb.Labeler.{annotation_ipv4}
use bulb.Controller.Nodes.{see_ip, collect_ips, node_public_ips, has_ip, node_public_ips-contains}
use bulb.Controller.DnsRecords.{build_dns_records, dns_type_a, dns_type_aaaa}
use bulb.Controller.DnsRecords.Targets.{targeted, is_family, build_dns_records-targeted}
use bulb.Controller.Samples.{sample_client, sample_laws, find_object}

controller : Unit {0}
unfolding see_ip collect_ips node_public_ips get_label service_labels lb_port_name build_lb_port
    apply_lb_ports apply_desired delete_stale apply_lb_port lb_port_unchanged lb_port_spec_discrete
    labels_equal sample_client is_all_nodes overlapping_nodes sorted_concrete_nodes same_string_map
    agrees_with duplicate_service_port_conflict duplicate_from port_key normalized_protocol
    service_matches sort text_discrete text_less
controller = tt

abbrev service_port : Text → Text → ℕ → ServicePort
service_port name protocol port = record {
  name = name;
  protocol = protocol;
  port = port;
  target_port = codes "0";
}

abbrev web : Service
web = record {
  namespace = codes "default";
  name = codes "web";
  generation = 3;
  annotations = [];
  service_type = codes "LoadBalancer";
  load_balancer_class = some (codes "bulb");
  cluster_ip = codes "10.0.0.1";
  cluster_ips = codes "10.0.0.1" ∷ [];
  ports =
      service_port (codes "http") (codes "TCP") 8080
      ∷ service_port (codes "dns") (codes "UDP") 53
      ∷ [];
  ingress = [];
  conditions = [];
}

abbrev two_nodes : List Text
two_nodes = codes "node-a" ∷ codes "node-b" ∷ []

abbrev desired : List LbPort
desired = map (build_lb_port web two_nodes) web.ports

abbrev old_port : LbPort
old_port = build_lb_port web two_nodes (service_port (codes "old") (codes "TCP") 9090)

abbrev foreign : LbPort
foreign = record old_port { name = codes "other"; labels = [] }

abbrev server : List LbPort
server = old_port ∷ foreign ∷ []

abbrev port_name : LbPort → Text
port_name l = l.name

abbrev port_labels : LbPort → Labels
port_labels l = l.labels

abbrev stored : List LbPort → Text → Option LbPort
stored s n = find_object port_name port_labels n s

-- Two ports are wanted, and one of the Service is not wanted any more.
apply_lb_ports-IsSynced_example :
    IsSynced
      (sample_client port_name port_labels)
      stored
      (sample_laws port_name port_labels)
      desired
      (apply_desired (sample_client port_name port_labels) desired (old_port ∷ [])).0
      server
      (apply_lb_ports (sample_client port_name port_labels) desired web server).0
unfolding controller
apply_lb_ports-IsSynced_example =
    apply_lb_ports-IsSynced (sample_client port_name port_labels) stored
      (sample_laws port_name port_labels) desired web server _ (refl, (refl, tt)) refl refl

abbrev node_b : Text
node_b = codes "node-b"

-- One Service is on all nodes, the other on two.
contains-overlapping_nodes_example :
    (contains text_discrete node_b (overlapping_nodes (all_nodes_token ∷ []) two_nodes)
      || is_all_nodes (all_nodes_token ∷ []) && is_all_nodes two_nodes)
    ≡ (applies_to_node (all_nodes_token ∷ []) node_b && applies_to_node two_nodes node_b)
contains-overlapping_nodes_example =
    contains-overlapping_nodes (all_nodes_token ∷ []) two_nodes node_b (inl refl)
      (inr ((λ e. cc, λ e. cc), ((λ e. cc, λ e. cc), tt))) (λ e. cc, λ e. cc)

duplicate-eq-none_iff_example :
    (duplicate_service_port_conflict web desired ≡ none) ↔ Nodup (map key_of desired)
duplicate-eq-none_iff_example = duplicate-eq-none_iff web desired

same_string_map_of_empty_example :
    same_string_map ((codes "a", []) ∷ (codes "b", []) ∷ (codes "c", []) ∷ []) (service_labels web)
    ≡ true
unfolding controller
same_string_map_of_empty_example =
    same_string_map_of_empty web (codes "a") (codes "b") (codes "c") refl refl refl

abbrev node_of : Text → Bool → Text → Node
node_of name cordoned ip = record {
  name = name;
  labels = [];
  annotations = (annotation_ipv4, ip) ∷ [];
  unschedulable = cordoned;
}

abbrev nodes : List Node
nodes =
    node_of (codes "node-a") false (codes "203.0.113.7")
    ∷ node_of (codes "node-b") true (codes "203.0.113.8")
    ∷ node_of (codes "node-c") false (codes "198.51.100.1")
    ∷ []

abbrev public_ips : List Text
public_ips = codes "198.51.100.1" ∷ codes "203.0.113.7" ∷ []

node_public_ips-contains_example :
    IsSorted text_less public_ips
    × ((ip : Text)
        → contains text_discrete ip public_ips ≡ (not (is_empty ip) && any (has_ip ip) nodes))
unfolding controller
node_public_ips-contains_example = node_public_ips-contains nodes public_ips refl

abbrev all_four : Text → Option Bool
all_four raw = some true

build_dns_records-targeted_example :
    let ip = codes "203.0.113.7" in
    (targeted dns_type_a ip (build_dns_records all_four web public_ips) ≡ (
      not (is_empty (get_label annotation_dns_name web.annotations))
      && (contains text_discrete ip public_ips && is_family true (some true))))
    × (targeted dns_type_aaaa ip (build_dns_records all_four web public_ips) ≡ (
        not (is_empty (get_label annotation_dns_name web.annotations))
        && (contains text_discrete ip public_ips && is_family false (some true))))
build_dns_records-targeted_example =
    build_dns_records-targeted all_four web public_ips (codes "203.0.113.7")
