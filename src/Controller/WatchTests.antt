-- ===== src/Controller/WatchTests.antt =====
-- Requests on concrete Services.
use bulb.Base.{◌≡◌, refl, true, [], ◌∷◌, map, Text, codes, All, text_discrete, none, some}
use bulb.Base.Result.{ok}
use bulb.Controller.Service.{Service}
use bulb.Controller.LbPorts.{Selectors, build_lb_port, build_lb_ports, lb_port_to_service}
use bulb.Controller.Watches.{update_event, service_predicate, node_to_all_services, check_setup}
use bulb.Controller.Watches.Requests.{build_lb_ports-requests}

abbrev any_selector : Selectors
any_selector = record { Selector = Unit {0}; parse = λ s. ok tt; matches = λ s l. true }

abbrev service : Text → Text → Service
service name service_type = record {
  namespace = codes "demo";
  name = name;
  generation = 1;
  annotations = [];
  service_type = service_type;
  load_balancer_class = none;
  cluster_ip = codes "10.0.0.1";
  cluster_ips = [];
  ports =
      record { name = codes "http"; protocol = codes ""; port = 8080; target_port = codes "0" }
      ∷ [];
  ingress = [];
  conditions = [];
}

abbrev web : Service
web = service (codes "web") (codes "LoadBalancer")

abbrev db : Service
db = service (codes "db") (codes "ClusterIP")

test_requests : node_to_all_services (ok (db ∷ web ∷ [])) ≡ (codes "demo", codes "web") ∷ []
unfolding node_to_all_services text_discrete
test_requests = refl

-- A change from LoadBalancer to ClusterIP passes.
test_predicate :
    service_predicate (update_event (some web) (some (service (codes "web") (codes "ClusterIP"))))
    ≡ true
unfolding service_predicate text_discrete
test_predicate = refl

test_setup : check_setup (codes "bulb-system") (codes "bulb:1") ≡ ok tt
unfolding check_setup
test_setup = refl

build_lb_ports-requests_example :
    All
      (λ l. lb_port_to_service l ≡ (codes "demo", codes "web") ∷ [])
      (map (build_lb_port web (codes "*" ∷ [])) web.ports)
unfolding build_lb_ports text_discrete
build_lb_ports-requests_example =
    build_lb_ports-requests any_selector (ok []) web
      (map (build_lb_port web (codes "*" ∷ [])) web.ports) refl refl refl
