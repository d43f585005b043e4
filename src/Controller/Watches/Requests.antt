-- ===== src/Controller/Watches/Requests.antt =====
-- Which Services the events of nodes and LBPorts request.
use bulb.Base.{
  ◌≡◌, refl, sym, Bool, true, false, ◌||◌, ◌&&◌, List, [], ◌∷◌, map, Text, is_empty, text_discrete,
  any, contains, Bool-cases, inl, inr, ite, All, subst,
}
use bulb.Base.Result.{Result, ok, ok≢err, Result-cases}
use bulb.Api.{LbPort, get_label}
use bulb.Controller.Service.{Service, ServicePort, service_matches, service_labels}
use bulb.Controller.LbPorts.{
  Node, Selectors, build_lb_port, build_lb_ports, lb_port_nodes, lb_port_to_service,
}
use bulb.Controller.Watches.{Request, requests_from, node_to_all_services}

unfoldable pub request_discrete : Discrete Request
unfolding text_discrete
request_discrete = hlevel text_discrete

-- Whether a Service is claimed and has the key.
abbrev pub claimed_at : Request → Service → Bool
claimed_at key svc =
    ite (request_discrete key (svc.namespace, svc.name)) true false && service_matches svc

choose : {A : Type 0} (d : Dec A) (b : Bool) → ite d true b ≡ ((ite d true false && true) || b)
choose (yes a) b = refl
choose (no n) b = refl

choose_not : {A : Type 0} (d : Dec A) (b : Bool) → b ≡ ((ite d true false && false) || b)
choose_not (yes a) b = refl
choose_not (no n) b = refl

requests_from-contains :
    (key : Request) (svcs : List Service)
    → contains request_discrete key (requests_from svcs) ≡ any (claimed_at key) svcs
unfolding requests_from
requests_from-contains key [] = refl
requests_from-contains key (svc ∷ svcs) =
    let rest = requests_from-contains key svcs in
    elim (Bool-cases (service_matches svc)) [
      | inl claimed ↦ rw (claimed, rest) (choose (request_discrete key (svc.namespace, svc.name)) _)
      | inr foreign ↦
          rw (foreign, rest) (choose_not (request_discrete key (svc.namespace, svc.name)) _)
    ]

-- A node's event requests the Services of the cluster that are claimed, and no other.
pub node_to_all_services-contains :
    (key : Request) (svcs : List Service)
    → contains request_discrete key (node_to_all_services (ok svcs)) ≡ any (claimed_at key) svcs
unfolding node_to_all_services
node_to_all_services-contains key svcs = requests_from-contains key svcs

port_lem :
    (svc : Service) (nodes : List Text) (p : ServicePort)
    → is_empty svc.namespace ≡ false
    → is_empty svc.name ≡ false
    → lb_port_to_service (build_lb_port svc nodes p) ≡ (svc.namespace, svc.name) ∷ []
unfolding lb_port_to_service build_lb_port service_labels get_label text_discrete
port_lem svc nodes p ns n = rw (ns, n) refl

ports_lem :
    (svc : Service) (nodes : List Text) (ps : List ServicePort)
    → is_empty svc.namespace ≡ false
    → is_empty svc.name ≡ false
    → All
        (λ l. lb_port_to_service l ≡ (svc.namespace, svc.name) ∷ [])
        (map (build_lb_port svc nodes) ps)
ports_lem svc nodes [] ns n = tt
ports_lem svc nodes (p ∷ ps) ns n = (port_lem svc nodes p ns n, ports_lem svc nodes ps ns n)

-- An event of an LBPort that was built for a Service with a namespace and a name requests that
-- Service and no other.
pub build_lb_ports-requests :
    (sel : Selectors) (nodes : Result (List Node)) (svc : Service) (lbports : List LbPort)
    → build_lb_ports sel nodes svc ≡ ok lbports
    → is_empty svc.namespace ≡ false
    → is_empty svc.name ≡ false
    → All (λ l. lb_port_to_service l ≡ (svc.namespace, svc.name) ∷ []) lbports
unfolding build_lb_ports
build_lb_ports-requests sel nodes svc lbports built ns n =
    elim (Result-cases (lb_port_nodes sel nodes svc)) [
      | inr (e, failed') ↦ absurd (ok≢err (sym (rw (failed', build_lb_ports) at built)))
      | inl (names, matched) ↦
          let read : ok (map (build_lb_port svc names) svc.ports) ≡ ok lbports =
            rw (matched, build_lb_ports) at built in
          let same : map (build_lb_port svc names) svc.ports ≡ lbports = cc in
          subst (All (λ l. lb_port_to_service l ≡ (svc.namespace, svc.name) ∷ [])) same
            (ports_lem svc names svc.ports ns n)
    ]
