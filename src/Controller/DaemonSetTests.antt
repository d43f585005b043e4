-- ===== src/Controller/DaemonSetTests.antt =====
-- A Service with its endpoints, the DaemonSet that is built for it, and what its proxies serve.
use bulb.Base.{
  ℕ, ◌≡◌, refl, Bool, not, List, [], ◌∷◌, ◌++◌, Text, codes, text_discrete, text_less, ℕ_discrete,
  decimal, contains, any, join, join_host_port, split_host_port, Option, none, some, inl, inr, ◌⊎◌,
  All, trim_space, if_pos, if_neg,
}
use bulb.Base.Dict.{put}
use bulb.Base.Sort.{sort, IsSorted}
use bulb.Base.Result.{Result, Error, ok, err}
use bulb.Api.{get_label}
use bulb.Controller.Service.{
  Service, ServicePort, annotated, annotation_proxy_protocol, annotation_external_traffic_policy,
  service_labels,
}
use bulb.Controller.Conflicts.{normalized_protocol}
use bulb.Controller.Endpoints.{
  EndpointSubset, ServiceEndpoints, endpoints_of, service_ports_from, is_served, see_endpoint,
  endpoints_by_service_port,
}
use bulb.Controller.Endpoints.Ready.{offers, endpoints_by_service_port-offers}
use bulb.Controller.Cleanup.{DaemonSet}
use bulb.Controller.Pods.{DaemonSetSpec, LabelSelector, pod_spec}
use bulb.Controller.ProxyArgs.{
  split_cluster_ips, ports_and_args, each_port, v4_args, v6_args, endpoint_upstreams_for_family,
  upstream_flag, target_of, append_endpoint_arg, is_supported, container_port, trim_brackets,
}
use bulb.Controller.DaemonSets.{checked_service, build_daemon_set}
use bulb.Controller.DaemonSets.Started.{build_daemon_set-serves, build_daemon_set-refused}
use bulb.Controller.ProxyArgs.Shared.{run_specs-shares}
use bulb.Proxy.Flags.{rules_of_args}
use bulb.Proxy.Pairs.{Spec, run_specs, protocol_tcp, protocol_udp}
use bulb.Proxy.Pairs.Format.{IsEndpoint}

building : Unit {0}
unfolding text_discrete ℕ_discrete sort text_less get_label decimal join join_host_port annotated
    service_labels normalized_protocol endpoints_by_service_port is_served see_endpoint
    split_cluster_ips ports_and_args each_port v4_args v6_args endpoint_upstreams_for_family
    upstream_flag target_of append_endpoint_arg is_supported container_port trim_brackets
    checked_service build_daemon_set put
building = tt

-- Texts with a colon are IPv6 addresses, others IPv4.
abbrev parse_ip : Text → Option Bool
parse_ip s = some (not (contains ℕ_discrete 58 s))

abbrev no_selector : Text → Result LabelSelector
no_selector s = err (codes "no selector")

abbrev port : Text → Text → ℕ → Text → ServicePort
port name protocol n target = record {
  name = name;
  protocol = protocol;
  port = n;
  target_port = target;
}

abbrev web : Text → Service
web version = record {
  namespace = codes "demo";
  name = codes "web";
  generation = 1;
  annotations =
      (annotation_external_traffic_policy, codes "Local")
      ∷ (annotation_proxy_protocol, version)
      ∷ [];
  service_type = codes "LoadBalancer";
  load_balancer_class = none;
  cluster_ip = codes "10.0.0.1";
  cluster_ips = codes "10.0.0.1" ∷ codes "fd00::1" ∷ [];
  ports =
      port (codes "http") (codes "") 8080 (codes "0")
      ∷ port (codes "dns") (codes "UDP") 5353 (codes "53")
      ∷ [];
  ingress = [];
  conditions = [];
}

abbrev subsets : List EndpointSubset
subsets =
    record {
      addresses = codes "10.2.0.7" ∷ codes "10.2.0.5" ∷ codes "10.2.0.7" ∷ [];
      ports =
          record { name = codes "http"; port = 80; protocol = codes "TCP" }
          ∷ record { name = codes "metrics"; port = 90; protocol = codes "TCP" }
          ∷ [];
    }
    ∷ []

abbrev ready : ServiceEndpoints
ready = (codes "http", codes "10.2.0.5:80" ∷ codes "10.2.0.7:80" ∷ []) ∷ []

test_endpoints : endpoints_by_service_port subsets (web (codes "2")) ≡ ready
unfolding building
test_endpoints = refl

endpoints_by_service_port-offers_example :
    IsSorted text_less
      (endpoints_of (codes "http") (endpoints_by_service_port subsets (web (codes "2"))))
    × ((u : Text)
        → contains text_discrete u
            (endpoints_of (codes "http") (endpoints_by_service_port subsets (web (codes "2"))))
          ≡ any (offers (service_ports_from [] (web (codes "2")).ports) (codes "http") u) subsets)
endpoints_by_service_port-offers_example =
    endpoints_by_service_port-offers subsets (web (codes "2")) (codes "http")

abbrev or_empty : Result (DaemonSet DaemonSetSpec) → List Text
or_empty (ok ds) = ds.spec.pod.container.args
or_empty (err e) = []

test_args :
    or_empty (build_daemon_set parse_ip no_selector (web (codes "2")) (codes "bulb:1") ready)
    ≡ codes "proxy"
      ∷ codes "--drain-timeout=30s"
      ∷ codes "--health-bind-address=:8081"
      ∷ codes "--upstream=0.0.0.0:8080=10.0.0.1:8080"
      ∷ codes "--endpoint=0.0.0.0:8080=10.2.0.5:80,10.2.0.7:80"
      ∷ codes "--upstream=[::]:8080=[fd00::1]:8080"
      ∷ codes "--udp-upstream=0.0.0.0:5353=10.0.0.1:53"
      ∷ codes "--udp-upstream=[::]:5353=[fd00::1]:53"
      ∷ codes "--proxy-protocol=2"
      ∷ []
unfolding building pod_spec
test_args = refl

abbrev no_set : DaemonSet DaemonSetSpec
no_set = record {
  name = [];
  labels = [];
  annotations = [];
  spec = record { match_labels = []; template_labels = []; pod = pod_spec [] [] none [] [] };
}

abbrev or_no_set : Result (DaemonSet DaemonSetSpec) → DaemonSet DaemonSetSpec
or_no_set (ok ds) = ds
or_no_set (err e) = no_set

abbrev built : Text → DaemonSet DaemonSetSpec
built version =
    or_no_set (build_daemon_set parse_ip no_selector (web version) (codes "bulb:1") ready)

built_lem :
    build_daemon_set parse_ip no_selector (web (codes "2")) (codes "bulb:1") ready
    ≡ ok (built (codes "2"))
unfolding building
built_lem = refl

built_v1 :
    build_daemon_set parse_ip no_selector (web (codes "v1")) (codes "bulb:1") ready
    ≡ ok (built (codes "v1"))
unfolding building
built_v1 = refl

ready-IsEndpoint : (name : Text) → All IsEndpoint (endpoints_of name ready)
unfolding split_host_port trim_space ℕ_discrete
ready-IsEndpoint name = elim (text_discrete name (codes "http")) [
  | yes e ↦ rw (if_pos _ e) (
    (((codes "10.2.0.5", codes "80"), refl), refl, refl),
    ((((codes "10.2.0.7", codes "80"), refl), refl, refl), tt),
  )
  | no ne ↦ rw (if_neg _ ne) tt
]

abbrev spec : Text → Text → Text → List Text → Spec
spec listen upstream protocol es = record {
  listen = listen;
  upstream = upstream;
  protocol = protocol;
  proxy_protocol = codes "2";
  endpoints = es;
}

build_daemon_set-serves_example :
    (args : List Text) × ((built (codes "2")).spec.pod.container.args ≡ codes "proxy" ∷ args)
    × (rules_of_args args
        ≡ ok (
            spec
              (codes "0.0.0.0:8080")
              (codes "10.0.0.1:8080")
              protocol_tcp
              (codes "10.2.0.5:80" ∷ codes "10.2.0.7:80" ∷ [])
            ∷ spec (codes "[::]:8080") (codes "[fd00::1]:8080") protocol_tcp []
            ∷ spec (codes "0.0.0.0:5353") (codes "10.0.0.1:53") protocol_udp []
            ∷ spec (codes "[::]:5353") (codes "[fd00::1]:53") protocol_udp []
            ∷ []))
unfolding building
build_daemon_set-serves_example =
    build_daemon_set-serves parse_ip no_selector (web (codes "2")) (codes "bulb:1") ready
      (built (codes "2")) built_lem (inr (inr refl))
      record { no_colon = refl; no_open = refl; no_close = refl } (refl, refl)
      (
        record { no_colon = refl; no_open = refl; no_close = refl },
        (record { no_colon = refl; no_open = refl; no_close = refl }, tt),
      )
      ready-IsEndpoint

unknown_v1 : ¬ ((codes "v1" ≡ codes "") ⊎ (codes "v1" ≡ codes "1") ⊎ (codes "v1" ≡ codes "2"))
unknown_v1 (inl e) = cc
unknown_v1 (inr (inl e)) = cc
unknown_v1 (inr (inr e)) = cc

build_daemon_set-refused_example :
    (args : List Text) × (e : Error) × ((built (codes "v1")).spec.pod.container.args
      ≡ codes "proxy" ∷ args)
    × (rules_of_args args ≡ err e)
unfolding building
build_daemon_set-refused_example =
    build_daemon_set-refused parse_ip no_selector (web (codes "v1")) (codes "bulb:1") ready
      (built (codes "v1")) built_v1 unknown_v1

abbrev listen_53 : Text
listen_53 = codes "0.0.0.0:53"

-- The endpoints of the TCP rule are lost.
run_specs-shares_example :
    run_specs
      ((listen_53 ++ 61 ∷ codes "10.0.0.1:53") ∷ [])
      ((listen_53 ++ 61 ∷ codes "10.0.0.1:5353") ∷ [])
      (codes "2")
      ((listen_53 ++ 61 ∷ codes "10.2.0.5:53") ∷ (listen_53 ++ 61 ∷ codes "10.2.0.5:5353") ∷ [])
    ≡ ok (
        spec listen_53 (codes "10.0.0.1:53") protocol_tcp (codes "10.2.0.5:5353" ∷ [])
        ∷ spec listen_53 (codes "10.0.0.1:5353") protocol_udp (codes "10.2.0.5:5353" ∷ [])
        ∷ [])
unfolding building split_host_port trim_space ℕ_discrete
run_specs-shares_example =
    run_specs-shares listen_53 (codes "10.0.0.1:53") (codes "10.0.0.1:5353") (codes "2")
      (codes "10.2.0.5:53") (codes "10.2.0.5:5353") [] [] (inr (inr refl))
      ((codes "0.0.0.0", codes "53"), refl) refl ((codes "10.0.0.1", codes "53"), refl)
      ((codes "10.0.0.1", codes "5353"), refl)
      ((((codes "10.2.0.5", codes "53"), refl), refl, refl), tt)
      ((((codes "10.2.0.5", codes "5353"), refl), refl, refl), tt)
