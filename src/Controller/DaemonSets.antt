-- ===== src/Controller/DaemonSets.antt =====
-- The DaemonSet of a Service's proxies: `BuildDaemonSet` of internal/controller/daemonset.go.
-- `net.ParseIP` and Kubernetes' parser of label selectors are parameters. The Service is never nil.
pub mod Started
use bulb.Base.{
  ℕ, ltb, if◌then◌else◌, Bool, not, ◌&&◌, List, [], ◌∷◌, ◌++◌, Text, codes, is_empty, decimal,
  Option, none, some,
}
use bulb.Base.Result.{Result, ok, err, wrap}
use bulb.Api.{Labels, get_label}
use bulb.Controller.Service.{
  Service, ServicePort, annotated, annotation_nodes, annotation_allow_privileged_port,
  annotation_proxy_protocol, annotation_external_traffic_policy, annotation_keep_on_uninstall,
  service_labels, daemon_set_name,
}
use bulb.Controller.Endpoints.{ServiceEndpoints}
use bulb.Controller.Cleanup.{DaemonSet}
use bulb.Controller.Pods.{LabelSelector, DaemonSetSpec, node_placement, pod_spec}
use bulb.Controller.ProxyArgs.{split_cluster_ips, ports_and_args}

unfoldable pub daemon_set_annotations : Service → Labels
unfolding annotated
daemon_set_annotations svc =
    if not (annotated svc annotation_keep_on_uninstall (codes "true"))
    then []
    else (annotation_keep_on_uninstall, codes "true") ∷ []

-- The first port below 1024.
unfoldable pub privileged_port : List ServicePort → Option ServicePort
privileged_port [] = none
privileged_port (p ∷ ps) = if ltb p.port 1024 then some p else privileged_port ps

-- `namespace/name`
abbrev qualified : Service → Text
qualified svc = svc.namespace ++ (codes "/" ++ svc.name)

module _ (parse_ip : Text → Option Bool) where
  unfoldable pub checked_service : Service → Result (Unit {0})
  unfolding split_cluster_ips annotated privileged_port decimal
  checked_service svc =
      let (v4, v6) = split_cluster_ips parse_ip svc in
      if is_empty v4 && is_empty v6
      then err (codes "service " ++ (qualified svc ++ codes " has no ClusterIP"))
      else if is_empty svc.ports
      then err (codes "service " ++ (qualified svc ++ codes " has no ports"))
      else if annotated svc annotation_allow_privileged_port (codes "true")
      then ok tt
      else elim (privileged_port svc.ports) [
        | none ↦ ok tt
        | some p ↦ err (
            codes "port < 1024 requires bulb.toturi.tech/allow-privileged-port=\"true\": port "
            ++ (decimal p.port ++ (codes " on service " ++ qualified svc)))
      ]

unfoldable pub build_daemon_set :
    (Text → Option Bool)
    → (Text → Result LabelSelector)
    → Service
    → Text
    → ServiceEndpoints
    → Result (DaemonSet DaemonSetSpec)
unfolding checked_service annotated get_label ports_and_args node_placement service_labels
    daemon_set_annotations daemon_set_name pod_spec
build_daemon_set parse_ip parse svc image endpoint_set =
    let endpoints =
      if annotated svc annotation_external_traffic_policy (codes "Local")
      then endpoint_set
      else [] in
    elim (checked_service parse_ip svc) [
      | err e ↦ err e
      | ok _ ↦
          elim (ports_and_args parse_ip svc (get_label annotation_proxy_protocol svc.annotations)
            endpoints) [
              | err e ↦ err e
              | ok (ports, args) ↦
                  elim (node_placement parse (get_label annotation_nodes svc.annotations)) [
                    | err e ↦ wrap (codes "parse " ++ annotation_nodes) (err e)
                    | ok (node_selector, affinity) ↦ ok record {
                      name = daemon_set_name svc;
                      labels = service_labels svc;
                      annotations = daemon_set_annotations svc;
                      spec = record {
                        match_labels = service_labels svc;
                        template_labels = service_labels svc;
                        pod = pod_spec image node_selector affinity args ports;
                      };
                    }
                  ]
            ]
    ]
