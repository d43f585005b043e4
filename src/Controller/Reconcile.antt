-- ===== src/Controller/Reconcile.antt =====
-- One reconcile of a Service: `Reconcile` of internal/controller/reconciler.go, with the outcome
-- that it counts.
pub mod Conditions
pub mod Outcomes
pub mod Success
pub mod Stored
pub mod Served
pub mod Refused
pub mod Released
use bulb.Base.{
  ℕ, if◌then◌else◌, Bool, true, false, not, ◌&&◌, List, [], ◌∷◌, ◌++◌, Text, codes, Option, none,
  some,
}
use bulb.Base.Result.{
  M, Result, Error, ok, err, wrap, wrapping, Found, found, not_found, failed, continue_with, query,
  return, ◌>>=◌, ◌>>◌,
}
use bulb.Api.{Labels, LbPort, DnsRecord}
use bulb.Controller.Service.{
  Service, Condition, service_matches, annotated, annotation_external_traffic_policy,
  service_labels,
}
use bulb.Controller.Cluster.{ObjectClient}
use bulb.Controller.Conflicts.{PortConflict, detect_port_conflict}
use bulb.Controller.LbPorts.{Node, Selectors, build_lb_ports, apply_lb_ports}
use bulb.Controller.Nodes.{node_public_ips}
use bulb.Controller.DnsRecords.{build_dns_records, apply_dns_records}
use bulb.Controller.Endpoints.{
  EndpointSubset, ServiceEndpoints, service_endpoints, has_no_endpoints,
}
use bulb.Controller.Pods.{DaemonSetSpec, LabelSelector}
use bulb.Controller.DaemonSets.{build_daemon_set}
use bulb.Controller.Cleanup.{
  DaemonSet, CleanupMode, force_delete, honor_keep, cleanup_mode_for_service, apply_daemon_set,
  cleanup_by_name, prune_stale_applied_nodes,
}
use bulb.Controller.Status.{
  condition_reconciled, condition_port_conflict, condition_invalid_service,
  condition_no_ready_endpoint, service_condition, update_status, Event, event_of,
  emit_lb_port_events,
}
use bulb.Controller.Server.{
  Server, Kube, Settings, on_daemon_sets, on_lb_ports, on_dns_records, on_services, all_daemon_sets,
  all_lb_ports, all_dns_records,
}

-- The outcomes that are counted. A reconcile that fails counts as an error.
pub data Outcome : Type 0 where
  success : Outcome
  cleanup_not_found : Outcome
  cleanup_non_bulb : Outcome
  no_ready_endpoints : Outcome
  invalid_service : Outcome
  port_conflict : Outcome

abbrev pub no_conflict : Service → Condition
no_conflict svc =
    service_condition svc condition_port_conflict false (codes "NoConflict")
      (codes "No port conflict detected")

abbrev pub valid_service : Service → Condition
valid_service svc =
    service_condition svc condition_invalid_service false (codes "Valid")
      (codes "Service annotations and ports are valid")

abbrev pub endpoints_found : Service → Condition
endpoints_found svc =
    service_condition svc condition_no_ready_endpoint false (codes "ReadyEndpointsFound")
      (codes "Ready endpoints are available or not required")

-- The conditions of a Service that is served.
abbrev pub served_conditions : Service → List Condition
served_conditions svc =
    service_condition svc condition_reconciled true (codes "Reconciled")
      (codes "Service reconciled successfully")
    ∷ no_conflict svc
    ∷ valid_service svc
    ∷ endpoints_found svc
    ∷ []

module _ {D L N V W : Type 0} (kube : Kube D L N V W) (settings : Settings) where
  -- Nothing is recorded without a recorder.
  unfoldable pub record_events : List Event → Server D L N V W → Server D L N V W
  record_events es s = if settings.has_recorder then record s { events = s.events ++ es } else s

  unfoldable pub cleanup : Text → Text → CleanupMode → M (Server D L N V W) (Unit {0})
  unfolding all_daemon_sets all_lb_ports all_dns_records
  cleanup =
      cleanup_by_name (all_daemon_sets kube.daemon_set_client) (all_lb_ports kube.lb_port_client)
        (all_dns_records kube.dns_record_client)

  unfoldable pub set_status : Service → List Text → List Condition → M (Server D L N V W) (Unit {0})
  unfolding on_services
  set_status svc ips conditions =
      on_services
        (update_status settings.set_condition kube.patch_service_status svc ips conditions)

  -- A Service that is refused: an event, its conditions with no address, and the cleanup.
  unfoldable pub refuse :
      Outcome → Text → Service → Text → Text → List Condition → M (Server D L N V W) Outcome
  refuse outcome what svc reason message conditions s =
      continue_with
        (λ _ t. continue_with (λ _. return outcome) (cleanup svc.namespace svc.name force_delete t))
        (wrapping what (set_status svc [] conditions)
          (record_events (event_of svc (codes "Warning") reason message ∷ []) s))

  unfoldable pub mark_invalid_service : Service → Text → Error → M (Server D L N V W) Outcome
  mark_invalid_service svc reason cause =
      refuse invalid_service (codes "update invalid service condition") svc reason cause (
        service_condition svc condition_invalid_service true reason cause
        ∷ service_condition svc condition_reconciled false reason cause
        ∷ no_conflict svc
        ∷ endpoints_found svc
        ∷ [])

  unfoldable pub refuse_no_endpoints : Service → M (Server D L N V W) Outcome
  refuse_no_endpoints svc =
      let reason = codes "NoReadyEndpoints" in
      let msg =
        codes "Service "
        ++ (svc.namespace
            ++ (codes "/"
                ++ (svc.name
                    ++ codes " uses externalTrafficPolicy=Local but has no ready endpoints"))) in
      refuse no_ready_endpoints (codes "update no-ready-endpoints condition") svc reason msg (
        service_condition svc condition_no_ready_endpoint true reason msg
        ∷ service_condition svc condition_reconciled false reason msg
        ∷ no_conflict svc
        ∷ valid_service svc
        ∷ [])

  unfoldable pub refuse_conflict : Service → PortConflict → M (Server D L N V W) Outcome
  refuse_conflict svc conflict =
      refuse port_conflict (codes "update port conflict condition") svc conflict.reason
        conflict.message
        (service_condition svc condition_port_conflict true conflict.reason conflict.message
          ∷ service_condition svc condition_reconciled false conflict.reason conflict.message
          ∷ valid_service svc
          ∷ endpoints_found svc
          ∷ [])

  -- An error of the pruning is logged only.
  unfoldable pub prune_nodes_of : Service → Server D L N V W → Server D L N V W
  prune_nodes_of svc s =
      (on_lb_ports
        (prune_stale_applied_nodes kube.lb_port_client kube.update_lb_port_status
          (λ _. kube.list_nodes s.cluster) svc)
        s).0

  unfoldable pub emit_events : Service → Server D L N V W → Server D L N V W
  emit_events svc s =
      record_events
        (emit_lb_port_events (kube.list_nodes s.cluster)
          (kube.lb_port_client.list (service_labels svc) s.lb_ports) svc)
        s

  -- The end: the DNS records, the status with the addresses, and the event.
  unfoldable pub report_success : Service → M (Server D L N V W) Outcome
  report_success svc s = (
    record_events
        (event_of svc (codes "Normal") (codes "Reconciled")
            (codes "Service reconciled successfully")
          ∷ [])
        s,
    ok success,
  )

  unfoldable pub publish_status : Service → List Text → M (Server D L N V W) Outcome
  unfolding report_success
  publish_status svc ips = do
    wrapping (codes "update service status") (set_status svc ips (served_conditions svc))
    report_success svc

  unfoldable pub publish_service : Service → List Text → M (Server D L N V W) Outcome
  unfolding publish_status
  publish_service svc ips = do
    wrapping (codes "apply dnsrecords") (
        on_dns_records (
          apply_dns_records kube.dns_record_client (build_dns_records settings.parse_ip svc ips)
            svc))
    publish_status svc ips

  unfoldable pub read_addresses : Service → M (Server D L N V W) Outcome
  unfolding publish_service
  read_addresses svc s = elim (node_public_ips (kube.list_nodes s.cluster)) [
    | err e ↦ (s, err e)
    | ok ips ↦ publish_service svc ips s
  ]

  -- What follows the LBPorts.
  unfoldable pub after_ports : Service → M (Server D L N V W) Outcome
  unfolding read_addresses
  after_ports svc s = read_addresses svc (emit_events svc (prune_nodes_of svc s))

  unfoldable pub apply_ports : Service → List LbPort → M (Server D L N V W) Outcome
  unfolding after_ports
  apply_ports svc lbports = do
    on_lb_ports (apply_lb_ports kube.lb_port_client lbports svc)
    after_ports svc

  -- From the DaemonSet on: the objects of a Service that is served.
  unfoldable pub apply_service :
      Service → DaemonSet DaemonSetSpec → List LbPort → M (Server D L N V W) Outcome
  unfolding apply_ports
  apply_service svc desired lbports = do
    on_daemon_sets (apply_daemon_set kube.daemon_set_client settings.spec_eq desired)
    apply_ports svc lbports

  -- With the LBPorts built: the conflicts, then the DaemonSet.
  unfoldable pub reconcile_ports :
      Service → ServiceEndpoints → List LbPort → M (Server D L N V W) Outcome
  unfolding apply_service refuse_conflict mark_invalid_service
  reconcile_ports svc endpoints lbports s =
      elim (detect_port_conflict (build_lb_ports settings.selectors (kube.list_nodes s.cluster))
        (λ n. kube.lb_port_client.get n s.lb_ports) (kube.list_services s.services) svc lbports) [
          | err e ↦ (s, wrap (codes "detect port conflicts") (err e))
          | ok (some conflict) ↦ refuse_conflict svc conflict s
          | ok none ↦
              elim (build_daemon_set settings.parse_ip settings.parse_label_selector svc
                settings.image endpoints) [
                  | err e ↦ mark_invalid_service svc (codes "InvalidService") e s
                  | ok desired ↦ apply_service svc desired lbports s
                ]
        ]

  -- A Service that bulb claims.
  unfoldable pub reconcile_claimed : Service → M (Server D L N V W) Outcome
  unfolding reconcile_ports refuse_no_endpoints mark_invalid_service
  reconcile_claimed svc s =
      elim (service_endpoints (λ ns n. kube.get_endpoints ns n s.cluster) svc) [
        | err e ↦ (s, wrap (codes "read service endpoints") (err e))
        | ok endpoints ↦
            if annotated svc annotation_external_traffic_policy (codes "Local")
              && has_no_endpoints endpoints
            then refuse_no_endpoints svc s
            else elim (build_lb_ports settings.selectors (kube.list_nodes s.cluster) svc) [
              | err e ↦ mark_invalid_service svc (codes "InvalidAnnotation") e s
              | ok lbports ↦ reconcile_ports svc endpoints lbports s
            ]
      ]

  unfoldable pub reconcile : Text → Text → M (Server D L N V W) Outcome
  unfolding reconcile_claimed cleanup
  reconcile namespace name s = elim (kube.get_service namespace name s.services) [
    | not_found ↦
        continue_with (λ _. return cleanup_not_found) (cleanup namespace name honor_keep s)
    | failed e ↦ (s, wrap (codes "get service") (err e))
    | found svc ↦
        if not (service_matches svc)
        then continue_with (λ _. return cleanup_non_bulb)
            (cleanup svc.namespace svc.name (cleanup_mode_for_service svc) s)
        else reconcile_claimed svc s
  ]
