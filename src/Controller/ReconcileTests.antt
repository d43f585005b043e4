-- ===== src/Controller/ReconcileTests.antt =====
-- Reconciles on a concrete API server.
use bulb.Base.{
  ℕ, ◌≡◌, refl, ◌⊎◌, true, false, List, [], ◌∷◌, Text, codes, text_discrete, ℕ_discrete, Option,
  none, some,
}
use bulb.Base.Result.{Result, ok}
use bulb.Api.{LbPort, DnsRecord}
use bulb.Controller.Service.{Service, service_matches, annotated}
use bulb.Controller.Samples.{sample_client, find_object, find-delete}
use bulb.Controller.LbPorts.{Node}
use bulb.Controller.Pods.{DaemonSetSpec}
use bulb.Controller.Cleanup.{DaemonSet, is_owned, is_deleted, cleanup_mode_for_service}
use bulb.Controller.Status.{condition_reconciled, service_condition, condition_of, set_conditions}
use bulb.Controller.Server.{Server}
use bulb.Controller.Reconcile.{Outcome, success, cleanup_non_bulb, invalid_service, reconcile}
use bulb.Controller.Conflicts.{detect_port_conflict}
use bulb.Controller.Nodes.{node_public_ips, see_ip, collect_ips}
use bulb.Controller.DnsRecords.{
  delete_unwanted, prune_unwanted_dns_records, apply_each_dns_record, apply_one_dns_record,
  at_least_one, split_by_family, dns_record_unchanged, dns_spec_discrete, apply_dns_records,
  build_dns_records,
}
use bulb.Controller.Endpoints.{service_endpoints}
use bulb.Controller.DaemonSets.{build_daemon_set}
use bulb.Controller.ProxyArgs.{is_supported}
use bulb.Controller.LbPorts.{
  build_lb_ports, valid_nodes, names, build_lb_port, labels_equal, lb_port_unchanged,
  apply_lb_ports, apply_desired, delete_stale, texts_discrete,
}
use bulb.Controller.Cleanup.{apply_daemon_set, cleanup_by_name, prune_stale_applied_nodes}
use bulb.Controller.Status.{conditions_discrete, update_status, emit_lb_port_events, lb_port_event}
use bulb.Controller.Reconcile.{
  refuse, set_status, record_events, prune_nodes_of, emit_events, report_success, publish_service,
}
use bulb.Controller.Reconcile.Conditions.{IsSetter}
use bulb.Controller.Reconcile.Outcomes.{IsServable, refusal_of}
use bulb.Controller.Reconcile.Served.{IsServed, reconcile-serves}
use bulb.Controller.Reconcile.Released.{IsReleased, reconcile-releases}
use bulb.Controller.Reconcile.Refused.{NoDaemonSet, OnlyDeletes, reconcile-refuses}
use bulb.Controller.SampleServer.{
  Sets, set_name, set_labels, port_name, port_labels, find_service, kube, settings, setter,
  status_law, store, sets_laws, ports_laws, web, server,
}

-- All that a run computes.
runs : Unit {0}
unfolding reconcile kube settings text_discrete ℕ_discrete service_matches service_endpoints
    build_lb_ports detect_port_conflict build_daemon_set refuse set_status update_status
    texts_discrete conditions_discrete set_conditions cleanup_by_name cleanup_mode_for_service
    annotated is_owned is_deleted record_events is_supported apply_daemon_set apply_lb_ports
    node_public_ips apply_dns_records build_dns_records emit_events prune_nodes_of publish_service
    report_success prune_stale_applied_nodes valid_nodes emit_lb_port_events lb_port_event
    sample_client labels_equal lb_port_unchanged names see_ip collect_ips delete_unwanted
    prune_unwanted_dns_records apply_each_dns_record apply_one_dns_record at_least_one
    split_by_family dns_record_unchanged dns_spec_discrete delete_stale apply_desired build_lb_port
runs = tt

served_run : (reconcile kube settings (codes "demo") (codes "web") (server 8080)).1 ≡ ok success
unfolding runs
served_run = refl

refused_run :
    (reconcile kube settings (codes "demo") (codes "web") (server 80)).1 ≡ ok invalid_service
unfolding runs
refused_run = refl

abbrev view : List Service → Text → Text → Option Service
view v ns n = find_service ns n v

abbrev sets_view : Sets → Text → Option (DaemonSet DaemonSetSpec)
sets_view s n = find_object set_name set_labels n s

abbrev ports_view : List LbPort → Text → Option LbPort
ports_view s n = find_object port_name port_labels n s

abbrev Hub : Type 0
Hub = Server Sets (List LbPort) (List DnsRecord) (List Service) (List Node)

abbrev Run : Type 0
Run = Hub × Result Outcome

abbrev of_web : ℕ → Run
of_web port = reconcile kube settings (codes "demo") (codes "web") (server port)

setting : IsSetter settings.set_condition
unfolding settings
setting = setter

ports_deletes :
    (o : LbPort) (l : List LbPort) (n : Text)
    → (ports_view (kube.lb_port_client.delete o l).0 n ≡ none)
      ⊎ (ports_view (kube.lb_port_client.delete o l).0 n ≡ ports_view l n)
unfolding kube
ports_deletes o l n = find-delete port_name port_labels o l n

reconcile-serves_example :
    (svc : Service) × (desired : DaemonSet DaemonSetSpec) × (lbports : List LbPort) × (view
        (web [] 8080 ∷ [])
        (codes "demo")
        (codes "web")
      ≡ some svc)
    × IsServable kube settings svc desired lbports (server 8080)
    × IsServed kube settings view store sets_view sets_laws ports_view ports_laws status_law svc
        desired lbports
        (server 8080)
        (of_web 8080).0
    × ((o : Service) × (view (of_web 8080).0.services (codes "demo") (codes "web") ≡ some o)
        × (condition_of condition_reconciled o.conditions
            ≡ some (
                service_condition svc condition_reconciled true
                  (codes "Reconciled")
                  (codes "Service reconciled successfully"))))
reconcile-serves_example =
    reconcile-serves kube settings view store sets_view sets_laws ports_view ports_laws status_law
      setting (codes "demo") (codes "web") (server 8080) served_run

reconcile-refuses_example :
    (svc : Service) × (reason : Text) × (message : Text) × (view
        (web [] 80 ∷ [])
        (codes "demo")
        (codes "web")
      ≡ some svc)
    × (service_matches svc ≡ true)
    × ((o : Service) × (view (of_web 80).0.services (codes "demo") (codes "web") ≡ some o)
        × (o.ingress ≡ [])
        × (condition_of condition_reconciled o.conditions
            ≡ some (service_condition svc condition_reconciled false reason message))
        × (condition_of (refusal_of invalid_service) o.conditions
            ≡ some (service_condition svc (refusal_of invalid_service) true reason message)))
    × NoDaemonSet kube settings view store sets_view sets_laws ports_view ports_deletes
        (codes "demo")
        (codes "web")
        (of_web 80).0.daemon_sets
    × OnlyDeletes kube settings view store sets_view sets_laws ports_view ports_deletes []
        (of_web 80).0.lb_ports
reconcile-refuses_example =
    reconcile-refuses kube settings view store sets_view sets_laws ports_view ports_deletes setting
      (codes "demo") (codes "web") (server 80) invalid_service refused_run refl

-- The Service is served, and then its type changes.
abbrev released : Hub
released = record (of_web 8080).0 {
  services = record (web [] 8080) { service_type = codes "ClusterIP" } ∷ [];
}

abbrev after_release : Run
after_release = reconcile kube settings (codes "demo") (codes "web") released

released_run : after_release.1 ≡ ok cleanup_non_bulb
unfolding runs
released_run = refl

reconcile-releases_example :
    ((svc : Service)
      → view released.services (codes "demo") (codes "web") ≡ some svc
      → service_matches svc ≡ false)
    × IsReleased kube settings view store sets_view sets_laws ports_view ports_deletes
        (codes "demo")
        (codes "web")
        released
        after_release.0
reconcile-releases_example =
    reconcile-releases kube settings view store sets_view sets_laws ports_view ports_deletes setting
      (codes "demo") (codes "web") released cleanup_non_bulb released_run refl
