-- ===== src/Controller/Reconcile/Success.antt =====
-- A Service that is served counts as a success, or as an error.
use bulb.Base.{◌≡◌, sym, List, Text, codes, inl, inr}
use bulb.Base.Result.{ok, ok≢err, continue_with-ok, wrapping, Result-cases}
use bulb.Api.{LbPort}
use bulb.Controller.Service.{Service}
use bulb.Controller.LbPorts.{apply_lb_ports}
use bulb.Controller.Nodes.{node_public_ips}
use bulb.Controller.DnsRecords.{build_dns_records, apply_dns_records}
use bulb.Controller.Pods.{DaemonSetSpec}
use bulb.Controller.Cleanup.{DaemonSet, apply_daemon_set}
use bulb.Controller.Server.{Server, Kube, Settings, on_daemon_sets, on_lb_ports, on_dns_records}
use bulb.Controller.Reconcile.{
  Outcome, success, served_conditions, set_status, report_success, publish_status, publish_service,
  read_addresses, after_ports, apply_ports, emit_events, prune_nodes_of, apply_service,
}

module _ {D L N V W : Type 0} (kube : Kube D L N V W) (settings : Settings) where
  publish_service-success :
      (svc : Service) (ips : List Text) (s : Server D L N V W) (o : Outcome)
      → (publish_service kube settings svc ips s).1 ≡ ok o
      → success ≡ o
  unfolding publish_service publish_status report_success
  publish_service-success svc ips s o h =
      let (_, _, rest, _) =
        continue_with-ok (λ (_ : Unit {0}). publish_status kube settings svc ips)
          (wrapping (codes "apply dnsrecords")
            (on_dns_records (
              apply_dns_records kube.dns_record_client (build_dns_records settings.parse_ip svc ips)
                svc))
            s)
          h in
      let (_, _, last, _) =
        continue_with-ok (λ (_ : Unit {0}). report_success kube settings svc)
          (wrapping (codes "update service status")
            (set_status kube settings svc ips (served_conditions svc)) _)
          rest in
      cc

  after_ports-success :
      (svc : Service) (s : Server D L N V W) (o : Outcome)
      → (after_ports kube settings svc s).1 ≡ ok o
      → success ≡ o
  unfolding after_ports read_addresses
  after_ports-success svc s o h =
      let t = emit_events kube settings svc (prune_nodes_of kube settings svc s) in
      elim (Result-cases (node_public_ips (kube.list_nodes t.cluster))) [
        | inr (e, failed') ↦ absurd (ok≢err (sym (rw (failed', read_addresses) at h)))
        | inl (ips, read) ↦ publish_service-success svc ips t o (rw (read, read_addresses) at h)
      ]

  pub apply_service-success :
      (svc : Service) (desired : DaemonSet DaemonSetSpec) (lbports : List LbPort)
      (s : Server D L N V W) (o : Outcome)
      → (apply_service kube settings svc desired lbports s).1 ≡ ok o
      → success ≡ o
  unfolding apply_service apply_ports
  apply_service-success svc desired lbports s o h =
      let (_, _, rest, _) =
        continue_with-ok (λ (_ : Unit {0}). apply_ports kube settings svc lbports)
          (on_daemon_sets (apply_daemon_set kube.daemon_set_client settings.spec_eq desired) s) h in
      let (_, _, last, _) =
        continue_with-ok (λ (_ : Unit {0}). after_ports kube settings svc)
          (on_lb_ports (apply_lb_ports kube.lb_port_client lbports svc) _) rest in
      after_ports-success svc _ o last
