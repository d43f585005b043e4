-- ===== src/Controller/Reconcile/Served.antt =====
-- What a reconcile that serves its Service leaves on the API server.
use bulb.Base.{
  ◌≡◌, refl, sym, ap, ap₂, ◌∙◌, ◌⊎◌, true, List, Text, codes, Option, some, inl, inr, All, All-imp,
  subst,
}
use mathlib.Core.Bool.{false≢true}
use bulb.Base.Result.{
  Result, ok, ok≢err, continue_with-elim, wrap-eq-ok, wrapping, Result-cases, ok≢err,
}
use bulb.Api.{Labels, LbPort, DistinctNames}
use bulb.Controller.Service.{Service}
use bulb.Controller.Cluster.{IsObjectClient}
use bulb.Controller.LbPorts.{labels_equal, apply_lb_ports}
use bulb.Controller.LbPorts.Applied.{IsApplied}
use bulb.Controller.LbPorts.Wanted.{apply_lb_ports-All}
use bulb.Controller.LbPorts.Names.{free-DistinctNames}
use bulb.Controller.Nodes.{node_public_ips}
use bulb.Controller.DnsRecords.{build_dns_records, apply_dns_records}
use bulb.Controller.Pods.{DaemonSetSpec}
use bulb.Controller.Cleanup.{DaemonSet, apply_daemon_set}
use bulb.Controller.Cleanup.Applied.{IsSetApplied, apply_daemon_set-IsSetApplied}
use bulb.Controller.Cleanup.Pruned.{IsStatusUpdate, prune_stale_applied_nodes-IsKept}
use bulb.Controller.Status.{condition_reconciled, service_condition, condition_of}
use bulb.Controller.Server.{Server, Kube, Settings, on_daemon_sets, on_lb_ports, on_dns_records}
use bulb.Controller.Reconcile.Conditions.{IsSetter, says_reconciled}
use bulb.Controller.Reconcile.Outcomes.{IsServable, reconcile-found, reconcile-Ended}
use bulb.Controller.Reconcile.Stored.{
  IsServiceStore, HasStatus, set_status-HasStatus, set_status-stores, record_events-stores,
}
use bulb.Controller.Reconcile.{
  Outcome, success, served_conditions, set_status, prune_nodes_of, emit_events, report_success,
  publish_status, publish_service, read_addresses, after_ports, apply_ports, apply_service,
  reconcile,
}

module _ {D L N V W : Type 0} (kube : Kube D L N V W) (settings : Settings)
    (view : V → Text → Text → Option Service) (store : IsServiceStore kube view) where
  module _ (sets_view : D → Text → Option (DaemonSet DaemonSetSpec))
      (sets_laws : IsObjectClient (λ d. d.name) kube.daemon_set_client sets_view)
      (ports_view : L → Text → Option LbPort)
      (ports_laws : IsObjectClient (λ l. l.name) kube.lb_port_client ports_view)
      (status_law : IsStatusUpdate ports_view kube.update_lb_port_status) where
    -- The Service's objects are as they are to be.
    pub record IsServed (svc : Service) (desired : DaemonSet DaemonSetSpec) (lbports : List LbPort)
        (s t : Server D L N V W) : Type 0 where
      pub set :
          IsSetApplied kube.daemon_set_client settings.spec_eq sets_view sets_laws t.daemon_sets
            desired
      pub ports : All (IsApplied kube.lb_port_client ports_view ports_laws t.lb_ports) lbports
      pub ips : List Text
      pub addresses : node_public_ips (kube.list_nodes s.cluster) ≡ ok ips
      pub status : HasStatus kube settings view store t.services svc ips (served_conditions svc)

    -- The end of the chain leaves the two stores alone and sets the status.
    IsPublished : Service → List Text → Server D L N V W → Server D L N V W → Type 0
    IsPublished svc ips s t =
        (t.daemon_sets ≡ s.daemon_sets)
        × (t.lb_ports ≡ s.lb_ports)
        × HasStatus kube settings view store t.services svc ips (served_conditions svc)

    published_lem :
        (svc : Service) (ips : List Text) (s : Server D L N V W)
        → view s.services svc.namespace svc.name ≡ some svc
        → let t =
            (on_dns_records
              (apply_dns_records kube.dns_record_client
                (build_dns_records settings.parse_ip svc ips)
                svc)
              s).0 in
          (set_status kube settings svc ips (served_conditions svc) t).1 ≡ ok tt
          → IsPublished svc ips s
              (report_success kube settings svc
                (set_status kube settings svc ips (served_conditions svc) t).0).0
    unfolding IsPublished on_dns_records report_success
    published_lem svc ips s stored status_ok =
        let t =
          (on_dns_records
            (apply_dns_records kube.dns_record_client (build_dns_records settings.parse_ip svc ips)
              svc)
            s).0 in
        let u = (set_status kube settings svc ips (served_conditions svc) t).0 in
        let (ports, sets, services, _) = record_events-stores kube settings view store _ u in
        let (sets', ports') =
          set_status-stores kube settings view store svc ips (served_conditions svc) t in
        (
          sets ∙ sets',
          ports ∙ ports',
          subst (λ v. HasStatus kube settings view store v svc ips (served_conditions svc))
              (sym services)
              (set_status-HasStatus kube settings view store svc ips (served_conditions svc) t
                stored status_ok),
        )

    publish_service-IsPublished :
        (svc : Service) (ips : List Text) (s : Server D L N V W) (o : Outcome)
        → view s.services svc.namespace svc.name ≡ some svc
        → (publish_service kube settings svc ips s).1 ≡ ok o
        → IsPublished svc ips s (publish_service kube settings svc ips s).0
    unfolding IsPublished publish_service publish_status report_success
    publish_service-IsPublished svc ips s o stored h =
        let dns = wrapping (codes "apply dnsrecords") (
          on_dns_records (
            apply_dns_records kube.dns_record_client (build_dns_records settings.parse_ip svc ips)
              svc)) in
        let status =
          wrapping (codes "update service status")
            (set_status kube settings svc ips (served_conditions svc)) in
        let Q = λ (r : Server D L N V W × Result Outcome). IsPublished svc ips s r.0 in
        continue_with-elim Q (λ (_ : Unit {0}). publish_status kube settings svc ips) (dns s) o h
          (λ _ dns_ok rest.
            continue_with-elim Q (λ (_ : Unit {0}). report_success kube settings svc)
              (status (dns s).0) o rest
              (λ _ status_ok _.
                published_lem svc ips s stored
                  (wrap-eq-ok (codes "update service status") _ status_ok)))

    pruned-All :
        (svc : Service) (lbports : List LbPort) (s : Server D L N V W)
        → All (IsApplied kube.lb_port_client ports_view ports_laws s.lb_ports) lbports
        → All
            (IsApplied kube.lb_port_client ports_view ports_laws
              (prune_nodes_of kube settings svc s).lb_ports)
            lbports
    unfolding prune_nodes_of on_lb_ports
    pruned-All svc lbports s h =
        All-imp _ _ lbports
          (λ want (o, stored, spec, labels).
            let (o', stored', spec', labels') =
              prune_stale_applied_nodes-IsKept ports_view kube.lb_port_client
                kube.update_lb_port_status status_law (λ _. kube.list_nodes s.cluster) svc
                s.lb_ports want.name o stored in
            (
              o',
              stored',
              spec' ∙ spec,
              subst (λ (l : Labels). (l ≡ want.labels) ⊎ (labels_equal l want.labels ≡ true))
                  (sym labels') labels,
            ))
          h

    -- The parts of the server that the pruning and the events leave alone.
    after-stores :
        (svc : Service) (s : Server D L N V W)
        → let t = emit_events kube settings svc (prune_nodes_of kube settings svc s) in
          (t.lb_ports ≡ (prune_nodes_of kube settings svc s).lb_ports)
          × (t.daemon_sets ≡ s.daemon_sets)
          × (t.services ≡ s.services)
          × (t.cluster ≡ s.cluster)
    unfolding emit_events prune_nodes_of on_lb_ports
    after-stores svc s = record_events-stores kube settings view store _ _

    after_ports-IsServed :
        (svc : Service) (desired : DaemonSet DaemonSetSpec) (lbports : List LbPort)
        (s : Server D L N V W) (o : Outcome)
        → IsSetApplied kube.daemon_set_client settings.spec_eq sets_view sets_laws s.daemon_sets
            desired
        → All (IsApplied kube.lb_port_client ports_view ports_laws s.lb_ports) lbports
        → view s.services svc.namespace svc.name ≡ some svc
        → (after_ports kube settings svc s).1 ≡ ok o
        → IsServed svc desired lbports s (after_ports kube settings svc s).0
    unfolding after_ports read_addresses IsPublished
    after_ports-IsServed svc desired lbports s o set ports stored h =
        let t = emit_events kube settings svc (prune_nodes_of kube settings svc s) in
        let (same_ports, same_sets, same_services, same_cluster) = after-stores svc s in
        elim (Result-cases (node_public_ips (kube.list_nodes t.cluster))) [
          | inr (e, failed') ↦ absurd (ok≢err (sym (rw (failed', read_addresses) at h)))
          | inl (ips, read) ↦
              let (sets, kept, status) =
                publish_service-IsPublished svc ips t o
                  (ap (λ v. view v svc.namespace svc.name) same_services ∙ stored)
                  (rw (read, read_addresses) at h) in
              rw (read, read_addresses)
                record {
                  set =
                      subst
                        (λ d.
                          IsSetApplied kube.daemon_set_client settings.spec_eq sets_view sets_laws d
                            desired)
                        (sym (sets ∙ same_sets)) set;
                  ports =
                      subst
                        (λ l. All (IsApplied kube.lb_port_client ports_view ports_laws l) lbports)
                        (sym (kept ∙ same_ports)) (pruned-All svc lbports s ports);
                  ips = ips;
                  addresses =
                      ap (λ c. node_public_ips (kube.list_nodes c)) (sym same_cluster) ∙ read;
                  status = status;
                }
        ]

    apply_service-IsServed :
        (svc : Service) (desired : DaemonSet DaemonSetSpec) (lbports : List LbPort)
        (s : Server D L N V W) (o : Outcome)
        → DistinctNames lbports
        → view s.services svc.namespace svc.name ≡ some svc
        → (apply_service kube settings svc desired lbports s).1 ≡ ok o
        → IsServed svc desired lbports s (apply_service kube settings svc desired lbports s).0
    unfolding apply_service apply_ports on_daemon_sets on_lb_ports
    apply_service-IsServed svc desired lbports s o distinct stored h =
        let Q = λ (r : Server D L N V W × Result Outcome). IsServed svc desired lbports s r.0 in
        let sets =
          on_daemon_sets (apply_daemon_set kube.daemon_set_client settings.spec_eq desired) s in
        let ports = on_lb_ports (apply_lb_ports kube.lb_port_client lbports svc) sets.0 in
        continue_with-elim Q (λ (_ : Unit {0}). apply_ports kube settings svc lbports) sets o h
          λ _ set_ok rest.
            continue_with-elim Q (λ (_ : Unit {0}). after_ports kube settings svc) ports o rest
              λ _ ports_ok last.
                let r =
                  after_ports-IsServed svc desired lbports ports.0 o
                    (apply_daemon_set-IsSetApplied kube.daemon_set_client settings.spec_eq sets_view
                      sets_laws desired s.daemon_sets set_ok)
                    (apply_lb_ports-All kube.lb_port_client ports_view ports_laws lbports svc
                      s.lb_ports distinct ports_ok)
                    stored last in
                record {
                  set = r.set;
                  ports = r.ports;
                  ips = r.ips;
                  addresses = r.addresses;
                  status = r.status;
                }

    -- A reconcile that counts as a success has found its Service, claimed and with nothing against
    -- it, and has served it: its DaemonSet is stored as `BuildDaemonSet` makes it, or so that it
    -- compares equal; each LBPort that `BuildLBPorts` makes is stored with its spec and labels; and
    -- the stored Service has the nodes' public addresses, and the condition that it is reconciled.
    -- The API server keeps what it documents of its objects, of status updates and of Services, and
    -- setting a condition replaces the one of its type.
    pub reconcile-serves :
        IsSetter settings.set_condition
        → (ns n : Text) (s : Server D L N V W) → (reconcile kube settings ns n s).1 ≡ ok success
        → (svc : Service) × (desired : DaemonSet DaemonSetSpec) × (lbports : List LbPort) × (view
              s.services ns n
            ≡ some svc)
          × IsServable kube settings svc desired lbports s
          × IsServed svc desired lbports s (reconcile kube settings ns n s).0
          × ((o : Service) × (view (reconcile kube settings ns n s).0.services ns n ≡ some o)
              × (condition_of condition_reconciled o.conditions
                  ≡ some (
                      service_condition svc condition_reconciled true
                        (codes "Reconciled")
                        (codes "Service reconciled successfully"))))
    reconcile-serves law ns n s h =
        let (svc, read, matches) = reconcile-found kube settings law success ns n s h refl in
        let (stored, same_ns, same_n) = store.got ns n s.services svc read in
        let at_name : view s.services svc.namespace svc.name ≡ some svc =
          rw (same_ns, same_n) stored in
        elim (reconcile-Ended kube settings law success svc ns n s read matches h) [
          | inr refusal ↦ absurd (false≢true refusal.refused)
          | inl (desired, lbports, servable, same) ↦
              let distinct =
                free-DistinctNames settings.selectors (kube.list_nodes s.cluster) svc lbports _ _
                  servable.ports servable.free in
              let done' = ap (λ r. r.1) (sym same) ∙ h in
              let r =
                subst (λ e. IsServed svc desired lbports s e.0) (sym same)
                  (apply_service-IsServed svc desired lbports s success distinct at_name done') in
              let (o, found', ips, conditions) = r.status in
              (
                svc,
                desired,
                lbports,
                stored,
                servable,
                r,
                (
                  o,
                  ap₂ (view (reconcile kube settings ns n s).0.services) (sym same_ns) (sym same_n)
                      ∙ found',
                  ap (condition_of condition_reconciled) conditions
                      ∙ says_reconciled settings.set_condition law svc svc.conditions,
                ),
              )
        ]
