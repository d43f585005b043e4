-- ===== src/Controller/Reconcile/Refused.antt =====
-- What a reconcile that refuses its Service leaves on the API server.
use bulb.Base.{
  ◌≡◌, refl, sym, ap, ap₂, ◌∙◌, ◌⊎◌, true, false, List, [], ◌∷◌, Text, codes, Option, none, some,
  inl, inr, subst, Bool-cases,
}
use mathlib.Core.Bool.{false≢true}
use bulb.Base.Result.{Result, ok, continue_with, continue_with-elim, return, wrapping, wrap-eq-ok}
use bulb.Api.{LbPort}
use bulb.Controller.Service.{Service, Condition, object_name, service_matches}
use bulb.Controller.Cluster.{IsObjectClient}
use bulb.Controller.Pods.{DaemonSetSpec}
use bulb.Controller.Cleanup.{DaemonSet, CleanupMode, force_delete, is_owned, is_deleted}
use bulb.Controller.Cleanup.Frame.{cleanup_by_name-keeps_all}
use bulb.Controller.Cleanup.Gone.{cleanup_by_name-IsGone}
use bulb.Controller.Status.{condition_reconciled, service_condition, condition_of, event_of}
use bulb.Controller.Server.{Server, Kube, Settings, all_daemon_sets, all_lb_ports, all_dns_records}
use bulb.Controller.Server.Laws.{all_daemon_sets-IsObjectClient}
use bulb.Controller.Reconcile.Conditions.{IsSetter}
use bulb.Controller.Reconcile.Outcomes.{
  is_refusal, is_cleanup, refusal_of, reconcile-found, reconcile-Ended,
}
use bulb.Controller.Reconcile.Success.{apply_service-success}
use bulb.Controller.Reconcile.Stored.{
  IsServiceStore, HasStatus, set_status-HasStatus, set_status-stores, record_events-stores,
}
use bulb.Controller.Reconcile.{Outcome, cleanup, set_status, record_events, refuse, reconcile}

pub other : (o : Outcome) → is_refusal o ≡ true → is_cleanup o ≡ false
other Outcome.success h = cc
other Outcome.cleanup_not_found h = cc
other Outcome.cleanup_non_bulb h = cc
other Outcome.no_ready_endpoints h = refl
other Outcome.invalid_service h = refl
other Outcome.port_conflict h = refl

module _ {D L N V W : Type 0} (kube : Kube D L N V W) (settings : Settings)
    (view : V → Text → Text → Option Service) (store : IsServiceStore kube view)
    (sets_view : D → Text → Option (DaemonSet DaemonSetSpec))
    (sets_laws : IsObjectClient (λ d. d.name) kube.daemon_set_client sets_view)
    (ports_view : L → Text → Option LbPort)
    -- A delete touches its own object only, which is gone or not, whatever the call returns.
    (deletes : (o : LbPort) (l : L) (n : Text)
      → (ports_view (kube.lb_port_client.delete o l).0 n ≡ none)
        ⊎ (ports_view (kube.lb_port_client.delete o l).0 n ≡ ports_view l n)) where
  -- Each LBPort is as it was, or gone.
  abbrev pub OnlyDeletes : L → L → Type 0
  OnlyDeletes l l' = (n : Text) → (ports_view l' n ≡ none) ⊎ (ports_view l' n ≡ ports_view l n)

  only_delete :
      (l l' : L) (o : LbPort) → OnlyDeletes l l' → OnlyDeletes l (kube.lb_port_client.delete o l').0
  only_delete l l' o h n = elim (deletes o l' n) [
    | inl gone ↦ inl gone
    | inr same ↦ elim (h n) [ inl gone ↦ inl (same ∙ gone) | inr kept ↦ inr (same ∙ kept) ]
  ]

  pub cleanup-OnlyDeletes :
      (mode : CleanupMode) (ns name : Text) (l : L) (s : Server D L N V W)
      → OnlyDeletes l s.lb_ports
      → OnlyDeletes l (cleanup kube settings ns name mode s).0.lb_ports
  unfolding cleanup all_daemon_sets all_lb_ports all_dns_records
  cleanup-OnlyDeletes mode ns name l s =
      cleanup_by_name-keeps_all (all_daemon_sets kube.daemon_set_client)
        (all_lb_ports kube.lb_port_client) (all_dns_records kube.dns_record_client)
        (λ (t : Server D L N V W). OnlyDeletes l t.lb_ports) (λ o t h. only_delete l t.lb_ports o h)
        (λ o t h. h) ns name mode s (λ o t h. h)

  pub cleanup-services :
      (mode : CleanupMode) (ns name : Text) (s : Server D L N V W)
      → (cleanup kube settings ns name mode s).0.services ≡ s.services
  unfolding cleanup all_daemon_sets all_lb_ports all_dns_records
  cleanup-services mode ns name s =
      cleanup_by_name-keeps_all (all_daemon_sets kube.daemon_set_client)
        (all_lb_ports kube.lb_port_client) (all_dns_records kube.dns_record_client)
        (λ (t : Server D L N V W). t.services ≡ s.services) (λ o t h. h) (λ o t h. h) ns name mode s
        (λ o t h. h) refl

  -- No DaemonSet of the Service, by its name and labels, is left.
  abbrev pub NoDaemonSet : Text → Text → D → Type 0
  NoDaemonSet ns name d =
      (o : DaemonSet DaemonSetSpec)
      → sets_view d (object_name ns name) ≡ some o
      → is_owned ns name o.labels ≡ false

  -- A DaemonSet of the Service that is still there is one that is to be kept.
  abbrev pub IsCleaned : CleanupMode → Text → Text → D → Type 0
  IsCleaned mode ns name d =
      (o : DaemonSet DaemonSetSpec)
      → sets_view d (object_name ns name) ≡ some o
      → is_owned ns name o.labels ≡ true
      → is_deleted mode o.annotations ≡ false

  pub cleanup-IsGone :
      (mode : CleanupMode) (ns name : Text) (s : Server D L N V W)
      → (cleanup kube settings ns name mode s).1 ≡ ok tt
      → IsCleaned mode ns name (cleanup kube settings ns name mode s).0.daemon_sets
  unfolding cleanup all_lb_ports all_dns_records
  cleanup-IsGone mode ns name s =
      cleanup_by_name-IsGone (all_daemon_sets kube.daemon_set_client)
        (all_lb_ports kube.lb_port_client) (all_dns_records kube.dns_record_client)
        (λ t. sets_view t.daemon_sets)
        (all_daemon_sets-IsObjectClient kube.daemon_set_client sets_view sets_laws) (λ o t n. refl)
        (λ o t n. refl) mode ns name s

  cleanup-NoDaemonSet :
      (ns name : Text) (s : Server D L N V W)
      → (cleanup kube settings ns name force_delete s).1 ≡ ok tt
      → NoDaemonSet ns name (cleanup kube settings ns name force_delete s).0.daemon_sets
  unfolding cleanup is_deleted
  cleanup-NoDaemonSet ns name s h o stored = elim (Bool-cases (is_owned ns name o.labels)) [
    | inr foreign ↦ foreign
    | inl own ↦ absurd (false≢true (sym (cleanup-IsGone force_delete ns name s h o stored own)))
  ]

  -- The Service is told why it is refused, and is not served.
  pub record IsRefused (svc : Service) (conditions : List Condition) (s t : Server D L N V W)
      : Type 0 where
    pub status : HasStatus kube settings view store t.services svc [] conditions
    pub set : NoDaemonSet svc.namespace svc.name t.daemon_sets
    pub ports : OnlyDeletes s.lb_ports t.lb_ports

  refuse-IsRefused :
      (outcome o : Outcome) (what : Text) (svc : Service) (reason message : Text)
      (conditions : List Condition) (s : Server D L N V W)
      → view s.services svc.namespace svc.name ≡ some svc
      → (refuse kube settings outcome what svc reason message conditions s).1 ≡ ok o
      → IsRefused svc conditions s
          (refuse kube settings outcome what svc reason message conditions s).0
  unfolding refuse
  refuse-IsRefused outcome o what svc reason message conditions s stored h =
      let recorded =
        record_events kube settings (event_of svc (codes "Warning") reason message ∷ []) s in
      let (same_ports, _, same_services, _) =
        record_events-stores kube settings view store
          (event_of svc (codes "Warning") reason message ∷ []) s in
      let status = set_status kube settings svc [] conditions recorded in
      let t = status.0 in
      let (_, kept_ports) = set_status-stores kube settings view store svc [] conditions recorded in
      let clean = cleanup kube settings svc.namespace svc.name force_delete t in
      let Q = λ (r : Server D L N V W × Result Outcome). IsRefused svc conditions s r.0 in
      continue_with-elim Q
        (λ (_ : Unit {0}) u.
          continue_with (λ (_ : Unit {0}). return outcome)
            (cleanup kube settings svc.namespace svc.name force_delete u))
        (wrapping what (set_status kube settings svc [] conditions) recorded) o h
        λ _ status_ok rest.
          continue_with-elim Q (λ (_ : Unit {0}). return outcome) clean o rest
            λ _ clean_ok _. record {
              status =
                  subst (λ v. HasStatus kube settings view store v svc [] conditions)
                    (sym (cleanup-services force_delete svc.namespace svc.name t))
                    (set_status-HasStatus kube settings view store svc [] conditions recorded
                      (ap (λ v. view v svc.namespace svc.name) same_services ∙ stored)
                      (wrap-eq-ok what _ status_ok));
              set = cleanup-NoDaemonSet svc.namespace svc.name t clean_ok;
              ports =
                  cleanup-OnlyDeletes force_delete svc.namespace svc.name s.lb_ports t
                    (λ n. inr (ap (λ l. ports_view l n) (kept_ports ∙ same_ports)));
            }

  -- A reconcile that ends with a refusal, which is no ready endpoint, an invalid Service or a port
  -- conflict, has found its Service claimed. It has stored the Service with no address, with the
  -- condition that it is not reconciled and with the condition of the refusal, which give the same
  -- reason and message. It leaves no DaemonSet that has the name and the labels of the Service's,
  -- and has created or changed no LBPort. The API server keeps what it documents, and setting a
  -- condition replaces the one of its type.
  pub reconcile-refuses :
      IsSetter settings.set_condition
      → (ns n : Text) (s : Server D L N V W) (outcome : Outcome)
      → (reconcile kube settings ns n s).1 ≡ ok outcome
      → is_refusal outcome ≡ true
      → (svc : Service) × (reason : Text) × (message : Text) × (view s.services ns n ≡ some svc)
        × (service_matches svc ≡ true)
        × ((o : Service) × (view (reconcile kube settings ns n s).0.services ns n ≡ some o)
            × (o.ingress ≡ [])
            × (condition_of condition_reconciled o.conditions
                ≡ some (service_condition svc condition_reconciled false reason message))
            × (condition_of (refusal_of outcome) o.conditions
                ≡ some (service_condition svc (refusal_of outcome) true reason message)))
        × NoDaemonSet ns n (reconcile kube settings ns n s).0.daemon_sets
        × OnlyDeletes s.lb_ports (reconcile kube settings ns n s).0.lb_ports
  reconcile-refuses law ns n s outcome h refusal =
      let (svc, read, matches) =
        reconcile-found kube settings law outcome ns n s h (other outcome refusal) in
      let (stored, same_ns, same_n) = store.got ns n s.services svc read in
      let at_name : view s.services svc.namespace svc.name ≡ some svc =
        rw (same_ns, same_n) stored in
      elim (reconcile-Ended kube settings law outcome svc ns n s read matches h) [
        | inl (desired, lbports, servable, same) ↦ absurd (
            false≢true (
              ap is_refusal (
                apply_service-success kube settings svc desired lbports s outcome
                  (ap (λ e. e.1) (sym same) ∙ h))
              ∙ refusal))
        | inr r ↦
            let done' = ap (λ e. e.1) (sym r.same) ∙ h in
            let all =
              subst (λ (e : Server D L N V W × Result Outcome). IsRefused svc r.conditions s e.0)
                (sym r.same)
                (refuse-IsRefused outcome outcome r.what svc r.reason r.message r.conditions s
                  at_name done') in
            let (o, found', ips, conditions) = all.status in
            let (not_reconciled, why) = r.why svc.conditions in
            (
              svc,
              r.reason,
              r.message,
              stored,
              matches,
              (
                o,
                ap₂ (view (reconcile kube settings ns n s).0.services) (sym same_ns) (sym same_n)
                    ∙ found',
                ips,
                ap (condition_of condition_reconciled) conditions ∙ not_reconciled,
                ap (condition_of (refusal_of outcome)) conditions ∙ why,
              ),
              subst (λ a. NoDaemonSet a n (reconcile kube settings ns n s).0.daemon_sets) same_ns
                  (subst
                    (λ b.
                      NoDaemonSet svc.namespace b (reconcile kube settings ns n s).0.daemon_sets)
                    same_n all.set),
              all.ports,
            )
      ]
