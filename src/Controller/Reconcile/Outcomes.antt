-- ===== src/Controller/Reconcile/Outcomes.antt =====
-- How a reconcile ends: which way it has taken, by the outcome that it returns.
use bulb.Base.{
  ◌≡◌, refl, sym, ap, ◌∙◌, Bool, true, false, ◌&&◌, List, [], ◌∷◌, Text, codes, none, Bool-cases,
  Option-cases, inl, inr, ◌⊎◌, subst,
}
use mathlib.Core.Bool.{false≢true}
use bulb.Base.Result.{
  Result, ok, err, ok≢err, found, continue_with, continue_with-ok, wrapping, return, Result-cases,
}
use bulb.Api.{LbPort}
use bulb.Controller.Service.{
  Service, Condition, service_matches, annotated, annotation_external_traffic_policy,
}
use bulb.Controller.Conflicts.{PortConflict, detect_port_conflict}
use bulb.Controller.LbPorts.{build_lb_ports}
use bulb.Controller.LbPorts.Applied.{Found-cases}
use bulb.Controller.Endpoints.{ServiceEndpoints, service_endpoints, has_no_endpoints}
use bulb.Controller.Pods.{DaemonSetSpec}
use bulb.Controller.DaemonSets.{build_daemon_set}
use bulb.Controller.Cleanup.{DaemonSet, force_delete}
use bulb.Controller.Status.{
  condition_port_conflict, condition_invalid_service, condition_no_ready_endpoint, event_of,
}
use bulb.Controller.Server.{Server, Kube, Settings}
use bulb.Controller.Reconcile.Conditions.{
  IsSetter, SaysWhy, why_invalid, why_no_endpoints, why_conflict,
}
use bulb.Controller.Reconcile.{
  Outcome, cleanup_not_found, cleanup_non_bulb, no_ready_endpoints, invalid_service, port_conflict,
  cleanup, set_status, record_events, refuse, mark_invalid_service, refuse_no_endpoints,
  refuse_conflict, apply_service, reconcile_ports, reconcile_claimed, reconcile,
}

-- A chain that ends in an outcome returns no other.
concluding :
    {S A : Type 0} (o o' : Outcome) (m : S × Result A)
    → (continue_with (λ _. return o) m).1 ≡ ok o'
    → o ≡ o'
concluding o o' (s, ok a) h = cc
concluding o o' (s, err e) h = cc

-- An outcome that refuses the Service.
abbrev pub is_refusal : Outcome → Bool
is_refusal no_ready_endpoints = true
is_refusal invalid_service = true
is_refusal port_conflict = true
is_refusal o = false

-- The condition by which an outcome refuses a Service.
abbrev pub refusal_of : Outcome → Text
refusal_of no_ready_endpoints = condition_no_ready_endpoint
refusal_of port_conflict = condition_port_conflict
refusal_of o = condition_invalid_service

-- An outcome of a Service that is gone, or not claimed.
abbrev pub is_cleanup : Outcome → Bool
is_cleanup cleanup_not_found = true
is_cleanup cleanup_non_bulb = true
is_cleanup o = false

module _ {D L N V W : Type 0} (kube : Kube D L N V W) (settings : Settings) where
  -- The Service is claimed, and nothing stands against serving it.
  pub record IsServable (svc : Service) (desired : DaemonSet DaemonSetSpec) (lbports : List LbPort)
      (s : Server D L N V W) : Type 0 where
    pub matches : service_matches svc ≡ true
    pub endpoints : ServiceEndpoints
    pub read : service_endpoints (λ ns n. kube.get_endpoints ns n s.cluster) svc ≡ ok endpoints
    pub ready :
        (annotated svc annotation_external_traffic_policy (codes "Local")
          && has_no_endpoints endpoints)
        ≡ false
    pub ports : build_lb_ports settings.selectors (kube.list_nodes s.cluster) svc ≡ ok lbports
    pub free :
        detect_port_conflict
          (build_lb_ports settings.selectors (kube.list_nodes s.cluster))
          (λ n. kube.lb_port_client.get n s.lb_ports)
          (kube.list_services s.services)
          svc
          lbports
        ≡ ok none
    pub built :
        build_daemon_set settings.parse_ip settings.parse_label_selector svc settings.image
          endpoints
        ≡ ok desired

  pub record IsRefusal (o : Outcome) (svc : Service) (s : Server D L N V W)
      (end : Server D L N V W × Result Outcome) : Type 0 where
    pub what : Text
    pub reason : Text
    pub message : Text
    pub conditions : List Condition
    pub same : end ≡ refuse kube settings o what svc reason message conditions s
    pub why : SaysWhy settings.set_condition (refusal_of o) svc reason message conditions
    pub refused : is_refusal o ≡ true

  refuse-outcome :
      (o o' : Outcome) (what : Text) (svc : Service) (reason message : Text)
      (conditions : List Condition) (s : Server D L N V W)
      → (refuse kube settings o what svc reason message conditions s).1 ≡ ok o'
      → o ≡ o'
  unfolding refuse
  refuse-outcome o o' what svc reason message conditions s h =
      let (_, _, rest, _) =
        continue_with-ok
          (λ (_ : Unit {0}) t.
            continue_with (λ (_ : Unit {0}). return o)
              (cleanup kube settings svc.namespace svc.name force_delete t))
          (wrapping what (set_status kube settings svc [] conditions)
            (record_events kube settings (event_of svc (codes "Warning") reason message ∷ []) s))
          h in
      concluding o o' _ rest

  -- Either way in which a claimed Service's reconcile ends without an error.
  abbrev pub Ended :
      Outcome → Service → Server D L N V W → Server D L N V W × Result Outcome → Type 0
  Ended o svc s end =
      ((desired : DaemonSet DaemonSetSpec) × (lbports : List LbPort) × IsServable svc desired
          lbports s
        × (end ≡ apply_service kube settings svc desired lbports s))
      ⊎ IsRefusal o svc s end

  module _ (law : IsSetter settings.set_condition) where
    invalid_lem :
        (o : Outcome) (svc : Service) (reason cause : Text) (s : Server D L N V W)
        → (mark_invalid_service kube settings svc reason cause s).1 ≡ ok o
        → IsRefusal o svc s (mark_invalid_service kube settings svc reason cause s)
    unfolding mark_invalid_service
    invalid_lem o svc reason cause s h =
        let same = refuse-outcome invalid_service o _ svc reason cause _ s h in
        subst (λ o. IsRefusal o svc s (mark_invalid_service kube settings svc reason cause s)) same
          record {
            what = _;
            reason = reason;
            message = cause;
            conditions = _;
            same = refl;
            why = why_invalid settings.set_condition law svc reason cause;
            refused = refl;
          }

    no_endpoints_lem :
        (o : Outcome) (svc : Service) (s : Server D L N V W)
        → (refuse_no_endpoints kube settings svc s).1 ≡ ok o
        → IsRefusal o svc s (refuse_no_endpoints kube settings svc s)
    unfolding refuse_no_endpoints
    no_endpoints_lem o svc s h =
        let same = refuse-outcome no_ready_endpoints o _ svc _ _ _ s h in
        subst (λ o. IsRefusal o svc s (refuse_no_endpoints kube settings svc s)) same
          record {
            what = _;
            reason = _;
            message = _;
            conditions = _;
            same = refl;
            why = why_no_endpoints settings.set_condition law svc _ _;
            refused = refl;
          }

    conflict_lem :
        (o : Outcome) (svc : Service) (conflict : PortConflict) (s : Server D L N V W)
        → (refuse_conflict kube settings svc conflict s).1 ≡ ok o
        → IsRefusal o svc s (refuse_conflict kube settings svc conflict s)
    unfolding refuse_conflict
    conflict_lem o svc conflict s h =
        let same = refuse-outcome port_conflict o _ svc conflict.reason conflict.message _ s h in
        subst (λ o. IsRefusal o svc s (refuse_conflict kube settings svc conflict s)) same
          record {
            what = _;
            reason = conflict.reason;
            message = conflict.message;
            conditions = _;
            same = refl;
            why = why_conflict settings.set_condition law svc conflict.reason conflict.message;
            refused = refl;
          }

    ports_lem :
        (o : Outcome) (svc : Service) (endpoints : ServiceEndpoints) (lbports : List LbPort)
        (s : Server D L N V W)
        → service_matches svc ≡ true
        → service_endpoints (λ ns n. kube.get_endpoints ns n s.cluster) svc ≡ ok endpoints
        → (annotated svc annotation_external_traffic_policy (codes "Local")
            && has_no_endpoints endpoints)
          ≡ false
        → build_lb_ports settings.selectors (kube.list_nodes s.cluster) svc ≡ ok lbports
        → (reconcile_ports kube settings svc endpoints lbports s).1 ≡ ok o
        → Ended o svc s (reconcile_ports kube settings svc endpoints lbports s)
    unfolding reconcile_ports
    ports_lem o svc endpoints lbports s matches read ready ports h =
        let detected =
          detect_port_conflict (build_lb_ports settings.selectors (kube.list_nodes s.cluster))
            (λ n. kube.lb_port_client.get n s.lb_ports) (kube.list_services s.services) svc
            lbports in
        let built =
          build_daemon_set settings.parse_ip settings.parse_label_selector svc settings.image
            endpoints in
        elim (Result-cases detected) [
          | inr (e, failed') ↦ absurd (ok≢err (sym (rw (failed', reconcile_ports) at h)))
          | inl (found', e) ↦ elim (Option-cases found') [
            | inr (conflict, is) ↦
                rw (e, is, reconcile_ports)
                  (inr (conflict_lem o svc conflict s (rw (e, is, reconcile_ports) at h)))
            | inl free ↦ elim (Result-cases built) [
              | inr (cause, failed') ↦
                  rw (e, free, failed', reconcile_ports)
                    (inr (
                      invalid_lem o svc (codes "InvalidService") cause s
                        (rw (e, free, failed', reconcile_ports) at h)))
              | inl (desired, done') ↦
                  rw (e, free, done', reconcile_ports)
                    (inl (
                      desired,
                      lbports,
                      record {
                        matches = matches;
                        endpoints = endpoints;
                        read = read;
                        ready = ready;
                        ports = ports;
                        free = e ∙ ap ok free;
                        built = done';
                      },
                      refl,
                    ))
            ]
          ]
        ]

    claimed_lem :
        (o : Outcome) (svc : Service) (s : Server D L N V W)
        → service_matches svc ≡ true
        → (reconcile_claimed kube settings svc s).1 ≡ ok o
        → Ended o svc s (reconcile_claimed kube settings svc s)
    unfolding reconcile_claimed
    claimed_lem o svc s matches h =
        elim (Result-cases (service_endpoints (λ ns n. kube.get_endpoints ns n s.cluster) svc)) [
          | inr (e, failed') ↦ absurd (ok≢err (sym (rw (failed', reconcile_claimed) at h)))
          | inl (endpoints, read) ↦
              elim (Bool-cases (
                annotated svc annotation_external_traffic_policy (codes "Local")
                && has_no_endpoints endpoints)) [
                  | inl none_ready ↦
                      rw (read, none_ready, reconcile_claimed)
                        (inr (
                          no_endpoints_lem o svc s (rw (read, none_ready, reconcile_claimed) at h)))
                  | inr ready ↦
                      elim (Result-cases
                        (build_lb_ports settings.selectors (kube.list_nodes s.cluster) svc)) [
                          | inr (cause, failed') ↦
                              rw (read, ready, failed', reconcile_claimed)
                                (inr (
                                  invalid_lem o svc (codes "InvalidAnnotation") cause s
                                    (rw (read, ready, failed', reconcile_claimed) at h)))
                          | inl (lbports, ports) ↦
                              rw (read, ready, ports, reconcile_claimed)
                                (ports_lem o svc endpoints lbports s matches read ready ports
                                  (rw (read, ready, ports, reconcile_claimed) at h))
                        ]
                ]
        ]

    -- A reconcile that finds its Service claimed and ends without an error has either served it or
    -- refused it.
    pub reconcile-Ended :
        (o : Outcome) (svc : Service) (ns n : Text) (s : Server D L N V W)
        → kube.get_service ns n s.services ≡ found svc
        → service_matches svc ≡ true
        → (reconcile kube settings ns n s).1 ≡ ok o
        → Ended o svc s (reconcile kube settings ns n s)
    unfolding reconcile
    reconcile-Ended o svc ns n s read matches h =
        rw (read, matches, reconcile)
          (claimed_lem o svc s matches (rw (read, matches, reconcile) at h))

    -- The outcomes but for the two cleanups are those of a Service that is there and claimed.
    pub reconcile-found :
        (o : Outcome) (ns n : Text) (s : Server D L N V W)
        → (reconcile kube settings ns n s).1 ≡ ok o
        → is_cleanup o ≡ false
        → (svc : Service) × (kube.get_service ns n s.services ≡ found svc)
          × (service_matches svc ≡ true)
    unfolding reconcile
    reconcile-found o ns n s h other = elim (Found-cases (kube.get_service ns n s.services)) [
      | inr (inl missing) ↦
          let same = concluding cleanup_not_found o _ (rw (missing, reconcile) at h) in
          absurd (false≢true (sym other ∙ ap is_cleanup (sym same)))
      | inr (inr (e, failed')) ↦ absurd (ok≢err (sym (rw (failed', reconcile) at h)))
      | inl (svc, read) ↦ elim (Bool-cases (service_matches svc)) [
        | inl matches ↦ (svc, read, matches)
        | inr foreign ↦
            let same = concluding cleanup_non_bulb o _ (rw (read, foreign, reconcile) at h) in
            absurd (false≢true (sym other ∙ ap is_cleanup (sym same)))
      ]
    ]
