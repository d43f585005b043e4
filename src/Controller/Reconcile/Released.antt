-- ===== src/Controller/Reconcile/Released.antt =====
-- What a reconcile leaves of a Service that is gone or no longer claimed.
use bulb.Base.{
  ◌≡◌, refl, sym, ap, ◌∙◌, ◌⊎◌, true, false, Text, Option, none, some, inl, inr, Bool-cases, subst,
}
use mathlib.Core.Bool.{false≢true}
use bulb.Base.Result.{Result, ok, ok≢err, found, continue_with, continue_with-elim, return}
use bulb.Api.{Labels, LbPort}
use bulb.Controller.Service.{Service, service_matches}
use bulb.Controller.Cluster.{IsObjectClient}
use bulb.Controller.LbPorts.Applied.{Found-cases}
use bulb.Controller.Pods.{DaemonSetSpec}
use bulb.Controller.Cleanup.{
  DaemonSet, CleanupMode, honor_keep, cleanup_mode_for_service, is_deleted,
}
use bulb.Controller.Server.{Server, Kube, Settings}
use bulb.Controller.Reconcile.Conditions.{IsSetter}
use bulb.Controller.Reconcile.Outcomes.{is_cleanup, reconcile-Ended}
use bulb.Controller.Reconcile.Success.{apply_service-success}
use bulb.Controller.Reconcile.Stored.{IsServiceStore}
use bulb.Controller.Reconcile.Refused.{
  other, OnlyDeletes, IsCleaned, cleanup-OnlyDeletes, cleanup-services, cleanup-IsGone,
}
use bulb.Controller.Reconcile.{Outcome, cleanup_not_found, cleanup_non_bulb, cleanup, reconcile}

-- What is not deleted even in the mode that honours the annotation is not deleted by it.
is_deleted-honor_keep :
    (mode : CleanupMode) (annotations : Labels)
    → is_deleted mode annotations ≡ false
    → is_deleted honor_keep annotations ≡ false
unfolding is_deleted
is_deleted-honor_keep CleanupMode.force_delete annotations h = absurd (false≢true (sym h))
is_deleted-honor_keep CleanupMode.honor_keep annotations h = h

module _ {D L N V W : Type 0} (kube : Kube D L N V W) (settings : Settings)
    (view : V → Text → Text → Option Service) (store : IsServiceStore kube view)
    (sets_view : D → Text → Option (DaemonSet DaemonSetSpec))
    (sets_laws : IsObjectClient (λ d. d.name) kube.daemon_set_client sets_view)
    (ports_view : L → Text → Option LbPort)
    (deletes : (o : LbPort) (l : L) (n : Text)
      → (ports_view (kube.lb_port_client.delete o l).0 n ≡ none)
        ⊎ (ports_view (kube.lb_port_client.delete o l).0 n ≡ ports_view l n)) where
  -- The Service's objects are gone, but for a DaemonSet that is to be kept.
  pub record IsReleased (ns n : Text) (s t : Server D L N V W) : Type 0 where
    pub services : t.services ≡ s.services
    pub set :
        IsCleaned kube settings view store sets_view sets_laws ports_view deletes honor_keep ns n
          t.daemon_sets
    pub ports :
        OnlyDeletes kube settings view store sets_view sets_laws ports_view deletes s.lb_ports
          t.lb_ports

  cleanup-IsReleased :
      (outcome o : Outcome) (mode : CleanupMode) (ns n : Text) (s : Server D L N V W)
      → (continue_with (λ (_ : Unit {0}). return outcome) (cleanup kube settings ns n mode s)).1
        ≡ ok o
      → IsReleased ns n s
          (continue_with (λ (_ : Unit {0}). return outcome) (cleanup kube settings ns n mode s)).0
  cleanup-IsReleased outcome o mode ns n s h =
      continue_with-elim (λ (r : Server D L N V W × Result Outcome). IsReleased ns n s r.0)
        (λ (_ : Unit {0}). return outcome) (cleanup kube settings ns n mode s) o h
        λ _ cleaned _. record {
          services =
              cleanup-services kube settings view store sets_view sets_laws ports_view deletes mode
                ns n s;
          set = λ d stored own. is_deleted-honor_keep mode d.annotations (
              cleanup-IsGone kube settings view store sets_view sets_laws ports_view deletes mode ns
                n s cleaned d stored own);
          ports =
              cleanup-OnlyDeletes kube settings view store sets_view sets_laws ports_view deletes
                mode ns n s.lb_ports s (λ m. inr refl);
        }

  -- A claimed Service's reconcile does not end as a cleanup.
  claimed_lem :
      IsSetter settings.set_condition
      → (ns n : Text) (s : Server D L N V W) (outcome : Outcome) (svc : Service)
      → kube.get_service ns n s.services ≡ found svc
      → service_matches svc ≡ true
      → (reconcile kube settings ns n s).1 ≡ ok outcome
      → is_cleanup outcome ≡ false
  claimed_lem law ns n s outcome svc read matches h =
      elim (reconcile-Ended kube settings law outcome svc ns n s read matches h) [
        | inr refusal ↦ other outcome refusal.refused
        | inl (desired, lbports, servable, same) ↦ ap is_cleanup (
            sym (
              apply_service-success kube settings svc desired lbports s outcome
                (ap (λ e. e.1) (sym same) ∙ h)))
      ]

  -- A reconcile that ends as a cleanup has found no Service, or one that is not claimed. It leaves
  -- the Services as they are, leaves no DaemonSet that has the name and the labels of the Service's
  -- but one that is annotated to be kept, and has created or changed no LBPort. The API server keeps
  -- what it documents, and setting a condition replaces the one of its type.
  pub reconcile-releases :
      IsSetter settings.set_condition
      → (ns n : Text) (s : Server D L N V W) (outcome : Outcome)
      → (reconcile kube settings ns n s).1 ≡ ok outcome
      → is_cleanup outcome ≡ true
      → ((svc : Service) → view s.services ns n ≡ some svc → service_matches svc ≡ false)
        × IsReleased ns n s (reconcile kube settings ns n s).0
  unfolding reconcile
  reconcile-releases law ns n s outcome h cleaned =
      elim (Found-cases (kube.get_service ns n s.services)) [
        | inr (inr (e, failed')) ↦ absurd (ok≢err (sym (rw (failed', reconcile) at h)))
        | inr (inl missing) ↦ (
          λ svc stored. let gone = store.got_none ns n s.services missing in cc,
          rw (missing, reconcile)
              (cleanup-IsReleased cleanup_not_found outcome honor_keep ns n s
                (rw (missing, reconcile) at h)),
        )
        | inl (svc, read) ↦
            let (stored, same_ns, same_n) = store.got ns n s.services svc read in
            let mode = cleanup_mode_for_service svc in
            let end : Server D L N V W × Result Outcome =
              continue_with (λ (_ : Unit {0}). return cleanup_non_bulb)
                (cleanup kube settings svc.namespace svc.name mode s) in
            elim (Bool-cases (service_matches svc)) [
              | inl matches ↦
                  absurd
                    (false≢true (sym (claimed_lem law ns n s outcome svc read matches h) ∙ cleaned))
              | inr foreign ↦ (
                λ other' stored'.
                    let same : some svc ≡ some other' = sym stored ∙ stored' in
                    let equal : svc ≡ other' = cc in ap service_matches (sym equal) ∙ foreign,
                rw (read, foreign, reconcile)
                    (subst (λ a. IsReleased a n s end.0) same_ns
                      (subst (λ b. IsReleased svc.namespace b s end.0) same_n
                        (cleanup-IsReleased cleanup_non_bulb outcome mode svc.namespace svc.name s
                          (rw (read, foreign, reconcile) at h)))),
              )
            ]
      ]
