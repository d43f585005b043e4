-- ===== src/Controller/Reconcile/Stored.antt =====
-- The stored Service and its status, and what the reconciler's other calls leave alone.
use bulb.Base.{
  ◌≡◌, refl, true, false, ◌&&◌, List, Text, Option, none, some, inl, inr, Bool-cases, arith, ite,
}
use bulb.Base.Result.{ok, found, not_found}
use bulb.Controller.Service.{Service, Condition}
use bulb.Controller.LbPorts.{texts_discrete}
use bulb.Controller.Status.{set_conditions, conditions_discrete, update_status, patched, Event}
use bulb.Controller.Server.{Server, Kube, Settings, on_services}
use bulb.Controller.Reconcile.{record_events, set_status}

both_equal :
    {A B : Type 0} (d : Discrete A) (e : Discrete B) (x y : A) (u v : B)
    → (ite (d x y) true false && ite (e u v) true false) ≡ true
    → (x ≡ y) × (u ≡ v)
both_equal d e x y u v h = (ground arith, ground arith)

-- What the API server documents of Services: a read returns what is stored, and a patch of the
-- status that is accepted stores the addresses and the conditions.
pub record IsServiceStore {D L N V W : Type 0} (kube : Kube D L N V W)
    (view : V → Text → Text → Option Service) : Type 0 where
  pub got :
      (ns n : Text) (v : V) (svc : Service)
      → kube.get_service ns n v ≡ found svc
      → (view v ns n ≡ some svc) × (svc.namespace ≡ ns) × (svc.name ≡ n)
  pub got_none : (ns n : Text) (v : V) → kube.get_service ns n v ≡ not_found → view v ns n ≡ none
  pub patched :
      (svc : Service) (v : V)
      → (kube.patch_service_status svc v).1 ≡ ok tt
      → (o : Service) × (view (kube.patch_service_status svc v).0 svc.namespace svc.name ≡ some o)
        × (o.ingress ≡ svc.ingress)
        × (o.conditions ≡ svc.conditions)

module _ {D L N V W : Type 0} (kube : Kube D L N V W) (settings : Settings)
    (view : V → Text → Text → Option Service) (store : IsServiceStore kube view) where
  -- The stored Service has the addresses, and its conditions are set.
  abbrev pub HasStatus : V → Service → List Text → List Condition → Type 0
  HasStatus v svc ips new =
      (o : Service) × (view v svc.namespace svc.name ≡ some o)
      × (o.ingress ≡ ips)
      × (o.conditions ≡ set_conditions settings.set_condition svc.conditions new)

  pub set_status-HasStatus :
      (svc : Service) (ips : List Text) (new : List Condition) (s : Server D L N V W)
      → view s.services svc.namespace svc.name ≡ some svc
      → (set_status kube settings svc ips new s).1 ≡ ok tt
      → HasStatus (set_status kube settings svc ips new s).0.services svc ips new
  unfolding set_status on_services update_status
  set_status-HasStatus svc ips new s stored done' =
      let next = set_conditions settings.set_condition svc.conditions new in
      elim (Bool-cases (
        ite (texts_discrete svc.ingress ips) true false
        && ite (conditions_discrete svc.conditions next) true false)) [
          | inl same ↦
              rw (same, update_status)
                (let (a, b) =
                    both_equal texts_discrete conditions_discrete svc.ingress ips svc.conditions
                      next same in
                  (svc, stored, a, b))
          | inr other ↦
              rw (other, update_status)
                (store.patched (patched settings.set_condition svc ips new) s.services
                  (rw (other, update_status) at done'))
        ]

  pub set_status-stores :
      (svc : Service) (ips : List Text) (new : List Condition) (s : Server D L N V W)
      → ((set_status kube settings svc ips new s).0.daemon_sets ≡ s.daemon_sets)
        × ((set_status kube settings svc ips new s).0.lb_ports ≡ s.lb_ports)
  unfolding set_status on_services
  set_status-stores svc ips new s = (refl, refl)

  -- Recording events changes no store.
  pub record_events-stores :
      (es : List Event) (s : Server D L N V W)
      → ((record_events kube settings es s).lb_ports ≡ s.lb_ports)
        × ((record_events kube settings es s).daemon_sets ≡ s.daemon_sets)
        × ((record_events kube settings es s).services ≡ s.services)
        × ((record_events kube settings es s).cluster ≡ s.cluster)
  unfolding record_events
  record_events-stores es s = elim (Bool-cases settings.has_recorder) [
    | inl on ↦ rw (on, record_events) (refl, refl, refl, refl)
    | inr off ↦ rw (off, record_events) (refl, refl, refl, refl)
  ]
