-- ===== src/Controller/LbPorts/Wanted.antt =====
-- An `applyLBPorts` that succeeds has read the list of the Service's LBPorts, so that the wanted
-- ones are on the API server whatever the list holds.
use bulb.Base.{◌≡◌, sym, ap, ◌∙◌, List, Text, codes, Option, All, inl, inr}
use bulb.Base.Result.{ok, ok≢err, wrap, continue_with, continue_with-ok, Result-cases}
use bulb.Api.{LbPort, DistinctNames, names_of}
use bulb.Controller.Service.{Service, service_labels}
use bulb.Controller.Cluster.{ObjectClient, IsObjectClient}
use bulb.Controller.LbPorts.{apply_desired, delete_stale, apply_lb_ports}
use bulb.Controller.LbPorts.Applied.{IsApplied, second_loop, apply_lb_ports-IsSynced}

module _ {S : Type 0} (client : ObjectClient S LbPort) (view : S → Text → Option LbPort)
    (laws : IsObjectClient (λ l. l.name) client view) where
  apply_lb_ports-listed :
      (desired : List LbPort) (svc : Service) (s : S)
      → (apply_lb_ports client desired svc s).1 ≡ ok tt
      → (items : List LbPort) × (client.list (service_labels svc) (apply_desired client desired s).0
          ≡ ok items)
  unfolding apply_lb_ports
  apply_lb_ports-listed desired svc s done' =
      let t = (apply_desired client desired s).0 in
      let (_, first, rest, same) =
        continue_with-ok (second_loop client view laws desired svc) (apply_desired client desired s)
          done' in
      elim (Result-cases (client.list (service_labels svc) t)) [
        | inl read ↦ read
        | inr (e, failed') ↦ absurd (
            ok≢err (
              sym rest
              ∙ ap
                  (λ r.
                    (continue_with (delete_stale client (names_of desired))
                      (t, wrap (codes "list lbports") r)).1)
                  failed'))
      ]

  pub apply_lb_ports-All :
      (desired : List LbPort) (svc : Service) (s : S)
      → DistinctNames desired
      → (apply_lb_ports client desired svc s).1 ≡ ok tt
      → All (IsApplied client view laws (apply_lb_ports client desired svc s).0) desired
  apply_lb_ports-All desired svc s distinct done' =
      let (items, listed) = apply_lb_ports-listed desired svc s done' in
      (apply_lb_ports-IsSynced client view laws desired svc s items distinct done' listed).wanted
