-- ===== src/Controller/Cleanup/Pruned.antt =====
-- Pruning the statuses of LBPorts leaves their specs and labels as they are.
use bulb.Base.{
  ◌≡◌, refl, ◌∙◌, ◌||◌, ◌==◌, List, [], ◌∷◌, Text, Option, some, inl, inr, Bool-cases, is_empty,
  length,
}
use bulb.Base.Result.{M, Result, continue_with-state, Result-cases}
use bulb.Api.{LbPort}
use bulb.Controller.Service.{Service, service_labels}
use bulb.Controller.Cluster.{ObjectClient}
use bulb.Controller.LbPorts.{Node, prune_nodes, valid_nodes}
use bulb.Controller.Cleanup.{
  prune_lb_port, prune_lb_ports, prune_stale_applied_nodes, found_or_error,
}

module _ {S : Type 0} (view : S → Text → Option LbPort) where
  -- The LBPort is still there, with the spec and the labels that it had.
  abbrev pub IsKept : Text → LbPort → S → Type 0
  IsKept n o s = (o' : LbPort) × (view s n ≡ some o') × (o'.spec ≡ o.spec) × (o'.labels ≡ o.labels)

  -- What the API server documents of the status subresource: its update writes the status only.
  abbrev pub IsStatusUpdate : (LbPort → M S (Unit {0})) → Type 0
  IsStatusUpdate update =
      (l : LbPort) (s : S) (n : Text) (o : LbPort) → view s n ≡ some o → IsKept n o (update l s).0

  IsKept-trans :
      (n : Text) (o : LbPort) (s t : S)
      → IsKept n o s
      → ((o' : LbPort) → view s n ≡ some o' → IsKept n o' t)
      → IsKept n o t
  IsKept-trans n o s t (o', stored, spec, labels) next =
      let (o2, stored2, spec2, labels2) = next o' stored in
      (o2, stored2, spec2 ∙ spec, labels2 ∙ labels)

  module _ (client : ObjectClient S LbPort) (update : LbPort → M S (Unit {0}))
      (law : IsStatusUpdate update) where
    prune_one-IsKept :
        (valid : List Text) (l : LbPort) (s : S) (n : Text) (o : LbPort)
        → view s n ≡ some o
        → IsKept n o (prune_lb_port client update valid l s).0
    unfolding prune_lb_port
    prune_one-IsKept valid l s n o stored =
        elim (Bool-cases (
          is_empty l.status.applied_nodes
          || length (prune_nodes valid l.status.applied_nodes) == length l.status.applied_nodes)) [
            | inl same ↦ rw (same, prune_lb_port) (o, stored, refl, refl)
            | inr fewer ↦ elim (Result-cases (found_or_error (client.get l.name s))) [
              | inr (e, failed') ↦ rw (fewer, failed', prune_lb_port) (o, stored, refl, refl)
              | inl (latest, read) ↦ rw (fewer, read, prune_lb_port) (law _ s n o stored)
            ]
          ]

    prune_ports-IsKept :
        (valid : List Text) (ls : List LbPort) (s : S) (n : Text) (o : LbPort)
        → IsKept n o s
        → IsKept n o (prune_lb_ports client update valid ls s).0
    unfolding prune_lb_ports
    prune_ports-IsKept valid [] s n o kept = kept
    prune_ports-IsKept valid (l ∷ ls) s n o kept =
        continue_with-state (IsKept n o) (λ _. prune_lb_ports client update valid ls)
          (prune_lb_port client update valid l s)
          (IsKept-trans n o s _ kept (λ o' e. prune_one-IsKept valid l s n o' e))
          (λ _ t k. prune_ports-IsKept valid ls t n o k)

    pub prune_stale_applied_nodes-IsKept :
        (list_nodes : S → Result (List Node)) (svc : Service) (s : S) (n : Text) (o : LbPort)
        → view s n ≡ some o
        → IsKept n o (prune_stale_applied_nodes client update list_nodes svc s).0
    unfolding prune_stale_applied_nodes
    prune_stale_applied_nodes-IsKept list_nodes svc s n o stored =
        elim (Result-cases (list_nodes s)) [
          | inr (e, failed') ↦ rw (failed', prune_stale_applied_nodes) (o, stored, refl, refl)
          | inl (nodes, listed) ↦ elim (Result-cases (client.list (service_labels svc) s)) [
            | inr (e, failed') ↦
                rw (listed, prune_stale_applied_nodes, failed') (o, stored, refl, refl)
            | inl (items, read) ↦
                rw (listed, prune_stale_applied_nodes, read)
                  (prune_ports-IsKept (valid_nodes nodes) items s n o (o, stored, refl, refl))
          ]
        ]
