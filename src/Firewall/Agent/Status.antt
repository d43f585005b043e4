-- ===== src/Firewall/Agent/Status.antt =====
-- What a reconcile does to the statuses of the LBPorts.
use mathlib.Core.Option
use mathlib.Core.Option.{Option, none, some}
use bulb.Base.{
  ◌≡◌, ◌≢◌, refl, ap, ◌∙◌, Bool, true, false, ◌||◌, List, [], ◌∷◌, ◌++◌, Text, text_discrete,
  text_less, arith, contains, contains-append, contains-keep, keep, ite, inl, inr, Bool-cases,
  if_neg,
}
use bulb.Base.Sort.{sort, contains-sort_self}
use bulb.Base.Result.{ok, err, Error, Result-cases}
use bulb.Api.{LbPort}
use bulb.Firewall.Ports.{PortSpec}
use bulb.Firewall.Agent.{
  LbPortClient, with_applied, ensure_node_in_status, ensure_node_not_in_status, should_apply,
  update_lbport_statuses,
}

-- What the API server documents: a read returns the object, a status update that is accepted
-- replaces the status of its object, and one that is refused changes nothing.
pub record IsLbPortClient {K : Type 0} (kube : LbPortClient K) (view : K → Text → Option LbPort)
    : Type 0 where
  pub got : (n : Text) (s : K) (l : LbPort) → kube.get n s ≡ ok l → view s n ≡ some l
  pub named : (n : Text) (s : K) (l : LbPort) → kube.get n s ≡ ok l → l.name ≡ n
  pub updated :
      (l : LbPort) (s : K)
      → (kube.update_status l s).1 ≡ ok tt
      → view (kube.update_status l s).0 l.name
        ≡ Option.map (λ o. with_applied o l.status.applied_nodes) (view s l.name)
  pub other :
      (l : LbPort) (s : K) (n : Text) → n ≢ l.name → view (kube.update_status l s).0 n ≡ view s n
  pub refused :
      (l : LbPort) (s : K) (e : Error) (n : Text)
      → (kube.update_status l s).1 ≡ err e
      → view (kube.update_status l s).0 n ≡ view s n

abbrev pub lists_node : Text → Option LbPort → Bool
lists_node m none = false
lists_node m (some l) = contains text_discrete m l.status.applied_nodes

module _ (node_name : Text) where
  pub contains-added :
      (m : Text) (xs : List Text)
      → contains text_discrete m (sort text_less (xs ++ node_name ∷ []))
        ≡ (contains text_discrete m xs || ite (text_discrete m node_name) true false)
  contains-added m xs =
      contains-sort_self text_less text_discrete m (xs ++ node_name ∷ [])
      ∙ contains-append text_discrete m xs (node_name ∷ [])

module _ {K : Type 0} (kube : LbPortClient K) (view : K → Text → Option LbPort)
    (laws : IsLbPortClient kube view) (node_name : Text) where
  -- A status update that only differs at the node leaves the others' entries alone.
  update-others :
      (latest : LbPort) (nodes : List Text) (s : K) (n m : Text)
      → view s latest.name ≡ some latest
      → contains text_discrete m nodes ≡ contains text_discrete m latest.status.applied_nodes
      → lists_node m (view (kube.update_status (with_applied latest nodes) s).0 n)
        ≡ lists_node m (view s n)
  update-others latest nodes s n m found same =
      elim (Result-cases (kube.update_status (with_applied latest nodes) s).1) [
        | inr (e, failed) ↦
            ap (lists_node m) (laws.refused (with_applied latest nodes) s e n failed)
        | inl (_, done) ↦ elim (text_discrete n latest.name) [
          | no ne ↦ ap (lists_node m) (laws.other (with_applied latest nodes) s n ne)
          | yes eq ↦ ground (arith, laws.updated (with_applied latest nodes) s done)
        ]
      ]

  pub read_self :
      (n : Text) (s : K) (latest : LbPort)
      → kube.get n s ≡ ok latest
      → view s latest.name ≡ some latest
  read_self n s latest read = ap (view s) (laws.named n s latest read) ∙ laws.got n s latest read

  ensure_in-others :
      (l : LbPort) (s : K) (n m : Text)
      → m ≢ node_name
      → lists_node m (view (ensure_node_in_status kube node_name l s) n) ≡ lists_node m (view s n)
  unfolding ensure_node_in_status
  ensure_in-others l s n m ne = elim (Result-cases (kube.get l.name s)) [
    | inr (e, failed) ↦ rw (failed, ensure_node_in_status)
    | inl (latest, read) ↦
        let xs = latest.status.applied_nodes in
        let written =
          update-others latest (sort text_less (xs ++ node_name ∷ [])) s n m
            (read_self l.name s latest read)
            (contains-added node_name m xs
              ∙ rw (if_neg (text_discrete m node_name) ne) (ground arith)) in
        rw (read, ensure_node_in_status) (ground (arith, written))
  ]

  ensure_out-others :
      (l : LbPort) (s : K) (n m : Text)
      → m ≢ node_name
      → lists_node m (view (ensure_node_not_in_status kube node_name l s) n)
        ≡ lists_node m (view s n)
  unfolding ensure_node_not_in_status
  ensure_out-others l s n m ne = elim (Result-cases (kube.get l.name s)) [
    | inr (e, failed) ↦ rw (failed, ensure_node_not_in_status)
    | inl (latest, read) ↦
        let xs = latest.status.applied_nodes in
        let differs = λ (x : Text). ite (text_discrete x node_name) false true in
        let written =
          update-others latest (keep differs xs) s n m (read_self l.name s latest read) (
            contains-keep text_discrete m differs xs
            ∙ rw (if_neg (text_discrete m node_name) ne) (ground arith)) in
        rw (read, ensure_node_not_in_status) (ground (arith, written))
  ]

  -- Whatever fails, no other node's entry in any status changes.
  pub statuses-others :
      (applied : List PortSpec) (ls : List LbPort) (s : K) (n m : Text)
      → m ≢ node_name
      → lists_node m (view (update_lbport_statuses kube node_name applied ls s) n)
        ≡ lists_node m (view s n)
  unfolding update_lbport_statuses
  statuses-others applied [] s n m ne = refl
  statuses-others applied (l ∷ ls) s n m ne = elim (Bool-cases (should_apply node_name applied l)) [
    | inl yes' ↦ rw yes' (
        statuses-others applied ls (ensure_node_in_status kube node_name l s) n m ne
        ∙ ensure_in-others l s n m ne)
    | inr no' ↦ rw no' (
        statuses-others applied ls (ensure_node_not_in_status kube node_name l s) n m ne
        ∙ ensure_out-others l s n m ne)
  ]
