-- ===== src/Firewall/Agent/Cycle.antt =====
-- A whole reconcile, on an API server that accepts the agent's calls: the statuses say what the
-- node exposes.
use mathlib.Core.Option.{Option, some}
use bulb.Base.{
  ◌≡◌, ◌≢◌, refl, sym, ap, ◌∙◌, if◌then◌else◌, true, false, ◌&&◌, List, [], ◌∷◌, ◌++◌, Text,
  text_discrete, text_less, arith, All, All-imp, contains, contains-keep, keep, ite, inl, inr,
  if_pos,
}
use bulb.Base.Sort.{sort}
use bulb.Base.Result.{ok, Result-cases}
use bulb.Api.{LbPort, names_of, DistinctNames}
use bulb.Firewall.Ports.{PortSpec}
use bulb.Firewall.Policy.{FirewallPolicy, filter_ports}
use bulb.Firewall.Policy.Exposure.{exposes, filter_ports-exposes}
use bulb.Firewall.Desired.{applies_to_node, lbport_key, desired_ports_for_node}
use bulb.Firewall.Backend.{Backend}
use bulb.Firewall.Agent.{
  LbPortClient, with_applied, ensure_node_in_status, ensure_node_not_in_status, should_apply,
  update_lbport_statuses, AgentState, reconcile,
}
use bulb.Firewall.Agent.Status.{IsLbPortClient, lists_node, contains-added}

-- An API server on which reads find what is there, and updates are accepted.
pub record IsReliable {K : Type 0} (kube : LbPortClient K) (view : K → Text → Option LbPort)
    : Type 0 where
  pub reads : (s : K) (n : Text) (l : LbPort) → view s n ≡ some l → kube.get n s ≡ ok l
  pub accepts : (l : LbPort) (s : K) → (kube.update_status l s).1 ≡ ok tt

contains-without :
    (node_name : Text) (xs : List Text)
    → contains text_discrete node_name (keep (λ n. ite (text_discrete n node_name) false true) xs)
      ≡ false
contains-without node_name xs =
    contains-keep text_discrete node_name (λ n. ite (text_discrete n node_name) false true) xs
    ∙ rw (if_pos (text_discrete node_name node_name) refl) (ground arith)

module _ {K : Type 0} (kube : LbPortClient K) (view : K → Text → Option LbPort)
    (laws : IsLbPortClient kube view) (reliable : IsReliable kube view) (node_name : Text) where
  abbrev Present : K → LbPort → Type 0
  Present s l = (o : LbPort) × (view s l.name ≡ some o)

  -- One LBPort: its entry is set, and no other object changes.
  ensure_in_lem :
      (l : LbPort) (s : K)
      → Present s l
      → lists_node node_name (view (ensure_node_in_status kube node_name l s) l.name) ≡ true
  unfolding ensure_node_in_status
  ensure_in_lem l s (o, found) =
      let read = reliable.reads s l.name o found in
      let xs = o.status.applied_nodes in
      let next = with_applied o (sort text_less (xs ++ node_name ∷ [])) in
      ground (
        arith,
        laws.named l.name s o read,
        laws.updated next s (reliable.accepts next s),
        contains-added node_name node_name xs,
      )

  ensure_out_lem :
      (l : LbPort) (s : K)
      → Present s l
      → lists_node node_name (view (ensure_node_not_in_status kube node_name l s) l.name) ≡ false
  unfolding ensure_node_not_in_status
  ensure_out_lem l s (o, found) =
      let read = reliable.reads s l.name o found in
      let xs = o.status.applied_nodes in
      let next =
        with_applied o (keep (λ (n : Text). ite (text_discrete n node_name) false true) xs) in
      ground (
        arith,
        laws.named l.name s o read,
        laws.updated next s (reliable.accepts next s),
        contains-without node_name xs,
      )

  -- The step of the loop.
  abbrev ensure : List PortSpec → LbPort → K → K
  ensure applied l s =
      if should_apply node_name applied l
      then ensure_node_in_status kube node_name l s
      else ensure_node_not_in_status kube node_name l s

  ensure_self :
      (applied : List PortSpec) (l : LbPort) (s : K)
      → Present s l
      → lists_node node_name (view (ensure applied l s) l.name) ≡ should_apply node_name applied l
  ensure_self applied l s p = ground (arith, ensure_in_lem l s p, ensure_out_lem l s p)

  ensure_frame :
      (applied : List PortSpec) (l : LbPort) (s : K) (n : Text)
      → n ≢ l.name
      → view (ensure applied l s) n ≡ view s n
  unfolding ensure_node_in_status ensure_node_not_in_status
  ensure_frame applied l s n ne = elim (Result-cases (kube.get l.name s)) [
    | inr (e, failed) ↦ ground arith
    | inl (latest, read) ↦
        let xs = latest.status.applied_nodes in
        ground (
          arith,
          laws.named l.name s latest read,
          laws.other (with_applied latest (sort text_less (xs ++ node_name ∷ []))) s n,
          laws.other
              (with_applied latest
                (keep (λ (x : Text). ite (text_discrete x node_name) false true) xs))
              s n,
        )
  ]

  statuses-frame :
      (applied : List PortSpec) (ls : List LbPort) (s : K) (n : Text)
      → contains text_discrete n (names_of ls) ≡ false
      → view (update_lbport_statuses kube node_name applied ls s) n ≡ view s n
  unfolding update_lbport_statuses
  statuses-frame applied [] s n h = refl
  statuses-frame applied (l ∷ ls) s n h = elim (text_discrete n l.name) [
    | yes eq ↦ ground arith
    | no ne ↦
        statuses-frame applied ls (ensure applied l s) n (ground arith)
        ∙ ensure_frame applied l s n ne
  ]

  statuses-Present :
      (applied : List PortSpec) (l : LbPort) (ls : List LbPort) (s : K)
      → contains text_discrete l.name (names_of ls) ≡ false
      → All (Present s) ls
      → All (Present (ensure applied l s)) ls
  statuses-Present applied l [] s h p = tt
  statuses-Present applied l (x ∷ ls) s h ((o, found), p) = elim (text_discrete l.name x.name) [
    | yes eq ↦ ground arith
    | no ne ↦ (
      (o, ensure_frame applied l s x.name (λ e. ne (sym e)) ∙ found),
      statuses-Present applied l ls s (ground arith) p,
    )
  ]

  statuses_lem :
      (applied : List PortSpec) (ls : List LbPort) (s : K)
      → DistinctNames ls
      → All (Present s) ls
      → All
          (λ l.
            lists_node node_name (view (update_lbport_statuses kube node_name applied ls s) l.name)
            ≡ should_apply node_name applied l)
          ls
  unfolding update_lbport_statuses
  statuses_lem applied [] s h p = tt
  statuses_lem applied (l ∷ ls) s (fresh, h) (q, p) = (
    ap (lists_node node_name) (statuses-frame applied ls (ensure applied l s) l.name fresh)
        ∙ ensure_self applied l s q,
    statuses_lem applied ls (ensure applied l s) h (statuses-Present applied l ls s fresh p),
  )

  module _ {S : Type 0} (backend : Backend S) (policy : FirewallPolicy) where
    reconcile-api :
        (a : AgentState K S) (lbports : List LbPort)
        → kube.list a.api ≡ ok lbports
        → (reconcile kube backend policy node_name false a).1 ≡ ok tt
        → (reconcile kube backend policy node_name false a).0.api
          ≡ update_lbport_statuses kube node_name
              (filter_ports policy (desired_ports_for_node lbports node_name)).0
              lbports
              a.api
    unfolding reconcile
    reconcile-api a lbports listed done = ground arith

    should_apply_lem :
        (lbports : List LbPort) (l : LbPort)
        → should_apply node_name
            (filter_ports policy (desired_ports_for_node lbports node_name)).0
            l
          ≡ (applies_to_node l.spec.nodes node_name
              && exposes policy node_name lbports (lbport_key l))
    unfolding should_apply
    should_apply_lem lbports l =
        rw (filter_ports-exposes policy node_name lbports (lbport_key l)) (ground arith)

    -- On an API server that finds what is there and accepts status updates, the listed LBPorts having
    -- different names and being there: after a reconcile that succeeds, and is no dry run, each
    -- LBPort's status lists the node exactly when the LBPort is for it and the node exposes its port.
    pub reconcile-status :
        (a : AgentState K S) (lbports : List LbPort)
        → kube.list a.api ≡ ok lbports
        → DistinctNames lbports
        → All (λ l. (o : LbPort) × (view a.api l.name ≡ some o)) lbports
        → (reconcile kube backend policy node_name false a).1 ≡ ok tt
        → All
            (λ l.
              lists_node node_name
                (view (reconcile kube backend policy node_name false a).0.api l.name)
              ≡ (applies_to_node l.spec.nodes node_name
                  && exposes policy node_name lbports (lbport_key l)))
            lbports
    reconcile-status a lbports listed distinct present done =
        All-imp _ _ lbports
          (λ l e.
            ap (λ (api : K). lists_node node_name (view api l.name))
              (reconcile-api a lbports listed done)
            ∙ e
            ∙ should_apply_lem lbports l)
          (statuses_lem (filter_ports policy (desired_ports_for_node lbports node_name)).0 lbports
            a.api distinct present)
