-- ===== src/Firewall/Agent/Node.antt =====
-- The agent with the firewalld backend: what a reconcile opens on the node.
use bulb.Base.{◌≡◌, ap, ◌∙◌, Bool, true, not, ◌&&◌, ◌||◌, List, Text, arith, inl, inr}
use bulb.Base.Result.{ok, Result-cases}
use bulb.Api.{LbPort}
use bulb.Firewall.Ports.{PortKey}
use bulb.Firewall.Policy.{FirewallPolicy, filter_ports}
use bulb.Firewall.Policy.Exposure.{exposes, filter_ports-exposes}
use bulb.Firewall.Desired.{desired_ports_for_node}
use bulb.Firewall.Backend
use bulb.Firewall.Backend.{Backend, ZoneClient, IsZoneClient, StateStore}
use bulb.Firewall.Firewalld.{World, apply, firewalld_backend}
use bulb.Firewall.Firewalld.Sync.{manages, apply-synced}
use bulb.Firewall.Agent.{
  LbPortClient, AgentState, reconcile, finish_reconcile, set_last_desired, set_last_validate_err,
}

module _ {K Z F : Type 0} (kube : LbPortClient K) (client : ZoneClient Z) (store : StateStore F)
    (zone : Text) (open_at : Z → PortKey → Bool) (laws : IsZoneClient zone client open_at)
    (policy : FirewallPolicy) (node_name : Text) (dry_run : Bool) where
  reconcile-firewall :
      (a : AgentState K (World Z F)) (lbports : List LbPort)
      → kube.list a.api ≡ ok lbports
      → (reconcile kube (firewalld_backend client store zone) policy node_name dry_run a).1 ≡ ok tt
      → let filtered = (filter_ports policy (desired_ports_for_node lbports node_name)).0 in
        ((apply client store zone filtered a.firewall).1 ≡ ok tt)
        × ((reconcile kube
              (firewalld_backend client store zone)
              policy
              node_name
              dry_run
              a).0.firewall
            ≡ (apply client store zone filtered a.firewall).0)
  unfolding reconcile firewalld_backend
  reconcile-firewall a lbports listed done = (ground arith, ground arith)

  -- After a reconcile that succeeds, a port is open on the node exactly when the LBPorts expose it
  -- under the policy, or it was open before and is not the agent's.
  pub reconcile-opens :
      (a : AgentState K (World Z F)) (lbports : List LbPort) (k : PortKey)
      → kube.list a.api ≡ ok lbports
      → (reconcile kube (firewalld_backend client store zone) policy node_name dry_run a).1 ≡ ok tt
      → open_at
          (reconcile kube
            (firewalld_backend client store zone)
            policy
            node_name
            dry_run
            a).0.firewall.zone
          k
        ≡ (exposes policy node_name lbports k
            || (open_at a.firewall.zone k && not (manages store a.firewall.file k)))
  reconcile-opens a lbports k listed done =
      let (applied, same) = reconcile-firewall a lbports listed done in
      let filtered = (filter_ports policy (desired_ports_for_node lbports node_name)).0 in
      ap (λ (w : World Z F). open_at w.zone k) same
      ∙ apply-synced client store zone open_at laws filtered a.firewall k applied
      ∙ ap (λ b. b || (open_at a.firewall.zone k && not (manages store a.firewall.file k)))
          (filter_ports-exposes policy node_name lbports k)

-- A reconcile in dry run, whatever fails, writes neither to the API server nor to the firewall.
pub reconcile-dry :
    {K S : Type 0} (kube : LbPortClient K) (backend : Backend S) (policy : FirewallPolicy)
    (node_name : Text) (a : AgentState K S)
    → let a' = (reconcile kube (Backend.dry_run backend) policy node_name true a).0 in
      (a'.api ≡ a.api) × (a'.firewall ≡ a.firewall)
unfolding reconcile Backend.dry_run finish_reconcile set_last_desired set_last_validate_err
reconcile-dry kube backend policy node_name a = elim (Result-cases (kube.list a.api)) [
  | inr (e, failed) ↦ (ground arith, ground arith)
  | inl (lbports, listed) ↦ (ground arith, ground arith)
]
