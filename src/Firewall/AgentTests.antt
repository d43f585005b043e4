-- ===== src/Firewall/AgentTests.antt =====
-- A reconcile of the agent against an API server with one LBPort.
use mathlib.Core.Bool.{false≢true}
use bulb.Base.{
  keep, ◌≡◌, refl, ap, true, false, not, ◌&&◌, ◌||◌, List, [], ◌∷◌, Text, codes, text_discrete, All,
  arith, ite, Option, none, some, text_less,
}
use bulb.Base.Sort.{sort}
use bulb.Base.Result.{M, Result, ok, err}
use bulb.Api.{LbPort}
use bulb.Firewall.Ports.{
  PortSpec, port_key_discrete, key, PortKey, has_key, stable_unique_ports, diff_ports,
  specs_from_keys, port_keys, intersect_ports, next_managed_ports,
}
use bulb.Firewall.Desired.{desired_ports_for_node, applies_to_node, lbport_key}
use bulb.Firewall.Policy.{filter_ports}
use bulb.Firewall.Policy.Exposure.{exposes}
use bulb.Firewall.Backend.{ZoneClient, Backend, dry_run}
use bulb.Firewall.Agent.{
  LbPortClient, with_applied, AgentState, reconcile, update_lbport_statuses, ensure_node_in_status,
  ensure_node_not_in_status, should_apply, set_last_desired, set_last_validate_err,
  finish_reconcile, port_specs_discrete,
}
use bulb.Firewall.Agent.Status.{IsLbPortClient, lists_node, statuses-others}
use bulb.Firewall.Agent.Cycle.{IsReliable, reconcile-status}
use bulb.Firewall.Tests.{lbport, policy}
use bulb.Firewall.Agent.Node.{reconcile-opens}
use bulb.Firewall.Firewalld.{World, apply, firewalld_backend}
use bulb.Firewall.Firewalld.Sync.{manages}
use bulb.Firewall.Samples.{Zone, zone_client, zone_laws, open_in, file_store, tcp}

abbrev named_as : Text → LbPort → Option LbPort
named_as n l = ite (text_discrete l.name n) (some l) none

abbrev found_as : Text → LbPort → Result LbPort
found_as n l = ite (text_discrete l.name n) (ok l) (err (codes "not found"))

abbrev write_status : LbPort → M LbPort (Unit {0})
write_status l s =
    (ite (text_discrete s.name l.name) (with_applied s l.status.applied_nodes) s, ok tt)

unfoldable pub sample_kube : LbPortClient LbPort
sample_kube = record { list = λ s. ok (s ∷ []); get = found_as; update_status = write_status }

kube-IsLbPortClient : IsLbPortClient sample_kube (λ s n. named_as n s)
unfolding sample_kube
kube-IsLbPortClient = record {
  got = λ n s l h. ground arith;
  named = λ n s l h. ground arith;
  updated = λ l s h. ground arith;
  other = λ l s n ne. ground arith;
  refused = λ l s e n h. cc;
}

kube-IsReliable : IsReliable sample_kube (λ s n. named_as n s)
unfolding sample_kube
kube-IsReliable = record { reads = λ s n l h. ground arith; accepts = λ l s. refl }

agent : Unit {0}
unfolding stable_unique_ports diff_ports intersect_ports next_managed_ports specs_from_keys
    port_keys desired_ports_for_node filter_ports has_key apply zone_client file_store manages
    applies_to_node lbport_key reconcile update_lbport_statuses ensure_node_in_status
    ensure_node_not_in_status should_apply set_last_desired set_last_validate_err finish_reconcile
    port_specs_discrete sample_kube firewalld_backend text_discrete text_less sort dry_run
agent = tt

-- The only LBPort: 8080 on both nodes, node-b has applied it.
abbrev pub web : LbPort
web = lbport (codes "web") 8080 (codes "node-a" ∷ codes "node-b" ∷ []) false

abbrev backend : Backend (World Zone (List PortKey))
backend = firewalld_backend zone_client file_store (codes "public")

abbrev start : AgentState LbPort (World Zone (List PortKey))
start = record {
  api = web;
  firewall = record { zone = (9, tcp 22 ∷ []); file = [] };
  last_desired = [];
  last_validate_err = none;
}

abbrev pub node_a : Text
node_a = codes "node-a"

abbrev finish : AgentState LbPort (World Zone (List PortKey))
finish = (reconcile sample_kube backend policy node_a false start).0

reconcile-status_example :
    All
      (λ l.
        lists_node node_a (named_as l.name finish.api)
        ≡ (applies_to_node l.spec.nodes node_a && exposes policy node_a (web ∷ []) (lbport_key l)))
      (web ∷ [])
unfolding agent
reconcile-status_example =
    reconcile-status sample_kube (λ s n. named_as n s) kube-IsLbPortClient kube-IsReliable node_a
      backend policy start (web ∷ []) refl (refl, tt) ((web, refl), tt) refl

reconcile_run :
    (finish.firewall.zone ≡ (8, tcp 8080 ∷ tcp 22 ∷ []))
    × (finish.api.status.applied_nodes ≡ codes "node-a" ∷ codes "node-b" ∷ [])
unfolding agent
reconcile_run = (refl, refl)

statuses-others_example :
    lists_node
      (codes "node-b")
      (named_as web.name (update_lbport_statuses sample_kube node_a (tcp 8080 ∷ []) (web ∷ []) web))
    ≡ lists_node (codes "node-b") (named_as web.name web)
unfolding agent
statuses-others_example =
    statuses-others sample_kube (λ s n. named_as n s) kube-IsLbPortClient node_a (tcp 8080 ∷ [])
      (web ∷ []) web web.name (codes "node-b")
      (λ e. false≢true (ap (λ n. ite (text_discrete n node_a) true false) e))

abbrev web_key : PortKey
web_key = record { port = 8080; protocol = codes "tcp" }

reconcile-opens_example : open_in finish.firewall.zone web_key ≡ (
    exposes policy node_a (web ∷ []) web_key
    || (open_in start.firewall.zone web_key
        && not (manages file_store start.firewall.file web_key)))
unfolding agent
reconcile-opens_example =
    reconcile-opens sample_kube zone_client file_store (codes "public") open_in
      (zone_laws (codes "public")) policy node_a false start (web ∷ []) web_key refl refl

-- A zone that takes every call.
abbrev willing : ZoneClient (List PortSpec)
willing = record {
  get_ports = λ zone s. ok s;
  add_port = λ zone p s. (p ∷ s, ok tt);
  remove_port =
      λ zone p s. (keep (λ q. ite (port_key_discrete (key q) (key p)) false true) s, ok tt);
}

abbrev managed_22 : World (List PortSpec) (List PortKey)
managed_22 = record { zone = tcp 22 ∷ []; file = key (tcp 22) ∷ [] }
