-- ===== src/Firewall/Agent.antt =====
-- `AgentReconciler` of internal/firewall/firewall.go: the LBPorts of the API server drive the
-- node's firewall, and the node is entered in the status of those that it serves. Logging and
-- metrics are left out. `K` is the API server's state, `S` the backend's.
pub mod Status
pub mod Cycle
pub mod Node
use bulb.Base.{
  if◌then◌else◌, Bool, true, false, not, List, [], ◌∷◌, ◌++◌, Text, codes, text_discrete, text_less,
  contains, keep, ite, decide, Option, none, some, Bool-discrete, ℕ_discrete,
}
use bulb.Base.Result.{M, Result, ok, err, Error, wrap}
use bulb.Base.Sort.{sort}
use bulb.Api.{LbPort, LbPortStatus}
use bulb.Firewall.Ports.{PortSpec, PortKey, has_key}
use bulb.Firewall.Desired.{applies_to_node, lbport_key, desired_ports_for_node}
use bulb.Firewall.Policy.{FirewallPolicy, filter_ports}
use bulb.Firewall.Backend.{Backend}

-- The agent's calls of the API server; an object that is not there is an error of `get`.
pub record LbPortClient (K : Type 0) : Type 0 where
  pub list : K → Result (List LbPort)
  pub get : Text → K → Result LbPort
  pub update_status : LbPort → M K (Unit {0})

abbrev pub with_applied : LbPort → List Text → LbPort
with_applied l nodes = record l { status = record { applied_nodes = nodes } }

-- The LBPort is for this node, and its port has been applied.
unfoldable pub should_apply : Text → List PortSpec → LbPort → Bool
unfolding applies_to_node has_key lbport_key
should_apply node_name applied l =
    if applies_to_node l.spec.nodes node_name then has_key (lbport_key l) applied else false

module _ {K : Type 0} (kube : LbPortClient K) (node_name : Text) where
  -- An error of either call is logged and dropped.
  unfoldable pub ensure_node_in_status : LbPort → K → K
  unfolding text_discrete text_less sort
  ensure_node_in_status l api = elim (kube.get l.name api) [
    | err e ↦ api
    | ok latest ↦
        if contains text_discrete node_name latest.status.applied_nodes
        then api
        else (kube.update_status
            (with_applied latest (sort text_less (latest.status.applied_nodes ++ node_name ∷ [])))
            api).0
  ]

  unfoldable pub ensure_node_not_in_status : LbPort → K → K
  unfolding text_discrete
  ensure_node_not_in_status l api = elim (kube.get l.name api) [
    | err e ↦ api
    | ok latest ↦
        if not (contains text_discrete node_name latest.status.applied_nodes)
        then api
        else (kube.update_status
            (with_applied latest
              (keep (λ n. ite (text_discrete n node_name) false true) latest.status.applied_nodes))
            api).0
  ]

  unfoldable pub update_lbport_statuses : List PortSpec → List LbPort → K → K
  update_lbport_statuses applied [] api = api
  update_lbport_statuses applied (l ∷ ls) api = update_lbport_statuses applied ls (
      if should_apply node_name applied l
      then ensure_node_in_status l api
      else ensure_node_not_in_status l api)

unfoldable pub port_spec_discrete : Discrete PortSpec
unfolding ℕ_discrete text_discrete
port_spec_discrete = hlevel (ℕ_discrete, text_discrete, Bool-discrete)

unfoldable pub port_specs_discrete : Discrete (List PortSpec)
unfolding port_spec_discrete
port_specs_discrete = hlevel port_spec_discrete

pub record AgentState (K S : Type 0) : Type 0 where
  pub api : K
  pub firewall : S
  pub last_desired : List PortSpec
  pub last_validate_err : Option Error

module _ {K S : Type 0} where
  -- Whether the set has changed, and the state that remembers it.
  unfoldable pub set_last_desired : List PortSpec → AgentState K S → AgentState K S × Bool
  set_last_desired next a =
      if ite (port_specs_discrete a.last_desired next) true false
      then (a, false)
      else (record a { last_desired = next }, true)

  unfoldable pub set_last_validate_err : Option Error → AgentState K S → AgentState K S
  set_last_validate_err e a = record a { last_validate_err = e }

module _ {K S : Type 0} (kube : LbPortClient K) (backend : Backend S) (policy : FirewallPolicy)
    (node_name : Text) (dry_run : Bool) where
  -- What follows a call of the backend.
  unfoldable pub finish_reconcile :
      List LbPort
      → List PortSpec
      → AgentState K S
      → Result (Unit {0})
      → AgentState K S × Result (Unit {0})
  finish_reconcile lbports filtered a (err e) = (
    set_last_validate_err (some e) a,
    wrap (codes "apply firewall backend " ++ backend.name) (err e),
  )
  finish_reconcile lbports filtered a (ok _) =
      let validated = set_last_validate_err none a in
      (
        if not dry_run
            then record validated {
              api = update_lbport_statuses kube node_name filtered lbports validated.api;
            }
            else validated,
        ok tt,
      )

  unfoldable pub reconcile : M (AgentState K S) (Unit {0})
  unfolding set_last_desired set_last_validate_err finish_reconcile
  reconcile a = elim (kube.list a.api) [
    | err e ↦ (a, wrap (codes "list lbports") (err e))
    | ok lbports ↦
        let (filtered, rejected) = filter_ports policy (desired_ports_for_node lbports node_name) in
        let (a', changed) = set_last_desired filtered a in
        let (s, r) = backend.apply filtered a'.firewall in
        finish_reconcile lbports filtered (record a' { firewall = s }) r
  ]

  -- The readiness probe asks the backend.
  unfoldable pub readyz : M (AgentState K S) (Unit {0})
  unfolding set_last_validate_err
  readyz a =
      let (s, r) = backend.validate a.firewall in
      let a' = record a { firewall = s } in
      elim r [
        | err e ↦
            (set_last_validate_err (some e) a', wrap (codes "backend validation failed") (err e))
        | ok _ ↦ (set_last_validate_err none a', ok tt)
      ]
