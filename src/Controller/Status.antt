-- ===== src/Controller/Status.antt =====
-- A Service's status conditions and its events: internal/controller/status.go, with `eventf` and
-- `emitLBPortEvents` of reconciler.go and lbport.go. `meta.SetStatusCondition` is a parameter.
use bulb.Base.{
  ltb, leb, if◌then◌else◌, Bool, true, false, ◌&&◌, List, [], ◌∷◌, ◌++◌, Text, codes, decimal,
  to_lower, ite, text_discrete, ℕ_discrete, Option, none, some,
}
use bulb.Base.Result.{M, Result, ok, err}
use bulb.Api.{LbPort}
use bulb.Controller.Service.{Service, Condition, text_eq}
use bulb.Controller.LbPorts.{Node, texts_discrete, valid_nodes, applied_count, required_count}

abbrev pub condition_reconciled : Text
condition_reconciled = codes "Reconciled"

abbrev pub condition_port_conflict : Text
condition_port_conflict = codes "PortConflict"

abbrev pub condition_invalid_service : Text
condition_invalid_service = codes "InvalidService"

abbrev pub condition_no_ready_endpoint : Text
condition_no_ready_endpoint = codes "NoReadyEndpoints"

unfoldable pub service_condition : Service → Text → Bool → Text → Text → Condition
service_condition svc typ holds reason message = record {
  condition_type = typ;
  status = if holds then codes "True" else codes "False";
  observed_generation = svc.generation;
  reason = reason;
  message = message;
}

unfoldable pub conditions_discrete : Discrete (List Condition)
unfolding text_discrete
conditions_discrete = hlevel (ℕ_discrete, text_discrete)

-- The condition of a type.
abbrev pub condition_of : Text → List Condition → Option Condition
condition_of t [] = none
condition_of t (c ∷ cs) = if text_eq c.condition_type t then some c else condition_of t cs

module _ (set_condition : List Condition → Condition → List Condition) where
  unfoldable pub set_conditions : List Condition → List Condition → List Condition
  set_conditions cs [] = cs
  set_conditions cs (c ∷ new) = set_conditions (set_condition cs c) new

  -- The Service with its status as it is to be.
  abbrev pub patched : Service → List Text → List Condition → Service
  patched svc ips new = record svc { ingress = ips; conditions = set_conditions svc.conditions new }

  unfoldable pub update_status :
      {S : Type 0}
      → (Service → M S (Unit {0}))
      → Service
      → List Text
      → List Condition
      → M S (Unit {0})
  update_status patch svc ips new s =
      if ite (texts_discrete svc.ingress ips) true false
        && ite (conditions_discrete svc.conditions (set_conditions svc.conditions new)) true false
      then (s, ok tt)
      else patch (patched svc ips new) s

-- An event about a Service.
pub record Event : Type 0 where
  pub namespace : Text
  pub name : Text
  pub event_type : Text
  pub reason : Text
  pub message : Text

unfoldable pub event_of : Service → Text → Text → Text → Event
event_of svc event_type reason message = record {
  namespace = svc.namespace;
  name = svc.name;
  event_type = event_type;
  reason = reason;
  message = message;
}

-- The event for one LBPort, of the valid nodes.
unfoldable pub lb_port_event : Service → List Text → LbPort → List Event
unfolding event_of decimal
lb_port_event svc valid l =
    let port_desc = decimal l.spec.port ++ (codes "/" ++ to_lower l.spec.protocol) in
    let applied = applied_count l.status.applied_nodes valid in
    let required = required_count l.spec.nodes valid in
    if leb required applied && ltb 0 required
    then event_of svc (codes "Normal") (codes "FirewallPortOpened") (
        codes "Port "
        ++ (port_desc ++ (codes " opened on all " ++ (decimal applied ++ codes " nodes"))))
      ∷ []
    else if ltb 0 applied && ltb applied required
    then event_of svc (codes "Warning") (codes "FirewallPortPartiallyApplied") (
        codes "Port "
        ++ (port_desc
            ++ (codes " applied on "
                ++ (decimal applied ++ (codes "/" ++ (decimal required ++ codes " nodes"))))))
      ∷ []
    else []

abbrev each_event : Service → List Text → List LbPort → List Event
each_event svc valid [] = []
each_event svc valid (l ∷ ls) = lb_port_event svc valid l ++ each_event svc valid ls

-- No events where a list cannot be read.
unfoldable pub emit_lb_port_events :
    Result (List Node) → Result (List LbPort) → Service → List Event
unfolding valid_nodes
emit_lb_port_events (err e) lb_ports svc = []
emit_lb_port_events (ok nodes) (err e) svc = []
emit_lb_port_events (ok nodes) (ok items) svc = each_event svc (valid_nodes nodes) items
