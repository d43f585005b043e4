-- ===== src/Firewall/Policy/Exposure.antt =====
-- What `Filter` lets through, and what a node exposes in the end.
use mathlib.Core.List.{Perm, perm_middle}
use mathlib.Core.List.Perm
use bulb.Base.{
  ◌≡◌, if◌then◌else◌, ltb, Bool, true, false, not, ◌&&◌, List, [], ◌∷◌, ◌++◌, map, Text, All, any,
  contains, arith, ℕ_discrete, ◌⊎◌,
}
use bulb.Api.{LbPort}
use bulb.Firewall.Ports.{PortSpec, PortKey, key, has_key}
use bulb.Firewall.Policy.{FirewallPolicy, RejectedPort, denylist, privileged, filter_ports}
use bulb.Firewall.Desired.{desired_ports_for_node}
use bulb.Firewall.Desired.Exact.{
  claims, claims_privileged, has_privileged, has_key-desired_ports_for_node,
  has_privileged-desired_ports_for_node,
}

-- The policy refuses the port for its number, or for want of the privilege.
abbrev pub is_denied : FirewallPolicy → PortSpec → Bool
is_denied p spec = contains ℕ_discrete spec.port p.denied_ports

abbrev pub lacks_privilege : PortSpec → Bool
lacks_privilege spec = ltb spec.port 1024 && not spec.allow_privileged

-- A rejection names the first rule that the port breaks.
abbrev pub HasReason : FirewallPolicy → RejectedPort → Type 0
HasReason p r =
    ((is_denied p r.spec ≡ true) × (r.reason ≡ denylist))
    ⊎ ((is_denied p r.spec ≡ false) × (lacks_privilege r.spec ≡ true) × (r.reason ≡ privileged))

abbrev pub IsAllowed : FirewallPolicy → PortSpec → Type 0
IsAllowed p spec = (is_denied p spec ≡ false) × (lacks_privilege spec ≡ false)

filter_ports-IsAllowed :
    (p : FirewallPolicy) (desired : List PortSpec) → All (IsAllowed p) (filter_ports p desired).0
unfolding filter_ports
filter_ports-IsAllowed p [] = tt
filter_ports-IsAllowed p (spec ∷ desired) = ground (arith, filter_ports-IsAllowed p desired)

filter_ports-HasReason :
    (p : FirewallPolicy) (desired : List PortSpec) → All (HasReason p) (filter_ports p desired).1
unfolding filter_ports
filter_ports-HasReason p [] = tt
filter_ports-HasReason p (spec ∷ desired) = ground (arith, filter_ports-HasReason p desired)

filter_ports-perm :
    (p : FirewallPolicy) (desired : List PortSpec)
    → Perm (map (λ r. r.spec) (filter_ports p desired).1 ++ (filter_ports p desired).0) desired
unfolding filter_ports
filter_ports-perm p [] = Perm.rfl
filter_ports-perm p (spec ∷ desired) =
    let kept = Perm.cons spec (filter_ports-perm p desired) in
    ground (
      arith,
      kept,
      Perm.trans
          (perm_middle (map (λ (r : RejectedPort). r.spec) (filter_ports p desired).1)
            (filter_ports p desired).0)
          kept,
    )

privileged-has_key :
    (k : PortKey) (ps : List PortSpec) → has_privileged k ps ≡ true → has_key k ps ≡ true
unfolding has_key has_privileged
privileged-has_key k [] h = cc
privileged-has_key k (p ∷ ps) h = ground (arith, privileged-has_key k ps)

-- The filter on keys: the number must not be denied, and below 1024 some port of the key needs
-- the privilege.
has_key-filter_ports :
    (p : FirewallPolicy) (k : PortKey) (desired : List PortSpec)
    → has_key k (filter_ports p desired).0 ≡ (
        not (contains ℕ_discrete k.port p.denied_ports)
        && (if ltb k.port 1024 then has_privileged k desired else has_key k desired))
unfolding filter_ports has_key has_privileged key
has_key-filter_ports p k [] = ground arith
has_key-filter_ports p k (spec ∷ desired) =
    ground (arith, has_key-filter_ports p k desired, privileged-has_key k desired)

-- What a node exposes, from the LBPorts alone: a key that the policy does not deny, that some
-- LBPort for this node asks for and, below 1024, one that grants the privilege.
pub exposes : FirewallPolicy → Text → List LbPort → PortKey → Bool
exposes p node_name lbports k =
    not (contains ℕ_discrete k.port p.denied_ports)
    && (if ltb k.port 1024
        then any (claims_privileged k node_name) lbports
        else any (claims k node_name) lbports)

-- The node's filtered ports have a key exactly when the policy and the LBPorts expose it.
pub filter_ports-exposes :
    (p : FirewallPolicy) (node_name : Text) (lbports : List LbPort) (k : PortKey)
    → has_key k (filter_ports p (desired_ports_for_node lbports node_name)).0
      ≡ exposes p node_name lbports k
unfolding exposes
filter_ports-exposes p node_name lbports k = ground (
  arith,
  has_key-filter_ports p k (desired_ports_for_node lbports node_name),
  has_key-desired_ports_for_node lbports node_name k,
  has_privileged-desired_ports_for_node lbports node_name k,
)

-- `Filter` loses nothing and invents nothing, lets through what the policy allows, and gives each
-- rejection its reason.
pub record IsSplit (p : FirewallPolicy) (desired : List PortSpec)
    (r : List PortSpec × List RejectedPort) : Type 0 where
  pub whole : Perm (map (λ x. x.spec) r.1 ++ r.0) desired
  pub allowed : All (IsAllowed p) r.0
  pub reasons : All (HasReason p) r.1

-- The kept and the rejected ports are together the desired ones, each kept port is allowed by the
-- policy, and each rejected port has the reason that it is given.
pub filter_ports-IsSplit :
    (p : FirewallPolicy) (desired : List PortSpec) → IsSplit p desired (filter_ports p desired)
filter_ports-IsSplit p desired = record {
  whole = filter_ports-perm p desired;
  allowed = filter_ports-IsAllowed p desired;
  reasons = filter_ports-HasReason p desired;
}
