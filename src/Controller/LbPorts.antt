-- ===== src/Controller/LbPorts.antt =====
-- The LBPorts of a Service: internal/controller/lbport.go. Events are left out.
pub mod Applied
pub mod Names
pub mod Wanted
use bulb.Base.{
  ℕ, ◌==◌, ltb, leb, if◌then◌else◌, Bool, true, false, not, ◌&&◌, ◌||◌, List, [], ◌∷◌, ◌++◌, map,
  Text, codes, text_discrete, text_less, is_empty, Option, none, some, contains, keep, length, ite,
  decide, ℕ_discrete, Bool-discrete,
}
use bulb.Base.Sort.{sort}
use bulb.Base.Dict.{lookup}
use bulb.Base.Result.{
  M, Result, ok, err, wrap, wrapping, Found, found, not_found, failed, continue_with, query, return,
  ◌>>=◌, ◌>>◌,
}
use bulb.Api.{Labels, get_label, LbPort, LbPortSpec, all_nodes_token}
use bulb.Controller.Service.{
  Service, ServicePort, text_eq, annotation_nodes, annotation_allow_privileged_port, annotated,
  service_labels, lb_port_name, lb_port_owner_name, label_managed_by, label_managed_by_v,
  label_service, label_service_ns,
}
use bulb.Controller.Conflicts.{is_all_nodes}
use bulb.Controller.Cluster.{ObjectClient, ignore_not_found}

pub record Node : Type 0 where
  pub name : Text
  pub labels : Labels
  pub annotations : Labels
  pub unschedulable : Bool

-- Kubernetes' label selectors: parsing, conversion and matching.
pub record Selectors : Type 1 where
  pub Selector : Type 0
  pub parse : Text → Result Selector
  pub matches : Selector → Labels → Bool

unfoldable pub build_lb_port : Service → List Text → ServicePort → LbPort
unfolding lb_port_name service_labels annotated
build_lb_port svc nodes p = record {
  name = lb_port_name svc p;
  labels = service_labels svc;
  spec = record {
    port = p.port;
    protocol = if is_empty p.protocol then codes "TCP" else p.protocol;
    nodes = nodes;
    owner = lb_port_owner_name;
    allow_privileged = annotated svc annotation_allow_privileged_port (codes "true");
  };
  status = record { applied_nodes = [] };
}

module _ (sel : Selectors) where
  -- The loop of `lbPortNodes`.
  unfoldable pub matched_nodes : sel.Selector → List Node → List Text
  matched_nodes selector [] = []
  matched_nodes selector (node ∷ nodes) =
      let rest = matched_nodes selector nodes in
      if node.unschedulable
      then rest
      else if sel.matches selector node.labels
      then node.name ∷ rest
      else rest

  unfoldable pub lb_port_nodes : Result (List Node) → Service → Result (List Text)
  unfolding get_label matched_nodes sort text_less
  lb_port_nodes nodes svc =
      let raw_selector = get_label annotation_nodes svc.annotations in
      if is_empty raw_selector then ok (all_nodes_token ∷ []) else elim (sel.parse raw_selector) [
        | err e ↦ wrap (codes "parse " ++ annotation_nodes) (err e)
        | ok selector ↦ elim nodes [
          | err e ↦ wrap (codes "list nodes") (err e)
          | ok items ↦ ok (sort text_less (matched_nodes selector items))
        ]
      ]

  unfoldable pub build_lb_ports : Result (List Node) → Service → Result (List LbPort)
  unfolding lb_port_nodes build_lb_port
  build_lb_ports nodes svc = elim (lb_port_nodes nodes svc) [
    | err e ↦ err e
    | ok names ↦ ok (map (build_lb_port svc names) svc.ports)
  ]

unfoldable pub lb_port_spec_discrete : Discrete LbPortSpec
lb_port_spec_discrete = hlevel (ℕ_discrete, text_discrete, Bool-discrete)

-- Equality of maps: as many entries, and each is in the other.
abbrev entry_in : Labels → Text × Text → Bool
entry_in b (k, v) = elim (lookup text_discrete k b) [ none ↦ false | some w ↦ text_eq w v ]

abbrev all_in : Labels → Labels → Bool
all_in b [] = true
all_in b (e ∷ a) = entry_in b e && all_in b a

unfoldable pub labels_equal : Labels → Labels → Bool
labels_equal a b = length a == length b && all_in b a

-- `DeepEqual` of the specs and of the labels.
unfoldable pub lb_port_unchanged : LbPort → LbPort → Bool
lb_port_unchanged existing want =
    ite (lb_port_spec_discrete existing.spec want.spec) true false
    && labels_equal existing.labels want.labels

-- The object that `Update` sends: the stored one, with the desired spec and labels.
abbrev pub lb_port_update : LbPort → LbPort → LbPort
lb_port_update existing want = record existing { labels = want.labels; spec = want.spec }

module _ {S : Type 0} (client : ObjectClient S LbPort) where
  -- The first loop's body in `applyLBPorts`.
  unfoldable pub apply_lb_port : LbPort → M S (Unit {0})
  apply_lb_port want s = elim (client.get want.name s) [
    | not_found ↦ wrapping (codes "create lbport " ++ want.name) (client.create want) s
    | failed e ↦ (s, wrap (codes "get lbport " ++ want.name) (err e))
    | found existing ↦
        if lb_port_unchanged existing want
        then (s, ok tt)
        else wrapping (codes "update lbport " ++ want.name)
            (client.update (lb_port_update existing want)) s
  ]

  unfoldable pub apply_desired : List LbPort → M S (Unit {0})
  unfolding apply_lb_port
  apply_desired [] s = (s, ok tt)
  apply_desired (want ∷ desired) s =
      continue_with (λ _. apply_desired desired) (apply_lb_port want s)

  -- The second loop: what the list holds and `wanted` does not name goes. The event
  -- FirewallPortClosed, which is recorded before each deletion, is left out.
  unfoldable pub delete_stale : List Text → List LbPort → M S (Unit {0})
  delete_stale wanted [] s = (s, ok tt)
  delete_stale wanted (item ∷ items) s =
      if contains text_discrete item.name wanted
      then delete_stale wanted items s
      else continue_with (λ _. delete_stale wanted items)
          (wrapping (codes "delete stale lbport " ++ item.name)
            (λ t. ignore_not_found tt (client.delete item t)) s)

  unfoldable pub apply_lb_ports : List LbPort → Service → M S (Unit {0})
  unfolding apply_desired delete_stale
  apply_lb_ports desired svc = do
    apply_desired desired
    items ← query (λ s. wrap (codes "list lbports") (client.list (service_labels svc) s))
    delete_stale (map (λ l. l.name) desired) items

  unfoldable pub cleanup_items : List LbPort → M S (Unit {0})
  cleanup_items [] s = (s, ok tt)
  cleanup_items (item ∷ items) s =
      continue_with (λ _. cleanup_items items)
        (wrapping (codes "delete lbport " ++ item.name)
          (λ t. ignore_not_found tt (client.delete item t)) s)

  unfoldable pub cleanup_lb_ports : Text → Text → M S (Unit {0})
  unfolding cleanup_items
  cleanup_lb_ports svc_namespace svc_name = do
    items ← query (λ s. wrap (codes "list lbports for cleanup") (
        client.list
          ((label_managed_by, label_managed_by_v)
            ∷ (label_service, svc_name)
            ∷ (label_service_ns, svc_namespace)
            ∷ [])
          s))
    cleanup_items items

-- The schedulable nodes.
unfoldable pub valid_nodes : List Node → List Text
valid_nodes [] = []
valid_nodes (node ∷ nodes) =
    let rest = valid_nodes nodes in if not node.unschedulable then node.name ∷ rest else rest

-- The applied nodes that are still there.
unfoldable pub prune_nodes : List Text → List Text → List Text
unfolding text_discrete
prune_nodes valid applied = keep (λ n. contains text_discrete n valid) applied

unfoldable pub applied_count : List Text → List Text → ℕ
unfolding prune_nodes
applied_count applied valid = length (prune_nodes valid applied)

-- The number of distinct names: `validNodes` is a set.
unfoldable pub distinct_count : List Text → ℕ
unfolding text_discrete
distinct_count [] = 0
distinct_count (n ∷ ns) =
    let rest = distinct_count ns in
    if contains text_discrete n ns then rest else Prim.Native.Nat.suc rest

unfoldable pub required_count : List Text → List Text → ℕ
unfolding is_all_nodes distinct_count prune_nodes
required_count spec_nodes valid =
    if is_all_nodes spec_nodes then distinct_count valid else length (prune_nodes valid spec_nodes)

unfoldable pub names : List LbPort → List Text
unfolding sort text_less
names items = sort text_less (map (λ l. l.name) items)

unfoldable pub texts_discrete : Discrete (List Text)
unfolding text_discrete
texts_discrete = hlevel text_discrete

unfoldable pub same_string_set : List Text → List Text → Bool
unfolding sort text_less texts_discrete
same_string_set a b = ite (texts_discrete (sort text_less a) (sort text_less b)) true false

-- `lbPortToService`: the request for the Service that the labels name.
unfoldable pub lb_port_to_service : LbPort → List (Text × Text)
unfolding get_label
lb_port_to_service l =
    let svc_ns = get_label label_service_ns l.labels in
    let svc_name = get_label label_service l.labels in
    if is_empty svc_ns || is_empty svc_name then [] else (svc_ns, svc_name) ∷ []
