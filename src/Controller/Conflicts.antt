-- ===== src/Controller/Conflicts.antt =====
-- Port conflicts between Services: internal/controller/conflicts.go.
pub mod Duplicates
pub mod Overlap
pub mod Ownership
use bulb.Base.{
  ℕ, ◌==◌, if◌then◌else◌, Bool, true, false, not, ◌&&◌, ◌||◌, List, [], ◌∷◌, ◌++◌, Text, codes,
  text_discrete, text_less, is_empty, to_lower, decimal, Option, none, some, contains, keep, length,
  join, quoted,
}
use bulb.Base.Sort.{sort}
use bulb.Base.Dict.{lookup}
use bulb.Base.Result.{Result, ok, err, wrap, Found, found, not_found, failed}
use bulb.Api.{Labels, get_label, LbPort, all_nodes_token}
use bulb.Controller.Service.{Service, text_eq, service_matches, lb_port_owner_name}

pub record PortConflict : Type 0 where
  pub reason : Text
  pub message : Text

unfoldable pub normalized_protocol : Text → Text
normalized_protocol protocol = if is_empty protocol then codes "TCP" else protocol

unfoldable pub port_key : ℕ → Text → Text
unfolding decimal to_lower normalized_protocol
port_key port protocol = decimal port ++ (codes "/" ++ to_lower (normalized_protocol protocol))

unfoldable pub is_all_nodes : List Text → Bool
is_all_nodes [] = false
is_all_nodes (n ∷ []) = text_eq n all_nodes_token
is_all_nodes (n ∷ m ∷ ns) = false

unfoldable pub sorted_concrete_nodes : List Text → List Text
sorted_concrete_nodes nodes =
    sort text_less (keep (λ n. not (is_empty n) && not (text_eq n all_nodes_token)) nodes)

unfoldable pub overlapping_nodes : List Text → List Text → List Text
overlapping_nodes a b =
    if is_empty a || is_empty b
    then []
    else if is_all_nodes a && is_all_nodes b
    then all_nodes_token ∷ []
    else if is_all_nodes a
    then sorted_concrete_nodes b
    else if is_all_nodes b
    then sorted_concrete_nodes a
    else sort text_less (keep (λ n. contains text_discrete n a) b)

-- The loop over `a` of `sameStringMap`; `b[key]` is empty where the key is missing.
unfoldable pub agrees_with : Labels → Labels → Bool
unfolding get_label
agrees_with b [] = true
agrees_with b ((key, av) ∷ a) =
    if not (text_eq (get_label key b) av) then false else agrees_with b a

unfoldable pub same_string_map : Labels → Labels → Bool
unfolding agrees_with
same_string_map a b = if not (length a == length b) then false else agrees_with b a

-- `ns/name`
abbrev qualified : Service → Text
qualified svc = svc.namespace ++ (codes "/" ++ svc.name)

-- The loop of `duplicateServicePortConflict` with the keys that it has seen.
unfoldable pub duplicate_from : Service → List Text → List LbPort → Option PortConflict
unfolding port_key text_discrete
duplicate_from svc seen [] = none
duplicate_from svc seen (l ∷ desired) =
    let k = port_key l.spec.port l.spec.protocol in
    let rest = duplicate_from svc (k ∷ seen) desired in
    if contains text_discrete k seen
    then some (record {
      reason = codes "DuplicateServicePort";
      message =
          codes "Service "
          ++ (qualified svc ++ (codes " declares port " ++ (k ++ codes " more than once")));
    })
    else rest

unfoldable pub duplicate_service_port_conflict : Service → List LbPort → Option PortConflict
unfolding duplicate_from
duplicate_service_port_conflict svc desired = duplicate_from svc [] desired

module _ (get : Text → Found LbPort) where
  unfoldable pub lb_port_owner_conflict : List LbPort → Result (Option PortConflict)
  unfolding same_string_map
  lb_port_owner_conflict [] = ok none
  lb_port_owner_conflict (want ∷ desired) =
      let rest = lb_port_owner_conflict desired in
      elim (get want.name) [
        | failed e ↦
            wrap (codes "get lbport " ++ (want.name ++ codes " for conflict detection")) (err e)
        | not_found ↦ rest
        | found existing ↦
            if not (is_empty existing.spec.owner)
              && not (text_eq existing.spec.owner lb_port_owner_name)
            then ok (
                some (record {
                  reason = codes "LBPortOwnerConflict";
                  message =
                      codes "LBPort "
                      ++ (existing.name
                          ++ (codes " is owned by "
                              ++ (quoted existing.spec.owner
                                  ++ (codes ", not " ++ quoted lb_port_owner_name))));
                }))
            else if not (same_string_map existing.labels want.labels)
            then ok (
                some (record {
                  reason = codes "LBPortOwnerConflict";
                  message =
                      codes "LBPort "
                      ++ (existing.name ++ codes " already exists for another Service or manager");
                }))
            else rest
      ]

-- The inner loop of `overlappingPortConflict`, for one port of the Service.
unfoldable pub overlapping_with : Service → Service → LbPort → List LbPort → Option PortConflict
unfolding normalized_protocol overlapping_nodes port_key join
overlapping_with svc other left [] = none
overlapping_with svc other left (right ∷ other_ports) =
    let rest = overlapping_with svc other left other_ports in
    if not (left.spec.port == right.spec.port)
      || not (
          text_eq (normalized_protocol left.spec.protocol)
            (normalized_protocol right.spec.protocol))
    then rest
    else if is_empty (overlapping_nodes left.spec.nodes right.spec.nodes)
    then rest
    else some (record {
      reason = codes "ServicePortConflict";
      message =
          codes "Service "
          ++ (qualified svc
              ++ (codes " conflicts with Service "
                  ++ (qualified other
                      ++ (codes " on "
                          ++ (port_key left.spec.port left.spec.protocol
                              ++ (codes " for node scope "
                                  ++ join (codes ",")
                                      (overlapping_nodes left.spec.nodes right.spec.nodes)))))));
    })

-- The first conflict, or the next attempt.
abbrev or_else : {A : Type 0} → Option A → Option A → Option A
or_else (some c) next = some c
or_else none next = next

unfoldable pub overlapping_port_conflict :
    Service → List LbPort → Service → List LbPort → Option PortConflict
unfolding overlapping_with
overlapping_port_conflict svc [] other other_ports = none
overlapping_port_conflict svc (left ∷ desired) other other_ports =
    or_else (overlapping_with svc other left other_ports)
      (overlapping_port_conflict svc desired other other_ports)

module _ (build : Service → Result (List LbPort)) where
  -- The loop over the Services: one whose ports cannot be built is passed over.
  unfoldable pub conflict_with_services : Service → List LbPort → List Service → Option PortConflict
  unfolding service_matches overlapping_port_conflict
  conflict_with_services svc desired [] = none
  conflict_with_services svc desired (other ∷ services) =
      let rest = conflict_with_services svc desired services in
      if text_eq other.namespace svc.namespace && text_eq other.name svc.name
      then rest
      else if not (service_matches other)
      then rest
      else elim (build other) [
        | err e ↦ rest
        | ok other_ports ↦ or_else (overlapping_port_conflict svc desired other other_ports) rest
      ]

  unfoldable pub service_port_conflict :
      Result (List Service) → Service → List LbPort → Result (Option PortConflict)
  unfolding conflict_with_services
  service_port_conflict (err e) svc desired =
      wrap (codes "list services for conflict detection") (err e)
  service_port_conflict (ok services) svc desired = ok (conflict_with_services svc desired services)

  -- The three checks in their order: the first that finds a conflict or fails decides.
  unfoldable pub detect_port_conflict :
      (Text → Found LbPort)
      → Result (List Service)
      → Service
      → List LbPort
      → Result (Option PortConflict)
  unfolding duplicate_service_port_conflict lb_port_owner_conflict service_port_conflict
  detect_port_conflict get services svc desired =
      elim (duplicate_service_port_conflict svc desired) [
        | some c ↦ ok (some c)
        | none ↦ elim (lb_port_owner_conflict get desired) [
          | err e ↦ err e
          | ok (some c) ↦ ok (some c)
          | ok none ↦ service_port_conflict services svc desired
        ]
      ]
