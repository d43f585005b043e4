-- ===== src/Controller/Endpoints.antt =====
-- The endpoints of a Service whose traffic stays on the node: `serviceEndpoints`,
-- `endpointsByServicePort` and `empty` of internal/controller/reconciler.go.
pub mod Ready
use bulb.Base.{
  ℕ, if◌then◌else◌, Bool, true, false, not, ◌&&◌, ◌||◌, List, [], ◌∷◌, ◌++◌, map, Text, codes,
  is_empty, text_discrete, text_less, contains, decimal, join_host_port, Option, none, some,
}
use bulb.Base.Sort.{sort}
use bulb.Base.Dict.{lookup, put}
use bulb.Base.Result.{Result, ok, err, wrap, Found, found, not_found, failed}
use bulb.Controller.Service.{
  Service, ServicePort, text_eq, annotated, annotation_external_traffic_policy,
}
use bulb.Controller.Conflicts.{normalized_protocol}

pub record EndpointPort : Type 0 where
  pub name : Text
  pub port : ℕ
  pub protocol : Text

-- The addresses by their IP.
pub record EndpointSubset : Type 0 where
  pub addresses : List Text
  pub ports : List EndpointPort

-- From a Service port's name to its ready endpoints. nil is the empty map.
abbrev pub ServiceEndpoints : Type 0
ServiceEndpoints = List (Text × List Text)

abbrev list_or_empty : Option (List Text) → List Text
list_or_empty none = []
list_or_empty (some es) = es

-- `m[name]`: no endpoints on a missing key.
abbrev pub endpoints_of : Text → ServiceEndpoints → List Text
endpoints_of name m = list_or_empty (lookup text_discrete name m)

-- The protocol of each port name of the Service; a later port of the same name replaces it.
unfoldable pub service_ports_from : List (Text × Text) → List ServicePort → List (Text × Text)
unfolding normalized_protocol
service_ports_from seen [] = seen
service_ports_from seen (p ∷ ps) =
    service_ports_from (put text_discrete p.name (normalized_protocol p.protocol) seen) ps

-- The guards on a port of a subset.
unfoldable pub is_served : List (Text × Text) → EndpointPort → Bool
is_served service_ports port = elim (lookup text_discrete port.name service_ports) [
  | none ↦ false
  | some protocol ↦ not (not (is_empty port.protocol) && not (text_eq port.protocol protocol))
]

-- The body of the loop over the addresses. `seen` of the source holds what `out` does.
unfoldable pub see_endpoint : EndpointPort → Text → ServiceEndpoints → ServiceEndpoints
unfolding join_host_port decimal
see_endpoint port ip out =
    let upstream = join_host_port ip (decimal port.port) in
    let es = endpoints_of port.name out in
    if is_empty ip
    then out
    else if contains text_discrete upstream es
    then out
    else put text_discrete port.name (es ++ upstream ∷ []) out

unfoldable pub see_endpoints : EndpointPort → List Text → ServiceEndpoints → ServiceEndpoints
unfolding see_endpoint
see_endpoints port [] out = out
see_endpoints port (ip ∷ addresses) out = see_endpoints port addresses (see_endpoint port ip out)

unfoldable pub see_ports :
    List (Text × Text) → List Text → List EndpointPort → ServiceEndpoints → ServiceEndpoints
unfolding is_served see_endpoints
see_ports service_ports addresses [] out = out
see_ports service_ports addresses (port ∷ ports) out =
    see_ports service_ports addresses ports
      (if is_served service_ports port then see_endpoints port addresses out else out)

unfoldable pub see_subsets :
    List (Text × Text) → List EndpointSubset → ServiceEndpoints → ServiceEndpoints
unfolding see_ports
see_subsets service_ports [] out = out
see_subsets service_ports (subset ∷ subsets) out =
    see_subsets service_ports subsets (see_ports service_ports subset.addresses subset.ports out)

unfoldable pub sort_each : ServiceEndpoints → ServiceEndpoints
unfolding sort text_less
sort_each [] = []
sort_each ((name, es) ∷ m) = (name, sort text_less es) ∷ sort_each m

unfoldable pub endpoints_by_service_port : List EndpointSubset → Service → ServiceEndpoints
unfolding service_ports_from see_subsets sort_each
endpoints_by_service_port subsets svc =
    sort_each (see_subsets (service_ports_from [] svc.ports) subsets [])

unfoldable pub has_no_endpoints : ServiceEndpoints → Bool
has_no_endpoints [] = true
has_no_endpoints ((name, es) ∷ m) = if not (is_empty es) then false else has_no_endpoints m

-- `namespace/name`
abbrev key_string : Service → Text
key_string svc = svc.namespace ++ (codes "/" ++ svc.name)

unfoldable pub service_endpoints :
    (Text → Text → Found (List EndpointSubset)) → Service → Result ServiceEndpoints
unfolding annotated endpoints_by_service_port
service_endpoints get svc =
    if not (annotated svc annotation_external_traffic_policy (codes "Local"))
    then ok []
    else elim (get svc.namespace svc.name) [
      | not_found ↦ ok []
      | failed e ↦ wrap (codes "get endpoints " ++ key_string svc) (err e)
      | found subsets ↦ ok (endpoints_by_service_port subsets svc)
    ]
