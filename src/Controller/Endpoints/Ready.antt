-- ===== src/Controller/Endpoints/Ready.antt =====
-- Which endpoints `endpointsByServicePort` finds.
use bulb.Base.{
  ◌≡◌, refl, ◌∙◌, Bool, not, ◌&&◌, ◌||◌, List, [], ◌∷◌, ◌++◌, Text, text_discrete, text_less,
  text_less-IsOrder, is_empty, decimal, join_host_port, contains, contains-append, any, arith,
}
use bulb.Base.Sort.{sort, contains-sort_self, IsSorted, sort-IsSorted, IsOrder-IsWeakOrder}
use bulb.Base.Dict.{put, lookup-put}
use bulb.Controller.Service.{Service, text_eq}
use bulb.Controller.Endpoints.{
  EndpointPort, EndpointSubset, ServiceEndpoints, endpoints_of, service_ports_from, is_served,
  see_endpoint, see_endpoints, see_ports, see_subsets, sort_each, endpoints_by_service_port,
}

-- The address, with the port, makes the upstream.
abbrev pub is_upstream : Text → EndpointPort → Text → Bool
is_upstream u port ip = not (is_empty ip) && text_eq u (join_host_port ip (decimal port.port))

-- A port of the subset has the name and is served, and one of its addresses makes the upstream.
abbrev pub offers : List (Text × Text) → Text → Text → EndpointSubset → Bool
offers service_ports name u subset =
    any
      (λ port.
        (text_eq name port.name && is_served service_ports port)
        && any (is_upstream u port) subset.addresses)
      subset.ports

endpoints_of-put :
    (k name : Text) (es : List Text) (out : ServiceEndpoints) (u : Text)
    → contains text_discrete u (endpoints_of name (put text_discrete k es out)) ≡ (
        text_eq name k && contains text_discrete u es
        || not (text_eq name k) && contains text_discrete u (endpoints_of name out))
endpoints_of-put k name es out u = ground (arith, lookup-put text_discrete k name es out)

contains-see_endpoint :
    (port : EndpointPort) (ip name u : Text) (out : ServiceEndpoints)
    → contains text_discrete u (endpoints_of name (see_endpoint port ip out)) ≡ (
        contains text_discrete u (endpoints_of name out)
        || text_eq name port.name && is_upstream u port ip)
unfolding see_endpoint
contains-see_endpoint port ip name u out =
    let es = endpoints_of port.name out in
    let new = join_host_port ip (decimal port.port) in
    ground (
      arith,
      endpoints_of-put port.name name (es ++ new ∷ []) out u,
      contains-append text_discrete u es (new ∷ []),
    )

contains-see_endpoints :
    (port : EndpointPort) (addresses : List Text) (name u : Text) (out : ServiceEndpoints)
    → contains text_discrete u (endpoints_of name (see_endpoints port addresses out)) ≡ (
        contains text_discrete u (endpoints_of name out)
        || text_eq name port.name && any (is_upstream u port) addresses)
unfolding see_endpoints
contains-see_endpoints port [] name u out = ground arith
contains-see_endpoints port (ip ∷ addresses) name u out = ground (
  arith,
  contains-see_endpoints port addresses name u (see_endpoint port ip out),
  contains-see_endpoint port ip name u out,
)

contains-see_ports :
    (service_ports : List (Text × Text)) (addresses : List Text) (ports : List EndpointPort)
    (name u : Text) (out : ServiceEndpoints)
    → contains text_discrete u (endpoints_of name (see_ports service_ports addresses ports out)) ≡ (
        contains text_discrete u (endpoints_of name out)
        || offers service_ports name u (record { addresses = addresses; ports = ports }))
unfolding see_ports
contains-see_ports sp addresses [] name u out = ground arith
contains-see_ports sp addresses (port ∷ ports) name u out = ground (
  arith,
  contains-see_ports sp addresses ports name u out,
  contains-see_ports sp addresses ports name u (see_endpoints port addresses out),
  contains-see_endpoints port addresses name u out,
)

contains-see_subsets :
    (service_ports : List (Text × Text)) (subsets : List EndpointSubset) (name u : Text)
    (out : ServiceEndpoints)
    → contains text_discrete u (endpoints_of name (see_subsets service_ports subsets out)) ≡ (
        contains text_discrete u (endpoints_of name out)
        || any (offers service_ports name u) subsets)
unfolding see_subsets
contains-see_subsets sp [] name u out = ground arith
contains-see_subsets sp (subset ∷ subsets) name u out = ground (
  arith,
  contains-see_subsets sp subsets name u (see_ports sp subset.addresses subset.ports out),
  contains-see_ports sp subset.addresses subset.ports name u out,
)

endpoints_of-sort_each :
    (name : Text) (out : ServiceEndpoints)
    → endpoints_of name (sort_each out) ≡ sort text_less (endpoints_of name out)
unfolding sort_each
endpoints_of-sort_each name [] = sort_nil
  where
    sort_nil : [] ≡ sort text_less []
    sort_nil = unfold sort in refl
endpoints_of-sort_each name ((n, es) ∷ out) = ground (arith, endpoints_of-sort_each name out)

-- The endpoints of a port name are sorted, and hold exactly what a subset offers under the name: an
-- address that is not empty, with a port of that name whose protocol is the Service port's, or is
-- not given.
pub endpoints_by_service_port-offers :
    (subsets : List EndpointSubset) (svc : Service) (name : Text)
    → IsSorted text_less (endpoints_of name (endpoints_by_service_port subsets svc))
      × ((u : Text)
          → contains text_discrete u (endpoints_of name (endpoints_by_service_port subsets svc))
            ≡ any (offers (service_ports_from [] svc.ports) name u) subsets)
unfolding endpoints_by_service_port
endpoints_by_service_port-offers subsets svc name =
    let sp = service_ports_from [] svc.ports in
    let found = endpoints_of name (see_subsets sp subsets []) in
    rw (endpoints_of-sort_each name (see_subsets sp subsets [])) (
      sort-IsSorted (IsOrder-IsWeakOrder text_less-IsOrder) found,
      λ u.
          contains-sort_self text_less text_discrete u found
          ∙ contains-see_subsets sp subsets name u [],
    )
