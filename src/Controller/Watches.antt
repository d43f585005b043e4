-- ===== src/Controller/Watches.antt =====
-- Which events of the cluster lead to a reconcile of which Services: `servicePredicate`,
-- `nodeToAllServices`, `endpointToService` and the checks of `SetupWithManager` of
-- internal/controller/reconciler.go. An object that is no Service is none.
pub mod Requests
use bulb.Base.{
  Bool, true, false, ◌||◌, if◌then◌else◌, List, [], ◌∷◌, Text, codes, is_empty, Option, none, some,
}
use bulb.Base.Result.{Result, ok, err}
use bulb.Controller.Service.{Service, service_matches}

pub data WatchEvent : Type 0 where
  create_event : Option Service → WatchEvent
  update_event : Option Service → Option Service → WatchEvent
  delete_event : Option Service → WatchEvent
  generic_event : Option Service → WatchEvent

unfoldable pub match_object : Option Service → Bool
unfolding service_matches
match_object none = false
match_object (some svc) = service_matches svc

unfoldable pub service_predicate : WatchEvent → Bool
unfolding match_object
service_predicate (create_event object) = match_object object
service_predicate (update_event object_old object_new) =
    match_object object_old || match_object object_new
service_predicate (delete_event object) = match_object object
service_predicate (generic_event object) = match_object object

-- A request by its namespace and name.
abbrev pub Request : Type 0
Request = Text × Text

-- The loop of `nodeToAllServices`.
unfoldable pub requests_from : List Service → List Request
unfolding service_matches
requests_from [] = []
requests_from (svc ∷ svcs) =
    let reqs = requests_from svcs in
    if service_matches svc then (svc.namespace, svc.name) ∷ reqs else reqs

-- An error of the list makes no request.
unfoldable pub node_to_all_services : Result (List Service) → List Request
unfolding requests_from
node_to_all_services (err e) = []
node_to_all_services (ok svcs) = requests_from svcs

-- The Endpoints by their namespace and name, which are the Service's.
unfoldable pub endpoint_to_service : Option Request → List Request
endpoint_to_service none = []
endpoint_to_service (some key) = key ∷ []

-- The checks before the manager is given its watches.
unfoldable pub check_setup : Text → Text → Result (Unit {0})
check_setup namespace image =
    if is_empty namespace
    then err (codes "ServiceReconciler.Namespace is required")
    else if is_empty image
    then err (codes "ServiceReconciler.Image is required")
    else ok tt
