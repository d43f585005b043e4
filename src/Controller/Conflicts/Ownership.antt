-- ===== src/Controller/Conflicts/Ownership.antt =====
-- Whose LBPort it is: the comparison of label maps in `lbPortOwnerConflict`.
use bulb.Base.{◌≡◌, ◌≢◌, refl, true, [], ◌∷◌, Text, text_discrete, arith, All, length, none, some}
use bulb.Base.Dict.{lookup}
use bulb.Api.{Labels, get_label}
use bulb.Controller.Service.{Service, service_labels}
use bulb.Controller.Conflicts.{agrees_with, same_string_map}

agrees_with-lookup :
    (a b : Labels)
    → agrees_with b a ≡ true
    → All (λ e. e.1 ≢ [] → lookup text_discrete e.0 b ≡ some e.1) a
unfolding agrees_with get_label
agrees_with-lookup [] b h = tt
agrees_with-lookup ((k, v) ∷ a) b h = (λ full. ground arith, agrees_with-lookup a b (ground arith))

-- Where the map's values are not empty, the comparison finds each of its entries in the other map.
pub same_string_map-lookup :
    (a b : Labels)
    → same_string_map a b ≡ true
    → (length a ≡ length b) × All (λ e. e.1 ≢ [] → lookup text_discrete e.0 b ≡ some e.1) a
unfolding same_string_map
same_string_map-lookup a b h = (ground arith, agrees_with-lookup a b (ground arith))

agrees_with_of_empty :
    (a b : Labels)
    → All (λ e. (e.1 ≡ []) × (lookup text_discrete e.0 b ≡ none)) a
    → agrees_with b a ≡ true
unfolding agrees_with get_label
agrees_with_of_empty [] b h = refl
agrees_with_of_empty ((k, v) ∷ a) b ((p, q), h) = ground (arith, agrees_with_of_empty a b h)

length-service_labels : (svc : Service) → length (service_labels svc) ≡ 3
unfolding service_labels
length-service_labels svc = refl

-- An object with three labels of empty value, none of them a key of the Service's labels, passes
-- for one with the Service's labels.
pub same_string_map_of_empty :
    (svc : Service) (x y z : Text)
    → lookup text_discrete x (service_labels svc) ≡ none
    → lookup text_discrete y (service_labels svc) ≡ none
    → lookup text_discrete z (service_labels svc) ≡ none
    → same_string_map ((x, []) ∷ (y, []) ∷ (z, []) ∷ []) (service_labels svc) ≡ true
unfolding same_string_map
same_string_map_of_empty svc x y z p q r =
    let agrees =
      agrees_with_of_empty ((x, []) ∷ (y, []) ∷ (z, []) ∷ []) (service_labels svc)
        ((refl, p), ((refl, q), ((refl, r), tt))) in
    rw (length-service_labels svc) agrees
