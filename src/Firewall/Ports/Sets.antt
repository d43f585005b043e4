-- ===== src/Firewall/Ports/Sets.antt =====
-- The port lists as sets of keys: each operation is the set operation that it is named for.
use bulb.Base.{◌≡◌, refl, not, ◌&&◌, ◌||◌, List, [], ◌∷◌, ◌++◌, map, arith, contains, ◌∙◌}
use bulb.Base.Sort.{sort, contains-sort}
use bulb.Firewall.Ports.{
  PortSpec, PortKey, port_key_discrete, key, base, has_key, port_less, unique_from,
  stable_unique_ports, absent_from, diff_ports, present_in, intersect_ports, still_managed,
  next_managed_ports,
}

has_key-sort : (k : PortKey) (ps : List PortSpec) → has_key k (sort port_less ps) ≡ has_key k ps
unfolding has_key
has_key-sort k ps = contains-sort port_less port_key_discrete key k ps

has_key-append :
    (k : PortKey) (ps qs : List PortSpec) → has_key k (ps ++ qs) ≡ (has_key k ps || has_key k qs)
unfolding has_key
has_key-append k [] qs = refl
has_key-append k (p ∷ ps) qs = ground (arith, has_key-append k ps qs)

-- `seen` holds the keys that the loop has met: those are left out.
has_key-unique_from :
    (k : PortKey) (seen : List PortKey) (ps : List PortSpec)
    → (contains port_key_discrete k seen || has_key k (unique_from seen ps))
      ≡ (contains port_key_discrete k seen || has_key k ps)
unfolding has_key unique_from
has_key-unique_from k seen [] = refl
has_key-unique_from k seen (p ∷ ps) =
    ground (arith, has_key-unique_from k seen ps, has_key-unique_from k (key (base p) ∷ seen) ps)

pub has_key-stable_unique_ports :
    (k : PortKey) (ps : List PortSpec) → has_key k (stable_unique_ports ps) ≡ has_key k ps
unfolding stable_unique_ports
has_key-stable_unique_ports k ps = has_key-sort k (unique_from [] ps) ∙ has_key-unique_from k [] ps

has_key-absent_from :
    (k : PortKey) (right left : List PortSpec)
    → has_key k (absent_from right left) ≡ (has_key k left && not (has_key k right))
unfolding has_key absent_from
has_key-absent_from k right [] = refl
has_key-absent_from k right (p ∷ left) = ground (arith, has_key-absent_from k right left)

pub has_key-diff_ports :
    (k : PortKey) (left right : List PortSpec)
    → has_key k (diff_ports left right) ≡ (has_key k left && not (has_key k right))
unfolding diff_ports
has_key-diff_ports k left right =
    has_key-stable_unique_ports k (absent_from right left) ∙ has_key-absent_from k right left

has_key-present_in :
    (k : PortKey) (right left : List PortSpec)
    → has_key k (present_in right left) ≡ (has_key k left && has_key k right)
unfolding has_key present_in
has_key-present_in k right [] = refl
has_key-present_in k right (p ∷ left) = ground (arith, has_key-present_in k right left)

pub has_key-intersect_ports :
    (k : PortKey) (left right : List PortSpec)
    → has_key k (intersect_ports left right) ≡ (has_key k left && has_key k right)
unfolding intersect_ports
has_key-intersect_ports k left right =
    has_key-stable_unique_ports k (present_in right left) ∙ has_key-present_in k right left

has_key-still_managed :
    (k : PortKey) (desired current previous : List PortSpec)
    → has_key k (still_managed desired current previous)
      ≡ (has_key k previous && (has_key k desired && has_key k current))
unfolding has_key still_managed
has_key-still_managed k desired current [] = refl
has_key-still_managed k desired current (p ∷ previous) =
    ground (arith, has_key-still_managed k desired current previous)

has_key-map-base : (k : PortKey) (ps : List PortSpec) → has_key k (map base ps) ≡ has_key k ps
unfolding has_key key
has_key-map-base k [] = refl
has_key-map-base k (p ∷ ps) = ground (arith, has_key-map-base k ps)

pub has_key-next_managed_ports :
    (k : PortKey) (previous desired current added : List PortSpec)
    → has_key k (next_managed_ports previous desired current added)
      ≡ (has_key k previous && (has_key k desired && has_key k current) || has_key k added)
unfolding next_managed_ports
has_key-next_managed_ports k previous desired current added =
    simp (has_key-stable_unique_ports, has_key-append, has_key-still_managed, has_key-map-base)

pub ruleset port_sets = (
  has_key-stable_unique_ports, has_key-diff_ports, has_key-intersect_ports,
  has_key-next_managed_ports,
)
