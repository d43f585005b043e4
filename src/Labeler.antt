-- ===== src/Labeler.antt =====
-- The node labeler (internal/labeler/labeler.go): it finds the node's public addresses and enters
-- them in the Node's annotations.
pub mod Annotations
mod Tests
use bulb.Base.{
  ℕ, ◌%◌, ◌==◌, ltb, leb, if◌then◌else◌, Bool, true, false, not, ◌&&◌, ◌||◌, List, [], ◌∷◌, ◌++◌,
  Text, codes, is_empty, fields, text_discrete, ite, Option, none, some,
}
use bulb.Base.Dict.{put}
use bulb.Base.Result.{M, Result, ok, err, wrap, wrapping}
use bulb.Api.{Labels, get_label}

abbrev pub annotation_ipv4 : Text
annotation_ipv4 = codes "bulb.toturi.tech/public-ipv4"

abbrev pub annotation_ipv6 : Text
annotation_ipv6 = codes "bulb.toturi.tech/public-ipv6"

-- `net.IP`: the four bytes that `To4` gives, or the sixteen of an address that has none.
pub data NetIp : Type 0 where
  four : (a b c d : ℕ) → NetIp
  sixteen : List ℕ → NetIp

abbrev pub byte_at : ℕ → List ℕ → ℕ
byte_at i [] = 0
byte_at ℕ.zero (b ∷ bs) = b
byte_at (ℕ.suc i) (b ∷ bs) = byte_at i bs

abbrev all_zero : List ℕ → Bool
all_zero [] = true
all_zero (b ∷ bs) = b == 0 && all_zero bs

abbrev is_one : List ℕ → Bool
is_one [] = false
is_one (b ∷ []) = b == 1
is_one (b ∷ c ∷ bs) = b == 0 && is_one (c ∷ bs)

unfoldable pub is_loopback : NetIp → Bool
is_loopback (four a b c d) = a == 127
is_loopback (sixteen bs) = is_one bs

-- 169.254.0.0/16 and fe80::/10.
unfoldable pub is_link_local_unicast : NetIp → Bool
is_link_local_unicast (four a b c d) = a == 169 && b == 254
is_link_local_unicast (sixteen bs) =
    byte_at 0 bs == 254 && (leb 128 (byte_at 1 bs) && ltb (byte_at 1 bs) 192)

-- 224.0.0.0/24 and ff02::/16 with any flags.
unfoldable pub is_link_local_multicast : NetIp → Bool
is_link_local_multicast (four a b c d) = a == 224 && (b == 0 && c == 0)
is_link_local_multicast (sixteen bs) = byte_at 0 bs == 255 && (byte_at 1 bs % 16 == 2)

-- 10.0.0.0/8, 172.16.0.0/12, 192.168.0.0/16, 100.64.0.0/10.
unfoldable pub is_private_v4 : NetIp → Bool
is_private_v4 (four a b c d) =
    a == 10
    || (a == 172 && (leb 16 b && ltb b 32)
        || (a == 192 && b == 168 || a == 100 && (leb 64 b && ltb b 128)))
is_private_v4 (sixteen bs) = false

abbrev pub is_four : NetIp → Bool
is_four (four a b c d) = true
is_four (sixteen bs) = false

-- One round of the loop over the interface's addresses.
unfoldable pub see_address : (NetIp → Text) → NetIp → Text × Text → Text × Text
unfolding is_loopback is_link_local_unicast is_link_local_multicast is_private_v4
see_address ip_string ip (ipv4, ipv6) =
    if is_loopback ip || (is_link_local_unicast ip || is_link_local_multicast ip)
    then (ipv4, ipv6)
    else (
      (if is_four ip && (not (is_private_v4 ip) && is_empty ipv4) then ip_string ip else ipv4),
      (if not (is_four ip) && is_empty ipv6 then ip_string ip else ipv6),
    )

unfoldable pub see_addresses : (NetIp → Text) → List NetIp → Text × Text → Text × Text
unfolding see_address
see_addresses ip_string [] found = found
see_addresses ip_string (ip ∷ ips) found =
    see_addresses ip_string ips (see_address ip_string ip found)

abbrev zero_route : Text
zero_route = codes "00000000"

-- The interface's name, where the fields of the line are those of a default route.
unfoldable pub default_route : List Text → Option Text
unfolding text_discrete
default_route (name ∷ destination ∷ gateway ∷ rest) =
    if ite (text_discrete destination zero_route) true false
      && ite (text_discrete gateway zero_route) false true
    then some name
    else none
default_route _ = none

-- `defaultRouteInterface` on the lines of /proc/net/route, `lookup` finding an interface by name.
unfoldable pub default_route_interface : {I : Type 0} → (Text → Result I) → List Text → Result I
unfolding default_route fields
default_route_interface lookup [] = err (codes "no default route found in /proc/net/route")
default_route_interface lookup (line ∷ lines) = elim (default_route (fields line)) [
  | none ↦ default_route_interface lookup lines
  | some name ↦ wrap (codes "lookup interface " ++ name) (lookup name)
]

-- The API server's Node objects, by their annotations.
pub record NodeClient (K : Type 0) : Type 0 where
  pub get : Text → K → Result Labels
  pub update : Text → Labels → M K (Unit {0})

-- The value is given, and differs from the annotation.
abbrev pub differs : Text → Text → Labels → Bool
differs k v ann = not (is_empty v) && ite (text_discrete (get_label k ann) v) false true

abbrev pub set_if : Bool → Text → Text → Labels → Labels
set_if b k v ann = if b then put text_discrete k v ann else ann

-- The two tests of `annotateNode`: the new annotations, and whether they have changed.
unfoldable pub new_annotations : Text → Text → Labels → Labels × Bool
new_annotations ipv4 ipv6 ann =
    let first = differs annotation_ipv4 ipv4 ann in
    let ann' = set_if first annotation_ipv4 ipv4 ann in
    let second = differs annotation_ipv6 ipv6 ann' in
    (set_if second annotation_ipv6 ipv6 ann', first || second)

module _ {K : Type 0} (kube : NodeClient K) where
  unfoldable pub annotate_node : Text → Text → Text → M K (Unit {0})
  unfolding new_annotations
  annotate_node node_name ipv4 ipv6 api = elim (kube.get node_name api) [
    | err e ↦ (api, wrap (codes "get node") (err e))
    | ok ann ↦
        let (ann', changed) = new_annotations ipv4 ipv6 ann in
        if not changed
        then (api, ok tt)
        else wrapping (codes "annotate node") (kube.update node_name ann') api
  ]

  unfoldable pub reconcile_once : Text → Result (Text × Text) → M K (Unit {0})
  unfolding annotate_node
  reconcile_once node_name detected api = elim detected [
    | err e ↦ (api, wrap (codes "detect public IPs") (err e))
    | ok (ipv4, ipv6) ↦ annotate_node node_name ipv4 ipv6 api
  ]
