-- ===== src/Controller/ProxyArgs.antt =====
-- The ports of a proxy's container and the arguments of its command: `portsAndArgs` of
-- internal/controller/daemonset.go. `net.ParseIP` is a parameter.
pub mod Parsed
pub mod Served
pub mod Shared
use bulb.Base.{
  ℕ, ◌==◌, if◌then◌else◌, Bool, true, false, not, ◌&&◌, ◌||◌, List, [], ◌∷◌, ◌++◌, Text, codes,
  is_empty, text_less, keep, decimal, join, split_host_port, Option, none, some,
}
use mathlib.Core.List.{reverse}
use bulb.Base.Sort.{sort}
use bulb.Base.Result.{Result, ok, err}
use bulb.Controller.Service.{Service, ServicePort, text_eq}
use bulb.Controller.Conflicts.{normalized_protocol}
use bulb.Controller.Endpoints.{ServiceEndpoints, endpoints_of}
use bulb.Controller.Pods.{ContainerPort}

unfoldable pub port_name : ServicePort → Text
unfolding decimal
port_name p = if not (is_empty p.name) then p.name else codes "p-" ++ decimal p.port

unfoldable pub upstream_flag : Text → Text
upstream_flag protocol =
    if text_eq protocol (codes "UDP") then codes "udp-upstream" else codes "upstream"

unfoldable pub append_endpoint_arg : List Text → Text → List Text → List Text
unfolding join
append_endpoint_arg args listen endpoints =
    if is_empty endpoints
    then args
    else args ++ (codes "--endpoint=" ++ (listen ++ (codes "=" ++ join (codes ",") endpoints))) ∷ []

-- `strings.Trim(host, "[]")`
abbrev is_bracket : ℕ → Bool
is_bracket c = c == b'[' || c == b']'

trim_open : Text → Text
trim_open [] = []
trim_open (c ∷ s) = if is_bracket c then trim_open s else c ∷ s

unfoldable pub trim_brackets : Text → Text
unfolding trim_open
trim_brackets s = reverse (trim_open (reverse (trim_open s)))

-- The port that the proxy dials.
unfoldable pub target_of : ServicePort → Text
target_of p =
    if is_empty p.target_port || text_eq p.target_port (codes "0")
    then decimal p.port
    else p.target_port

unfoldable pub is_supported : Text → Bool
is_supported protocol =
    not (not (text_eq protocol (codes "TCP")) && not (text_eq protocol (codes "UDP")))

unfoldable pub container_port : ServicePort → ContainerPort
unfolding port_name normalized_protocol
container_port p = record {
  name = port_name p;
  container_port = p.port;
  host_port = p.port;
  protocol = normalized_protocol p.protocol;
}

-- Whether the text is an address, and whether `To4` knows it.
module _ (parse_ip : Text → Option Bool) where
  unfoldable pub endpoint_upstreams_for_family : List Text → Bool → List Text
  unfolding sort text_less trim_brackets split_host_port
  endpoint_upstreams_for_family endpoints ipv6 = sort text_less (
      keep
        (λ endpoint. elim (split_host_port endpoint) [
          | err e ↦ false
          | ok (host, port) ↦ elim (parse_ip (trim_brackets host)) [
            | none ↦ false
            | some four ↦ if ipv6 then not four else four
          ]
        ])
        endpoints)

  -- The loop of `splitClusterIPs` with what it has found.
  unfoldable pub cluster_ips_from : Text × Text → List Text → Text × Text
  cluster_ips_from (v4, v6) [] = (v4, v6)
  cluster_ips_from (v4, v6) (raw ∷ ips) =
      if is_empty raw || text_eq raw (codes "None")
      then cluster_ips_from (v4, v6) ips
      else cluster_ips_from
          (elim (parse_ip raw) [
            | none ↦ (v4, v6)
            | some four ↦
                if four
                then ((if is_empty v4 then raw else v4), v6)
                else (v4, (if is_empty v6 then raw else v6))
          ])
          ips

  unfoldable pub split_cluster_ips : Service → Text × Text
  unfolding cluster_ips_from
  split_cluster_ips svc =
      cluster_ips_from ([], [])
        (if is_empty svc.cluster_ips && not (is_empty svc.cluster_ip)
          then svc.cluster_ip ∷ []
          else svc.cluster_ips)

  -- The arguments for one port, of each family that the Service has.
  unfoldable pub v4_args : Text → ServicePort → ServiceEndpoints → List Text
  v4_args v4 p endpoints =
      let listen = codes "0.0.0.0:" ++ decimal p.port in
      let flag = upstream_flag (normalized_protocol p.protocol) in
      if is_empty v4
      then []
      else append_endpoint_arg
          ((codes "--"
              ++ (flag
                  ++ (codes "=" ++ (listen ++ (codes "=" ++ (v4 ++ (codes ":" ++ target_of p)))))))
            ∷ [])
          listen (endpoint_upstreams_for_family (endpoints_of p.name endpoints) false)

  unfoldable pub v6_args : Text → ServicePort → ServiceEndpoints → List Text
  v6_args v6 p endpoints =
      let listen = codes "[::]:" ++ decimal p.port in
      let flag = upstream_flag (normalized_protocol p.protocol) in
      if is_empty v6
      then []
      else append_endpoint_arg
          ((codes "--"
              ++ (flag
                  ++ (codes "="
                      ++ (listen ++ (codes "=[" ++ (v6 ++ (codes "]:" ++ target_of p)))))))
            ∷ [])
          listen (endpoint_upstreams_for_family (endpoints_of p.name endpoints) true)

  -- The loop of `portsAndArgs`.
  unfoldable pub each_port :
      Text × Text → ServiceEndpoints → List ServicePort → Result (List ContainerPort × List Text)
  each_port ips endpoints [] = ok ([], [])
  each_port (v4, v6) endpoints (p ∷ ps) =
      if not (is_supported (normalized_protocol p.protocol))
      then err (
          codes "port "
          ++ (decimal p.port
              ++ (codes ": unsupported protocol "
                  ++ (normalized_protocol p.protocol ++ codes " (only TCP and UDP)"))))
      else elim (each_port (v4, v6) endpoints ps) [
        | err e ↦ err e
        | ok (ports, args) ↦
            ok
              (container_port p ∷ ports, v4_args v4 p endpoints ++ (v6_args v6 p endpoints ++ args))
      ]

  unfoldable pub ports_and_args :
      Service → Text → ServiceEndpoints → Result (List ContainerPort × List Text)
  unfolding split_cluster_ips each_port
  ports_and_args svc proxy_protocol endpoints =
      elim (each_port (split_cluster_ips svc) endpoints svc.ports) [
        | err e ↦ err e
        | ok (ports, args) ↦ ok (
          ports,
          if not (is_empty proxy_protocol)
              then args ++ (codes "--proxy-protocol=" ++ proxy_protocol) ∷ []
              else args,
        )
      ]
