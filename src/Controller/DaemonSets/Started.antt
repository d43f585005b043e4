-- ===== src/Controller/DaemonSets/Started.antt =====
-- From a Service to the rules that its proxies serve: the arguments of the DaemonSet that the
-- controller builds, read by the proxy's command.
use bulb.Base.{
  ◌≡◌, refl, sym, ap, ◌∙◌, if◌then◌else◌, Bool, true, false, not, ◌&&◌, List, [], ◌∷◌, ◌++◌, map,
  append-nil, Text, codes, is_empty, text_discrete, arith, ℕ_discrete, All, Option, inl, inr,
  Bool-cases, cut_at, if_neg, quoted,
}
use bulb.Base.Hosts.{IsPlain}
use bulb.Base.Result.{Result, Error, ok, err, ok≢err, Result-cases}
use bulb.Api.{get_label}
use bulb.Controller.Service.{
  Service, ServicePort, text_eq, annotated, annotation_proxy_protocol,
  annotation_external_traffic_policy, annotation_nodes,
}
use bulb.Controller.Endpoints.{ServiceEndpoints, endpoints_of}
use bulb.Controller.Cleanup.{DaemonSet}
use bulb.Controller.Pods.{ContainerPort, LabelSelector, DaemonSetSpec, node_placement, pod_spec}
use bulb.Controller.ProxyArgs.{split_cluster_ips, each_port, ports_and_args}
use bulb.Controller.ProxyArgs.Parsed.{
  Pair, Entry, format, format_entry, select, entries, each_port-flags,
}
use bulb.Controller.ProxyArgs.Served.{
  IsVersion, IsBracketed, served, put_all, run_specs-format, select-IsPair, entries-IsEntry,
}
use bulb.Controller.DaemonSets.{checked_service, build_daemon_set}
use bulb.Proxy.Flags.{Flags, no_flags, set_flag, read_arg, parse_flags, rules_of_args}
use bulb.Proxy.Pairs.{run_specs, protocol_tcp, protocol_udp}
use bulb.Proxy.Pairs.Format.{IsEndpoint}

-- The arguments behind the command's name.
abbrev started : List Text → List Text
started args = codes "--drain-timeout=30s" ∷ codes "--health-bind-address=:8081" ∷ args

abbrev version_arg : Text → List Text
version_arg v = if not (is_empty v) then (codes "--proxy-protocol=" ++ v) ∷ [] else []

version_arg_lem :
    (v : Text) (args : List Text)
    → (if not (is_empty v) then args ++ (codes "--proxy-protocol=" ++ v) ∷ [] else args)
      ≡ args ++ version_arg v
version_arg_lem [] args = sym (append-nil args)
version_arg_lem (c ∷ v) args = refl

-- The flags that the arguments give.
abbrev flags_of : Text → List Pair → List Pair → List Entry → Flags
flags_of v tcp udp es = record {
  tcp_pairs = map format tcp;
  udp_pairs = map format udp;
  endpoint_pairs = map format_entry es;
  proxy_protocol = v;
}

version_flag :
    (v : Text) (flags : Flags)
    → flags.proxy_protocol ≡ []
    → parse_flags flags (version_arg v) ≡ ok (record flags { proxy_protocol = v })
unfolding parse_flags read_arg set_flag cut_at ℕ_discrete text_discrete
version_flag [] flags h = ap (λ (x : Text). ok (record flags { proxy_protocol = x })) h
version_flag (c ∷ v) flags h = refl

timing_flags : (args : List Text) → parse_flags no_flags (started args) ≡ parse_flags no_flags args
unfolding parse_flags read_arg set_flag cut_at ℕ_discrete text_discrete
timing_flags args = refl

unknown_lem :
    (v : Text)
    → ¬ IsVersion v
    → (not (text_eq v (codes "")) && (not (text_eq v (codes "1")) && not (text_eq v (codes "2"))))
      ≡ true
unknown_lem v h = elim (text_discrete v (codes "")) [
  | yes e ↦ absurd (h (inl e))
  | no a ↦ elim (text_discrete v (codes "1")) [
    | yes e ↦ absurd (h (inr (inl e)))
    | no b ↦ elim (text_discrete v (codes "2")) [
      | yes e ↦ absurd (h (inr (inr e)))
      | no c ↦ rw (if_neg _ a, if_neg _ b, if_neg _ c) refl
    ]
  ]
]

run_specs_unknown :
    (tcp udp : List Text) (v : Text) (es : List Text)
    → (is_empty tcp && is_empty udp) ≡ false
    → ¬ IsVersion v
    → run_specs tcp udp v es
      ≡ err (
          codes "invalid --proxy-protocol value "
          ++ quoted v
          ++ codes ": must be empty, '1', or '2'")
unfolding run_specs
run_specs_unknown tcp udp v es some' h = rw (some', run_specs) (rw (unknown_lem v h) refl)

abbrev result_args : Result (DaemonSet DaemonSetSpec) → List Text
result_args (ok ds) = ds.spec.pod.container.args
result_args (err e) = []

module _ (parse_ip : Text → Option Bool) (parse : Text → Result LabelSelector) (svc : Service)
    (image : Text) (endpoint_set : ServiceEndpoints) where
  -- The endpoints that count, the version, and the Service's addresses.
  abbrev pub local_endpoints : ServiceEndpoints
  local_endpoints =
      if annotated svc annotation_external_traffic_policy (codes "Local") then endpoint_set else []

  abbrev pub version_of : Text
  version_of = get_label annotation_proxy_protocol svc.annotations

  abbrev pub ips_of : Text × Text
  ips_of = split_cluster_ips parse_ip svc

  abbrev pub entries_of : List Entry
  entries_of = entries parse_ip local_endpoints ips_of svc.ports

  args_of :
      (ds : DaemonSet DaemonSetSpec)
      → build_daemon_set parse_ip parse svc image endpoint_set ≡ ok ds
      → (ports : List ContainerPort) × (args : List Text) × (checked_service parse_ip svc ≡ ok tt)
        × (each_port parse_ip ips_of local_endpoints svc.ports ≡ ok (ports, args))
        × (ds.spec.pod.container.args ≡ codes "proxy" ∷ started (args ++ version_arg version_of))
  unfolding build_daemon_set ports_and_args pod_spec
  args_of ds built = elim (Result-cases (checked_service parse_ip svc)) [
    | inr (e, failed') ↦ absurd (ground arith)
    | inl (_, checked) ↦ elim (Result-cases (each_port parse_ip ips_of local_endpoints svc.ports)) [
      | inr (e, failed') ↦ absurd (ground arith)
      | inl ((ports, args), rendered) ↦
          elim (Result-cases (node_placement parse (get_label annotation_nodes svc.annotations))) [
            | inr (e, failed') ↦ absurd (ground arith)
            | inl ((labels, affinity), placed) ↦
                let done =
                  rw (checked, rendered, placed, build_daemon_set, ports_and_args) at built in
                (
                  ports,
                  args,
                  checked,
                  rendered,
                  sym (ap result_args done)
                      ∙ ap (λ xs. codes "proxy" ∷ started xs) (version_arg_lem version_of args),
                )
          ]
    ]
  ]

  -- A Service that passes the checks has a pair to be served.
  select-some :
      (v4 v6 : Text) (ps : List ServicePort)
      → (is_empty v4 && is_empty v6) ≡ false
      → is_empty ps ≡ false
      → (is_empty (map format (select false (v4, v6) ps))
          && is_empty (map format (select true (v4, v6) ps)))
        ≡ false
  select-some v4 v6 [] h k = cc
  select-some [] v6 (p ∷ ps) h k = ground arith
  select-some (c ∷ v4) v6 (p ∷ ps) h k = ground arith

  checked_lem :
      checked_service parse_ip svc ≡ ok tt
      → ((is_empty ips_of.0 && is_empty ips_of.1) ≡ false) × (is_empty svc.ports ≡ false)
  unfolding checked_service
  checked_lem h = elim (Bool-cases (is_empty ips_of.0 && is_empty ips_of.1)) [
    | inl e ↦ absurd (ok≢err (sym (rw (e, checked_service) at h)))
    | inr some_ip ↦ elim (Bool-cases (is_empty svc.ports)) [
      | inl e ↦ absurd (ok≢err (sym (rw (some_ip, e, checked_service) at h)))
      | inr some_port ↦ (some_ip, some_port)
    ]
  ]

  -- The command's rules, by what `run_specs` makes of the flags.
  rules_lem :
      (ports : List ContainerPort) (args : List Text)
      → each_port parse_ip ips_of local_endpoints svc.ports ≡ ok (ports, args)
      → rules_of_args (started (args ++ version_arg version_of))
        ≡ run_specs
            (map format (select false ips_of svc.ports))
            (map format (select true ips_of svc.ports))
            version_of
            (map format_entry entries_of)
  unfolding rules_of_args
  rules_lem ports args rendered =
      let flags =
        flags_of [] (select false ips_of svc.ports) (select true ips_of svc.ports) entries_of in
      let read : parse_flags no_flags (started (args ++ version_arg version_of))
          ≡ ok (record flags { proxy_protocol = version_of }) =
        timing_flags (args ++ version_arg version_of)
        ∙ each_port-flags parse_ip local_endpoints ips_of svc.ports ports args no_flags
            (version_arg version_of) rendered
        ∙ version_flag version_of flags refl in
      rw (read, rules_of_args) refl

  -- The proxies of a Service serve exactly its ports. Where the Service's IPv4 address, its IPv6
  -- address between brackets, its target ports and its endpoints are such as `net.SplitHostPort`
  -- takes apart, and the version of the PROXY protocol is one that the proxy knows: the command of
  -- the DaemonSet that is built for the Service reads its arguments without an error, and has for
  -- each TCP port, then for each UDP port, and for each family of which the Service has an address,
  -- the rule that listens on the port at all addresses of the family and forwards to the Service's
  -- address and target port, with the endpoints that are ready for that listen address.
  pub build_daemon_set-serves :
      (ds : DaemonSet DaemonSetSpec)
      → build_daemon_set parse_ip parse svc image endpoint_set ≡ ok ds
      → IsVersion version_of
      → IsPlain ips_of.0
      → IsBracketed ips_of.1
      → All (λ p. IsPlain p.target_port) svc.ports
      → ((name : Text) → All IsEndpoint (endpoints_of name local_endpoints))
      → (args : List Text) × (ds.spec.pod.container.args ≡ codes "proxy" ∷ args)
        × (rules_of_args args
            ≡ ok (
                map
                  (served version_of (put_all [] entries_of) protocol_tcp)
                  (select false ips_of svc.ports)
                ++ map
                    (served version_of (put_all [] entries_of) protocol_udp)
                    (select true ips_of svc.ports)))
  build_daemon_set-serves ds built version plain bracketed targets formed =
      let (ports, args, checked, rendered, same) = args_of ds built in
      let (some_ip, some_port) = checked_lem checked in
      let tcp = select-IsPair ips_of.0 ips_of.1 plain bracketed false svc.ports targets in
      let udp = select-IsPair ips_of.0 ips_of.1 plain bracketed true svc.ports targets in
      let es =
        entries-IsEntry ips_of.0 ips_of.1 plain bracketed parse_ip local_endpoints formed
          svc.ports in
      (
        started (args ++ version_arg version_of),
        same,
        rules_lem ports args rendered
            ∙ run_specs-format (select false ips_of svc.ports) (select true ips_of svc.ports)
                entries_of version_of (select-some ips_of.0 ips_of.1 svc.ports some_ip some_port)
                version tcp udp es,
      )

  -- With a version of the PROXY protocol that the proxy does not know, such as the `v1` and `v2` of
  -- the README, the controller builds the DaemonSet all the same, and the command of its pods
  -- refuses its arguments.
  pub build_daemon_set-refused :
      (ds : DaemonSet DaemonSetSpec)
      → build_daemon_set parse_ip parse svc image endpoint_set ≡ ok ds
      → ¬ IsVersion version_of
      → (args : List Text) × (e : Error) × (ds.spec.pod.container.args ≡ codes "proxy" ∷ args)
        × (rules_of_args args ≡ err e)
  build_daemon_set-refused ds built unknown =
      let (ports, args, checked, rendered, same) = args_of ds built in
      let (some_ip, some_port) = checked_lem checked in
      let tcp = select false ips_of svc.ports in
      let udp = select true ips_of svc.ports in
      (
        started (args ++ version_arg version_of),
        _,
        same,
        rules_lem ports args rendered
            ∙ run_specs_unknown (map format tcp) (map format udp) version_of
                (map format_entry entries_of)
                (select-some ips_of.0 ips_of.1 svc.ports some_ip some_port) unknown,
      )
