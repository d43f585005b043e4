-- ===== src/Controller/ProxyArgs/Parsed.antt =====
-- What the proxy reads from the arguments that the controller writes for the ports of a Service.
use bulb.Base.{
  ◌≡◌, refl, sym, ap, ◌∙◌, if◌then◌else◌, Bool, true, false, List, [], ◌∷◌, ◌++◌, map, map-append,
  append-nil, append_assoc, Text, codes, is_empty, text_discrete, decimal, join, cut_at, arith,
  ℕ_discrete, Option, inl, inr, Bool-cases,
}
use bulb.Base.Result.{ok, Result-cases}
use bulb.Controller.Service.{ServicePort, text_eq}
use bulb.Controller.Conflicts.{normalized_protocol}
use bulb.Controller.Endpoints.{ServiceEndpoints, endpoints_of}
use bulb.Controller.Pods.{ContainerPort}
use bulb.Controller.ProxyArgs.{
  upstream_flag, target_of, append_endpoint_arg, endpoint_upstreams_for_family, v4_args, v6_args,
  each_port, container_port, is_supported,
}
use bulb.Proxy.Flags.{Flags, set_flag, read_arg, parse_flags}

-- A listen address with what is forwarded to, and with the endpoints of the address.
abbrev pub Pair : Type 0
Pair = Text × Text

abbrev pub Entry : Type 0
Entry = Text × List Text

abbrev pub format : Pair → Text
format (listen, upstream) = listen ++ 61 ∷ upstream

abbrev pub format_entry : Entry → Text
format_entry (listen, es) = listen ++ 61 ∷ join (codes ",") es

abbrev pub listen_v4 : ServicePort → Text
listen_v4 p = codes "0.0.0.0:" ++ decimal p.port

abbrev pub listen_v6 : ServicePort → Text
listen_v6 p = codes "[::]:" ++ decimal p.port

-- The pairs of one port, of each family that has an address.
abbrev pub pairs_v4 : Text → ServicePort → List Pair
pairs_v4 v4 p = if is_empty v4 then [] else (listen_v4 p, v4 ++ 58 ∷ target_of p) ∷ []

abbrev pub pairs_v6 : Text → ServicePort → List Pair
pairs_v6 v6 p = if is_empty v6 then [] else (listen_v6 p, 91 ∷ (v6 ++ 93 ∷ 58 ∷ target_of p)) ∷ []

abbrev pub is_udp : ServicePort → Bool
is_udp p = text_eq (normalized_protocol p.protocol) (codes "UDP")

-- The pairs of the ports of one protocol.
abbrev pub select : Bool → Text × Text → List ServicePort → List Pair
select udp ips [] = []
select udp ips (p ∷ ps) =
    (if is_udp p
      then if udp then pairs_v4 ips.0 p ++ pairs_v6 ips.1 p else []
      else if udp
      then []
      else pairs_v4 ips.0 p ++ pairs_v6 ips.1 p)
    ++ select udp ips ps

-- The flags with further values.
abbrev extend : List Pair → List Pair → List Entry → Flags → Flags
extend tcp udp entries flags = record flags {
  tcp_pairs = flags.tcp_pairs ++ map format tcp;
  udp_pairs = flags.udp_pairs ++ map format udp;
  endpoint_pairs = flags.endpoint_pairs ++ map format_entry entries;
}

read_upstream :
    (protocol listen upstream : Text) (flags : Flags)
    → read_arg
        (codes "--" ++ (upstream_flag protocol ++ (codes "=" ++ format (listen, upstream))))
        flags
      ≡ ok (
          if text_eq protocol (codes "UDP")
          then extend [] ((listen, upstream) ∷ []) [] flags
          else extend ((listen, upstream) ∷ []) [] [] flags)
unfolding read_arg set_flag upstream_flag cut_at ℕ_discrete text_discrete
read_upstream protocol listen upstream flags = elim (Bool-cases (text_eq protocol (codes "UDP"))) [
  | inl udp ↦ rw udp (rw (append-nil flags.tcp_pairs, append-nil flags.endpoint_pairs) refl)
  | inr tcp ↦ rw tcp (rw (append-nil flags.udp_pairs, append-nil flags.endpoint_pairs) refl)
]

read_endpoint :
    (listen : Text) (es : List Text) (flags : Flags)
    → read_arg (codes "--endpoint=" ++ format_entry (listen, es)) flags
      ≡ ok (extend [] [] ((listen, es) ∷ []) flags)
unfolding read_arg set_flag cut_at ℕ_discrete text_discrete
read_endpoint listen es flags = rw (append-nil flags.tcp_pairs, append-nil flags.udp_pairs) refl

extend_twice :
    (t t' u u' : List Pair) (e e' : List Entry) (flags : Flags)
    → extend t' u' e' (extend t u e flags) ≡ extend (t ++ t') (u ++ u') (e ++ e') flags
extend_twice t t' u u' e e' flags = simp (map-append, append_assoc)

extend_nil : (flags : Flags) → extend [] [] [] flags ≡ flags
extend_nil flags =
    rw (append-nil flags.tcp_pairs, append-nil flags.udp_pairs, append-nil flags.endpoint_pairs)
      refl

parse_flags-append :
    (flags mid : Flags) (a b : List Text)
    → parse_flags flags a ≡ ok mid
    → parse_flags flags (a ++ b) ≡ parse_flags mid b
unfolding parse_flags
parse_flags-append flags mid [] b h = ground (arith, h)
parse_flags-append flags mid (x ∷ a) b h = elim (Result-cases (read_arg x flags)) [
  | inr (e, failed') ↦ absurd (ground arith)
  | inl (next, read) ↦
      rw (read, parse_flags) (parse_flags-append next mid a b (rw (read, parse_flags) at h))
]

abbrev pub entry : Text → List Text → List Entry
entry listen es = if is_empty es then [] else (listen, es) ∷ []

with_endpoints :
    (first listen : Text) (es : List Text) (flags next : Flags)
    → read_arg first flags ≡ ok next
    → parse_flags flags (append_endpoint_arg (first ∷ []) listen es)
      ≡ ok (extend [] [] (entry listen es) next)
unfolding append_endpoint_arg parse_flags
with_endpoints first listen [] flags next h = rw (h, parse_flags) (ap ok (sym (extend_nil next)))
with_endpoints first listen (e ∷ es) flags next h =
    rw (h, parse_flags) (rw (read_endpoint listen (e ∷ es) next, parse_flags) refl)

-- What one argument of a protocol adds.
abbrev adds : Text → List Pair → List Entry → Flags → Flags
adds protocol prs entries flags =
    if text_eq protocol (codes "UDP")
    then extend [] prs entries flags
    else extend prs [] entries flags

-- The arguments of one port and one family.
family_lem :
    (protocol listen upstream : Text) (es : List Text) (flags : Flags)
    → parse_flags flags (
        append_endpoint_arg
          ((codes "--" ++ (upstream_flag protocol ++ (codes "=" ++ format (listen, upstream))))
            ∷ [])
          listen
          es)
      ≡ ok (adds protocol ((listen, upstream) ∷ []) (entry listen es) flags)
family_lem protocol listen upstream es flags =
    with_endpoints _ listen es flags _ (read_upstream protocol listen upstream flags)
    ∙ ap ok (elim (Bool-cases (text_eq protocol (codes "UDP"))) [
      | inl udp ↦
          rw udp (extend_twice [] [] ((listen, upstream) ∷ []) [] [] (entry listen es) flags)
      | inr tcp ↦
          rw tcp (extend_twice ((listen, upstream) ∷ []) [] [] [] [] (entry listen es) flags)
    ])

adds_twice :
    (protocol : Text) (a b : List Pair) (e f : List Entry) (flags : Flags)
    → adds protocol b f (adds protocol a e flags) ≡ adds protocol (a ++ b) (e ++ f) flags
adds_twice protocol a b e f flags = elim (Bool-cases (text_eq protocol (codes "UDP"))) [
  | inl udp ↦ rw udp (extend_twice [] [] a b e f flags)
  | inr tcp ↦ rw tcp (extend_twice a b [] [] e f flags)
]

module _ (parse_ip : Text → Option Bool) (endpoints : ServiceEndpoints) where
  -- The endpoints of each listen address.
  abbrev pub entries_v4 : Text → ServicePort → List Entry
  entries_v4 v4 p =
      if is_empty v4
      then []
      else entry (listen_v4 p)
          (endpoint_upstreams_for_family parse_ip (endpoints_of p.name endpoints) false)

  abbrev pub entries_v6 : Text → ServicePort → List Entry
  entries_v6 v6 p =
      if is_empty v6
      then []
      else entry (listen_v6 p)
          (endpoint_upstreams_for_family parse_ip (endpoints_of p.name endpoints) true)

  abbrev pub entries : Text × Text → List ServicePort → List Entry
  entries ips [] = []
  entries ips (p ∷ ps) = (entries_v4 ips.0 p ++ entries_v6 ips.1 p) ++ entries ips ps

  adds_none : (protocol : Text) (flags : Flags) → flags ≡ adds protocol [] [] flags
  adds_none protocol flags = elim (Bool-cases (text_eq protocol (codes "UDP"))) [
    | inl udp ↦ rw udp (sym (extend_nil flags))
    | inr tcp ↦ rw tcp (sym (extend_nil flags))
  ]

  v4_args_lem :
      (v4 : Text) (p : ServicePort) (flags : Flags)
      → parse_flags flags (v4_args parse_ip v4 p endpoints)
        ≡ ok (adds (normalized_protocol p.protocol) (pairs_v4 v4 p) (entries_v4 v4 p) flags)
  unfolding v4_args parse_flags
  v4_args_lem [] p flags = ap ok (adds_none (normalized_protocol p.protocol) flags)
  v4_args_lem (c ∷ v4) p flags =
      family_lem (normalized_protocol p.protocol) (listen_v4 p) (c ∷ v4 ++ 58 ∷ target_of p)
        (endpoint_upstreams_for_family parse_ip (endpoints_of p.name endpoints) false) flags

  v6_args_lem :
      (v6 : Text) (p : ServicePort) (flags : Flags)
      → parse_flags flags (v6_args parse_ip v6 p endpoints)
        ≡ ok (adds (normalized_protocol p.protocol) (pairs_v6 v6 p) (entries_v6 v6 p) flags)
  unfolding v6_args parse_flags
  v6_args_lem [] p flags = ap ok (adds_none (normalized_protocol p.protocol) flags)
  v6_args_lem (c ∷ v6) p flags =
      family_lem (normalized_protocol p.protocol) (listen_v6 p)
        (91 ∷ (c ∷ v6 ++ 93 ∷ 58 ∷ target_of p))
        (endpoint_upstreams_for_family parse_ip (endpoints_of p.name endpoints) true) flags

  port_args_lem :
      (ips : Text × Text) (p : ServicePort) (flags : Flags) (rest : List Text)
      → parse_flags flags
          (v4_args parse_ip ips.0 p endpoints ++ (v6_args parse_ip ips.1 p endpoints ++ rest))
        ≡ parse_flags
            (adds
              (normalized_protocol p.protocol)
              (pairs_v4 ips.0 p ++ pairs_v6 ips.1 p)
              (entries_v4 ips.0 p ++ entries_v6 ips.1 p)
              flags)
            rest
  port_args_lem (v4, v6) p flags rest =
      let pr = normalized_protocol p.protocol in
      let mid = adds pr (pairs_v4 v4 p) (entries_v4 v4 p) flags in
      parse_flags-append flags mid (v4_args parse_ip v4 p endpoints) _ (v4_args_lem v4 p flags)
      ∙ parse_flags-append mid _ (v6_args parse_ip v6 p endpoints) rest (v6_args_lem v6 p mid)
      ∙ ap (λ f. parse_flags f rest)
          (adds_twice pr (pairs_v4 v4 p) (pairs_v6 v6 p) (entries_v4 v4 p) (entries_v6 v6 p) flags)

  -- A list of ports is rendered when each is.
  pub each_port-cons :
      (v4 v6 : Text) (p : ServicePort) (ps : List ServicePort) (ports : List ContainerPort)
      (args : List Text)
      → each_port parse_ip (v4, v6) endpoints (p ∷ ps) ≡ ok (ports, args)
      → (more : List ContainerPort) × (tail : List Text) × (each_port parse_ip (v4, v6) endpoints ps
          ≡ ok (more, tail))
        × (args ≡ v4_args parse_ip v4 p endpoints ++ (v6_args parse_ip v6 p endpoints ++ tail))
        × (ports ≡ container_port p ∷ more)
        × (is_supported (normalized_protocol p.protocol) ≡ true)
  unfolding each_port
  each_port-cons v4 v6 p ps ports args h =
      elim (Result-cases (each_port parse_ip (v4, v6) endpoints ps)) [
        | inr (e, failed') ↦ absurd (ground arith)
        | inl ((more, tail), rendered) ↦
            (more, tail, rendered, ground arith, ground arith, ground arith)
      ]

  extend_adds :
      (protocol : Text) (prs tcp udp : List Pair) (e es : List Entry) (flags : Flags)
      → extend tcp udp es (adds protocol prs e flags)
        ≡ extend
            ((if text_eq protocol (codes "UDP") then [] else prs) ++ tcp)
            ((if text_eq protocol (codes "UDP") then prs else []) ++ udp)
            (e ++ es)
            flags
  extend_adds protocol prs tcp udp e es flags = elim (Bool-cases (text_eq protocol (codes "UDP"))) [
    | inl is ↦ rw is (extend_twice [] tcp prs udp e es flags)
    | inr is ↦ rw is (extend_twice prs tcp [] udp e es flags)
  ]

  -- The flags that hold what all ports add.
  pub each_port-flags :
      (ips : Text × Text) (ps : List ServicePort) (ports : List ContainerPort) (args : List Text)
      (flags : Flags) (rest : List Text)
      → each_port parse_ip ips endpoints ps ≡ ok (ports, args)
      → parse_flags flags (args ++ rest)
        ≡ parse_flags
            (extend (select false ips ps) (select true ips ps) (entries ips ps) flags)
            rest
  unfolding each_port
  each_port-flags ips [] ports args flags rest h =
      let none : args ≡ [] = ground arith in
      rw none (ap (λ f. parse_flags f rest) (sym (extend_nil flags)))
  each_port-flags (v4, v6) (p ∷ ps) ports args flags rest h =
      let (more, tail, rendered, same, _, _) = each_port-cons v4 v6 p ps ports args h in
      let first = v4_args parse_ip v4 p endpoints in
      let second = v6_args parse_ip v6 p endpoints in
      let pr = normalized_protocol p.protocol in
      let prs = pairs_v4 v4 p ++ pairs_v6 v6 p in
      let es = entries_v4 v4 p ++ entries_v6 v6 p in
      rw same (
        ap (parse_flags flags) (
          append_assoc first (second ++ tail) rest
          ∙ ap (λ t. first ++ t) (append_assoc second tail rest))
        ∙ port_args_lem (v4, v6) p flags (tail ++ rest)
        ∙ each_port-flags (v4, v6) ps more tail (adds pr prs es flags) rest rendered
        ∙ ap (λ f. parse_flags f rest)
            (extend_adds pr prs (select false (v4, v6) ps) (select true (v4, v6) ps) es
              (entries (v4, v6) ps) flags))
