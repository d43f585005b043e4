-- ===== src/Controller/ProxyArgs/Served.antt =====
-- The rules that the proxy serves, started with the arguments that the controller writes.
use bulb.Base.{
  ◌≡◌, refl, ap, ◌∙◌, ◌⊎◌, Bool, true, false, not, ◌&&◌, ◌||◌, List, [], ◌∷◌, ◌++◌, map, Text,
  codes, is_empty, text_discrete, text_less, decimal, arith, ℕ_discrete, All, All-append, All-keep,
  All-if, Option, IsFree, inl, inr, Bool-cases,
}
use bulb.Base.Sort.{sort-All}
use bulb.Base.Dict.{put}
use bulb.Base.Hosts.{
  IsPlain, decimal-IsPlain, decimal-IsFree, split_host_port-plain, split_host_port-bracketed,
}
use bulb.Base.Result.{ok}
use bulb.Controller.Service.{ServicePort, text_eq}
use bulb.Controller.Endpoints.{ServiceEndpoints, endpoints_of}
use bulb.Controller.ProxyArgs.{target_of, endpoint_upstreams_for_family}
use bulb.Controller.ProxyArgs.Parsed.{
  Pair, Entry, format, format_entry, listen_v4, listen_v6, pairs_v4, pairs_v6, is_udp, select,
  entry, entries_v4, entries_v6, entries,
}
use bulb.Proxy.Pairs.{
  Spec, parse_pairs_with_protocol, endpoint_pairs_from, complete_specs, run_specs,
  parse_endpoint_pairs, protocol_tcp, protocol_udp,
}
use bulb.Proxy.Pairs.Format.{
  IsAddress, IsEndpoint, plain_spec, parse_pair-format, parse_endpoint_pair-format,
}

abbrev pub IsPair : Pair → Type 0
IsPair (listen, upstream) = IsAddress listen × IsAddress upstream × IsFree 61 listen

abbrev pub rule : Text → Pair → Spec
rule protocol (listen, upstream) = record (plain_spec listen upstream) { protocol = protocol }

pub parse_pairs-format :
    (protocol : Text) (prs : List Pair)
    → All IsPair prs
    → parse_pairs_with_protocol (map format prs) protocol ≡ ok (map (rule protocol) prs)
unfolding parse_pairs_with_protocol
parse_pairs-format protocol [] h = refl
parse_pairs-format protocol ((listen, upstream) ∷ prs) ((l, u, free), h) =
    rw (parse_pair-format listen upstream l u free, parse_pairs_with_protocol)
      (rw (parse_pairs-format protocol prs h, parse_pairs_with_protocol) refl)

abbrev pub IsEntry : Entry → Type 0
IsEntry (listen, es) =
    IsAddress listen × IsFree 61 listen × (is_empty es ≡ false) × All IsEndpoint es

-- The map of the entries: a later one of the same listen address replaces an earlier one.
abbrev pub put_all : List Entry → List Entry → List Entry
put_all m [] = m
put_all m ((listen, es) ∷ entries) = put_all (put text_discrete listen es m) entries

pub endpoint_pairs-format :
    (m es : List Entry)
    → All IsEntry es
    → endpoint_pairs_from m (map format_entry es) ≡ ok (put_all m es)
unfolding endpoint_pairs_from
endpoint_pairs-format m [] h = refl
endpoint_pairs-format m ((listen, []) ∷ es) ((l, free, some', all), h) = cc
endpoint_pairs-format m ((listen, s ∷ ss) ∷ es) ((l, free, some', all), h) =
    rw (parse_endpoint_pair-format listen s ss l free all, endpoint_pairs_from)
      (endpoint_pairs-format (put text_discrete listen (s ∷ ss) m) es h)

-- A rule as it is served.
abbrev pub served : Text → List Entry → Text → Pair → Spec
served proxy_protocol m protocol (listen, upstream) = record {
  listen = listen;
  upstream = upstream;
  protocol = protocol;
  proxy_protocol = proxy_protocol;
  endpoints = endpoints_of listen m;
}

complete_specs-rule :
    (proxy_protocol protocol : Text) (m : List Entry) (prs : List Pair) (more : List Spec)
    → complete_specs proxy_protocol m (map (rule protocol) prs ++ more)
      ≡ map (served proxy_protocol m protocol) prs ++ complete_specs proxy_protocol m more
unfolding complete_specs
complete_specs-rule proxy_protocol protocol m [] more = refl
complete_specs-rule proxy_protocol protocol m ((listen, upstream) ∷ prs) more =
    ground (arith, complete_specs-rule proxy_protocol protocol m prs more)

complete_specs-map :
    (proxy_protocol protocol : Text) (m : List Entry) (prs : List Pair)
    → complete_specs proxy_protocol m (map (rule protocol) prs)
      ≡ map (served proxy_protocol m protocol) prs
unfolding complete_specs
complete_specs-map proxy_protocol protocol m [] = refl
complete_specs-map proxy_protocol protocol m ((listen, upstream) ∷ prs) =
    ground (arith, complete_specs-map proxy_protocol protocol m prs)

-- An address that is written in brackets.
abbrev pub IsBracketed : Text → Type 0
IsBracketed host = IsFree 91 host × IsFree 93 host

IsPlain-target : (p : ServicePort) → IsPlain p.target_port → IsPlain (target_of p)
unfolding target_of
IsPlain-target p h =
    elim (Bool-cases (is_empty p.target_port || text_eq p.target_port (codes "0"))) [
      | inl e ↦ rw (e, target_of) (decimal-IsPlain p.port)
      | inr e ↦ rw (e, target_of) h
    ]

zeros-IsPlain : IsPlain (codes "0.0.0.0")
unfolding ℕ_discrete
zeros-IsPlain = record { no_colon = refl; no_open = refl; no_close = refl }

listen_v4-IsAddress : (p : ServicePort) → IsAddress (listen_v4 p) × IsFree 61 (listen_v4 p)
unfolding ℕ_discrete
listen_v4-IsAddress p = (
  (
    (codes "0.0.0.0", decimal p.port),
    split_host_port-plain (codes "0.0.0.0") (decimal p.port) zeros-IsPlain (decimal-IsPlain p.port),
  ),
  decimal-IsFree 61 p.port refl,
)

listen_v6-IsAddress : (p : ServicePort) → IsAddress (listen_v6 p) × IsFree 61 (listen_v6 p)
unfolding ℕ_discrete
listen_v6-IsAddress p = (
  (
    (codes "::", decimal p.port),
    split_host_port-bracketed (codes "::") (decimal p.port) refl refl (decimal-IsPlain p.port),
  ),
  decimal-IsFree 61 p.port refl,
)

module _ (v4 v6 : Text) (plain : IsPlain v4) (bracketed : IsBracketed v6) where
  pairs_v4-IsPair : (p : ServicePort) → IsPlain p.target_port → All IsPair (pairs_v4 v4 p)
  pairs_v4-IsPair p h = elim (Bool-cases (is_empty v4)) [
    | inl none' ↦ rw none' tt
    | inr some' ↦
        let (address, free) = listen_v4-IsAddress p in
        let target = split_host_port-plain v4 (target_of p) plain (IsPlain-target p h) in
        rw some' ((address, ((v4, target_of p), target), free), tt)
  ]

  pairs_v6-IsPair : (p : ServicePort) → IsPlain p.target_port → All IsPair (pairs_v6 v6 p)
  pairs_v6-IsPair p h = elim (Bool-cases (is_empty v6)) [
    | inl none' ↦ rw none' tt
    | inr some' ↦
        let (address, free) = listen_v6-IsAddress p in
        let target =
          split_host_port-bracketed v6 (target_of p) bracketed.0 bracketed.1 (IsPlain-target p h) in
        rw some' ((address, ((v6, target_of p), target), free), tt)
  ]

  pub select-IsPair :
      (udp : Bool) (ps : List ServicePort)
      → All (λ p. IsPlain p.target_port) ps
      → All IsPair (select udp (v4, v6) ps)
  select-IsPair udp [] h = tt
  select-IsPair udp (p ∷ ps) (t, h) =
      let both =
        All-append IsPair (pairs_v4 v4 p) (pairs_v6 v6 p) (pairs_v4-IsPair p t)
          (pairs_v6-IsPair p t) in
      let rest = select-IsPair udp ps h in
      All-append IsPair _ (select udp (v4, v6) ps)
        (elim (Bool-cases (is_udp p)) [
          | inl is ↦ rw is (All-if IsPair udp _ [] both tt)
          | inr is ↦ rw is (All-if IsPair udp [] _ tt both)
        ])
        rest

  module _ (parse_ip : Text → Option Bool) (endpoints : ServiceEndpoints)
      (formed : (name : Text) → All IsEndpoint (endpoints_of name endpoints)) where
    family-IsEndpoint :
        (name : Text) (ipv6 : Bool)
        → All IsEndpoint (endpoint_upstreams_for_family parse_ip (endpoints_of name endpoints) ipv6)
    unfolding endpoint_upstreams_for_family
    family-IsEndpoint name ipv6 =
        sort-All text_less IsEndpoint _
          (All-keep IsEndpoint _ (endpoints_of name endpoints) (formed name))

    entry-IsEntry :
        (listen : Text) (es : List Text)
        → IsAddress listen
        → IsFree 61 listen
        → All IsEndpoint es
        → All IsEntry (entry listen es)
    entry-IsEntry listen [] l free h = tt
    entry-IsEntry listen (e ∷ es) l free h = ((l, free, refl, h), tt)

    entries_v4-IsEntry : (p : ServicePort) → All IsEntry (entries_v4 parse_ip endpoints v4 p)
    entries_v4-IsEntry p =
        let (address, free) = listen_v4-IsAddress p in
        All-if IsEntry (is_empty v4) [] _ tt
          (entry-IsEntry (listen_v4 p) _ address free (family-IsEndpoint p.name false))

    entries_v6-IsEntry : (p : ServicePort) → All IsEntry (entries_v6 parse_ip endpoints v6 p)
    entries_v6-IsEntry p =
        let (address, free) = listen_v6-IsAddress p in
        All-if IsEntry (is_empty v6) [] _ tt
          (entry-IsEntry (listen_v6 p) _ address free (family-IsEndpoint p.name true))

    pub entries-IsEntry :
        (ps : List ServicePort) → All IsEntry (entries parse_ip endpoints (v4, v6) ps)
    entries-IsEntry [] = tt
    entries-IsEntry (p ∷ ps) =
        All-append IsEntry _ (entries parse_ip endpoints (v4, v6) ps)
          (All-append IsEntry _ (entries_v6 parse_ip endpoints v6 p) (entries_v4-IsEntry p)
            (entries_v6-IsEntry p))
          (entries-IsEntry ps)

-- The values of the flag that the proxy takes.
abbrev pub IsVersion : Text → Type 0
IsVersion v = (v ≡ codes "") ⊎ (v ≡ codes "1") ⊎ (v ≡ codes "2")

version_lem :
    (v : Text)
    → IsVersion v
    → (not (text_eq v (codes "")) && (not (text_eq v (codes "1")) && not (text_eq v (codes "2"))))
      ≡ false
unfolding text_discrete ℕ_discrete
version_lem v (inl e) = rw e refl
version_lem v (inr (inl e)) = rw e refl
version_lem v (inr (inr e)) = rw e refl

pub run_specs-format :
    (tcp udp : List Pair) (es : List Entry) (v : Text)
    → (is_empty (map format tcp) && is_empty (map format udp)) ≡ false
    → IsVersion v
    → All IsPair tcp
    → All IsPair udp
    → All IsEntry es
    → run_specs (map format tcp) (map format udp) v (map format_entry es)
      ≡ ok (
          map (served v (put_all [] es) protocol_tcp) tcp
          ++ map (served v (put_all [] es) protocol_udp) udp)
unfolding run_specs parse_endpoint_pairs
run_specs-format tcp udp es v some' version t u e =
    rw (some', run_specs)
      (rw (version_lem v version, parse_pairs-format protocol_tcp tcp t)
        (rw (parse_pairs-format protocol_udp udp u, run_specs)
          (rw (endpoint_pairs-format [] es e, run_specs)
            (ap ok (
              complete_specs-rule v protocol_tcp (put_all [] es) tcp (map (rule protocol_udp) udp)
              ∙ ap (λ r. map (served v (put_all [] es) protocol_tcp) tcp ++ r)
                  (complete_specs-map v protocol_udp (put_all [] es) udp))))))
