-- ===== src/Controller/ProxyArgs/Shared.antt =====
-- Two rules that share a listen address, as the proxy's `Run` completes them.
use bulb.Base.{◌≡◌, refl, ap, ◌∙◌, List, [], ◌∷◌, ◌++◌, Text, join, All, IsFree, arith}
use bulb.Base.Dict.{put}
use bulb.Base.Result.{ok}
use bulb.Controller.Endpoints.{endpoints_of}
use bulb.Controller.ProxyArgs.Served.{IsVersion, put_all, run_specs-format}
use bulb.Proxy.Pairs.{Spec, run_specs, protocol_tcp, protocol_udp}
use bulb.Proxy.Pairs.Format.{IsAddress, IsEndpoint}

endpoints_of-twice :
    (listen : Text) (es es' : List Text)
    → endpoints_of listen (put_all [] ((listen, es) ∷ (listen, es') ∷ [])) ≡ es'
unfolding put
endpoints_of-twice listen es es' = ground arith

abbrev rule_with : Text → Text → Text → Text → List Text → Spec
rule_with listen upstream protocol v endpoints = record {
  listen = listen;
  upstream = upstream;
  protocol = protocol;
  proxy_protocol = v;
  endpoints = endpoints;
}

-- A TCP and a UDP rule on one address, each with an `--endpoint` argument of its own: the later
-- argument replaces the earlier, and both rules forward to the later one's endpoints. The addresses
-- and endpoints are well formed, and the PROXY version is one that the proxy takes.
pub run_specs-shares :
    (listen upstream upstream' v e e' : Text) (es es' : List Text)
    → IsVersion v
    → IsAddress listen
    → IsFree 61 listen
    → IsAddress upstream
    → IsAddress upstream'
    → All IsEndpoint (e ∷ es)
    → All IsEndpoint (e' ∷ es')
    → run_specs
        ((listen ++ 61 ∷ upstream) ∷ [])
        ((listen ++ 61 ∷ upstream') ∷ [])
        v
        ((listen ++ 61 ∷ join (44 ∷ []) (e ∷ es)) ∷ (listen ++ 61 ∷ join (44 ∷ []) (e' ∷ es')) ∷ [])
      ≡ ok (
          rule_with listen upstream protocol_tcp v (e' ∷ es')
          ∷ rule_with listen upstream' protocol_udp v (e' ∷ es')
          ∷ [])
run_specs-shares listen upstream upstream' v e e' es es' version l free u u' h h' =
    run_specs-format ((listen, upstream) ∷ []) ((listen, upstream') ∷ [])
      ((listen, e ∷ es) ∷ (listen, e' ∷ es') ∷ []) v refl version ((l, u, free), tt)
      ((l, u', free), tt) ((l, free, refl, h), ((l, free, refl, h'), tt))
    ∙ ap
        (λ (found : List Text). ok (
          rule_with listen upstream protocol_tcp v found
          ∷ rule_with listen upstream' protocol_udp v found
          ∷ []))
        (endpoints_of-twice listen (e ∷ es) (e' ∷ es'))
