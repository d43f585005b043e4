-- ===== src/Proxy/Pairs.antt =====
-- The forwarding rules that the proxy's flags give: `parsePair`, `parsePairsWithProtocol`,
-- `parseEndpointPairs`, and how `Run` puts them together (internal/proxy/proxy.go).
pub mod Format
use bulb.Base.{
  ℕ, if◌then◌else◌, Bool, true, false, not, ◌&&◌, ◌||◌, List, [], ◌∷◌, ◌++◌, Text, codes, quoted,
  is_empty, text_discrete, trim_space, cut_at, split_on, split_host_port, ite, Option, none, some,
}
use bulb.Base.Dict.{lookup, put}
use bulb.Base.Result.{Result, ok, err, wrap}

abbrev pub protocol_tcp : Text
protocol_tcp = codes "tcp"

abbrev pub protocol_udp : Text
protocol_udp = codes "udp"

pub record Spec : Type 0 where
  pub listen : Text
  pub upstream : Text
  pub protocol : Text
  pub proxy_protocol : Text
  pub endpoints : List Text

unfoldable pub spec_protocol : Spec → Text
spec_protocol spec = if is_empty spec.protocol then protocol_tcp else spec.protocol

-- The checks of `parsePair`, after the cut.
unfoldable pub checked_pair : Text → Text × Text → Result Spec
checked_pair s (listen, upstream) =
    if is_empty listen || is_empty upstream
    then err (codes "invalid pair " ++ quoted s ++ codes ": empty listen or upstream")
    else elim (split_host_port listen) [
      | err e ↦ wrap (codes "invalid listen " ++ quoted listen) (err e)
      | ok _ ↦ elim (split_host_port upstream) [
        | err e ↦ wrap (codes "invalid upstream " ++ quoted upstream) (err e)
        | ok _ ↦ ok record {
          listen = listen;
          upstream = upstream;
          protocol = codes "";
          proxy_protocol = codes "";
          endpoints = [];
        }
      ]
    ]

unfoldable pub parse_pair : Text → Result Spec
unfolding checked_pair
parse_pair s = elim (cut_at b'=' s) [
  | none ↦ err (codes "invalid pair " ++ quoted s ++ codes ": expected listen=upstream")
  | some parts ↦ checked_pair s parts
]

unfoldable pub parse_pairs_with_protocol : List Text → Text → Result (List Spec)
unfolding parse_pair
parse_pairs_with_protocol [] proto = ok []
parse_pairs_with_protocol (r ∷ raw) proto = elim (parse_pair r) [
  | err e ↦ err e
  | ok spec ↦ elim (parse_pairs_with_protocol raw proto) [
    | err e ↦ err e
    | ok specs ↦ ok (record spec { protocol = proto } ∷ specs)
  ]
]

-- The loop over the endpoints of one pair.
unfoldable pub filter_endpoints : List Text → Result (List Text)
filter_endpoints [] = ok []
filter_endpoints (endpoint ∷ raw) =
    let trimmed = trim_space endpoint in
    if is_empty trimmed then filter_endpoints raw else elim (split_host_port trimmed) [
      | err e ↦
          wrap (codes "invalid endpoint " ++ quoted trimmed ++ codes " in endpoint pair") (err e)
      | ok _ ↦ elim (filter_endpoints raw) [ err e ↦ err e | ok rest ↦ ok (trimmed ∷ rest) ]
    ]

unfoldable pub checked_endpoints : Text → Text × Text → Result (Text × List Text)
unfolding filter_endpoints
checked_endpoints r (listen, endpoints) =
    if is_empty listen || is_empty endpoints
    then err (codes "invalid endpoint pair " ++ quoted r ++ codes ": empty listen or endpoints")
    else elim (split_host_port listen) [
      | err e ↦ wrap (codes "invalid listen " ++ quoted listen ++ codes " in endpoint pair") (err e)
      | ok _ ↦ elim (filter_endpoints (split_on b',' endpoints)) [
        | err e ↦ err e
        | ok filtered ↦
            if is_empty filtered
            then err (codes "invalid endpoint pair " ++ quoted r ++ codes ": no endpoints")
            else ok (listen, filtered)
      ]
    ]

unfoldable pub parse_endpoint_pair : Text → Result (Text × List Text)
unfolding checked_endpoints
parse_endpoint_pair r = elim (cut_at b'=' r) [
  | none ↦
      err (codes "invalid endpoint pair " ++ quoted r ++ codes ": expected listen=endpoints[,...]")
  | some parts ↦ checked_endpoints r parts
]

-- The map so far; a later pair of the same listen address replaces an earlier one.
unfoldable pub endpoint_pairs_from :
    List (Text × List Text) → List Text → Result (List (Text × List Text))
unfolding parse_endpoint_pair
endpoint_pairs_from result [] = ok result
endpoint_pairs_from result (r ∷ raw) = elim (parse_endpoint_pair r) [
  | err e ↦ err e
  | ok (listen, filtered) ↦ endpoint_pairs_from (put text_discrete listen filtered result) raw
]

unfoldable pub parse_endpoint_pairs : List Text → Result (List (Text × List Text))
unfolding endpoint_pairs_from
parse_endpoint_pairs = endpoint_pairs_from []

-- The two loops of `Run` that complete the rules.
unfoldable pub complete_specs : Text → List (Text × List Text) → List Spec → List Spec
complete_specs proxy_protocol endpoint_map [] = []
complete_specs proxy_protocol endpoint_map (spec ∷ specs) =
    record spec {
      proxy_protocol = proxy_protocol;
      endpoints = elim (lookup text_discrete spec.listen endpoint_map) [
        | none ↦ spec.endpoints
        | some endpoints ↦ endpoints
      ];
    }
    ∷ complete_specs proxy_protocol endpoint_map specs

abbrev text_is : Text → Text → Bool
text_is a b = ite (text_discrete a b) true false

-- `Run`, from its parsed flags to the rules that it serves.
unfoldable pub run_specs : List Text → List Text → Text → List Text → Result (List Spec)
unfolding parse_pairs_with_protocol parse_endpoint_pairs complete_specs
run_specs tcp_pairs udp_pairs proxy_protocol endpoint_pairs =
    if is_empty tcp_pairs && is_empty udp_pairs
    then err (codes "at least one --upstream or --udp-upstream pair is required")
    else if not (text_is proxy_protocol (codes ""))
        && (not (text_is proxy_protocol (codes "1")) && not (text_is proxy_protocol (codes "2")))
    then err (
        codes "invalid --proxy-protocol value "
        ++ quoted proxy_protocol
        ++ codes ": must be empty, '1', or '2'")
    else elim (parse_pairs_with_protocol tcp_pairs protocol_tcp) [
      | err e ↦ err e
      | ok specs ↦ elim (parse_pairs_with_protocol udp_pairs protocol_udp) [
        | err e ↦ err e
        | ok udp_specs ↦ elim (parse_endpoint_pairs endpoint_pairs) [
          | err e ↦ wrap (codes "parse endpoints") (err e)
          | ok endpoint_map ↦ ok (complete_specs proxy_protocol endpoint_map (specs ++ udp_specs))
        ]
      ]
    ]
