-- ===== src/Proxy/Flags.antt =====
-- The flags of the proxy's command that its rules come from, as `Run` of internal/proxy/proxy.go
-- declares them and Go's flag package reads them from arguments `--name=value`. The four flags
-- that time the proxy are read and passed over; their values are taken to be well-formed.
use bulb.Base.{
  ◌==◌, if◌then◌else◌, Bool, true, false, ◌&&◌, ◌||◌, List, [], ◌∷◌, ◌++◌, Text, codes,
  text_discrete, cut_at, ite, Option, none, some,
}
use bulb.Base.Result.{Result, ok, err}
use bulb.Proxy.Pairs.{Spec, run_specs}

pub record Flags : Type 0 where
  pub tcp_pairs : List Text
  pub udp_pairs : List Text
  pub endpoint_pairs : List Text
  pub proxy_protocol : Text

abbrev pub no_flags : Flags
no_flags = record { tcp_pairs = []; udp_pairs = []; endpoint_pairs = []; proxy_protocol = codes "" }

abbrev text_is : Text → Text → Bool
text_is a b = ite (text_discrete a b) true false

abbrev is_timing : Text → Bool
is_timing name =
    text_is name (codes "drain-timeout")
    || (text_is name (codes "udp-idle-timeout")
        || (text_is name (codes "health-bind-address")
            || text_is name (codes "health-check-timeout")))

-- A repeatable flag adds its value, another replaces what it was.
unfoldable pub set_flag : Text → Text → Flags → Result Flags
set_flag name value flags =
    if text_is name (codes "upstream")
    then ok (record flags { tcp_pairs = flags.tcp_pairs ++ value ∷ [] })
    else if text_is name (codes "udp-upstream")
    then ok (record flags { udp_pairs = flags.udp_pairs ++ value ∷ [] })
    else if text_is name (codes "endpoint")
    then ok (record flags { endpoint_pairs = flags.endpoint_pairs ++ value ∷ [] })
    else if text_is name (codes "proxy-protocol")
    then ok (record flags { proxy_protocol = value })
    else if is_timing name
    then ok flags
    else err (codes "flag provided but not defined: -" ++ name)

abbrev after_dashes : Text → Option Text
after_dashes [] = none
after_dashes (c ∷ []) = none
after_dashes (c ∷ d ∷ arg) = if c == 45 && d == 45 then some arg else none

-- `--name=value`. Another form of argument, which the controller does not write, is an error here.
unfoldable pub read_arg : Text → Flags → Result Flags
unfolding cut_at set_flag
read_arg arg flags = elim (after_dashes arg) [
  | none ↦ err (codes "bad flag syntax: " ++ arg)
  | some rest ↦ elim (cut_at b'=' rest) [
    | none ↦ err (codes "bad flag syntax: " ++ arg)
    | some (name, value) ↦ set_flag name value flags
  ]
]

unfoldable pub parse_flags : Flags → List Text → Result Flags
unfolding read_arg
parse_flags flags [] = ok flags
parse_flags flags (arg ∷ args) = elim (read_arg arg flags) [
  | err e ↦ err e
  | ok next ↦ parse_flags next args
]

-- `Run`, from its arguments to the rules that it serves.
unfoldable pub rules_of_args : List Text → Result (List Spec)
unfolding parse_flags run_specs
rules_of_args args = elim (parse_flags no_flags args) [
  | err e ↦ err e
  | ok flags ↦ run_specs flags.tcp_pairs flags.udp_pairs flags.proxy_protocol flags.endpoint_pairs
]
