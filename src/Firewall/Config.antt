-- ===== src/Firewall/Config.antt =====
-- The firewall agent's configuration: internal/firewall/config.go. A ConfigMap is its data.
pub mod Bounds
use bulb.Base.{
  ℕ, ◌+◌, ◌-◌, ◌*◌, ◌==◌, ltb, leb, if◌then◌else◌, Bool, true, false, not, ◌&&◌, ◌||◌, List, [],
  ◌∷◌, ◌++◌, Text, codes, quoted, decimal, is_empty, trim_space, split_on, text_discrete, ite,
  Option, none, some,
}
use bulb.Base.Result.{Result, ok, err, wrap}
use bulb.Api.{Labels, get_label}

pub record AgentConfig : Type 0 where
  pub backend : Text
  pub zone : Text
  pub state_file : Text
  pub denied_ports : List ℕ
  pub dry_run : Bool

unfoldable pub default_config : AgentConfig
default_config = record {
  backend = codes "firewalld";
  zone = codes "public";
  state_file = codes "/var/lib/bulb/firewall-agent-state.json";
  denied_ports = 22 ∷ 80 ∷ 443 ∷ [];
  dry_run = false;
}

-- The value of digits, after those of `n`; none where another byte stands among them.
unfoldable pub digits_value : ℕ → Text → Option ℕ
digits_value n [] = some n
digits_value n (c ∷ s) = elim (leb 48 c && leb c 57) [
  | true ↦ digits_value (n * 10 + (c - 48)) s
  | false ↦ none
]

abbrev in_range : ℕ → Option ℕ → Option ℕ
in_range limit none = none
in_range limit (some n) = if ltb limit n then none else some n

abbrev signed : Bool → Option ℕ → Option (Bool × ℕ)
signed negative none = none
signed negative (some n) = some (negative, n)

-- `strconv.ParseInt(s, 10, 32)`, as whether it is negative and its magnitude.
unfoldable pub parse_int_32 : Text → Option (Bool × ℕ)
unfolding digits_value
parse_int_32 [] = none
parse_int_32 (c ∷ []) = signed false (digits_value 0 (c ∷ []))
parse_int_32 (c ∷ d ∷ s) =
    if c == 45
    then signed true (in_range 2147483648 (digits_value 0 (d ∷ s)))
    else if c == 43
    then signed false (in_range 2147483647 (digits_value 0 (d ∷ s)))
    else signed false (in_range 2147483647 (digits_value 0 (c ∷ d ∷ s)))

-- One entry of the list, which is not empty.
unfoldable pub parse_denied_port : Text → Result ℕ
unfolding parse_int_32
parse_denied_port part = elim (parse_int_32 part) [
  | none ↦ err (codes "invalid port " ++ quoted part)
  | some (negative, n) ↦
      if negative || (ltb n 1 || ltb 65535 n)
      then err (
          codes "port "
          ++ (if negative then codes "-" else [])
          ++ decimal n
          ++ codes " out of range")
      else ok n
]

unfoldable pub parse_parts : List Text → Result (List ℕ)
unfolding parse_denied_port
parse_parts [] = ok []
parse_parts (raw ∷ parts) =
    let part = trim_space raw in
    if is_empty part then parse_parts parts else elim (parse_denied_port part) [
      | err e ↦ err e
      | ok n ↦ elim (parse_parts parts) [ err e ↦ err e | ok ports ↦ ok (n ∷ ports) ]
    ]

unfoldable pub parse_denied_ports : Text → Result (List ℕ)
unfolding parse_parts
parse_denied_ports raw = parse_parts (split_on b',' raw)

abbrev one_of : Text → List Text → Bool
one_of s [] = false
one_of s (t ∷ ts) = ite (text_discrete s t) true (one_of s ts)

-- `strconv.ParseBool`
unfoldable pub parse_bool : Text → Result Bool
parse_bool s =
    if one_of s
      (codes "1" ∷ codes "t" ∷ codes "T" ∷ codes "TRUE" ∷ codes "true" ∷ codes "True" ∷ [])
    then ok true
    else if one_of s
        (codes "0" ∷ codes "f" ∷ codes "F" ∷ codes "FALSE" ∷ codes "false" ∷ codes "False" ∷ [])
    then ok false
    else err (codes "strconv.ParseBool: parsing " ++ quoted s ++ codes ": invalid syntax")

-- The value, or the default where it is empty.
abbrev or_default : Text → Text → Text
or_default v fallback = if is_empty v then fallback else v

-- A value that is parsed where it is not empty.
abbrev pub parsed_or : {A : Type 0} → Text → Text → (Text → Result A) → A → Result A
parsed_or what v parse fallback = if is_empty v then ok fallback else wrap what (parse v)

-- `LoadConfig` on the ConfigMap's data, or on the error of its read.
unfoldable pub load_config : Text → Text → Result Labels → Result AgentConfig
unfolding default_config parse_denied_ports parse_bool get_label
load_config namespace name fetched = elim fetched [
  | err e ↦
      wrap
        (codes "get firewall-agent configmap "
          ++ or_default namespace (codes "bulb-system")
          ++ codes "/"
          ++ or_default name (codes "bulb-firewall-agent"))
        (err e)
  | ok cm ↦
      elim (parsed_or (codes "parse deniedPorts") (trim_space (get_label (codes "deniedPorts") cm))
        parse_denied_ports default_config.denied_ports) [
          | err e ↦ err e
          | ok ports ↦
              elim (parsed_or (codes "parse dryRun") (trim_space (get_label (codes "dryRun") cm))
                parse_bool default_config.dry_run) [
                  | err e ↦ err e
                  | ok dry ↦ ok record {
                    backend =
                        or_default (trim_space (get_label (codes "backend") cm))
                          default_config.backend;
                    zone =
                        or_default (trim_space (get_label (codes "zone") cm)) default_config.zone;
                    state_file =
                        or_default (trim_space (get_label (codes "stateFile") cm))
                          default_config.state_file;
                    denied_ports = ports;
                    dry_run = dry;
                  }
                ]
        ]
]
