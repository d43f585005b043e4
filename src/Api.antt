-- ===== src/Api.antt =====
-- The custom resources of api/v1alpha1, and the parts of the Kubernetes objects that the program
-- reads and writes. Ports are natural numbers: the API server admits 1 to 65535 only. Labels and
-- annotations are association lists; nil and empty ones are the same, as for the program's own
-- comparison (`equality.Semantic`).
use bulb.Base.{
  ℕ, ◌≡◌, Bool, false, List, [], ◌∷◌, map, Text, codes, Option, none, some, text_discrete, contains,
}
use bulb.Base.Dict

abbrev pub Labels : Type 0
Labels = List (Text × Text)

-- `m[k]`: the empty string on a missing key.
abbrev value_or_empty : Option Text → Text
value_or_empty none = codes ""
value_or_empty (some v) = v

unfoldable pub get_label : Text → Labels → Text
unfolding text_discrete
get_label k m = value_or_empty (Dict.lookup text_discrete k m)

pub record LbPortSpec : Type 0 where
  pub port : ℕ
  pub protocol : Text
  pub nodes : List Text
  pub owner : Text
  pub allow_privileged : Bool

pub record LbPortStatus : Type 0 where
  pub applied_nodes : List Text

pub record LbPort : Type 0 where
  pub name : Text
  pub labels : Labels
  pub spec : LbPortSpec
  pub status : LbPortStatus

pub record DnsRecordSpec : Type 0 where
  pub fqdn : Text
  pub record_type : Text
  pub ttl : ℕ
  pub targets : List Text

pub record DnsRecord : Type 0 where
  pub name : Text
  pub labels : Labels
  pub spec : DnsRecordSpec

-- The token that stands for every node.
abbrev pub all_nodes_token : Text
all_nodes_token = codes "*"

abbrev pub names_of : List LbPort → List Text
names_of = map (λ l. l.name)

-- The LBPorts have different names.
abbrev pub DistinctNames : List LbPort → Type 0
DistinctNames [] = Unit
DistinctNames (l ∷ ls) = (contains text_discrete l.name (names_of ls) ≡ false) × DistinctNames ls
