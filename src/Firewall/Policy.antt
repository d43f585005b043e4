-- ===== src/Firewall/Policy.antt =====
-- `FirewallPolicy.Filter` of internal/firewall/firewall.go.
pub mod Exposure
use bulb.Base.{
  ℕ, ltb, if◌then◌else◌, Bool, not, ◌&&◌, List, [], ◌∷◌, Text, codes, contains, ℕ_discrete,
}
use bulb.Firewall.Ports.{PortSpec}

pub record FirewallPolicy : Type 0 where
  pub denied_ports : List ℕ

pub record RejectedPort : Type 0 where
  pub spec : PortSpec
  pub reason : Text

abbrev pub denylist : Text
denylist = codes "denylist"

abbrev pub privileged : Text
privileged = codes "privileged"

unfoldable pub filter_ports : FirewallPolicy → List PortSpec → List PortSpec × List RejectedPort
unfolding ℕ_discrete
filter_ports p [] = ([], [])
filter_ports p (spec ∷ desired) =
    let (out, rejected) = filter_ports p desired in
    if contains ℕ_discrete spec.port p.denied_ports
    then (out, record { spec = spec; reason = denylist } ∷ rejected)
    else if ltb spec.port 1024 && not spec.allow_privileged
    then (out, record { spec = spec; reason = privileged } ∷ rejected)
    else (spec ∷ out, rejected)
