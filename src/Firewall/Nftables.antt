-- ===== src/Firewall/Nftables.antt =====
-- The nftables backend: internal/firewall/nftables.go. The command runner is a parameter.
pub mod Elements
pub mod Opens
pub mod Missing
use bulb.Base.{
  ℕ, if◌then◌else◌, Bool, true, false, not, ◌&&◌, ◌||◌, List, [], ◌∷◌, ◌++◌, map, Text, codes,
  is_empty, decimal, trim_space, join, text_discrete, ite, contains_text,
}
use bulb.Base.Result.{M, Result, Error, ok, err, wrap, wrapping, return, query, continue_with}
use bulb.Firewall.Ports.{PortSpec, stable_unique_ports}
use bulb.Firewall.Backend.{Backend}
use bulb.Firewall.Commands.{CommandRunner}

abbrev pub nft_table_name : Text
nft_table_name = codes "bulb_firewall_agent"

abbrev text_is : Text → Text → Bool
text_is a b = ite (text_discrete a b) true false

-- `splitPortsByProtocol` on the ports that are left.
unfoldable pub split_from : List PortSpec → List ℕ × List ℕ
unfolding text_discrete
split_from [] = ([], [])
split_from (p ∷ ps) =
    let (tcp, udp) = split_from ps in
    if text_is p.protocol (codes "UDP") then (tcp, p.port ∷ udp) else (p.port ∷ tcp, udp)

unfoldable pub split_ports_by_protocol : List PortSpec → List ℕ × List ℕ
unfolding split_from stable_unique_ports
split_ports_by_protocol desired = split_from (stable_unique_ports desired)

unfoldable pub join_ports : List ℕ → Text
unfolding join decimal
join_ports ports = if is_empty ports then codes "" else join (codes ", ") (map decimal ports)

-- The lines of the template, `nftRulesetTemplate`.
abbrev line : Text → Text → Text
line text rest = text ++ 10 ∷ rest

abbrev set_lines : Text → Text → Text → Text
set_lines name elements rest = line (9 ∷ codes "set " ++ name ++ codes " {") (
    line (9 ∷ 9 ∷ codes "type inet_service") (
      line (9 ∷ 9 ∷ codes "elements = { " ++ elements ++ codes " }")
        (line (9 ∷ codes "}") (line [] rest))))

unfoldable pub nft_ruleset : Text → Text → Text
nft_ruleset tcp udp = line (codes "table inet bulb_firewall_agent {") (
    set_lines (codes "tcp_ports") tcp (
      set_lines (codes "udp_ports") udp (
        line (9 ∷ codes "chain input {") (
          line (9 ∷ 9 ∷ codes "type filter hook input priority 0;") (
            line (9 ∷ 9 ∷ codes "tcp dport @tcp_ports accept") (
              line (9 ∷ 9 ∷ codes "udp dport @udp_ports accept")
                (line (9 ∷ codes "}") (line (codes "}") []))))))))

unfoldable pub is_nft_no_such_table : Error → Bool
unfolding contains_text
is_nft_no_such_table msg =
    contains_text (codes "No such file or directory") msg
    || contains_text (codes "No such table") msg

abbrev pub list_table_args : List Text
list_table_args = codes "nft" ∷ codes "list" ∷ codes "table" ∷ codes "inet" ∷ nft_table_name ∷ []

abbrev pub load_args : List Text
load_args = codes "nft" ∷ codes "-f" ∷ codes "-" ∷ []

module _ {S : Type 0} (runner : CommandRunner S) where
  unfoldable pub validate : M S (Unit {0})
  validate s = elim (runner.output (codes "nft" ∷ codes "list" ∷ codes "tables" ∷ []) s) [
    | err e ↦ (s, wrap (codes "list nftables tables") (err e))
    | ok out ↦ (s, ok tt)
  ]

  -- With the table's text read: a text that is not the table's is refused.
  unfoldable pub apply_listed : Text → List PortSpec → M S (Unit {0})
  unfolding trim_space contains_text split_ports_by_protocol join_ports nft_ruleset
  apply_listed out desired s =
      if not (is_empty (trim_space out))
        && not (contains_text (codes "table inet bulb_firewall_agent {") out)
      then (s, err (codes "unexpected nftables table output for " ++ nft_table_name))
      else let (tcp, udp) = split_ports_by_protocol desired in
        wrapping (codes "apply nftables ruleset")
          (runner.run_input (nft_ruleset (join_ports tcp) (join_ports udp)) load_args) s

  unfoldable pub apply : List PortSpec → M S (Unit {0})
  unfolding is_nft_no_such_table apply_listed
  apply desired s = elim (runner.output list_table_args s) [
    | ok out ↦ apply_listed out desired s
    | err e ↦
        if not (is_nft_no_such_table e)
        then (s, wrap (codes "inspect nftables table") (err e))
        else apply_listed (runner.error_output list_table_args s) desired s
  ]

  unfoldable pub nftables_backend : Backend S
  unfolding apply validate
  nftables_backend = record { name = codes "nftables"; validate = validate; apply = apply }
