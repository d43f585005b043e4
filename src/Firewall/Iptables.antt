-- ===== src/Firewall/Iptables.antt =====
-- The iptables backend: internal/firewall/iptables.go. The command runner is a parameter.
pub mod Listing
pub mod Runner
pub mod Rules
use bulb.Base.{
  digits_from, ℕ, zero, suc, ◌+◌, ◌-◌, ◌*◌, ◌==◌, ltb, leb, if◌then◌else◌, Bool, true, false, not,
  ◌&&◌, ◌||◌, List, [], ◌∷◌, ◌++◌, Text, codes, is_empty, decimal, fields, split_on, trim_space,
  text_discrete, ite, ℕ_discrete, contains_text,
}
use bulb.Base.Result.{M, Result, ok, err, wrap, wrapping, return, query, continue_with, ◌>>=◌, ◌>>◌}
use bulb.Firewall.Ports.{
  PortSpec, protocol_string, protocol_from_string, diff_ports, stable_unique_ports,
}
use bulb.Firewall.Firewalld.{port_string}
use bulb.Firewall.Backend.{Backend}
use bulb.Firewall.Commands.{CommandRunner}

abbrev pub iptables_chain : Text
iptables_chain = codes "BULB-INPUT"

abbrev text_is : Text → Text → Bool
text_is a b = ite (text_discrete a b) true false

-- 0 for no number, or one beyond the code's int32.
unfoldable pub parse_port : Text → ℕ
unfolding digits_from
parse_port raw = let n = digits_from 0 raw in if ltb n 2147483648 then n else 0

-- The last `-p` and the last `--dport` of a rule, with the field that follows.
unfoldable pub see_fields : List Text → Text × ℕ → Text × ℕ
unfolding parse_port text_discrete
see_fields [] found = found
see_fields (flag ∷ []) found = found
see_fields (flag ∷ value ∷ rest) (protocol, port) = see_fields (value ∷ rest) (
  (if text_is flag (codes "-p") then value else protocol),
  (if text_is flag (codes "--dport") then parse_port value else port),
)

unfoldable pub parse_rules : List Text → List PortSpec
unfolding see_fields fields trim_space protocol_from_string
parse_rules [] = []
parse_rules (raw ∷ lines) =
    let line = trim_space raw in
    let (protocol, port) = see_fields (fields line) ([], 0) in
    let rest = parse_rules lines in
    if is_empty line || (text_is line (codes "-N " ++ iptables_chain) || port == 0)
    then rest
    else record { port = port; protocol = protocol_from_string protocol; allow_privileged = false }
      ∷ rest

unfoldable pub parse_iptables_chain_rules : Text → List PortSpec
unfolding parse_rules stable_unique_ports split_on
parse_iptables_chain_rules raw = stable_unique_ports (parse_rules (split_on 10 (trim_space raw)))

unfoldable pub count_lines : List Text → Text → ℕ
unfolding trim_space text_discrete
count_lines [] want = 0
count_lines (line ∷ lines) want =
    let rest = count_lines lines want in if text_is (trim_space line) want then suc rest else rest

unfoldable pub count_line : Text → Text → ℕ
unfolding count_lines split_on
count_line raw want = count_lines (split_on 10 raw) want

-- `isAlreadyExistsError`; its first test is covered by the second.
unfoldable pub is_already_exists_error : Text → Bool
unfolding contains_text
is_already_exists_error msg =
    contains_text (codes "Chain already exists") msg || contains_text (codes "already exists") msg

abbrev pub list_args : Text → Text → List Text
list_args binary chain = binary ∷ codes "-w" ∷ codes "-S" ∷ chain ∷ []

abbrev pub new_args : Text → List Text
new_args binary = binary ∷ codes "-w" ∷ codes "-N" ∷ iptables_chain ∷ []

abbrev pub jump_args : Text → List Text
jump_args binary =
    binary ∷ codes "-w" ∷ codes "-I" ∷ codes "INPUT" ∷ codes "1" ∷ codes "-j" ∷ iptables_chain ∷ []

-- A rule's arguments, `verb` being `-A` or `-D`.
unfoldable pub rule_args : Text → Text → PortSpec → List Text
unfolding protocol_string decimal
rule_args verb binary port =
    binary
    ∷ codes "-w"
    ∷ verb
    ∷ iptables_chain
    ∷ codes "-p"
    ∷ protocol_string port.protocol
    ∷ codes "--dport"
    ∷ decimal port.port
    ∷ codes "-j"
    ∷ codes "ACCEPT"
    ∷ []

-- An error that says that the chain is there already is no error.
abbrev pub unless_exists : {S : Type 0} → Text → S × Result (Unit {0}) → S × Result (Unit {0})
unless_exists what (s, ok a) = (s, ok a)
unless_exists what (s, err e) = (s, if is_already_exists_error e then ok tt else wrap what (err e))

module _ {S : Type 0} (runner : CommandRunner S) where
  unfoldable pub ensure_chain : Text → M S (Unit {0})
  ensure_chain binary s =
      unless_exists (codes "create " ++ binary ++ codes " chain") (runner.run (new_args binary) s)

  unfoldable pub ensure_jump : Text → M S (Unit {0})
  unfolding count_line
  ensure_jump binary s = elim (runner.output (list_args binary (codes "INPUT")) s) [
    | err e ↦ (s, wrap (codes "list " ++ binary ++ codes " INPUT chain") (err e))
    | ok out ↦
        let count = count_line out (codes "-A INPUT -j " ++ iptables_chain) in
        if count == 1
        then (s, ok tt)
        else if ltb 1 count
        then (
          s,
          err (binary ++ codes " INPUT chain has multiple " ++ iptables_chain ++ codes " jumps"),
        )
        else wrapping (codes "insert " ++ binary ++ codes " jump") (runner.run (jump_args binary)) s
  ]

  unfoldable pub delete_rules : Text → List PortSpec → M S (Unit {0})
  unfolding port_string
  delete_rules binary [] s = (s, ok tt)
  delete_rules binary (p ∷ ps) s =
      continue_with (λ _. delete_rules binary ps)
        (wrapping (codes "delete " ++ binary ++ codes " rule for " ++ port_string p)
          (runner.run (rule_args (codes "-D") binary p)) s)

  unfoldable pub append_rules : Text → List PortSpec → M S (Unit {0})
  unfolding port_string
  append_rules binary [] s = (s, ok tt)
  append_rules binary (p ∷ ps) s =
      continue_with (λ _. append_rules binary ps)
        (wrapping (codes "append " ++ binary ++ codes " rule for " ++ port_string p)
          (runner.run (rule_args (codes "-A") binary p)) s)

  unfoldable pub reconcile_owned_rules : Text → List PortSpec → M S (Unit {0})
  unfolding delete_rules append_rules
  reconcile_owned_rules binary desired s =
      elim (runner.output (list_args binary iptables_chain) s) [
        | err e ↦ (s, wrap (codes "list " ++ binary ++ codes " owned chain") (err e))
        | ok out ↦
            let current = parse_iptables_chain_rules out in
            let want = stable_unique_ports desired in
            continue_with (λ _. append_rules binary (diff_ports want current))
              (delete_rules binary (diff_ports current want) s)
      ]

  -- One round of the loop in `Apply`.
  unfoldable pub apply_binary : Text → List PortSpec → M S (Unit {0})
  unfolding ensure_chain ensure_jump reconcile_owned_rules
  apply_binary binary desired s =
      continue_with
        (λ _ t. continue_with (λ _. reconcile_owned_rules binary desired) (ensure_jump binary t))
        (ensure_chain binary s)

  unfoldable pub apply : List PortSpec → M S (Unit {0})
  unfolding apply_binary
  apply desired s =
      continue_with (λ _. apply_binary (codes "ip6tables") desired)
        (apply_binary (codes "iptables") desired s)

  unfoldable pub inspect : Text → S → Result (Unit {0})
  inspect binary s = elim (runner.output (list_args binary (codes "INPUT")) s) [
    | err e ↦ wrap (codes "inspect " ++ binary ++ codes " INPUT chain") (err e)
    | ok out ↦ ok tt
  ]

  unfoldable pub validate : M S (Unit {0})
  unfolding inspect
  validate = do query (inspect (codes "iptables")); query (inspect (codes "ip6tables"))

  unfoldable pub iptables_backend : Backend S
  unfolding apply validate
  iptables_backend = record { name = codes "iptables"; validate = validate; apply = apply }
