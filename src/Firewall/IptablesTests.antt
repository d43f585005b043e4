-- ===== src/Firewall/IptablesTests.antt =====
-- The iptables backend on a runner that keeps each binary's owned chain as a list of rules.
use bulb.Base.{
  ℕ, ◌≡◌, ◌≢◌, refl, sym, ap, ◌∙◌, if◌then◌else◌, Bool, true, false, List, [], ◌∷◌, ◌++◌, Text,
  codes, text_discrete, ℕ_discrete, decimal, digits_from, digits_from-decimal, ite, if_pos, if_neg,
  arith, contains, inl, inr, Bool-cases, join, split_on, trim_space, fields,
}
use bulb.Base.Result.{M, Result, ok, err, ok≢err}
use bulb.Firewall.Ports.{
  PortSpec, PortKey, key, has_key, protocol_string, diff_ports, port_key_discrete,
}
use bulb.Firewall.Commands.{CommandRunner}
use bulb.Firewall.Iptables.{parse_iptables_chain_rules, iptables_chain, rule_args, list_args, apply}
use bulb.Firewall.Iptables.Listing.{chain_text}
use bulb.Firewall.Iptables.Runner.{without_first, IsRunner, IsOrderly, accepts}
use bulb.Firewall.Iptables.Rules.{apply-exact}
use bulb.Firewall.Samples.{tcp, udp}

-- The rules of each binary's chain.
abbrev Chains : Type 0
Chains = Text → List PortKey

abbrev named : Text → Text → PortKey
named proto num = record { port = digits_from 0 num; protocol = proto }

abbrev put_chain : Text → List PortKey → Chains → Chains
put_chain b ks s = λ c. ite (text_discrete c b) ks (s c)

-- `-D` fails where no rule matches.
unfoldable delete_rule : Text → PortKey → M Chains (Unit {0})
delete_rule b k s =
    if contains port_key_discrete k (s b)
    then (put_chain b (without_first k (s b)) s, ok tt)
    else (s, err (codes "Bad rule (does a matching rule exist in that chain?)"))

unfoldable change : Bool → Text → PortKey → M Chains (Unit {0})
unfolding delete_rule
change true b k s = (put_chain b (s b ++ k ∷ []) s, ok tt)
change false b k s = delete_rule b k s

abbrev is_append : Text → Bool
is_append verb = ite (text_discrete verb (codes "-A")) true false

abbrev sample_run : List Text → M Chains (Unit {0})
sample_run (b ∷ w ∷ verb ∷ chain ∷ p ∷ proto ∷ dport ∷ num ∷ rest) =
    change (is_append verb) b (named proto num)
sample_run _ = λ s. (s, ok tt)

abbrev sample_output : List Text → Chains → Result Text
sample_output (b ∷ w ∷ verb ∷ chain ∷ rest) s =
    if ite (text_discrete chain iptables_chain) true false
    then ok (chain_text (s b))
    else ok (codes "-A INPUT -j BULB-INPUT")
sample_output _ s = err (codes "usage")

unfoldable sample_runner : CommandRunner Chains
sample_runner = record {
  run = sample_run;
  run_input = λ input args s. (s, err (codes "no input"));
  output = sample_output;
  error_output = λ args s. [];
}

rules_in : Text → Chains → List PortKey
rules_in b s = s b

named_lem : (p : PortSpec) → named (protocol_string p.protocol) (decimal p.port) ≡ key p
unfolding key
named_lem p =
    ap (λ (n : ℕ). record { port = n; protocol = protocol_string p.protocol })
      (digits_from-decimal p.port)

change-other :
    (add : Bool) (b c : Text) (k : PortKey) (s : Chains)
    → c ≢ b
    → rules_in c (change add b k s).0 ≡ rules_in c s
unfolding change rules_in
change-other true b c k s ne = if_neg (text_discrete c b) ne _ _
change-other false b c k s ne = elim (Bool-cases (contains port_key_discrete k (s b))) [
  | inl there ↦ rw (there, delete_rule) (if_neg (text_discrete c b) ne _ _)
  | inr missing ↦ rw (missing, delete_rule) refl
]

change-deleted :
    (b : Text) (k : PortKey) (s : Chains)
    → (change false b k s).1 ≡ ok tt
    → rules_in b (change false b k s).0 ≡ without_first k (rules_in b s)
unfolding change rules_in
change-deleted b k s done = elim (Bool-cases (contains port_key_discrete k (s b))) [
  | inl there ↦ rw (there, delete_rule) (if_pos (text_discrete b b) refl _ _)
  | inr missing ↦ absurd (ok≢err (sym (rw (missing, delete_rule) at done)))
]

text_of :
    (b : Text) (s : Chains) (out : Text)
    → sample_output (list_args b iptables_chain) s ≡ ok out
    → out ≡ chain_text (s b)
unfolding text_discrete
text_of b s out h = cc

sample_runner-IsRunner : IsRunner sample_runner rules_in
unfolding sample_runner rule_args text_discrete rules_in change
sample_runner-IsRunner = record {
  listed = text_of;
  appended = λ b p s h. if_pos (text_discrete b b) refl _ _ ∙ ap (λ k. s b ++ k ∷ []) (named_lem p);
  deleted = λ b p s h.
      change-deleted b (named (protocol_string p.protocol) (decimal p.port)) s h
      ∙ ap (λ k. without_first k (s b)) (named_lem p);
  other = λ verb b p s c ne.
      change-other (is_append verb) b c (named (protocol_string p.protocol) (decimal p.port)) s ne;
  new_chain = λ b c s. refl;
  jumped = λ b c s. refl;
}

-- What `iptables -S` prints of a chain of two ports.
listing_run :
    parse_iptables_chain_rules (
      codes "-N BULB-INPUT"
      ++ 10 ∷ codes "-A BULB-INPUT -p udp -m udp --dport 53 -j ACCEPT"
      ++ 10 ∷ codes "-A BULB-INPUT -p tcp -m tcp --dport 22 -j ACCEPT")
    ≡ tcp 22 ∷ udp 53 ∷ []
unfolding parse_iptables_chain_rules split_on trim_space fields text_discrete ℕ_discrete
listing_run = refl

abbrev chains_before : Chains
chains_before c = key (tcp 22) ∷ key (tcp 80) ∷ []

abbrev wanted : List PortSpec
wanted = udp 53 ∷ tcp 80 ∷ []

apply_run :
    (apply sample_runner wanted chains_before).0 (codes "ip6tables")
    ≡ key (tcp 80) ∷ key (udp 53) ∷ []
unfolding apply sample_runner diff_ports parse_iptables_chain_rules rule_args change text_discrete
    ℕ_discrete join key
apply_run = refl

apply-exact_example :
    let s = (apply sample_runner wanted chains_before).0 in
    (accepts rules_in (codes "iptables") s (key (tcp 22)) ≡ has_key (key (tcp 22)) wanted)
    × (accepts rules_in (codes "ip6tables") s (key (tcp 22)) ≡ has_key (key (tcp 22)) wanted)
unfolding apply sample_runner diff_ports parse_iptables_chain_rules rule_args change rules_in
    text_discrete ℕ_discrete join key
apply-exact_example =
    let orderly : IsOrderly (chains_before []) = (
      ((omega arith, omega arith, inl refl), ((omega arith, omega arith, inl refl), tt)),
      (refl, (refl, tt)),
    ) in
    apply-exact sample_runner rules_in sample_runner-IsRunner wanted chains_before (key (tcp 22))
      orderly orderly refl
