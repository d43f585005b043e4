-- ===== src/Firewall/Iptables/Runner.antt =====
-- What the iptables backend relies on: the owned chains of a runner, and their rules.
use bulb.Base.{
  ◌≡◌, ◌≢◌, refl, ap, Bool, true, false, ◌&&◌, List, [], ◌∷◌, Text, codes, ◌++◌, All, contains,
  if_pos, if_neg, arith, ite,
}
use bulb.Base.Result.{ok}
use bulb.Firewall.Ports.{PortSpec, PortKey, port_key_discrete, key}
use bulb.Firewall.Commands.{CommandRunner}
use bulb.Firewall.Iptables.Listing.{IsRule, chain_text}
use bulb.Firewall.Iptables.{list_args, iptables_chain, new_args, jump_args, rule_args}

-- `iptables -D`: the first rule that matches goes.
abbrev pub without_first : PortKey → List PortKey → List PortKey
without_first k [] = []
without_first k (j ∷ js) = ite (port_key_discrete j k) js (j ∷ without_first k js)

-- What iptables documents, `rules` being the rules of a binary's owned chain in their order: the
-- listing prints them, `-A` adds a rule at the end, `-D` takes the first one that matches away, and
-- no other call or binary touches them. It is said of the calls that succeed, except that a failing
-- call of one binary does not touch the other's chain.
pub record IsRunner {S : Type 0} (runner : CommandRunner S) (rules : Text → S → List PortKey)
    : Type 0 where
  pub listed :
      (b : Text) (s : S) (out : Text)
      → runner.output (list_args b iptables_chain) s ≡ ok out
      → out ≡ chain_text (rules b s)
  pub appended :
      (b : Text) (p : PortSpec) (s : S)
      → (runner.run (rule_args (codes "-A") b p) s).1 ≡ ok tt
      → rules b (runner.run (rule_args (codes "-A") b p) s).0 ≡ rules b s ++ key p ∷ []
  pub deleted :
      (b : Text) (p : PortSpec) (s : S)
      → (runner.run (rule_args (codes "-D") b p) s).1 ≡ ok tt
      → rules b (runner.run (rule_args (codes "-D") b p) s).0 ≡ without_first (key p) (rules b s)
  pub other :
      (verb b : Text) (p : PortSpec) (s : S) (c : Text)
      → c ≢ b
      → rules c (runner.run (rule_args verb b p) s).0 ≡ rules c s
  pub new_chain : (b c : Text) (s : S) → rules c (runner.run (new_args b) s).0 ≡ rules c s
  pub jumped : (b c : Text) (s : S) → rules c (runner.run (jump_args b) s).0 ≡ rules c s

abbrev pub Distinct : List PortKey → Type 0
Distinct [] = Unit
Distinct (k ∷ ks) = (contains port_key_discrete k ks ≡ false) × Distinct ks

-- A chain that holds the backend's rules only, and none of them twice.
abbrev pub IsOrderly : List PortKey → Type 0
IsOrderly ks = All IsRule ks × Distinct ks

pub contains-without_first :
    (j k : PortKey) (ks : List PortKey)
    → Distinct ks
    → contains port_key_discrete j (without_first k ks)
      ≡ (contains port_key_discrete j ks && ite (port_key_discrete j k) false true)
contains-without_first j k [] d = refl
contains-without_first j k (i ∷ ks) (new, d) = elim (port_key_discrete i k) [
  | yes e ↦ elim (port_key_discrete j i) [
    | yes f ↦ ground (arith, ap (λ x. contains port_key_discrete x ks) f)
    | no nf ↦ ground arith
  ]
  | no ne ↦ ground (arith, contains-without_first j k ks d)
]

pub without_first-Distinct :
    (k : PortKey) (ks : List PortKey) → Distinct ks → Distinct (without_first k ks)
without_first-Distinct k [] d = tt
without_first-Distinct k (i ∷ ks) (new, d) = elim (port_key_discrete i k) [
  | yes e ↦ rw (if_pos _ e) d
  | no ne ↦
      rw (if_neg _ ne)
        (ground (arith, new, contains-without_first i k ks d), without_first-Distinct k ks d)
]

-- A binary's chain accepts a port.
abbrev pub accepts : {S : Type 0} → (Text → S → List PortKey) → Text → S → PortKey → Bool
accepts rules b s k = contains port_key_discrete k (rules b s)
