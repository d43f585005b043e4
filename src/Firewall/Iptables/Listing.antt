-- ===== src/Firewall/Iptables/Listing.antt =====
-- What `iptables -S` prints of the owned chain, and what the parser reads of it.
use bulb.Base.{
  ℕ, ◌≤◌, ◌<◌, ◌≡◌, ◌≢◌, ◌⊎◌, refl, sym, ap, ap₂, ◌∙◌, true, false, List, [], ◌∷◌, ◌++◌, map, Text,
  codes, decimal, digits_from-decimal, decimal-digits, all_digits, join, split_on, split_on-join,
  trim_space, fields, text_discrete, ℕ_discrete, if_neg, subst, is_space, IsFree, All, contains,
  arith, inl, inr,
}
use mathlib.Core.Bool.{false≢true}
use bulb.Base.Hosts.{decimal-IsFree}
use bulb.Base.Words.{
  starts, ends, ends_last, ends-join, trim_space-tight, IsWord, decimal-IsWord, fields-join,
  join-IsFree,
}
use bulb.Firewall.Ports.{
  PortKey, key, has_key, port_key_discrete, spec_from_key, protocol_string, protocol_from_string,
}
use bulb.Firewall.Ports.Sets.{has_key-stable_unique_ports}
use bulb.Firewall.Iptables.{
  iptables_chain, parse_port, see_fields, parse_rules, parse_iptables_chain_rules,
}

-- A rule of the owned chain, as the backend makes them: a TCP or a UDP port.
abbrev pub IsRule : PortKey → Type 0
IsRule k =
    (1 ≤ k.port) × (k.port < 65536) × ((k.protocol ≡ codes "tcp") ⊎ (k.protocol ≡ codes "udp"))

-- The rule as `iptables -S` prints it, with the match module that `-p` loads.
abbrev pub rule_words : Text → Text → List Text
rule_words protocol port =
    codes "-A"
    ∷ iptables_chain
    ∷ codes "-p"
    ∷ protocol
    ∷ codes "-m"
    ∷ protocol
    ∷ codes "--dport"
    ∷ port
    ∷ codes "-j"
    ∷ codes "ACCEPT"
    ∷ []

abbrev pub rule_line : PortKey → Text
rule_line k = join (codes " ") (rule_words k.protocol (decimal k.port))

abbrev new_line : Text
new_line = codes "-N " ++ iptables_chain

-- The chain, and its rules in their order, without the last line's end, which ExecRunner trims.
abbrev pub chain_text : List PortKey → Text
chain_text ks = join (10 ∷ []) (new_line ∷ map rule_line ks)

decimal_other : (n : ℕ) (flag : Text) → all_digits flag ≡ false → decimal n ≢ flag
decimal_other n flag h e = false≢true (sym h ∙ ap all_digits (sym e) ∙ decimal-digits n)

see_fields_lem :
    (protocol port : Text)
    → protocol ≢ codes "-p"
    → port ≢ codes "-p"
    → port ≢ codes "--dport"
    → see_fields (rule_words protocol port) ([], 0) ≡ (protocol, parse_port port)
unfolding see_fields text_discrete ℕ_discrete
see_fields_lem protocol port p p' d' =
    rw
      (
        if_neg (text_discrete protocol (codes "-p")) p true false,
        if_neg (text_discrete port (codes "-p")) p' true false,
        if_neg (text_discrete port (codes "--dport")) d' true false,
      )
      refl

-- A property of both names of a protocol.
known_name :
    (Q : Text → Type 0) (protocol : Text)
    → (protocol ≡ codes "tcp") ⊎ (protocol ≡ codes "udp")
    → Q (codes "tcp")
    → Q (codes "udp")
    → Q protocol
known_name Q protocol (inl e) t u = subst Q (sym e) t
known_name Q protocol (inr e) t u = subst Q (sym e) u

words-IsWord : (k : PortKey) → IsRule k → All IsWord (rule_words k.protocol (decimal k.port))
unfolding is_space
words-IsWord k (low, high, known) =
    let name = known_name IsWord k.protocol known (refl, refl) (refl, refl) in
    (
      (refl, refl),
      (
        (refl, refl),
        (
          (refl, refl),
          (
            name,
            (
              (refl, refl),
              (name, ((refl, refl), (decimal-IsWord k.port, ((refl, refl), ((refl, refl), tt))))),
            ),
          ),
        ),
      ),
    )

rule_line-IsFree : (k : PortKey) → IsRule k → IsFree 10 (rule_line k)
unfolding ℕ_discrete
rule_line-IsFree k (low, high, known) =
    let name = known_name (IsFree 10) k.protocol known refl refl in
    join-IsFree 10 (codes " ") (rule_words k.protocol (decimal k.port)) refl (
      refl,
      (
        refl,
        (refl, (name, (refl, (name, (refl, (decimal-IsFree 10 k.port refl, (refl, (refl, tt)))))))),
      ),
    )

rule_line-trimmed : (k : PortKey) → trim_space (rule_line k) ≡ rule_line k
unfolding join is_space
rule_line-trimmed k =
    trim_space-tight (rule_line k) refl
      (ends-join (codes " ") (rule_words k.protocol (decimal k.port)) refl)

not_new : (k : PortKey) → rule_line k ≢ codes "-N " ++ iptables_chain
unfolding join
not_new k e = cc

parse_port-decimal : (n : ℕ) → n < 65536 → parse_port (decimal n) ≡ n
unfolding parse_port
parse_port-decimal n h = ground (arith, digits_from-decimal n)

parse_rules-line :
    (k : PortKey) (lines : List Text)
    → IsRule k
    → parse_rules (rule_line k ∷ lines) ≡ spec_from_key k ∷ parse_rules lines
unfolding parse_rules spec_from_key
parse_rules-line k lines (low, high, known) =
    let words = rule_words k.protocol (decimal k.port) in
    let read : see_fields (fields (trim_space (rule_line k))) ([], 0) ≡ (k.protocol, k.port) =
      ap (λ t. see_fields (fields t) ([], 0)) (rule_line-trimmed k)
      ∙ ap (λ ws. see_fields ws ([], 0))
          (fields-join (codes "-A") _ (words-IsWord k (low, high, known)))
      ∙ see_fields_lem k.protocol (decimal k.port)
          (known_name (λ t. t ≢ codes "-p") k.protocol known (λ e. cc) (λ e. cc))
          (decimal_other k.port (codes "-p") refl) (decimal_other k.port (codes "--dport") refl)
      ∙ ap (λ (n : ℕ). (k.protocol, n)) (parse_port-decimal k.port high) in
    rw
      (
        read,
        rule_line-trimmed k,
        if_neg (text_discrete (rule_line k) (codes "-N " ++ iptables_chain)) (not_new k) true false,
      )
      (ground (arith, low))

parse_rules-lines :
    (ks : List PortKey) → All IsRule ks → parse_rules (map rule_line ks) ≡ map spec_from_key ks
unfolding parse_rules
parse_rules-lines [] h = refl
parse_rules-lines (k ∷ ks) (p, h) =
    parse_rules-line k (map rule_line ks) p ∙ ap (λ r. spec_from_key k ∷ r) (parse_rules-lines ks h)

key_of_rule : (k : PortKey) → IsRule k → key (spec_from_key k) ≡ k
unfolding key spec_from_key protocol_string protocol_from_string text_discrete ℕ_discrete
key_of_rule k (low, high, known) =
    ap (λ (t : Text). record { port = k.port; protocol = t })
      (known_name (λ t. protocol_string (protocol_from_string t) ≡ t) k.protocol known refl refl)

keys_of_rules : (ks : List PortKey) → All IsRule ks → map key (map spec_from_key ks) ≡ ks
keys_of_rules [] h = refl
keys_of_rules (k ∷ ks) (p, h) = ap₂ (λ j js. j ∷ js) (key_of_rule k p) (keys_of_rules ks h)

ends-line : (k : PortKey) → ends (rule_line k) ≡ true
unfolding is_space
ends-line k = ends-join (codes " ") (rule_words k.protocol (decimal k.port)) refl

ends_last-lines :
    (s : Text) (ks : List PortKey) → ends s ≡ true → ends_last (s ∷ map rule_line ks) ≡ true
ends_last-lines s [] h = h
ends_last-lines s (k ∷ ks) h = ends_last-lines (rule_line k) ks (ends-line k)

starts-chain : (ks : List PortKey) → starts (chain_text ks) ≡ true
unfolding join is_space
starts-chain [] = refl
starts-chain (k ∷ ks) = refl

chain_text-trimmed : (ks : List PortKey) → trim_space (chain_text ks) ≡ chain_text ks
unfolding is_space
chain_text-trimmed ks =
    trim_space-tight (chain_text ks) (starts-chain ks)
      (ends-join (10 ∷ []) (new_line ∷ map rule_line ks) (ends_last-lines new_line ks refl))

lines-IsFree : (ks : List PortKey) → All IsRule ks → All (IsFree 10) (map rule_line ks)
lines-IsFree [] h = tt
lines-IsFree (k ∷ ks) (p, h) = (rule_line-IsFree k p, lines-IsFree ks h)

-- The parser finds the chain's rules, and no others, in what `iptables -S` prints of it.
pub has_key-parse :
    (ks : List PortKey) (k : PortKey)
    → All IsRule ks
    → has_key k (parse_iptables_chain_rules (chain_text ks)) ≡ contains port_key_discrete k ks
unfolding parse_iptables_chain_rules has_key parse_rules trim_space text_discrete ℕ_discrete
has_key-parse ks k rules =
    let lines : split_on 10 (trim_space (chain_text ks)) ≡ new_line ∷ map rule_line ks =
      ap (split_on 10) (chain_text-trimmed ks)
      ∙ split_on-join 10 new_line (map rule_line ks) refl (lines-IsFree ks rules) in
    has_key-stable_unique_ports k (parse_rules (split_on 10 (trim_space (chain_text ks))))
    ∙ ap (λ ls. has_key k (parse_rules ls)) lines
    ∙ ap (has_key k) (parse_rules-lines ks rules)
    ∙ ap (contains port_key_discrete k) (keys_of_rules ks rules)
