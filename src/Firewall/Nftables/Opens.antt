-- ===== src/Firewall/Nftables/Opens.antt =====
-- Which ports a call of the nftables backend opens.
use bulb.Base.{
  ℕ, ◌≡◌, ◌≢◌, refl, sym, ap, ◌∙◌, ◌⊎◌, inl, inr, Bool, true, false, not, ◌&&◌, ◌||◌, List, [], ◌∷◌,
  Text, codes, is_empty, trim_space, contains_text, contains, ℕ_discrete, text_discrete, All, ite,
  Bool-cases, IsFree, if_pos, if_neg,
}
use mathlib.Core.Bool.{false≢true}
use bulb.Base.Result.{ok, ok≢err, wrap-eq-ok, Result-cases}
use bulb.Firewall.Ports.{
  PortSpec, PortKey, port_key_discrete, key, has_key, stable_unique_ports, protocol_string,
  protocol_tcp, protocol_udp,
}
use bulb.Firewall.Ports.Sets.{has_key-stable_unique_ports}
use bulb.Firewall.Ports.Kept.{stable_unique_ports-All}
use bulb.Firewall.Commands.{CommandRunner}
use bulb.Firewall.Nftables.{
  split_from, split_ports_by_protocol, join_ports, nft_ruleset, list_table_args, load_args,
  is_nft_no_such_table, apply_listed, apply,
}
use bulb.Firewall.Nftables.Elements.{read_elements, read_elements-join_ports, join_ports-IsFree}

-- The protocols that the API server admits.
abbrev pub IsProtocol : Text → Type 0
IsProtocol p = (p ≡ protocol_tcp) ⊎ (p ≡ protocol_udp)

abbrev tcp_key : ℕ → PortKey
tcp_key p = record { port = p; protocol = codes "tcp" }

abbrev udp_key : ℕ → PortKey
udp_key p = record { port = p; protocol = codes "udp" }

-- A key among the keys of its own protocol, and of another.
match_same :
    (f : Text) (n m : ℕ) (b : Bool)
    → ite
        (port_key_discrete (record { port = n; protocol = f }) (record { port = m; protocol = f }))
        true
        b
      ≡ ite (ℕ_discrete n m) true b
match_same f n m b = elim (ℕ_discrete n m) [
  | yes same ↦
      if_pos (port_key_discrete _ _) (ap (λ x. record { port = x; protocol = f }) same) true b
      ∙ sym (if_pos (ℕ_discrete n m) same true b)
  | no other ↦
      if_neg (port_key_discrete _ _) (λ e. other (ap (λ (k : PortKey). k.port) e)) true b
      ∙ sym (if_neg (ℕ_discrete n m) other true b)
]

match_other :
    (f g : Text) (n m : ℕ) (b : Bool)
    → f ≢ g
    → ite
        (port_key_discrete (record { port = n; protocol = f }) (record { port = m; protocol = g }))
        true
        b
      ≡ b
match_other f g n m b ne =
    if_neg (port_key_discrete _ _) (λ e. ne (ap (λ (k : PortKey). k.protocol) e)) true b

key-tcp : (p : PortSpec) → p.protocol ≡ protocol_tcp → key p ≡ tcp_key p.port
unfolding key protocol_string
key-tcp p e = ap (λ q. record { port = p.port; protocol = protocol_string q }) e

key-udp : (p : PortSpec) → p.protocol ≡ protocol_udp → key p ≡ udp_key p.port
unfolding key protocol_string
key-udp p e = ap (λ q. record { port = p.port; protocol = protocol_string q }) e

differ : codes "tcp" ≢ codes "udp"
unfolding text_discrete
differ e = false≢true (sym (ap (λ t. ite (text_discrete t (codes "tcp")) true false) e))

split_from-tcp :
    (p : PortSpec) (ps : List PortSpec)
    → p.protocol ≡ protocol_tcp
    → split_from (p ∷ ps) ≡ (p.port ∷ (split_from ps).0, (split_from ps).1)
unfolding split_from text_discrete
split_from-tcp p ps e = rw e refl

split_from-udp :
    (p : PortSpec) (ps : List PortSpec)
    → p.protocol ≡ protocol_udp
    → split_from (p ∷ ps) ≡ ((split_from ps).0, p.port ∷ (split_from ps).1)
unfolding split_from text_discrete
split_from-udp p ps e = rw e refl

has_key-cons :
    (k k' : PortKey) (p : PortSpec) (ps : List PortSpec)
    → key p ≡ k'
    → has_key k (p ∷ ps) ≡ ite (port_key_discrete k k') true (has_key k ps)
unfolding has_key
has_key-cons k k' p ps e = ap (λ q. ite (port_key_discrete k q) true (has_key k ps)) e

split_from-has_key :
    (n : ℕ) (ps : List PortSpec)
    → All (λ p. IsProtocol p.protocol) ps
    → (contains ℕ_discrete n (split_from ps).0 ≡ has_key (tcp_key n) ps)
      × (contains ℕ_discrete n (split_from ps).1 ≡ has_key (udp_key n) ps)
unfolding has_key split_from
split_from-has_key n [] h = (refl, refl)
split_from-has_key n (p ∷ ps) (inl tcp, h) =
    let (t, u) = split_from-has_key n ps h in
    let one = split_from-tcp p ps tcp in
    let k = key-tcp p tcp in
    (
      ap (λ r. contains ℕ_discrete n r.0) one
          ∙ ap (ite (ℕ_discrete n p.port) true) t
          ∙ sym (match_same (codes "tcp") n p.port (has_key (tcp_key n) ps))
          ∙ sym (has_key-cons (tcp_key n) (tcp_key p.port) p ps k),
      ap (λ r. contains ℕ_discrete n r.1) one
          ∙ u
          ∙ sym (
              match_other (codes "udp") (codes "tcp") n p.port (has_key (udp_key n) ps)
                (λ e. differ (sym e)))
          ∙ sym (has_key-cons (udp_key n) (tcp_key p.port) p ps k),
    )
split_from-has_key n (p ∷ ps) (inr udp, h) =
    let (t, u) = split_from-has_key n ps h in
    let one = split_from-udp p ps udp in
    let k = key-udp p udp in
    (
      ap (λ r. contains ℕ_discrete n r.0) one
          ∙ t
          ∙ sym (match_other (codes "tcp") (codes "udp") n p.port (has_key (tcp_key n) ps) differ)
          ∙ sym (has_key-cons (tcp_key n) (udp_key p.port) p ps k),
      ap (λ r. contains ℕ_discrete n r.1) one
          ∙ ap (ite (ℕ_discrete n p.port) true) u
          ∙ sym (match_same (codes "udp") n p.port (has_key (udp_key n) ps))
          ∙ sym (has_key-cons (udp_key n) (udp_key p.port) p ps k),
    )

split-has_key :
    (n : ℕ) (desired : List PortSpec)
    → All (λ p. IsProtocol p.protocol) desired
    → (contains ℕ_discrete n (split_ports_by_protocol desired).0 ≡ has_key (tcp_key n) desired)
      × (contains ℕ_discrete n (split_ports_by_protocol desired).1 ≡ has_key (udp_key n) desired)
unfolding split_ports_by_protocol
split-has_key n desired h =
    let (t, u) =
      split_from-has_key n (stable_unique_ports desired)
        (stable_unique_ports-All IsProtocol desired h) in
    (
      t ∙ has_key-stable_unique_ports (tcp_key n) desired,
      u ∙ has_key-stable_unique_ports (udp_key n) desired,
    )

-- The key of a port of one of the sets.
abbrev pub set_key : Bool → ℕ → PortKey
set_key false n = tcp_key n
set_key true n = udp_key n

abbrev pub one_of : {A : Type 0} → Bool → A × A → A
one_of false (a, b) = a
one_of true (a, b) = b

-- What nft documents of a load, `open_at` telling the ports of the two sets, the second being
-- that of UDP: the elements that the text gives, which has no brace, are added to those that the
-- table has.
pub record IsNft {S : Type 0} (runner : CommandRunner S) (open_at : S → Bool → ℕ → Bool)
    : Type 0 where
  pub loaded :
      (tcp udp : Text) (s : S)
      → IsFree b'}' tcp
      → IsFree b'}' udp
      → (runner.run_input (nft_ruleset tcp udp) load_args s).1 ≡ ok tt
      → (set : Bool) (n : ℕ)
      → open_at (runner.run_input (nft_ruleset tcp udp) load_args s).0 set n
        ≡ (contains ℕ_discrete n (read_elements (one_of set (tcp, udp))) || open_at s set n)

module _ {S : Type 0} (runner : CommandRunner S) (open_at : S → Bool → ℕ → Bool)
    (laws : IsNft runner open_at) where
  IsOpened : List PortSpec → S → S → Type 0
  IsOpened desired s t =
      (set : Bool) (n : ℕ) → open_at t set n ≡ (has_key (set_key set n) desired || open_at s set n)

  load_lem :
      (desired : List PortSpec) (s : S)
      → All (λ p. IsProtocol p.protocol) desired
      → let ports = split_ports_by_protocol desired in
        let text = nft_ruleset (join_ports ports.0) (join_ports ports.1) in
        (runner.run_input text load_args s).1 ≡ ok tt
        → IsOpened desired s (runner.run_input text load_args s).0
  unfolding IsOpened
  load_lem desired s h loaded false n =
      let ports = split_ports_by_protocol desired in
      laws.loaded (join_ports ports.0) (join_ports ports.1) s (join_ports-IsFree ports.0)
        (join_ports-IsFree ports.1) loaded false n
      ∙ ap (λ es. contains ℕ_discrete n es || open_at s false n) (read_elements-join_ports ports.0)
      ∙ ap (λ b. b || open_at s false n) (split-has_key n desired h).0
  load_lem desired s h loaded true n =
      let ports = split_ports_by_protocol desired in
      laws.loaded (join_ports ports.0) (join_ports ports.1) s (join_ports-IsFree ports.0)
        (join_ports-IsFree ports.1) loaded true n
      ∙ ap (λ es. contains ℕ_discrete n es || open_at s true n) (read_elements-join_ports ports.1)
      ∙ ap (λ b. b || open_at s true n) (split-has_key n desired h).1

  listed_lem :
      (out : Text) (desired : List PortSpec) (s : S)
      → All (λ p. IsProtocol p.protocol) desired
      → (apply_listed runner out desired s).1 ≡ ok tt
      → IsOpened desired s (apply_listed runner out desired s).0
  unfolding apply_listed
  listed_lem out desired s h done' =
      elim (Bool-cases (
        not (is_empty (trim_space out))
        && not (contains_text (codes "table inet bulb_firewall_agent {") out))) [
          | inl odd ↦ absurd (ok≢err (sym (rw (odd, apply_listed) at done')))
          | inr plain ↦
              rw (plain, apply_listed)
                (load_lem desired s h (
                  wrap-eq-ok (codes "apply nftables ruleset") _
                    (rw (plain, apply_listed) at done')))
        ]

  -- After a call that succeeds, for ports of TCP and UDP only, the sets have the desired ports and
  -- every port that they had before: a port that is no longer desired stays open.
  pub apply-opens :
      (desired : List PortSpec) (s : S)
      → All (λ p. IsProtocol p.protocol) desired
      → (apply runner desired s).1 ≡ ok tt
      → (set : Bool) (n : ℕ)
      → open_at (apply runner desired s).0 set n
        ≡ (has_key (set_key set n) desired || open_at s set n)
  unfolding apply IsOpened
  apply-opens desired s h done' = elim (Result-cases (runner.output list_table_args s)) [
    | inl (out, listed) ↦
        rw (listed, apply) (listed_lem out desired s h (rw (listed, apply) at done'))
    | inr (e, failed') ↦ elim (Bool-cases (is_nft_no_such_table e)) [
      | inr other ↦ absurd (ok≢err (sym (rw (failed', apply, other) at done')))
      | inl missing ↦
          rw (failed', apply, missing)
            (listed_lem (runner.error_output list_table_args s) desired s h
              (rw (failed', apply, missing) at done'))
    ]
  ]
