-- ===== src/Firewall/Iptables/Rules.antt =====
-- What `Apply` leaves in the owned chains.
use bulb.Base.{
  ◌≡◌, ◌≢◌, refl, sym, ap, true, false, not, ◌&&◌, ◌||◌, List, [], ◌∷◌, Text, codes, ◌∙◌, subst,
  contains, contains-append, text_discrete, arith, inl, inr, ite,
}
use mathlib.Core.Bool.{false≢true}
use bulb.Base.Result.{ok, Result-cases}
use bulb.Firewall.Ports.{
  PortSpec, PortKey, port_key_discrete, key, has_key, diff_ports, stable_unique_ports,
}
use bulb.Firewall.Ports.Sets.{has_key-diff_ports, has_key-stable_unique_ports}
use bulb.Firewall.Commands.{CommandRunner}
use bulb.Firewall.Iptables.Listing.{has_key-parse}
use bulb.Firewall.Iptables.{
  parse_iptables_chain_rules, list_args, iptables_chain, rule_args, ensure_chain, ensure_jump,
  delete_rules, append_rules, reconcile_owned_rules, apply_binary, apply,
}
use bulb.Firewall.Iptables.Runner.{
  IsRunner, Distinct, IsOrderly, accepts, contains-without_first, without_first-Distinct,
}

module _ {S : Type 0} (runner : CommandRunner S) (rules : Text → S → List PortKey)
    (laws : IsRunner runner rules) where
  append_rules-done :
      (b : Text) (ps : List PortSpec) (s : S) (k : PortKey)
      → (append_rules runner b ps s).1 ≡ ok tt
      → accepts rules b (append_rules runner b ps s).0 k ≡ (accepts rules b s k || has_key k ps)
  unfolding append_rules has_key
  append_rules-done b [] s k h = ground arith
  append_rules-done b (p ∷ ps) s k h = ground (
    arith,
    laws.appended b p s,
    contains-append port_key_discrete k (rules b s) (key p ∷ []),
    append_rules-done b ps (runner.run (rule_args (codes "-A") b p) s).0 k,
  )

  append_rules-frame :
      (b c : Text) (ps : List PortSpec) (s : S)
      → c ≢ b
      → rules c (append_rules runner b ps s).0 ≡ rules c s
  unfolding append_rules
  append_rules-frame b c [] s ne = refl
  append_rules-frame b c (p ∷ ps) s ne = ground (
    arith,
    laws.other (codes "-A") b p s c ne,
    append_rules-frame b c ps (runner.run (rule_args (codes "-A") b p) s).0 ne,
  )

  delete_rules-done :
      (b : Text) (ps : List PortSpec) (s : S) (k : PortKey)
      → Distinct (rules b s)
      → (delete_rules runner b ps s).1 ≡ ok tt
      → accepts rules b (delete_rules runner b ps s).0 k
        ≡ (accepts rules b s k && not (has_key k ps))
  unfolding delete_rules has_key
  delete_rules-done b [] s k d h = ground arith
  delete_rules-done b (p ∷ ps) s k d h =
      let t = (runner.run (rule_args (codes "-D") b p) s).0 in
      elim (Result-cases (runner.run (rule_args (codes "-D") b p) s).1) [
        | inr (e, failed) ↦ absurd (ground arith)
        | inl (_, done) ↦
            let gone = laws.deleted b p s done in
            let left = subst Distinct (sym gone) (without_first-Distinct (key p) (rules b s) d) in
            ground (
              arith,
              ap (contains port_key_discrete k) gone,
              contains-without_first k (key p) (rules b s) d,
              delete_rules-done b ps t k left,
            )
      ]

  delete_rules-frame :
      (b c : Text) (ps : List PortSpec) (s : S)
      → c ≢ b
      → rules c (delete_rules runner b ps s).0 ≡ rules c s
  unfolding delete_rules
  delete_rules-frame b c [] s ne = refl
  delete_rules-frame b c (p ∷ ps) s ne = ground (
    arith,
    laws.other (codes "-D") b p s c ne,
    delete_rules-frame b c ps (runner.run (rule_args (codes "-D") b p) s).0 ne,
  )

  reconcile_owned_rules-done :
      (b : Text) (desired : List PortSpec) (s : S) (k : PortKey)
      → IsOrderly (rules b s)
      → (reconcile_owned_rules runner b desired s).1 ≡ ok tt
      → accepts rules b (reconcile_owned_rules runner b desired s).0 k ≡ has_key k desired
  unfolding reconcile_owned_rules
  reconcile_owned_rules-done b desired s k (orderly, distinct) done =
      elim (Result-cases (runner.output (list_args b iptables_chain) s)) [
        | inr (e, failed) ↦ absurd (ground arith)
        | inl (out, read) ↦
            let current = parse_iptables_chain_rules out in
            let want = stable_unique_ports desired in
            let t = (delete_rules runner b (diff_ports current want) s).0 in
            let found : has_key k current ≡ accepts rules b s k =
              ap (λ text. has_key k (parse_iptables_chain_rules text)) (laws.listed b s out read)
              ∙ has_key-parse (rules b s) k orderly in
            ground (
              arith,
              found,
              delete_rules-done b (diff_ports current want) s k distinct,
              append_rules-done b (diff_ports want current) t k,
              has_key-diff_ports k current want,
              has_key-diff_ports k want current,
              has_key-stable_unique_ports k desired,
            )
      ]

  reconcile_owned_rules-frame :
      (b c : Text) (desired : List PortSpec) (s : S)
      → c ≢ b
      → rules c (reconcile_owned_rules runner b desired s).0 ≡ rules c s
  unfolding reconcile_owned_rules
  reconcile_owned_rules-frame b c desired s ne =
      elim (Result-cases (runner.output (list_args b iptables_chain) s)) [
        | inr (e, failed) ↦ ground arith
        | inl (out, read) ↦
            let current = parse_iptables_chain_rules out in
            let want = stable_unique_ports desired in
            let t = (delete_rules runner b (diff_ports current want) s).0 in
            ground (
              arith,
              delete_rules-frame b c (diff_ports current want) s ne,
              append_rules-frame b c (diff_ports want current) t ne,
            )
      ]

  ensure_chain-frame : (b c : Text) (s : S) → rules c (ensure_chain runner b s).0 ≡ rules c s
  unfolding ensure_chain
  ensure_chain-frame b c s = ground (arith, laws.new_chain b c s)

  ensure_jump-frame : (b c : Text) (s : S) → rules c (ensure_jump runner b s).0 ≡ rules c s
  unfolding ensure_jump
  ensure_jump-frame b c s = ground (arith, laws.jumped b c s)

  apply_binary-done :
      (b : Text) (desired : List PortSpec) (s : S) (k : PortKey)
      → IsOrderly (rules b s)
      → (apply_binary runner b desired s).1 ≡ ok tt
      → accepts rules b (apply_binary runner b desired s).0 k ≡ has_key k desired
  unfolding apply_binary
  apply_binary-done b desired s k orderly done =
      let t = (ensure_chain runner b s).0 in
      let u = (ensure_jump runner b t).0 in
      let same = ensure_jump-frame b b t ∙ ensure_chain-frame b b s in
      ground (arith, reconcile_owned_rules-done b desired u k (subst IsOrderly (sym same) orderly))

  apply_binary-frame :
      (b c : Text) (desired : List PortSpec) (s : S)
      → c ≢ b
      → rules c (apply_binary runner b desired s).0 ≡ rules c s
  unfolding apply_binary
  apply_binary-frame b c desired s ne =
      let t = (ensure_chain runner b s).0 in
      ground (
        arith,
        ensure_chain-frame b c s,
        ensure_jump-frame b c t,
        reconcile_owned_rules-frame b c desired (ensure_jump runner b t).0 ne,
      )

  families_differ : codes "iptables" ≢ codes "ip6tables"
  unfolding text_discrete
  families_differ e =
      false≢true (sym (ap (λ t. ite (text_discrete t (codes "iptables")) true false) e))

  -- After a call that succeeds, the owned chains of both families accept the desired ports, and no
  -- others. Both chains held TCP and UDP ports only before it, and no rule twice.
  pub apply-exact :
      (desired : List PortSpec) (s : S) (k : PortKey)
      → IsOrderly (rules (codes "iptables") s)
      → IsOrderly (rules (codes "ip6tables") s)
      → (apply runner desired s).1 ≡ ok tt
      → (accepts rules (codes "iptables") (apply runner desired s).0 k ≡ has_key k desired)
        × (accepts rules (codes "ip6tables") (apply runner desired s).0 k ≡ has_key k desired)
  unfolding apply
  apply-exact desired s k orderly₄ orderly₆ done =
      let t = (apply_binary runner (codes "iptables") desired s).0 in
      let kept₄ =
        apply_binary-frame (codes "ip6tables") (codes "iptables") desired t families_differ in
      let kept₆ =
        apply_binary-frame (codes "iptables") (codes "ip6tables") desired s
          (λ e. families_differ (sym e)) in
      (
        ground (
          arith,
          apply_binary-done (codes "iptables") desired s k orderly₄,
          ap (contains port_key_discrete k) kept₄,
        ),
        ground (
          arith,
          apply_binary-done (codes "ip6tables") desired t k (subst IsOrderly (sym kept₆) orderly₆),
        ),
      )
