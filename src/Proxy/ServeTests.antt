-- ===== src/Proxy/ServeTests.antt =====
-- `Serve` on a network that numbers its sockets, and binds no address twice.
use bulb.Base.{
  ℕ, suc, ◌+◌, ◌≡◌, refl, sym, ap, ◌∙◌, Bool, true, false, not, ◌||◌, List, [], ◌∷◌, Text, codes,
  ℕ_discrete, text_discrete, contains, keep, contains-keep, ite, arith,
}
use bulb.Base.Result.{M, Result, ok, err}
use bulb.Proxy.Pairs.{Spec}
use bulb.Proxy.Serve.{Network, serve}
use bulb.Proxy.Serve.Closed.{IsNetwork, serve-closes}

-- The sockets that are open; a new one has the least number above them all.
abbrev Sockets : Type 0
Sockets = List ℕ

abbrev above : List ℕ → ℕ
above [] = 0
above (n ∷ ns) = suc (n + above ns)

abbrev is_open : Sockets → ℕ → Bool
is_open s h = contains ℕ_discrete h s

abbrev bind : Bool → M Sockets ℕ
bind true s = (s, err (codes "address already in use"))
bind false s = (above s ∷ s, ok (above s))

-- One address is taken by another program.
abbrev is_taken : Text → Bool
is_taken addr = ite (text_discrete addr (codes "0.0.0.0:80")) true false

unfoldable sample_network : Network Sockets
sample_network = record {
  listen = λ proto addr. bind (is_taken addr);
  close = λ l. keep (λ h. not (ite (ℕ_discrete h l) true false));
}

either : {A : Type 0} (d : Dec A) (b : Bool) → ite d true b ≡ (ite d true false || b)
either (yes a) b = refl
either (no n) b = refl

above-fresh : (s : Sockets) (n : ℕ) → contains ℕ_discrete (n + above s) s ≡ false
above-fresh [] n = refl
above-fresh (m ∷ s) n = ground (arith, above-fresh s (suc (n + m)))

bound :
    (b : Bool) (s t : Sockets) (l : ℕ)
    → bind b s ≡ (t, ok l)
    → (is_open s l ≡ false)
      × ((h : ℕ) → is_open t h ≡ (contains ℕ_discrete h (l ∷ []) || is_open s h))
bound true s t l e = cc
bound false s t l e =
    let same : t ≡ above s ∷ s = cc in
    let new : l ≡ above s = cc in
    let zero_above : above s ≡ 0 + above s = omega arith in
    (
      ap (is_open s) new ∙ ap (is_open s) zero_above ∙ above-fresh s 0,
      λ h.
          ap (λ u. is_open u h) same
          ∙ either (ℕ_discrete h (above s)) (is_open s h)
          ∙ ap (λ x. contains ℕ_discrete h (x ∷ []) || is_open s h) (sym new),
    )

unbound : (b : Bool) (s t : Sockets) (e : Text) → bind b s ≡ (t, err e) → t ≡ s
unbound true s t e h = cc
unbound false s t e h = cc

sample_network-IsNetwork : IsNetwork sample_network is_open
unfolding sample_network
sample_network-IsNetwork = record {
  listened = λ proto addr s t l e. bound (is_taken addr) s t l e;
  failed = λ proto addr s t e h k. ap (λ u. is_open u k) (unbound (is_taken addr) s t e h);
  closed = λ l s h. contains-keep ℕ_discrete h (λ x. not (ite (ℕ_discrete x l) true false)) s;
}

abbrev rule : Text → Text → Spec
rule listen protocol = record {
  listen = listen;
  upstream = codes "10.0.0.1:8080";
  protocol = protocol;
  proxy_protocol = codes "";
  endpoints = [];
}

-- The third rule cannot be bound, when two sockets are open.
abbrev rules : List Spec
rules =
    rule (codes "0.0.0.0:8080") (codes "tcp")
    ∷ rule (codes "0.0.0.0:53") (codes "udp")
    ∷ rule (codes "0.0.0.0:80") (codes "tcp")
    ∷ []

-- With a health server, on the given address.
abbrev served : Text → List Spec → Sockets × Result (Unit {0})
served health_addr specs = serve sample_network specs health_addr (λ s. s) (7 ∷ [])

test_bind_failure :
    served (codes ":8081") rules
    ≡ (7 ∷ [], err (codes "listen tcp 0.0.0.0:80: address already in use"))
unfolding serve sample_network text_discrete ℕ_discrete
test_bind_failure = refl

abbrev dns_rule : List Spec
dns_rule = rule (codes "0.0.0.0:53") (codes "udp") ∷ []

test_shutdown : served (codes ":8081") dns_rule ≡ (7 ∷ [], ok tt)
unfolding serve sample_network text_discrete ℕ_discrete
test_shutdown = refl

test_health_failure :
    served (codes "0.0.0.0:80") dns_rule
    ≡ (7 ∷ [], err (codes "listen health 0.0.0.0:80: address already in use"))
unfolding serve sample_network text_discrete ℕ_discrete
test_health_failure = refl

serve-closes_example : is_open (served (codes ":8081") dns_rule).0 8 ≡ is_open (7 ∷ []) 8
serve-closes_example =
    serve-closes sample_network is_open sample_network-IsNetwork (λ s. s) (λ s h. refl) dns_rule
      (codes ":8081") (7 ∷ []) 8
