-- ===== src/Proxy/Serve.antt =====
-- `Serve` of internal/proxy/proxy.go, and `startHealthServer` of health.go, by the sockets that they
-- open and close. The network and what happens while the proxy serves are parameters; `S` is the
-- network's state.
pub mod Closed
use bulb.Base.{
  ℕ, if◌then◌else◌, Bool, true, false, List, [], ◌∷◌, ◌++◌, Text, codes, is_empty, quoted,
  text_discrete, ite, Option, none, some,
}
use bulb.Base.Result.{M, Result, ok, err, wrap, wrapping}
use bulb.Proxy.Pairs.{Spec, spec_protocol, protocol_tcp, protocol_udp}

abbrev pub text_is : Text → Text → Bool
text_is a b = ite (text_discrete a b) true false

-- `net.Listen`, `net.ListenPacket` and `Close`, whose error is dropped.
pub record Network (S : Type 0) : Type 0 where
  pub listen : Text → Text → M S ℕ
  pub close : ℕ → S → S

-- The listeners and the packet connections.
pub record Opened : Type 0 where
  pub tcp_listeners : List ℕ
  pub udp_conns : List ℕ

module _ {S : Type 0} (network : Network S) where
  unfoldable pub close_all : List ℕ → S → S
  close_all [] s = s
  close_all (l ∷ ls) s = close_all ls (network.close l s)

  -- `closeAllOpened`, and the same two loops at the shutdown.
  unfoldable pub close_all_opened : Opened → S → S
  unfolding close_all
  close_all_opened o s = close_all o.udp_conns (close_all o.tcp_listeners s)

  -- What follows a listen: an error closes what is open.
  unfoldable pub or_close : Text → Opened → (ℕ → M S Opened) → S × Result ℕ → S × Result Opened
  unfolding close_all_opened
  or_close what o next (s, err e) = (close_all_opened o s, wrap what (err e))
  or_close what o next (s, ok l) = next l s

  -- The loop over the rules.
  unfoldable pub listen_all : List Spec → Opened → M S Opened
  unfolding or_close spec_protocol text_discrete
  listen_all [] o s = (s, ok o)
  listen_all (spec ∷ specs) o s =
      if text_is (spec_protocol spec) protocol_tcp
      then or_close (codes "listen tcp " ++ spec.listen) o
          (λ l. listen_all specs (record o { tcp_listeners = o.tcp_listeners ++ l ∷ [] }))
          (network.listen (codes "tcp") spec.listen s)
      else if text_is (spec_protocol spec) protocol_udp
      then or_close (codes "listen udp " ++ spec.listen) o
          (λ pc. listen_all specs (record o { udp_conns = o.udp_conns ++ pc ∷ [] }))
          (network.listen (codes "udp") spec.listen s)
      else (
        close_all_opened o s,
        err (codes "unsupported protocol " ++ quoted spec.protocol ++ codes " on " ++ spec.listen),
      )

  -- `startHealthServer`, by its socket; the handlers are set up beside it.
  unfoldable pub start_health_server : Text → M S ℕ
  start_health_server addr =
      wrapping (codes "listen health " ++ addr) (network.listen (codes "tcp") addr)

  -- `stopHealth`, which closes the socket of the health server, if there is one. It runs once: here,
  -- or before on the context's end.
  abbrev pub stop_health : Option ℕ → S → S
  stop_health none s = s
  stop_health (some l) s = network.close l s

  -- With the health server running or left out: the time until the shutdown, then the shutdown, and
  -- last the deferred `stopHealth`.
  unfoldable pub serve_opened : (S → S) → Opened → Option ℕ → M S (Unit {0})
  unfolding close_all_opened
  serve_opened serving o health s = (stop_health health (close_all_opened o (serving s)), ok tt)

  -- What follows the start of the health server: an error closes what is open.
  unfoldable pub serve_checked : (S → S) → Opened → S × Result ℕ → S × Result (Unit {0})
  unfolding serve_opened
  serve_checked serving o (s, err e) = (close_all_opened o s, err e)
  serve_checked serving o (s, ok l) = serve_opened serving o (some l) s

  unfoldable pub serve_listening : Text → (S → S) → S × Result Opened → S × Result (Unit {0})
  unfolding serve_checked start_health_server
  serve_listening health_addr serving (s, err e) = (s, err e)
  serve_listening health_addr serving (s, ok o) =
      if is_empty health_addr
      then serve_opened serving o none s
      else serve_checked serving o (start_health_server health_addr s)

  unfoldable pub serve : List Spec → Text → (S → S) → M S (Unit {0})
  unfolding listen_all serve_listening
  serve specs health_addr serving s =
      serve_listening health_addr serving
        (listen_all specs (record { tcp_listeners = []; udp_conns = [] }) s)
