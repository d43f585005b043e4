-- ===== src/Proxy/Tests.antt =====
-- Runs of the proxy's parts on concrete inputs, and their theorems at inputs that meet their
-- hypotheses.
use bulb.Base.{
  ℕ, ◌+◌, ◌<◌, ◌≤◌, ◌⊎◌, ◌≡◌, refl, true, false, List, [], ◌∷◌, ◌++◌, map, Text, codes,
  text_discrete, ℕ_discrete, inl, arith, length, none, some, contains, cut_at, split_on,
  split_host_port, trim_space, join,
}
use bulb.Base.Dict.{lookup, put}
use bulb.Base.Result.{ok}
use bulb.Proxy.Pairs.{
  Spec, parse_pair, checked_pair, parse_endpoint_pair, checked_endpoints, filter_endpoints,
  run_specs, spec_protocol, complete_specs, parse_endpoint_pairs,
}
use bulb.Proxy.Upstream.{Counters, upstream_for}
use bulb.Proxy.Upstream.Turns.{upstreams_for, upstreams_for-turns}
use bulb.Proxy.Header.{v4, TcpAddr, build_proxy_v2_header, read_proxy_v2, read_proxy_v2-build}
use bulb.Proxy.Udp.{
  UdpForwarder, new_udp_forwarder, forward_packet, receive_packet, get_or_create, insert_session,
  dial, touch, drop_session, end_reader, reap, close_all_sessions, stale_keys, reap_between,
  UdpSession,
}
use bulb.Proxy.Udp.Transitions.{IsConsistent}
use bulb.Proxy.Udp.Consistent.{reachable-IsConsistent}
use bulb.Proxy.Udp.Life.{at_rest, lookup-reap, close_all_sessions-closes}
use bulb.Proxy.Udp.Packets.{
  forward_packet-Reaches, operations-IsConsistent, end_reader-drops_successor,
}

proxy : Unit {0}
unfolding text_discrete ℕ_discrete cut_at split_on split_host_port trim_space join put parse_pair
    checked_pair parse_endpoint_pair checked_endpoints filter_endpoints run_specs spec_protocol
    upstream_for upstreams_for build_proxy_v2_header read_proxy_v2 new_udp_forwarder forward_packet
    receive_packet get_or_create insert_session dial touch drop_session end_reader reap stale_keys
    reap_between close_all_sessions complete_specs parse_endpoint_pairs
proxy = tt

abbrev listen_80 : Text
listen_80 = codes "0.0.0.0:80"

abbrev backend : Text
backend = codes "10.96.1.5:8080"

abbrev pod : Text
pod = codes "10.244.1.2:80"

-- The two protocols of one port share the listen address, and so the endpoints of the last pair.
abbrev served : Text → Spec
served proto = record {
  listen = listen_80;
  upstream = backend;
  protocol = proto;
  proxy_protocol = [];
  endpoints = pod ∷ [];
}

shared_run :
    run_specs
      ((listen_80 ++ 61 ∷ backend) ∷ [])
      ((listen_80 ++ 61 ∷ backend) ∷ [])
      []
      ((listen_80 ++ 61 ∷ backend) ∷ (listen_80 ++ 61 ∷ pod) ∷ [])
    ≡ ok (served (codes "tcp") ∷ served (codes "udp") ∷ [])
unfolding proxy
shared_run = refl

abbrev local : Spec
local = record {
  listen = listen_80;
  upstream = backend;
  protocol = codes "tcp";
  proxy_protocol = [];
  endpoints = codes "a" ∷ codes "b" ∷ codes "c" ∷ [];
}

abbrev counted : Counters
counted = (codes "tcp:0.0.0.0:80", 7) ∷ []

upstreams_for-turns_example :
    (ys : List Text) × (zs : List Text) × (local.endpoints ≡ ys ++ zs)
    × (length ys ≡ 1)
    × (upstreams_for local 3 counted ≡ map some zs ++ map some ys)
unfolding proxy
upstreams_for-turns_example = upstreams_for-turns local counted refl (omega arith)

turns_run :
    upstreams_for local 3 counted ≡ some (codes "b") ∷ some (codes "c") ∷ some (codes "a") ∷ []
unfolding proxy
turns_run = refl

abbrev client_addr : TcpAddr
client_addr = record { ip = v4 (203 ∷ 0 ∷ 113 ∷ 7 ∷ []); port = 51000 }

abbrev proxy_addr : TcpAddr
proxy_addr = record { ip = v4 (10 ∷ 0 ∷ 0 ∷ 1 ∷ []); port = 443 }

read_proxy_v2-build_example :
    read_proxy_v2 (build_proxy_v2_header client_addr proxy_addr ++ codes "hi")
    ≡ some (client_addr, proxy_addr, 13 ∷ 10 ∷ codes "hi")
read_proxy_v2-build_example =
    read_proxy_v2-build client_addr proxy_addr (codes "hi")
      (omega arith, omega arith, inl (_, _, refl, refl, refl, refl))

abbrev client : Text
client = codes "198.51.100.9:4000"

abbrev one_session : UdpForwarder
one_session = forward_packet client 100 (ok tt) true (new_udp_forwarder 30)

reachable-IsConsistent_example : IsConsistent (at_rest one_session)
unfolding proxy
reachable-IsConsistent_example =
    reachable-IsConsistent 30 (at_rest one_session)
      (forward_packet-Reaches client 100 (ok tt) true (new_udp_forwarder 30))

one_session-IsConsistent : IsConsistent (at_rest one_session)
unfolding proxy
one_session-IsConsistent =
    reachable-IsConsistent 30 (at_rest one_session)
      (forward_packet-Reaches client 100 (ok tt) true (new_udp_forwarder 30))

operations-IsConsistent_example :
    IsConsistent (at_rest (forward_packet client 110 (ok tt) false one_session))
    × IsConsistent (at_rest (receive_packet client 0 110 false one_session))
    × IsConsistent (at_rest (reap 110 one_session))
    × IsConsistent (at_rest (close_all_sessions one_session))
operations-IsConsistent_example =
    operations-IsConsistent one_session client 0 110 (ok tt) false one_session-IsConsistent

-- The client sends again after its key was collected.
abbrev sends_again : UdpForwarder → UdpForwarder
sends_again = touch client 139

lookup-reap_example :
    let g = reap_between sends_again 140 one_session in
    ((sess : UdpSession) × (lookup text_discrete client one_session.sessions ≡ some sess)
      × (sess.last_activity + 30 < 140)
      × (lookup text_discrete client g.sessions ≡ none))
    ⊎ (((sess : UdpSession) × (lookup text_discrete client one_session.sessions ≡ some sess)
          × (140 ≤ sess.last_activity + 30)
          × (lookup text_discrete client g.sessions
              ≡ lookup text_discrete client (sends_again one_session).sessions))
        ⊎ ((lookup text_discrete client one_session.sessions ≡ none)
            × (lookup text_discrete client g.sessions
                ≡ lookup text_discrete client (sends_again one_session).sessions)))
unfolding proxy
lookup-reap_example = lookup-reap sends_again 140 one_session client (refl, refl, tt)

reap_run : (reap_between sends_again 140 one_session).sessions ≡ []
unfolding proxy
reap_run = refl

close_all_sessions-closes_example :
    let g = close_all_sessions one_session in
    (g.sessions ≡ []) × ((s : ℕ) → contains ℕ_discrete s g.open_sockets ≡ false) × (g.active ≡ 0)
close_all_sessions-closes_example = close_all_sessions-closes one_session one_session-IsConsistent

end_reader-drops_successor_example :
    let g =
      forward_packet client 200
        (ok tt)
        true
        (drop_session client (forward_packet client 100 (ok tt) true (new_udp_forwarder 30))) in
    let h = end_reader client 0 g in
    (lookup text_discrete client g.sessions ≡ some record { upstream = 1; last_activity = 200 })
    × (lookup text_discrete client h.sessions ≡ none)
    × (contains ℕ_discrete 1 h.open_sockets ≡ false)
unfolding proxy
end_reader-drops_successor_example =
    end_reader-drops_successor (new_udp_forwarder 30) client 100 200 refl
