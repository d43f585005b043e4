-- ===== src/Proxy/Udp.antt =====
-- `udpForwarder` of internal/proxy/udp.go: the table of sessions, the upstream sockets that it
-- holds open, the gauge of active sessions, and the goroutines that read from upstream. A session
-- stands under its client's address; sockets are numbered in the order of their opening.
pub mod Steps
pub mod Transitions
pub mod Consistent
pub mod Life
pub mod Packets
use bulb.Base.{
  ℕ, suc, ◌+◌, ◌-◌, ◌==◌, ltb, if◌then◌else◌, Bool, true, false, not, List, [], ◌∷◌, map, Text,
  text_discrete, Option, none, some, keep, ite, ℕ_discrete,
}
use bulb.Base.Dict.{lookup, keys}
use bulb.Base.Result.{Result, ok, err, Error}

pub record UdpSession : Type 0 where
  pub upstream : ℕ
  pub last_activity : ℕ

pub record UdpForwarder : Type 0 where
  pub idle_timeout : ℕ
  pub sessions : List (Text × UdpSession)
  pub open_sockets : List ℕ
  pub next_socket : ℕ
  pub active : ℕ
  pub readers : List (Text × ℕ)

unfoldable pub new_udp_forwarder : ℕ → UdpForwarder
new_udp_forwarder idle = record {
  idle_timeout = idle;
  sessions = [];
  open_sockets = [];
  next_socket = 0;
  active = 0;
  readers = [];
}

-- `conn.Close()`
abbrev pub without_socket : ℕ → List ℕ → List ℕ
without_socket s = keep (λ t. ite (ℕ_discrete t s) false true)

-- `delete(f.sessions, key)`
abbrev pub without_key : Text → List (Text × UdpSession) → List (Text × UdpSession)
without_key k = keep (λ e. ite (text_discrete e.0 k) false true)

abbrev pub close_socket : ℕ → UdpForwarder → UdpForwarder
close_socket socket f = record f { open_sockets = without_socket socket f.open_sockets }

-- What `dropSession` does under the lock.
abbrev pub remove_session : Text → UdpForwarder → UdpForwarder
remove_session k f = record f { sessions = without_key k f.sessions }

-- `udpActiveSessions.Dec()`
abbrev pub lower_gauge : UdpForwarder → UdpForwarder
lower_gauge f = record f { active = f.active - 1 }

-- `dropSession` from end to end. The socket is closed and the gauge lowered after the unlock;
-- Consistent takes the three as steps of their own.
unfoldable pub drop_session : Text → UdpForwarder → UdpForwarder
drop_session k f = elim (lookup text_discrete k f.sessions) [
  | none ↦ f
  | some sess ↦ lower_gauge (close_socket sess.upstream (remove_session k f))
]

-- `net.DialUDP`, where it succeeds: the new socket.
unfoldable pub dial : UdpForwarder → UdpForwarder
dial f = record f { open_sockets = f.next_socket ∷ f.open_sockets; next_socket = suc f.next_socket }

-- The session enters the table under the lock, and its goroutine starts.
abbrev pub enter_session : Text → ℕ → ℕ → UdpForwarder → UdpForwarder
enter_session k socket now f = record f {
  sessions = (k, record { upstream = socket; last_activity = now }) ∷ f.sessions;
  active = suc f.active;
  readers = (k, socket) ∷ f.readers;
}

-- The second half of `getOrCreate`, from the lock after the dial: a session that has come up
-- meanwhile wins, and the new socket is closed.
unfoldable pub insert_session : Text → ℕ → ℕ → UdpForwarder → UdpForwarder × UdpSession
insert_session k socket now f = elim (lookup text_discrete k f.sessions) [
  | some existing ↦ (close_socket socket f, existing)
  | none ↦ (enter_session k socket now f, record { upstream = socket; last_activity = now })
]

-- `getOrCreate`; `reached` is what resolving and dialling the upstream returned.
unfoldable pub get_or_create :
    Text → ℕ → Result (Unit {0}) → UdpForwarder → UdpForwarder × Result UdpSession
unfolding dial insert_session
get_or_create k now reached f = elim (lookup text_discrete k f.sessions) [
  | some sess ↦ (f, ok sess)
  | none ↦ elim reached [
    | err e ↦ (f, err e)
    | ok _ ↦ let (f', sess) = insert_session k f.next_socket now (dial f) in (f', ok sess)
  ]
]

-- `sess.lastActivity.Store(now)`
abbrev touch_in : Text → ℕ → List (Text × UdpSession) → List (Text × UdpSession)
touch_in k now [] = []
touch_in k now ((j, sess) ∷ ss) =
    (j, if ite (text_discrete j k) true false then record sess { last_activity = now } else sess)
    ∷ touch_in k now ss

unfoldable pub touch : Text → ℕ → UdpForwarder → UdpForwarder
touch k now f = record f { sessions = touch_in k now f.sessions }

-- One round of `run`: a packet from `k`, `written` telling whether the upstream took it.
unfoldable pub forward_packet : Text → ℕ → Result (Unit {0}) → Bool → UdpForwarder → UdpForwarder
unfolding get_or_create touch drop_session
forward_packet k now reached written f =
    let (f', r) = get_or_create k now reached f in
    elim r [
      | err e ↦ f'
      | ok sess ↦ let g = touch k now f' in if written then g else drop_session k g
    ]

-- The end of `upstreamReadLoop`, on any error of its reads or writes.
unfoldable pub end_reader : Text → ℕ → UdpForwarder → UdpForwarder
unfolding drop_session
end_reader k socket f =
    drop_session k
      (record f { readers = keep (λ r. ite (ℕ_discrete r.1 socket) false true) f.readers })

-- The session is the one that the goroutine of `socket` reads for.
abbrev is_session_of : ℕ → Option UdpSession → Bool
is_session_of socket none = false
is_session_of socket (some sess) = sess.upstream == socket

-- One round of `upstreamReadLoop` for the session of `socket`, `delivered` telling whether the
-- client took the packet. A session that is not in the table any more is stored to in vain.
unfoldable pub receive_packet : Text → ℕ → ℕ → Bool → UdpForwarder → UdpForwarder
unfolding touch end_reader
receive_packet k socket now delivered f =
    let touched =
      if is_session_of socket (lookup text_discrete k f.sessions) then touch k now f else f in
    if delivered then touched else end_reader k socket touched

abbrev pub drop_all : List Text → UdpForwarder → UdpForwarder
drop_all [] f = f
drop_all (k ∷ ks) f = drop_all ks (drop_session k f)

-- Silent for longer than the timeout: `lastActivity < now - idleTimeout`.
abbrev pub is_stale : ℕ → ℕ → Text × UdpSession → Bool
is_stale idle now (k, sess) = ltb (sess.last_activity + idle) now

-- What `reap` collects under the lock.
unfoldable pub stale_keys : ℕ → UdpForwarder → List Text
stale_keys now f = keys (keep (is_stale f.idle_timeout now) f.sessions)

-- `reap`, with what other goroutines do to the table between its unlock and its drops.
unfoldable pub reap_between : (UdpForwarder → UdpForwarder) → ℕ → UdpForwarder → UdpForwarder
unfolding drop_session stale_keys
reap_between others now f = drop_all (stale_keys now f) (others f)

-- `reap` with the table to itself.
unfoldable pub reap : ℕ → UdpForwarder → UdpForwarder
unfolding reap_between
reap now f = reap_between (λ g. g) now f

unfoldable pub close_all_sessions : UdpForwarder → UdpForwarder
unfolding drop_session
close_all_sessions f = drop_all (keys f.sessions) f
