-- ===== src/Proxy/Udp/Consistent.antt =====
-- The invariant of the forwarder's goroutines, step by step.
use bulb.Base.{
  ℕ, suc, ◌≡◌, refl, ap, true, List, [], ◌∷◌, Text, text_discrete, none, some, ℕ_discrete, contains,
  length, arith,
}
use bulb.Base.Dict.{lookup, keys}
use bulb.Proxy.Udp.{
  UdpSession, without_socket, close_socket, remove_session, lower_gauge, dial, enter_session, touch,
  touch_in, new_udp_forwarder,
}
use bulb.Proxy.Udp.Steps.{
  sockets, Separate, lookup-contains, lookup-eq-none, sockets-without, length-without,
  without-Separate,
}
use bulb.Proxy.Udp.Transitions.{
  Running, Transition, dialing, inserting, discarding, removing, closing, lowering, touching,
  leaving, Reaches, done, step, IsConsistent, contains-without_socket, length-without_socket,
  without_socket-Distinct,
}

dialing-IsConsistent :
    (r : Running)
    → IsConsistent r
    → IsConsistent
        record r { forwarder = dial r.forwarder; dialed = r.forwarder.next_socket ∷ r.dialed }
unfolding dial
dialing-IsConsistent r c =
    let new = r.forwarder.next_socket in
    record {
      separate = c.separate;
      opened = λ s. ground (arith, c.opened s);
      fresh = λ s h. ground (arith, c.fresh s);
      apart = λ s h. ground (arith, c.apart s, c.opened s, c.fresh s);
      gone = c.gone;
      dialed_once = (ground (arith, c.opened new, c.fresh new), c.dialed_once);
      dropped_once = c.dropped_once;
      counted = c.counted;
    }

inserting-IsConsistent :
    (r : Running) (k : Text) (s now : ℕ)
    → contains ℕ_discrete s r.dialed ≡ true
    → lookup text_discrete k r.forwarder.sessions ≡ none
    → IsConsistent r
    → IsConsistent record r {
      forwarder = enter_session k s now r.forwarder;
      dialed = without_socket s r.dialed;
    }
inserting-IsConsistent r k s now held absent c = record {
  separate = (lookup-eq-none k r.forwarder.sessions absent, ground (arith, c.apart s), c.separate);
  opened = λ t. ground (arith, c.opened t, contains-without_socket t s r.dialed);
  fresh = λ t h. c.fresh t h;
  apart = λ t h. ground (arith, c.apart t, contains-without_socket t s r.dialed);
  gone = λ t h. ground (arith, c.gone t, c.apart s);
  dialed_once = without_socket-Distinct s r.dialed c.dialed_once;
  dropped_once = c.dropped_once;
  counted = ground (arith, c.counted);
}

discarding-IsConsistent :
    (r : Running) (s : ℕ)
    → contains ℕ_discrete s r.dialed ≡ true
    → IsConsistent r
    → IsConsistent
        record r { forwarder = close_socket s r.forwarder; dialed = without_socket s r.dialed }
discarding-IsConsistent r s held c = record {
  separate = c.separate;
  opened = λ t. ground (
    arith,
    c.opened t,
    c.apart s,
    contains-without_socket t s r.dialed,
    contains-without_socket t s r.forwarder.open_sockets,
  );
  fresh = λ t h. ground (arith, c.fresh t, contains-without_socket t s r.forwarder.open_sockets);
  apart = λ t h. ground (arith, c.apart t, contains-without_socket t s r.dialed);
  gone = c.gone;
  dialed_once = without_socket-Distinct s r.dialed c.dialed_once;
  dropped_once = c.dropped_once;
  counted = c.counted;
}

removing-IsConsistent :
    (r : Running) (k : Text) (sess : UdpSession)
    → lookup text_discrete k r.forwarder.sessions ≡ some sess
    → IsConsistent r
    → IsConsistent
        record r { forwarder = remove_session k r.forwarder; dropped = sess.upstream ∷ r.dropped }
removing-IsConsistent r k sess present c =
    let ss = r.forwarder.sessions in
    let left = λ (t : ℕ). sockets-without k t ss sess c.separate present in
    let inside = lookup-contains k ss sess present in
    record {
      separate = without-Separate k ss c.separate;
      opened = λ t. ground (arith, c.opened t, left t, inside);
      fresh = c.fresh;
      apart = λ t h. ground (arith, c.apart t, left t, inside);
      gone = λ t h. ground (arith, c.gone t, left t);
      dialed_once = c.dialed_once;
      dropped_once = (ground (arith, c.gone sess.upstream, inside), c.dropped_once);
      counted = ground (arith, c.counted, length-without k ss sess c.separate present);
    }

closing-IsConsistent :
    (r : Running) (s : ℕ)
    → contains ℕ_discrete s r.dropped ≡ true
    → IsConsistent r
    → IsConsistent record r {
      forwarder = close_socket s r.forwarder;
      dropped = without_socket s r.dropped;
      uncounted = suc r.uncounted;
    }
closing-IsConsistent r s held c = record {
  separate = c.separate;
  opened = λ t. ground (
    arith,
    c.opened t,
    c.gone s,
    c.apart s,
    contains-without_socket t s r.dropped,
    contains-without_socket t s r.forwarder.open_sockets,
  );
  fresh = λ t h. ground (arith, c.fresh t, contains-without_socket t s r.forwarder.open_sockets);
  apart = λ t h. ground (arith, c.apart t, contains-without_socket t s r.dropped);
  gone = λ t h. ground (arith, c.gone t, contains-without_socket t s r.dropped);
  dialed_once = c.dialed_once;
  dropped_once = without_socket-Distinct s r.dropped c.dropped_once;
  counted = ground (arith, c.counted, length-without_socket s r.dropped c.dropped_once held);
}

lowering-IsConsistent :
    (r : Running) (n : ℕ)
    → r.uncounted ≡ suc n
    → IsConsistent r
    → IsConsistent record r { forwarder = lower_gauge r.forwarder; uncounted = n }
lowering-IsConsistent r n left c = record {
  separate = c.separate;
  opened = c.opened;
  fresh = c.fresh;
  apart = c.apart;
  gone = c.gone;
  dialed_once = c.dialed_once;
  dropped_once = c.dropped_once;
  counted = ground (arith, c.counted);
}

keys-touch_in :
    (k : Text) (now : ℕ) (ss : List (Text × UdpSession)) → keys (touch_in k now ss) ≡ keys ss
keys-touch_in k now [] = refl
keys-touch_in k now ((j, x) ∷ ss) = ap (λ r. j ∷ r) (keys-touch_in k now ss)

sockets-touch_in :
    (k : Text) (now : ℕ) (ss : List (Text × UdpSession)) → sockets (touch_in k now ss) ≡ sockets ss
sockets-touch_in k now [] = refl
sockets-touch_in k now ((j, x) ∷ ss) = ground (arith, sockets-touch_in k now ss)

length-touch_in :
    (k : Text) (now : ℕ) (ss : List (Text × UdpSession)) → length (touch_in k now ss) ≡ length ss
length-touch_in k now [] = refl
length-touch_in k now ((j, x) ∷ ss) = ap suc (length-touch_in k now ss)

touch_in-Separate :
    (k : Text) (now : ℕ) (ss : List (Text × UdpSession))
    → Separate ss
    → Separate (touch_in k now ss)
touch_in-Separate k now [] h = tt
touch_in-Separate k now ((j, x) ∷ ss) (p, q, h) = (
  ground (arith, keys-touch_in k now ss),
  ground (arith, sockets-touch_in k now ss),
  touch_in-Separate k now ss h,
)

touching-IsConsistent :
    (r : Running) (k : Text) (now : ℕ)
    → IsConsistent r
    → IsConsistent record r { forwarder = touch k now r.forwarder }
unfolding touch
touching-IsConsistent r k now c = record {
  separate = touch_in-Separate k now r.forwarder.sessions c.separate;
  opened = λ s. ground (arith, c.opened s, sockets-touch_in k now r.forwarder.sessions);
  fresh = c.fresh;
  apart = λ s h. ground (arith, c.apart s, sockets-touch_in k now r.forwarder.sessions);
  gone = λ s h. ground (arith, c.gone s, sockets-touch_in k now r.forwarder.sessions);
  dialed_once = c.dialed_once;
  dropped_once = c.dropped_once;
  counted = ground (arith, c.counted, length-touch_in k now r.forwarder.sessions);
}

abbrev pub start : ℕ → Running
start idle = record { forwarder = new_udp_forwarder idle; dialed = []; dropped = []; uncounted = 0 }

start-IsConsistent : (idle : ℕ) → IsConsistent (start idle)
unfolding new_udp_forwarder
start-IsConsistent idle = record {
  separate = tt;
  opened = λ s. refl;
  fresh = λ s h. cc;
  apart = λ s h. cc;
  gone = λ s h. cc;
  dialed_once = tt;
  dropped_once = tt;
  counted = refl;
}

step-IsConsistent : (r s : Running) → Transition r s → IsConsistent r → IsConsistent s
step-IsConsistent _ _ (dialing r) c = dialing-IsConsistent r c
step-IsConsistent _ _ (inserting r k s now held absent) c =
    inserting-IsConsistent r k s now held absent c
step-IsConsistent _ _ (discarding r s held) c = discarding-IsConsistent r s held c
step-IsConsistent _ _ (removing r k sess found) c = removing-IsConsistent r k sess found c
step-IsConsistent _ _ (closing r s held) c = closing-IsConsistent r s held c
step-IsConsistent _ _ (lowering r n left) c = lowering-IsConsistent r n left c
step-IsConsistent _ _ (touching r k now) c = touching-IsConsistent r k now c
step-IsConsistent _ _ (leaving r readers) c = record {
  separate = c.separate;
  opened = c.opened;
  fresh = c.fresh;
  apart = c.apart;
  gone = c.gone;
  dialed_once = c.dialed_once;
  dropped_once = c.dropped_once;
  counted = c.counted;
}

pub steps-IsConsistent : (r s : Running) → Reaches r s → IsConsistent r → IsConsistent s
steps-IsConsistent _ _ (done r) c = c
steps-IsConsistent _ _ (step r s t first rest) c =
    steps-IsConsistent s t rest (step-IsConsistent r s first c)

-- However the goroutines interleave, from the start on: the open sockets are those of the sessions,
-- those dialled and not entered yet, and those dropped and not closed yet; every socket is held
-- once; and the gauge is the number of the sessions and of those dropped whose count has not been
-- lowered yet.
pub reachable-IsConsistent : (idle : ℕ) (r : Running) → Reaches (start idle) r → IsConsistent r
reachable-IsConsistent idle r reached =
    steps-IsConsistent (start idle) r reached (start-IsConsistent idle)
