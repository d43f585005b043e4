-- ===== src/Proxy/Udp/Transitions.antt =====
-- The forwarder's goroutines as a step relation: between the dial of `getOrCreate` and its insert,
-- and between the parts of `dropSession`, any other goroutine may act.
use bulb.Base.{
  ℕ, suc, ◌+◌, ◌<◌, ◌≡◌, refl, true, false, ◌&&◌, ◌||◌, List, [], ◌∷◌, Text, text_discrete, none,
  some, if_pos, if_neg, ite, ℕ_discrete, contains, contains-keep, length, arith,
}
use bulb.Base.Dict.{lookup}
use bulb.Proxy.Udp.{
  UdpSession, UdpForwarder, without_socket, close_socket, remove_session, lower_gauge, dial,
  enter_session, touch,
}
use bulb.Proxy.Udp.Steps.{sockets, Separate}

-- The forwarder, the sockets that a goroutine has dialled and neither entered in the table nor
-- closed yet, those whose session has left the table and that are not closed yet, and the number
-- of those that are closed but still in the gauge.
pub record Running : Type 0 where
  pub forwarder : UdpForwarder
  pub dialed : List ℕ
  pub dropped : List ℕ
  pub uncounted : ℕ

-- What a goroutine does with the lock held is one step, as is each close, dial, store and count
-- without it. A dialled socket is closed where `getOrCreate` finds, under the lock, that it has
-- lost the race; here it may be at any time.
pub data Transition : Running → Running → Type 0 where
  dialing :
      (r : Running)
      → Transition r
          record r { forwarder = dial r.forwarder; dialed = r.forwarder.next_socket ∷ r.dialed }
  inserting :
      (r : Running) (k : Text) (s now : ℕ)
      → contains ℕ_discrete s r.dialed ≡ true
      → lookup text_discrete k r.forwarder.sessions ≡ none
      → Transition r record r {
        forwarder = enter_session k s now r.forwarder;
        dialed = without_socket s r.dialed;
      }
  discarding :
      (r : Running) (s : ℕ)
      → contains ℕ_discrete s r.dialed ≡ true
      → Transition r
          record r { forwarder = close_socket s r.forwarder; dialed = without_socket s r.dialed }
  removing :
      (r : Running) (k : Text) (sess : UdpSession)
      → lookup text_discrete k r.forwarder.sessions ≡ some sess
      → Transition r
          record r { forwarder = remove_session k r.forwarder; dropped = sess.upstream ∷ r.dropped }
  closing :
      (r : Running) (s : ℕ)
      → contains ℕ_discrete s r.dropped ≡ true
      → Transition r record r {
        forwarder = close_socket s r.forwarder;
        dropped = without_socket s r.dropped;
        uncounted = suc r.uncounted;
      }
  lowering :
      (r : Running) (n : ℕ)
      → r.uncounted ≡ suc n
      → Transition r record r { forwarder = lower_gauge r.forwarder; uncounted = n }
  touching :
      (r : Running) (k : Text) (now : ℕ)
      → Transition r record r { forwarder = touch k now r.forwarder }
  leaving :
      (r : Running) (readers : List (Text × ℕ))
      → Transition r record r { forwarder = record r.forwarder { readers = readers } }

pub data Reaches : Running → Running → Type 0 where
  done : (r : Running) → Reaches r r
  step : (r s t : Running) → Transition r s → Reaches s t → Reaches r t

abbrev pub Distinct : List ℕ → Type 0
Distinct [] = Unit
Distinct (n ∷ ns) = (contains ℕ_discrete n ns ≡ false) × Distinct ns

-- The open sockets are those of the sessions, the dialled ones and the dropped ones; every socket
-- is held once; and the gauge is the number of the sessions, the dropped ones and those that are
-- still counted.
pub record IsConsistent (r : Running) : Type 0 where
  pub separate : Separate r.forwarder.sessions
  pub opened :
      (s : ℕ)
      → contains ℕ_discrete s r.forwarder.open_sockets ≡ (
          contains ℕ_discrete s (sockets r.forwarder.sessions)
          || (contains ℕ_discrete s r.dialed || contains ℕ_discrete s r.dropped))
  pub fresh :
      (s : ℕ) → contains ℕ_discrete s r.forwarder.open_sockets ≡ true → s < r.forwarder.next_socket
  pub apart :
      (s : ℕ)
      → contains ℕ_discrete s r.dialed ≡ true
      → (contains ℕ_discrete s (sockets r.forwarder.sessions) || contains ℕ_discrete s r.dropped)
        ≡ false
  pub gone :
      (s : ℕ)
      → contains ℕ_discrete s r.dropped ≡ true
      → contains ℕ_discrete s (sockets r.forwarder.sessions) ≡ false
  pub dialed_once : Distinct r.dialed
  pub dropped_once : Distinct r.dropped
  pub counted : r.forwarder.active ≡ length r.forwarder.sessions + (length r.dropped + r.uncounted)

pub contains-without_socket :
    (s t : ℕ) (xs : List ℕ)
    → contains ℕ_discrete s (without_socket t xs)
      ≡ (contains ℕ_discrete s xs && ite (ℕ_discrete s t) false true)
contains-without_socket s t xs =
    contains-keep ℕ_discrete s (λ u. ite (ℕ_discrete u t) false true) xs

without_socket-absent :
    (s : ℕ) (xs : List ℕ) → contains ℕ_discrete s xs ≡ false → without_socket s xs ≡ xs
without_socket-absent s [] h = refl
without_socket-absent s (x ∷ xs) h = ground (arith, without_socket-absent s xs)

pub length-without_socket :
    (s : ℕ) (xs : List ℕ)
    → Distinct xs
    → contains ℕ_discrete s xs ≡ true
    → suc (length (without_socket s xs)) ≡ length xs
length-without_socket s [] d h = cc
length-without_socket s (x ∷ xs) (new, d) h = elim (ℕ_discrete x s) [
  | yes e ↦ ground (arith, without_socket-absent s xs)
  | no ne ↦ ground (arith, length-without_socket s xs d)
]

pub without_socket-Distinct : (s : ℕ) (xs : List ℕ) → Distinct xs → Distinct (without_socket s xs)
without_socket-Distinct s [] d = tt
without_socket-Distinct s (x ∷ xs) (new, d) = elim (ℕ_discrete x s) [
  | yes e ↦ rw (if_pos _ e) (without_socket-Distinct s xs d)
  | no ne ↦
      rw (if_neg _ ne)
        (ground (arith, contains-without_socket x s xs), without_socket-Distinct s xs d)
]
