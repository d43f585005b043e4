-- ===== src/Proxy/Udp/Packets.antt =====
-- What a packet does to the table, in either direction.
use bulb.Base.{
  ℕ, suc, ◌≡◌, refl, ap, ◌∙◌, Bool, true, false, List, [], ◌∷◌, Text, text_discrete, if◌then◌else◌,
  none, some, Option-cases, keep, ite, if_pos, ℕ_discrete, contains, arith, inl, inr, subst,
}
use bulb.Base.Result.{Result, ok, Result-cases}
use bulb.Base.Dict.{lookup, keys}
use bulb.Proxy.Udp.{
  UdpSession, UdpForwarder, without_socket, drop_session, dial, insert_session, get_or_create,
  touch, forward_packet, receive_packet, end_reader, is_session_of, stale_keys, reap_between,
  enter_session, reap, close_all_sessions,
}
use bulb.Proxy.Udp.Transitions.{
  Running, Transition, Reaches, dialing, inserting, touching, leaving, done, step, IsConsistent,
  contains-without_socket,
}
use bulb.Proxy.Udp.Consistent.{steps-IsConsistent}
use bulb.Proxy.Udp.Life.{
  at_rest, append_steps, lookup-drop_session, drop_session-Reaches, drop_all-Reaches,
}

one_step :
    (f g : UdpForwarder) → Transition (at_rest f) (at_rest g) → Reaches (at_rest f) (at_rest g)
one_step f g s = step (at_rest f) (at_rest g) (at_rest g) s (done (at_rest g))

create-Reaches :
    (k : Text) (now : ℕ) (f : UdpForwarder)
    → lookup text_discrete k f.sessions ≡ none
    → Reaches (at_rest f) (at_rest (insert_session k f.next_socket now (dial f)).0)
unfolding insert_session dial
create-Reaches k now f absent =
    let new = f.next_socket in
    let opened : Running = record (at_rest (dial f)) { dialed = new ∷ [] } in
    let g = enter_session k new now (dial f) in
    let left : Running = record (at_rest g) { dialed = without_socket new (new ∷ []) } in
    let none_left : without_socket new (new ∷ []) ≡ [] = ground arith in
    rw (absent, insert_session)
      (subst (λ (ds : List ℕ). Reaches (at_rest f) (record (at_rest g) { dialed = ds })) none_left
        (step (at_rest f) opened left (dialing (at_rest f)) (
          step opened left left
            (inserting opened k new now (if_pos (ℕ_discrete new new) refl true _) absent)
            (done left))))

get_or_create-Reaches :
    (k : Text) (now : ℕ) (reached : Result (Unit {0})) (f : UdpForwarder)
    → Reaches (at_rest f) (at_rest (get_or_create k now reached f).0)
unfolding get_or_create
get_or_create-Reaches k now reached f = elim (Option-cases (lookup text_discrete k f.sessions)) [
  | inr (sess, present) ↦ rw (present, get_or_create) (done (at_rest f))
  | inl absent ↦ elim (Result-cases reached) [
    | inr (e, failed) ↦ rw (absent, get_or_create, failed) (done (at_rest f))
    | inl (_, dialed) ↦ rw (absent, get_or_create, dialed) (create-Reaches k now f absent)
  ]
]

touch_then-Reaches :
    (k : Text) (now : ℕ) (written : Bool) (f : UdpForwarder)
    → Reaches
        (at_rest f)
        (at_rest (if written then touch k now f else drop_session k (touch k now f)))
touch_then-Reaches k now true f = one_step f (touch k now f) (touching (at_rest f) k now)
touch_then-Reaches k now false f =
    append_steps (at_rest f) (at_rest (touch k now f)) (at_rest (drop_session k (touch k now f)))
      (one_step f (touch k now f) (touching (at_rest f) k now))
      (drop_session-Reaches k (touch k now f))

pub forward_packet-Reaches :
    (k : Text) (now : ℕ) (reached : Result (Unit {0})) (written : Bool) (f : UdpForwarder)
    → Reaches (at_rest f) (at_rest (forward_packet k now reached written f))
unfolding forward_packet
forward_packet-Reaches k now reached written f =
    let g = (get_or_create k now reached f).0 in
    let first = get_or_create-Reaches k now reached f in
    elim (Result-cases (get_or_create k now reached f).1) [
      | inr (e, failed) ↦ rw (failed, forward_packet) first
      | inl (sess, made) ↦
          rw (made, forward_packet)
            (append_steps (at_rest f) (at_rest g) _ first (touch_then-Reaches k now written g))
    ]

end_reader-Reaches :
    (k : Text) (s : ℕ) (f : UdpForwarder) → Reaches (at_rest f) (at_rest (end_reader k s f))
unfolding end_reader
end_reader-Reaches k s f =
    let readers = keep (λ (r : Text × ℕ). ite (ℕ_discrete r.1 s) false true) f.readers in
    let g = record f { readers = readers } in
    append_steps (at_rest f) (at_rest g) (at_rest (drop_session k g))
      (one_step f g (leaving (at_rest f) readers)) (drop_session-Reaches k g)

touch_if-Reaches :
    (b : Bool) (k : Text) (now : ℕ) (f : UdpForwarder)
    → Reaches (at_rest f) (at_rest (if b then touch k now f else f))
touch_if-Reaches true k now f = one_step f (touch k now f) (touching (at_rest f) k now)
touch_if-Reaches false k now f = done (at_rest f)

receive_packet-Reaches :
    (k : Text) (s now : ℕ) (delivered : Bool) (f : UdpForwarder)
    → Reaches (at_rest f) (at_rest (receive_packet k s now delivered f))
unfolding receive_packet
receive_packet-Reaches k s now true f =
    touch_if-Reaches (is_session_of s (lookup text_discrete k f.sessions)) k now f
receive_packet-Reaches k s now false f =
    let b = is_session_of s (lookup text_discrete k f.sessions) in
    let g = if b then touch k now f else f in
    append_steps (at_rest f) (at_rest g) (at_rest (end_reader k s g)) (touch_if-Reaches b k now f)
      (end_reader-Reaches k s g)

-- A forwarder in order stays so in every operation: a packet from a client, with any outcome of
-- its dial and its write, a packet from upstream, a tick of the reaper, and the shutdown.
pub operations-IsConsistent :
    (f : UdpForwarder) (k : Text) (s now : ℕ) (reached : Result (Unit {0})) (sent : Bool)
    → IsConsistent (at_rest f)
    → IsConsistent (at_rest (forward_packet k now reached sent f))
      × IsConsistent (at_rest (receive_packet k s now sent f))
      × IsConsistent (at_rest (reap now f))
      × IsConsistent (at_rest (close_all_sessions f))
unfolding reap reap_between stale_keys close_all_sessions
operations-IsConsistent f k s now reached sent c =
    let keeps = λ (g : UdpForwarder) (steps : Reaches (at_rest f) (at_rest g)).
      steps-IsConsistent (at_rest f) (at_rest g) steps c in
    (
      keeps _ (forward_packet-Reaches k now reached sent f),
      keeps _ (receive_packet-Reaches k s now sent f),
      keeps _ (drop_all-Reaches (stale_keys now f) f),
      keeps _ (drop_all-Reaches (keys f.sessions) f),
    )

first_packet :
    (f : UdpForwarder) (k : Text) (now : ℕ)
    → lookup text_discrete k f.sessions ≡ none
    → let g = forward_packet k now (ok tt) true f in
      (lookup text_discrete k g.sessions
        ≡ some record { upstream = f.next_socket; last_activity = now })
      × (g.next_socket ≡ suc f.next_socket)
unfolding forward_packet get_or_create insert_session dial touch
first_packet f k now absent = (ground arith, ground arith)

drop_session-next : (k : Text) (f : UdpForwarder) → (drop_session k f).next_socket ≡ f.next_socket
unfolding drop_session
drop_session-next k f = ground arith

drop_session-closes :
    (k : Text) (f : UdpForwarder) (sess : UdpSession)
    → lookup text_discrete k f.sessions ≡ some sess
    → contains ℕ_discrete sess.upstream (drop_session k f).open_sockets ≡ false
unfolding drop_session
drop_session-closes k f sess found =
    rw (found, drop_session)
      (contains-without_socket sess.upstream sess.upstream f.open_sockets ∙ ground arith)

-- A client whose session is dropped and who then sends again gets a new session on a new socket;
-- when the goroutine of the old socket ends after that, it drops the new session and closes its
-- socket.
pub end_reader-drops_successor :
    (f : UdpForwarder) (k : Text) (t₁ t₂ : ℕ)
    → lookup text_discrete k f.sessions ≡ none
    → let g =
        forward_packet k t₂ (ok tt) true (drop_session k (forward_packet k t₁ (ok tt) true f)) in
      let h = end_reader k f.next_socket g in
      (lookup text_discrete k g.sessions
        ≡ some record { upstream = suc f.next_socket; last_activity = t₂ })
      × (lookup text_discrete k h.sessions ≡ none)
      × (contains ℕ_discrete (suc f.next_socket) h.open_sockets ≡ false)
unfolding end_reader
end_reader-drops_successor f k t₁ t₂ absent =
    let (_, next₁) = first_packet f k t₁ absent in
    let f₁ = forward_packet k t₁ (ok tt) true f in
    let dropped = drop_session k f₁ in
    let gone = lookup-drop_session k k f₁ ∙ if_pos (text_discrete k k) refl none _ in
    let (second, next₂) = first_packet dropped k t₂ gone in
    let g = forward_packet k t₂ (ok tt) true dropped in
    let numbered : dropped.next_socket ≡ suc f.next_socket = drop_session-next k f₁ ∙ next₁ in
    let current : lookup text_discrete k g.sessions
        ≡ some record { upstream = suc f.next_socket; last_activity = t₂ } =
      second ∙ ap (λ (n : ℕ). some record { upstream = n; last_activity = t₂ }) numbered in
    (
      current,
      lookup-drop_session k k _ ∙ if_pos (text_discrete k k) refl none _,
      drop_session-closes k _ record { upstream = suc f.next_socket; last_activity = t₂ } current,
    )
