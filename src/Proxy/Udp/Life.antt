-- ===== src/Proxy/Udp/Life.antt =====
-- When sessions begin and end: the idle reaper, the shutdown, and a goroutine that ends.
use bulb.Base.{
  ℕ, ◌+◌, ◌≤◌, ◌<◌, ◌⊎◌, ◌≡◌, refl, ◌∙◌, dec_lt, subst, if_pos, Bool, false, List, [], ◌∷◌, Text,
  text_discrete, if◌then◌else◌, Option, none, some, Option-cases, keep, ite, ℕ_discrete, contains,
  arith, inl, inr, true,
}
use bulb.Base.Dict.{lookup, keys}
use bulb.Proxy.Udp.{
  UdpSession, UdpForwarder, without_socket, close_socket, remove_session, lower_gauge, drop_session,
  drop_all, is_stale, stale_keys, reap_between, close_all_sessions,
}
use bulb.Proxy.Udp.Steps.{Separate, lookup-without}
use bulb.Proxy.Udp.Transitions.{
  Running, Reaches, removing, closing, lowering, done, step, IsConsistent,
}
use bulb.Proxy.Udp.Consistent.{steps-IsConsistent}

pub lookup-drop_session :
    (k j : Text) (f : UdpForwarder)
    → lookup text_discrete j (drop_session k f).sessions
      ≡ ite (text_discrete j k) none (lookup text_discrete j f.sessions)
unfolding drop_session
lookup-drop_session k j f = elim (Option-cases (lookup text_discrete k f.sessions)) [
  | inl absent ↦ ground arith
  | inr (sess, present) ↦ rw (present, drop_session) (lookup-without k j f.sessions)
]

lookup-drop_all :
    (ks : List Text) (j : Text) (f : UdpForwarder)
    → lookup text_discrete j (drop_all ks f).sessions
      ≡ (if contains text_discrete j ks then none else lookup text_discrete j f.sessions)
lookup-drop_all [] j f = refl
lookup-drop_all (k ∷ ks) j f =
    ground (arith, lookup-drop_all ks j (drop_session k f), lookup-drop_session k j f)

is_found_stale : ℕ → ℕ → Text → Option UdpSession → Bool
is_found_stale idle now k none = false
is_found_stale idle now k (some sess) = is_stale idle now (k, sess)

contains-kept :
    (p : Text × UdpSession → Bool) (j : Text) (ss : List (Text × UdpSession))
    → contains text_discrete j (keys ss) ≡ false
    → contains text_discrete j (keys (keep p ss)) ≡ false
contains-kept p j [] h = refl
contains-kept p j ((i, x) ∷ ss) h = ground (arith, contains-kept p j ss)

contains-stale :
    (idle now : ℕ) (j : Text) (ss : List (Text × UdpSession))
    → Separate ss
    → contains text_discrete j (keys (keep (is_stale idle now) ss))
      ≡ is_found_stale idle now j (lookup text_discrete j ss)
unfolding is_found_stale
contains-stale idle now j [] h = refl
contains-stale idle now j ((i, x) ∷ ss) (p, q, h) =
    ground (arith, contains-stale idle now j ss h, contains-kept (is_stale idle now) i ss p)

-- The reaper collects the sessions that have been silent for longer than the timeout, and drops what
-- stands under their clients afterwards, whatever other goroutines have done to the table since: a
-- session that was touched or replaced meanwhile goes all the same. The sessions of all other
-- clients stay as the others left them. No two sessions share a client or a socket at first, and
-- nothing else happens between the drops themselves.
pub lookup-reap :
    (others : UdpForwarder → UdpForwarder) (now : ℕ) (f : UdpForwarder) (j : Text)
    → Separate f.sessions
    → let g = reap_between others now f in
      ((sess : UdpSession) × (lookup text_discrete j f.sessions ≡ some sess)
        × (sess.last_activity + f.idle_timeout < now)
        × (lookup text_discrete j g.sessions ≡ none))
      ⊎ (((sess : UdpSession) × (lookup text_discrete j f.sessions ≡ some sess)
            × (now ≤ sess.last_activity + f.idle_timeout)
            × (lookup text_discrete j g.sessions ≡ lookup text_discrete j (others f).sessions))
          ⊎ ((lookup text_discrete j f.sessions ≡ none)
              × (lookup text_discrete j g.sessions ≡ lookup text_discrete j (others f).sessions)))
unfolding reap_between stale_keys is_found_stale
lookup-reap others now f j h =
    let collected = contains-stale f.idle_timeout now j f.sessions h in
    let left = lookup-drop_all (stale_keys now f) j (others f) in
    elim (Option-cases (lookup text_discrete j f.sessions)) [
      | inl absent ↦ inr (inr (absent, ground (arith, collected, left)))
      | inr (sess, present) ↦ elim (dec_lt (sess.last_activity + f.idle_timeout) now) [
        | yes late ↦ inl (sess, present, late, ground (arith, collected, left))
        | no early ↦ inr (inl (sess, present, omega arith, ground (arith, collected, left)))
      ]
    ]

abbrev pub at_rest : UdpForwarder → Running
at_rest f = record { forwarder = f; dialed = []; dropped = []; uncounted = 0 }

pub append_steps : (r s t : Running) → Reaches r s → Reaches s t → Reaches r t
append_steps r _ t (done _) last = last
append_steps r s t (step _ u _ first rest) last = step r u t first (append_steps u s t rest last)

one_socket : (s : ℕ) → without_socket s (s ∷ []) ≡ []
one_socket s = ground arith

-- `dropSession` with no other step between its own.
pub drop_session-Reaches :
    (k : Text) (f : UdpForwarder) → Reaches (at_rest f) (at_rest (drop_session k f))
unfolding drop_session
drop_session-Reaches k f = elim (Option-cases (lookup text_discrete k f.sessions)) [
  | inl absent ↦ rw (absent, drop_session) (done (at_rest f))
  | inr (sess, present) ↦
      let s = sess.upstream in
      let g = remove_session k f in
      let removed : Running = record (at_rest g) { dropped = s ∷ [] } in
      let closed : Running = record (at_rest (close_socket s g)) { uncounted = 1 } in
      let end = lower_gauge (close_socket s g) in
      let last : Reaches closed (at_rest end) =
        step closed (at_rest end) (at_rest end) (lowering closed 0 refl) (done (at_rest end)) in
      rw (present, drop_session)
        (step (at_rest f) removed (at_rest end) (removing (at_rest f) k sess present) (
          subst
            (λ (ds : List ℕ).
              Reaches (record closed { dropped = ds }) (at_rest end)
              → Reaches removed (at_rest end))
            (one_socket s)
            (step removed (record closed { dropped = without_socket s (s ∷ []) }) (at_rest end)
              (closing removed s (if_pos (ℕ_discrete s s) refl true _)))
            last))
]

pub drop_all-Reaches :
    (ks : List Text) (f : UdpForwarder) → Reaches (at_rest f) (at_rest (drop_all ks f))
drop_all-Reaches [] f = done (at_rest f)
drop_all-Reaches (k ∷ ks) f =
    append_steps (at_rest f) (at_rest (drop_session k f)) (at_rest (drop_all ks (drop_session k f)))
      (drop_session-Reaches k f) (drop_all-Reaches ks (drop_session k f))

no_sessions :
    (ss : List (Text × UdpSession)) → ((j : Text) → lookup text_discrete j ss ≡ none) → ss ≡ []
no_sessions [] h = refl
no_sessions ((i, x) ∷ ss) h = ground (arith, h i)

all_keys :
    (j : Text) (ss : List (Text × UdpSession))
    → (if contains text_discrete j (keys ss) then none else lookup text_discrete j ss) ≡ none
all_keys j [] = refl
all_keys j ((i, x) ∷ ss) = ground (arith, all_keys j ss)

-- The shutdown of a forwarder that is in order, no dial being under way, leaves no session, no open
-- socket, and a gauge of zero.
pub close_all_sessions-closes :
    (f : UdpForwarder)
    → IsConsistent (at_rest f)
    → let g = close_all_sessions f in
      (g.sessions ≡ []) × ((s : ℕ) → contains ℕ_discrete s g.open_sockets ≡ false) × (g.active ≡ 0)
unfolding close_all_sessions
close_all_sessions-closes f c =
    let g = drop_all (keys f.sessions) f in
    let after =
      steps-IsConsistent (at_rest f) (at_rest g) (drop_all-Reaches (keys f.sessions) f) c in
    let gone =
      no_sessions g.sessions (λ j. lookup-drop_all (keys f.sessions) j f ∙ all_keys j f.sessions) in
    (gone, λ s. ground (arith, after.opened s), ground (arith, after.counted))
