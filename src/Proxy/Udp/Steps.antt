-- ===== src/Proxy/Udp/Steps.antt =====
-- The table without a session, and the sockets that the sessions of a table hold.
use bulb.Base.{
  ℕ, suc, ◌≡◌, refl, true, false, ◌&&◌, List, [], ◌∷◌, map, Text, text_discrete, none, some, ite,
  if_pos, if_neg, ℕ_discrete, contains, length, arith,
}
use bulb.Base.Dict.{lookup, keys}
use bulb.Proxy.Udp.{UdpSession, without_key}

abbrev pub sockets : List (Text × UdpSession) → List ℕ
sockets = map (λ e. e.1.upstream)

-- No two sessions share a client or a socket.
abbrev pub Separate : List (Text × UdpSession) → Type 0
Separate [] = Unit
Separate ((k, sess) ∷ ss) =
    (contains text_discrete k (keys ss) ≡ false)
    × (contains ℕ_discrete sess.upstream (sockets ss) ≡ false)
    × Separate ss

pub lookup-contains :
    (k : Text) (ss : List (Text × UdpSession)) (sess : UdpSession)
    → lookup text_discrete k ss ≡ some sess
    → contains ℕ_discrete sess.upstream (sockets ss) ≡ true
lookup-contains k [] sess h = cc
lookup-contains k ((j, x) ∷ ss) sess h = ground (arith, lookup-contains k ss sess)

pub lookup-eq-none :
    (k : Text) (ss : List (Text × UdpSession))
    → lookup text_discrete k ss ≡ none
    → contains text_discrete k (keys ss) ≡ false
lookup-eq-none k [] h = refl
lookup-eq-none k ((j, x) ∷ ss) h = ground (arith, lookup-eq-none k ss)

pub without_key_of_absent :
    (k : Text) (ss : List (Text × UdpSession))
    → contains text_discrete k (keys ss) ≡ false
    → without_key k ss ≡ ss
without_key_of_absent k [] h = refl
without_key_of_absent k ((j, x) ∷ ss) h = elim (text_discrete j k) [
  | yes e ↦ ground arith
  | no ne ↦ ground (arith, without_key_of_absent k ss)
]

pub contains-keys-without :
    (k j : Text) (ss : List (Text × UdpSession))
    → contains text_discrete j (keys ss) ≡ false
    → contains text_discrete j (keys (without_key k ss)) ≡ false
contains-keys-without k j [] h = refl
contains-keys-without k j ((i, x) ∷ ss) h = ground (arith, contains-keys-without k j ss)

pub lookup-without :
    (k j : Text) (ss : List (Text × UdpSession))
    → lookup text_discrete j (without_key k ss)
      ≡ ite (text_discrete j k) none (lookup text_discrete j ss)
lookup-without k j [] = ground arith
lookup-without k j ((i, x) ∷ ss) = ground (arith, lookup-without k j ss)

-- Without a session, its socket is not held any more, and the others still are.
pub sockets-without :
    (k : Text) (s : ℕ) (ss : List (Text × UdpSession)) (sess : UdpSession)
    → Separate ss
    → lookup text_discrete k ss ≡ some sess
    → contains ℕ_discrete s (sockets (without_key k ss))
      ≡ (contains ℕ_discrete s (sockets ss) && ite (ℕ_discrete s sess.upstream) false true)
sockets-without k s [] sess h found = cc
sockets-without k s ((j, x) ∷ ss) sess (p, q, h) found = elim (text_discrete j k) [
  | yes e ↦ ground (arith, without_key_of_absent k ss)
  | no ne ↦ ground (arith, lookup-contains k ss sess, sockets-without k s ss sess h)
]

pub length-without :
    (k : Text) (ss : List (Text × UdpSession)) (sess : UdpSession)
    → Separate ss
    → lookup text_discrete k ss ≡ some sess
    → suc (length (without_key k ss)) ≡ length ss
length-without k [] sess h found = cc
length-without k ((j, x) ∷ ss) sess (p, q, h) found = elim (text_discrete j k) [
  | yes e ↦ ground (arith, without_key_of_absent k ss)
  | no ne ↦ ground (arith, length-without k ss sess h)
]

sockets-without_false :
    (k : Text) (s : ℕ) (ss : List (Text × UdpSession))
    → contains ℕ_discrete s (sockets ss) ≡ false
    → contains ℕ_discrete s (sockets (without_key k ss)) ≡ false
sockets-without_false k s [] h = refl
sockets-without_false k s ((j, x) ∷ ss) h = ground (arith, sockets-without_false k s ss)

pub without-Separate :
    (k : Text) (ss : List (Text × UdpSession)) → Separate ss → Separate (without_key k ss)
without-Separate k [] h = tt
without-Separate k ((j, x) ∷ ss) (p, q, h) = elim (text_discrete j k) [
  | yes e ↦ rw (if_pos _ e) (without-Separate k ss h)
  | no ne ↦ rw (if_neg _ ne) (
    contains-keys-without k j ss p,
    sockets-without_false k x.upstream ss q,
    without-Separate k ss h,
  )
]
