-- ===== src/Proxy/Serve/Closed.antt =====
-- `Serve` leaves no socket open.
use bulb.Base.{
  ℕ, ◌≡◌, refl, sym, ◌∙◌, Bool, true, false, not, ◌&&◌, ◌||◌, List, [], ◌∷◌, ◌++◌, Text, codes,
  ℕ_discrete, contains, contains-append, arith, Bool-cases, none, is_empty, inl, inr, subst,
}
use bulb.Base.Result.{M, Result, ok, err, wrap}
use bulb.Proxy.Pairs.{Spec, spec_protocol, protocol_tcp, protocol_udp}
use bulb.Proxy.Serve.{
  Network, Opened, text_is, close_all, close_all_opened, or_close, listen_all, serve_opened,
  serve_checked, serve_listening, serve, start_health_server,
}

-- What the network promises of the sockets that are open: a listen that succeeds opens a new one,
-- one that fails opens none, and a close closes its own.
pub record IsNetwork {S : Type 0} (network : Network S) (is_open : S → ℕ → Bool) : Type 0 where
  pub listened :
      (proto addr : Text) (s t : S) (l : ℕ)
      → network.listen proto addr s ≡ (t, ok l)
      → (is_open s l ≡ false)
        × ((h : ℕ) → is_open t h ≡ (contains ℕ_discrete h (l ∷ []) || is_open s h))
  pub failed :
      (proto addr : Text) (s t : S) (e : Text)
      → network.listen proto addr s ≡ (t, err e)
      → (h : ℕ) → is_open t h ≡ is_open s h
  pub closed :
      (l : ℕ) (s : S) (h : ℕ)
      → is_open (network.close l s) h ≡ (is_open s h && not (contains ℕ_discrete h (l ∷ [])))

module _ {S : Type 0} (network : Network S) (is_open : S → ℕ → Bool)
    (laws : IsNetwork network is_open) where
  -- The sockets that the proxy holds.
  abbrev held : Opened → List ℕ
  held o = o.tcp_listeners ++ o.udp_conns

  -- The sockets of `s`, none of them held, and the held ones are open.
  pub record Holds (s : S) (o : Opened) (t : S) : Type 0 where
    pub fresh : (h : ℕ) → contains ℕ_discrete h (held o) ≡ true → is_open s h ≡ false
    pub all : (h : ℕ) → is_open t h ≡ (contains ℕ_discrete h (held o) || is_open s h)

  close_all-is_open :
      (ls : List ℕ) (s : S) (h : ℕ)
      → is_open (close_all network ls s) h ≡ (is_open s h && not (contains ℕ_discrete h ls))
  unfolding close_all
  close_all-is_open [] s h = ground arith
  close_all-is_open (l ∷ ls) s h =
      ground (arith, close_all-is_open ls (network.close l s) h, laws.closed l s h)

  close_all_opened-is_open :
      (t : S) (o : Opened) (h : ℕ)
      → is_open (close_all_opened network o t) h
        ≡ (is_open t h && not (contains ℕ_discrete h (held o)))
  unfolding close_all_opened
  close_all_opened-is_open t o h = ground (
    arith,
    close_all-is_open o.udp_conns (close_all network o.tcp_listeners t) h,
    close_all-is_open o.tcp_listeners t h,
    contains-append ℕ_discrete h o.tcp_listeners o.udp_conns,
  )

  close_all_opened-restores :
      (s t : S) (o : Opened)
      → Holds s o t
      → (h : ℕ) → is_open (close_all_opened network o t) h ≡ is_open s h
  close_all_opened-restores s t o holds h =
      ground (arith, close_all_opened-is_open t o h, holds.fresh h, holds.all h)

  add_tcp : Opened → ℕ → Opened
  add_tcp o l = record o { tcp_listeners = o.tcp_listeners ++ l ∷ [] }

  add_udp : Opened → ℕ → Opened
  add_udp o l = record o { udp_conns = o.udp_conns ++ l ∷ [] }

  contains-tcp :
      (o : Opened) (l h : ℕ)
      → contains ℕ_discrete h (held (add_tcp o l))
        ≡ (contains ℕ_discrete h (l ∷ []) || contains ℕ_discrete h (held o))
  unfolding add_tcp
  contains-tcp o l h = ground (
    arith,
    contains-append ℕ_discrete h (o.tcp_listeners ++ l ∷ []) o.udp_conns,
    contains-append ℕ_discrete h o.tcp_listeners (l ∷ []),
    contains-append ℕ_discrete h o.tcp_listeners o.udp_conns,
  )

  contains-udp :
      (o : Opened) (l h : ℕ)
      → contains ℕ_discrete h (held (add_udp o l))
        ≡ (contains ℕ_discrete h (l ∷ []) || contains ℕ_discrete h (held o))
  unfolding add_udp
  contains-udp o l h = ground (
    arith,
    contains-append ℕ_discrete h o.tcp_listeners (o.udp_conns ++ l ∷ []),
    contains-append ℕ_discrete h o.udp_conns (l ∷ []),
    contains-append ℕ_discrete h o.tcp_listeners o.udp_conns,
  )

  -- One more socket is held.
  Holds-listened :
      (proto addr : Text) (s t t' : S) (o o' : Opened) (l : ℕ)
      → ((h : ℕ)
          → contains ℕ_discrete h (held o')
            ≡ (contains ℕ_discrete h (l ∷ []) || contains ℕ_discrete h (held o)))
      → network.listen proto addr t ≡ (t', ok l)
      → Holds s o t
      → Holds s o' t'
  Holds-listened proto addr s t t' o o' l more heard holds =
      let (new, opened) = laws.listened proto addr t t' l heard in
      record {
        fresh = λ h inside. elim (ℕ_discrete h l) [
          | yes same ↦
              subst (λ x. is_open s x ≡ false) (sym same) (ground (arith, new, holds.all l))
          | no other ↦ ground (arith, inside, more h, holds.fresh h)
        ];
        all = λ h. ground (arith, opened h, more h, holds.all h);
      }

  -- After the loop: what is open is held, or all is as it was.
  Listened : S → S × Result Opened → Type 0
  Listened s (t, ok o) = Holds s o t
  Listened s (t, err e) = (h : ℕ) → is_open t h ≡ is_open s h

  or_close-Listened :
      (what proto addr : Text) (s t : S) (o : Opened) (next : ℕ → M S Opened) (m : S × Result ℕ)
      → network.listen proto addr t ≡ m
      → Holds s o t
      → ((l : ℕ) (t' : S) → network.listen proto addr t ≡ (t', ok l) → Listened s (next l t'))
      → Listened s (or_close network what o next m)
  unfolding or_close Listened
  or_close-Listened what proto addr s t o next (t', err e) heard holds go = λ h.
      close_all_opened-restores s t' o
        record {
          fresh = holds.fresh;
          all = λ h. laws.failed proto addr t t' e heard h ∙ holds.all h;
        }
        h
  or_close-Listened what proto addr s t o next (t', ok l) heard holds go = go l t' heard

  listen_all-Listened :
      (specs : List Spec) (s t : S) (o : Opened)
      → Holds s o t
      → Listened s (listen_all network specs o t)
  unfolding listen_all Listened add_tcp add_udp
  listen_all-Listened [] s t o holds = holds
  listen_all-Listened (spec ∷ specs) s t o holds =
      elim (Bool-cases (text_is (spec_protocol spec) protocol_tcp)) [
        | inl tcp ↦ rw tcp (
            or_close-Listened (codes "listen tcp " ++ spec.listen) (codes "tcp") spec.listen s t o
              (λ l. listen_all network specs (add_tcp o l)) _ refl holds
              (λ l t' heard. listen_all-Listened specs s t' (add_tcp o l) (
                Holds-listened (codes "tcp") spec.listen s t t' o (add_tcp o l) l (contains-tcp o l)
                  heard holds)))
        | inr not_tcp ↦ elim (Bool-cases (text_is (spec_protocol spec) protocol_udp)) [
          | inl udp ↦
              rw (not_tcp, udp)
                (or_close-Listened (codes "listen udp " ++ spec.listen) (codes "udp") spec.listen s
                  t o (λ l. listen_all network specs (add_udp o l)) _ refl holds
                  (λ l t' heard. listen_all-Listened specs s t' (add_udp o l) (
                    Holds-listened (codes "udp") spec.listen s t t' o (add_udp o l) l
                      (contains-udp o l) heard holds)))
          | inr not_udp ↦ rw (not_tcp, not_udp) (close_all_opened-restores s t o holds)
        ]
      ]

  module _ (serving : S → S)
      -- While it serves, the proxy neither opens nor closes a listening socket.
      (serves : (s : S) (h : ℕ) → is_open (serving s) h ≡ is_open s h) where
    opened_lem :
        (s t : S) (o : Opened)
        → Holds s o t
        → (h : ℕ) → is_open (serve_opened network serving o none t).0 h ≡ is_open s h
    unfolding serve_opened
    opened_lem s t o holds =
        close_all_opened-restores s (serving t) o
          record { fresh = holds.fresh; all = λ h. serves t h ∙ holds.all h }

    -- With the health server's socket open beside them.
    checked_lem :
        (s t : S) (o : Opened) (what addr : Text) (m : S × Result ℕ)
        → network.listen (codes "tcp") addr t ≡ m
        → Holds s o t
        → (h : ℕ) → is_open (serve_checked network serving o (m.0, wrap what m.1)).0 h ≡ is_open s h
    unfolding serve_checked serve_opened
    checked_lem s t o what addr (t', err e) heard holds h =
        close_all_opened-restores s t' o
          record {
            fresh = holds.fresh;
            all = λ h. laws.failed (codes "tcp") addr t t' e heard h ∙ holds.all h;
          }
          h
    checked_lem s t o what addr (t', ok l) heard holds h =
        let (new, opened) = laws.listened (codes "tcp") addr t t' l heard in
        let shut = laws.closed l (close_all_opened network o (serving t')) h in
        let closed = close_all_opened-is_open (serving t') o h in
        elim (ℕ_discrete h l) [
          | yes same ↦
              let before =
                subst (λ x. is_open s x ≡ false) (sym same) (ground (arith, new, holds.all l)) in
              ground (arith, shut, before)
          | no other ↦
              ground (arith, shut, closed, serves t' h, opened h, holds.fresh h, holds.all h)
        ]

    listening_lem :
        (addr : Text) (s : S) (m : S × Result Opened)
        → Listened s m
        → (h : ℕ) → is_open (serve_listening network addr serving m).0 h ≡ is_open s h
    unfolding serve_listening start_health_server Listened
    listening_lem addr s (t, err e) same h = same h
    listening_lem addr s (t, ok o) holds h = elim (Bool-cases (is_empty addr)) [
      | inl off ↦ rw off (opened_lem s t o holds h)
      | inr on ↦ rw on (checked_lem s t o (codes "listen health " ++ addr) addr _ refl holds h)
    ]

    -- However it ends, `Serve` leaves the sockets open that were open before, and no other: where
    -- a rule cannot be bound or has an unknown protocol, where the health server cannot listen,
    -- and after the shutdown, with the health server or without. While it serves, the proxy
    -- neither opens nor closes a listening socket.
    pub serve-closes :
        (specs : List Spec) (health_addr : Text) (s : S) (h : ℕ)
        → is_open (serve network specs health_addr serving s).0 h ≡ is_open s h
    unfolding serve
    serve-closes specs health_addr s h =
        listening_lem health_addr s _
          (listen_all-Listened specs s s (record { tcp_listeners = []; udp_conns = [] })
            record { fresh = λ h inside. cc; all = λ h. refl })
          h
