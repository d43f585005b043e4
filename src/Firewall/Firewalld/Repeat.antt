-- ===== src/Firewall/Firewalld/Repeat.antt =====
-- A second `Apply` after one that succeeded, and one after a call that failed half way.
use bulb.Base.{◌≡◌, ap, ◌∙◌, Bool, true, false, List, Text, arith, inl, inr, All}
use bulb.Base.Result.{ok, err, Error, Result-cases}
use bulb.Firewall.Ports.{PortSpec, PortKey, has_key, diff_ports, intersect_ports, specs_from_keys}
use bulb.Firewall.Ports.Kept.{IsKnown}
use bulb.Firewall.Ports.Sets.{has_key-diff_ports, has_key-intersect_ports}
use bulb.Firewall.Backend.{ZoneClient, IsZoneClient, StateStore, IsStateStore}
use bulb.Firewall.Firewalld.{World, add_ports, remove_ports, apply}
use bulb.Firewall.Firewalld.Sync.{manages, no_keys-nil, apply-synced, apply-manages}

module _ {Z F : Type 0} (client : ZoneClient Z) (store : StateStore F) (zone : Text)
    (open_at : Z → PortKey → Bool) (laws : IsZoneClient zone client open_at) where
  -- All desired ports are open, and all that is managed is desired: there is nothing to do.
  abbrev IsSettled : List PortSpec → World Z F → Type 0
  IsSettled desired w =
      (k : PortKey)
      → (has_key k desired ≡ true → open_at w.zone k ≡ true)
        × (manages store w.file k ≡ true → has_key k desired ≡ true)

  apply_of_IsSettled :
      (desired : List PortSpec) (w : World Z F)
      → IsSettled desired w
      → (apply client store zone desired w).0.zone ≡ w.zone
  unfolding apply manages add_ports remove_ports
  apply_of_IsSettled desired w settled = elim (Result-cases (store.load w.file)) [
    | inr (e, failed) ↦ rw (failed, apply)
    | inl (ks, loaded) ↦ elim (Result-cases (client.get_ports zone w.zone)) [
      | inr (e, failed) ↦ rw (loaded, apply, failed)
      | inl (current, queried) ↦
          let none_added = no_keys-nil (diff_ports desired current) λ k. ground (
            arith,
            settled k,
            laws.queried w.zone current queried k,
            has_key-diff_ports k desired current,
          ) in
          let none_removed =
            no_keys-nil (diff_ports (intersect_ports (specs_from_keys ks) current) desired) λ k.
              ground (
                arith,
                settled k,
                has_key-diff_ports k (intersect_ports (specs_from_keys ks) current) desired,
                has_key-intersect_ports k (specs_from_keys ks) current,
              ) in
          rw (loaded, apply, queried, none_added, none_removed)
    ]
  ]

  module _ (stores : IsStateStore store) (desired : List PortSpec)
      (known : All (λ p. IsKnown p.protocol) desired) where
    -- After a call that succeeds, a second call with the same ports, TCP or UDP, leaves the zone
    -- exactly as it is.
    pub apply_idem :
        (w : World Z F)
        → (apply client store zone desired w).1 ≡ ok tt
        → (apply client store zone desired (apply client store zone desired w).0).0.zone
          ≡ (apply client store zone desired w).0.zone
    apply_idem w done = apply_of_IsSettled desired (apply client store zone desired w).0 λ k.
        ground (
          arith,
          apply-synced client store zone open_at laws desired w k done,
          apply-manages client store zone open_at laws stores desired known w k done,
        )

    -- A port that is open and not managed stays so, whatever is desired.
    pub apply-leaked :
        (w : World Z F) (k : PortKey)
        → (apply client store zone desired w).1 ≡ ok tt
        → open_at w.zone k ≡ true
        → manages store w.file k ≡ false
        → (open_at (apply client store zone desired w).0.zone k ≡ true)
          × (manages store (apply client store zone desired w).0.file k ≡ false)
    apply-leaked w k done opened unmanaged = ground (
      arith,
      apply-synced client store zone open_at laws desired w k done,
      apply-manages client store zone open_at laws stores desired known w k done,
    )

  -- A call that fails while it adds ports leaves the state file as it was.
  apply_of_add_failed :
      (desired : List PortSpec) (w : World Z F) (ks : List PortKey) (current : List PortSpec)
      (e : Error)
      → store.load w.file ≡ ok ks
      → client.get_ports zone w.zone ≡ ok current
      → (add_ports client zone (diff_ports desired current) w.zone).1 ≡ err e
      → (apply client store zone desired w).0
        ≡ record w { zone = (add_ports client zone (diff_ports desired current) w.zone).0 }
  unfolding apply
  apply_of_add_failed desired w ks current e loaded queried failed = ground arith

  module _ (stores : IsStateStore store) (desired later : List PortSpec)
      (known : All (λ p. IsKnown p.protocol) later) where
    -- A port that was not managed and is open after a call that failed while it added ports stays
    -- open in the next call that succeeds, whether that call wants it or not, and is still not in
    -- the state file then.
    pub apply_forgets_opened :
        (w : World Z F) (k : PortKey) (ks : List PortKey) (current : List PortSpec) (e : Error)
        → store.load w.file ≡ ok ks
        → client.get_ports zone w.zone ≡ ok current
        → (add_ports client zone (diff_ports desired current) w.zone).1 ≡ err e
        → manages store w.file k ≡ false
        → open_at (apply client store zone desired w).0.zone k ≡ true
        → (apply client store zone later (apply client store zone desired w).0).1 ≡ ok tt
        → let w' = (apply client store zone later (apply client store zone desired w).0).0 in
          (open_at w'.zone k ≡ true) × (manages store w'.file k ≡ false)
    apply_forgets_opened w k ks current e loaded queried failed unmanaged opened done =
        apply-leaked stores later known (apply client store zone desired w).0 k done opened (
          ap (λ (v : World Z F). manages store v.file k)
            (apply_of_add_failed desired w ks current e loaded queried failed)
          ∙ unmanaged)
