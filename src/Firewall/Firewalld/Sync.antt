-- ===== src/Firewall/Firewalld/Sync.antt =====
-- `Apply` as a whole: what the zone and the state file hold after it.
use bulb.Base.{
  ◌≡◌, refl, sym, Bool, false, not, ◌&&◌, ◌||◌, List, [], ◌∷◌, Text, arith, inl, inr, All,
}
use bulb.Base.Result.{Result, ok, err, Result-cases, ok≢err}
use bulb.Firewall.Ports.{
  PortSpec, PortKey, key, has_key, diff_ports, intersect_ports, next_managed_ports, port_keys,
  specs_from_keys,
}
use bulb.Firewall.Ports.Sets.{
  has_key-diff_ports, has_key-intersect_ports, has_key-next_managed_ports,
}
use bulb.Firewall.Ports.Kept.{
  IsKnown, next_managed_ports-All, diff_ports-All, specs_from_keys-IsKnown, has_key-specs_from_keys,
}
use bulb.Firewall.Backend.{ZoneClient, IsZoneClient, StateStore, IsStateStore}
use bulb.Firewall.Firewalld.{World, add_ports, apply}
use bulb.Firewall.Firewalld.Steps.{
  add_ports-other, add_ports-done, remove_ports-other, remove_ports-done,
}

-- What the state file says that the agent manages; nothing while it cannot be read.
abbrev managed_keys : Result (List PortKey) → List PortSpec
managed_keys (ok ks) = specs_from_keys ks
managed_keys (err e) = []

unfoldable pub manages : {F : Type 0} → StateStore F → F → PortKey → Bool
manages store f k = has_key k (managed_keys (store.load f))

module _ {Z F : Type 0} (client : ZoneClient Z) (store : StateStore F) (zone : Text)
    (open_at : Z → PortKey → Bool) (laws : IsZoneClient zone client open_at) where
  -- Whatever fails on the way, a port that is neither desired nor managed is left as it was.
  pub apply-foreign :
      (desired : List PortSpec) (w : World Z F) (k : PortKey)
      → has_key k desired ≡ false
      → manages store w.file k ≡ false
      → open_at (apply client store zone desired w).0.zone k ≡ open_at w.zone k
  unfolding apply manages
  apply-foreign desired w k not_desired not_managed = elim (Result-cases (store.load w.file)) [
    | inr (e, failed) ↦ rw (failed, apply)
    | inl (ks, loaded) ↦ elim (Result-cases (client.get_ports zone w.zone)) [
      | inr (e, failed) ↦ rw (loaded, apply, failed)
      | inl (current, queried) ↦ ground (
        arith,
        add_ports-other client zone open_at laws (diff_ports desired current) w.zone k,
        remove_ports-other client zone open_at laws
            (diff_ports (intersect_ports (specs_from_keys ks) current) desired)
            (add_ports client zone (diff_ports desired current) w.zone).0 k,
        has_key-diff_ports k desired current,
        has_key-diff_ports k (intersect_ports (specs_from_keys ks) current) desired,
        has_key-intersect_ports k (specs_from_keys ks) current,
      )
    ]
  ]

  -- After a call that succeeds, a port is open exactly when it is desired, or was open before and not
  -- managed.
  pub apply-synced :
      (desired : List PortSpec) (w : World Z F) (k : PortKey)
      → (apply client store zone desired w).1 ≡ ok tt
      → open_at (apply client store zone desired w).0.zone k
        ≡ (has_key k desired || (open_at w.zone k && not (manages store w.file k)))
  unfolding apply manages
  apply-synced desired w k done = elim (Result-cases (store.load w.file)) [
    | inr (e, failed) ↦ absurd (ok≢err (sym (rw (failed, apply) at done)))
    | inl (ks, loaded) ↦ elim (Result-cases (client.get_ports zone w.zone)) [
      | inr (e, failed) ↦ ground arith
      | inl (current, queried) ↦ ground (
        arith,
        laws.queried w.zone current queried k,
        add_ports-done client zone open_at laws (diff_ports desired current) w.zone k,
        remove_ports-done client zone open_at laws
            (diff_ports (intersect_ports (specs_from_keys ks) current) desired)
            (add_ports client zone (diff_ports desired current) w.zone).0 k,
        has_key-diff_ports k desired current,
        has_key-diff_ports k (intersect_ports (specs_from_keys ks) current) desired,
        has_key-intersect_ports k (specs_from_keys ks) current,
      )
    ]
  ]

pub no_keys-nil : (ps : List PortSpec) → ((k : PortKey) → has_key k ps ≡ false) → ps ≡ []
unfolding has_key
no_keys-nil [] h = refl
no_keys-nil (p ∷ ps) h = ground (arith, h (key p))

module _ {Z F : Type 0} (client : ZoneClient Z) (store : StateStore F) (zone : Text)
    (open_at : Z → PortKey → Bool) (laws : IsZoneClient zone client open_at)
    (stores : IsStateStore store) (desired : List PortSpec)
    (known : All (λ p. IsKnown p.protocol) desired) where
  -- After a call that succeeds, the desired ports being TCP or UDP, the state file manages a port
  -- exactly when it is desired and was either closed before or managed before.
  pub apply-manages :
      (w : World Z F) (k : PortKey)
      → (apply client store zone desired w).1 ≡ ok tt
      → manages store (apply client store zone desired w).0.file k
        ≡ (has_key k desired && (not (open_at w.zone k) || manages store w.file k))
  unfolding apply manages
  apply-manages w k done = elim (Result-cases (store.load w.file)) [
    | inr (e, failed) ↦ absurd (ok≢err (sym (rw (failed, apply) at done)))
    | inl (ks, loaded) ↦ elim (Result-cases (client.get_ports zone w.zone)) [
      | inr (e, failed) ↦ ground arith
      | inl (current, queried) ↦
          let to_add = diff_ports desired current in
          let next = next_managed_ports (specs_from_keys ks) desired current to_add in
          ground (
            arith,
            laws.queried w.zone current queried k,
            stores.load-save (port_keys next) w.file,
            has_key-specs_from_keys k next (
                next_managed_ports-All IsKnown (specs_from_keys ks) desired current to_add
                  (specs_from_keys-IsKnown ks) (diff_ports-All IsKnown desired current known)),
            has_key-diff_ports k desired current,
            has_key-next_managed_ports k (specs_from_keys ks) desired current to_add,
          )
    ]
  ]
