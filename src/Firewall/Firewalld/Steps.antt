-- ===== src/Firewall/Firewalld/Steps.antt =====
-- What the two loops of `Apply` do to the zone, whether they end or fail on the way.
use bulb.Base.{◌≡◌, refl, Bool, false, not, ◌&&◌, ◌||◌, List, [], ◌∷◌, Text, arith}
use bulb.Base.Result.{ok}
use bulb.Firewall.Ports.{PortSpec, PortKey, has_key}
use bulb.Firewall.Backend.{ZoneClient, IsZoneClient}
use bulb.Firewall.Firewalld.{add_ports, remove_ports}

module _ {Z : Type 0} (client : ZoneClient Z) (zone : Text) (open_at : Z → PortKey → Bool)
    (laws : IsZoneClient zone client open_at) where
  -- A port that the loop is not given keeps its state, also when the loop fails.
  pub add_ports-other :
      (ps : List PortSpec) (z : Z) (k : PortKey)
      → has_key k ps ≡ false
      → open_at (add_ports client zone ps z).0 k ≡ open_at z k
  unfolding add_ports has_key
  add_ports-other [] z k h = refl
  add_ports-other (p ∷ ps) z k h =
      ground (arith, laws.add_other p z k, add_ports-other ps (client.add_port zone p z).0 k)

  -- When the loop ends, what it was given is open too.
  pub add_ports-done :
      (ps : List PortSpec) (z : Z) (k : PortKey)
      → (add_ports client zone ps z).1 ≡ ok tt
      → open_at (add_ports client zone ps z).0 k ≡ (open_at z k || has_key k ps)
  unfolding add_ports has_key
  add_ports-done [] z k h = ground arith
  add_ports-done (p ∷ ps) z k h = ground (
    arith,
    laws.added p z,
    laws.add_other p z k,
    add_ports-done ps (client.add_port zone p z).0 k,
  )

  pub remove_ports-other :
      (ps : List PortSpec) (z : Z) (k : PortKey)
      → has_key k ps ≡ false
      → open_at (remove_ports client zone ps z).0 k ≡ open_at z k
  unfolding remove_ports has_key
  remove_ports-other [] z k h = refl
  remove_ports-other (p ∷ ps) z k h =
      ground
        (arith, laws.remove_other p z k, remove_ports-other ps (client.remove_port zone p z).0 k)

  pub remove_ports-done :
      (ps : List PortSpec) (z : Z) (k : PortKey)
      → (remove_ports client zone ps z).1 ≡ ok tt
      → open_at (remove_ports client zone ps z).0 k ≡ (open_at z k && not (has_key k ps))
  unfolding remove_ports has_key
  remove_ports-done [] z k h = ground arith
  remove_ports-done (p ∷ ps) z k h = ground (
    arith,
    laws.removed p z,
    laws.remove_other p z k,
    remove_ports-done ps (client.remove_port zone p z).0 k,
  )
