-- ===== src/Firewall/Firewalld.antt =====
-- `FirewalldBackend.Apply` of internal/firewall/firewalld.go, over any zone client and state store.
pub mod Steps
pub mod Repeat
pub mod Sync
pub mod Works
use bulb.Base.{List, [], ◌∷◌, ◌++◌, Text, codes, decimal, to_lower, is_empty, if◌then◌else◌}
use bulb.Base.Result.{M, Result, ok, err, wrap, return, query, ◌>>=◌, ◌>>◌, wrapping, continue_with}
use bulb.Firewall.Ports.{
  PortSpec, diff_ports, intersect_ports, next_managed_ports, port_keys, specs_from_keys,
}
use bulb.Firewall.Backend.{Backend, StateStore, ZoneClient}

-- `PortSpec.String`
unfoldable pub port_string : PortSpec → Text
unfolding decimal to_lower
port_string p = decimal p.port ++ codes "/" ++ to_lower p.protocol

-- The two states that `Apply` acts on.
pub record World (Z F : Type 0) : Type 0 where
  pub zone : Z
  pub file : F

module _ {Z : Type 0} (client : ZoneClient Z) (zone : Text) where
  unfoldable pub add_ports : List PortSpec → M Z (Unit {0})
  add_ports [] z = (z, ok tt)
  add_ports (p ∷ ps) z =
      continue_with (λ _. add_ports ps)
        (wrapping (codes "add " ++ port_string p ++ codes " to zone " ++ zone)
          (client.add_port zone p) z)

  unfoldable pub remove_ports : List PortSpec → M Z (Unit {0})
  remove_ports [] z = (z, ok tt)
  remove_ports (p ∷ ps) z =
      continue_with (λ _. remove_ports ps)
        (wrapping (codes "remove " ++ port_string p ++ codes " from zone " ++ zone)
          (client.remove_port zone p) z)

module _ {Z F : Type 0} where
  abbrev pub on_zone : {A : Type 0} → M Z A → M (World Z F) A
  on_zone m w = let (z, r) = m w.zone in (record w { zone = z }, r)

  abbrev pub on_file : {A : Type 0} → M F A → M (World Z F) A
  on_file m w = let (f, r) = m w.file in (record w { file = f }, r)

module _ {Z F : Type 0} (client : ZoneClient Z) (store : StateStore F) (zone : Text) where
  unfoldable pub apply : List PortSpec → M (World Z F) (Unit {0})
  unfolding add_ports remove_ports
  apply desired = do
    managed_keys ← on_file (query store.load)
    let managed = specs_from_keys managed_keys
    current ← on_zone (query (client.get_ports zone))
    let to_add = diff_ports desired current
    let tracked_current = intersect_ports managed current
    let to_remove = diff_ports tracked_current desired
    on_zone (add_ports client zone to_add)
    on_zone (remove_ports client zone to_remove)
    let next_managed = next_managed_ports managed desired current to_add
    on_file (store.save (port_keys next_managed))

  -- `Validate`: the zone is named, and its ports can be queried.
  unfoldable pub validate : M (World Z F) (Unit {0})
  validate w =
      if is_empty zone
      then (w, err (codes "firewalld zone is required"))
      else (do
        ports ← on_zone (
            query
              (λ z. wrap (codes "query zone " ++ zone ++ codes " ports") (client.get_ports zone z)))
        return tt)
          w

  unfoldable pub firewalld_backend : Backend (World Z F)
  unfolding apply validate
  firewalld_backend = record { name = codes "firewalld"; validate = validate; apply = apply }
