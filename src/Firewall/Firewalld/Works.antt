-- ===== src/Firewall/Firewalld/Works.antt =====
-- `Apply` where the zone and the state file answer.
use bulb.Base.{◌≡◌, List, Text}
use bulb.Base.Result.{ok}
use bulb.Firewall.Ports.{PortSpec, PortKey}
use bulb.Firewall.Backend.{ZoneClient, StateStore}

-- A zone and a state file on which every call succeeds.
pub record IsWorking {Z F : Type 0} (client : ZoneClient Z) (store : StateStore F) (zone : Text)
    : Type 0 where
  pub loads : (f : F) → (ks : List PortKey) × (store.load f ≡ ok ks)
  pub saves : (ks : List PortKey) (f : F) → (store.save ks f).1 ≡ ok tt
  pub reads : (z : Z) → (ps : List PortSpec) × (client.get_ports zone z ≡ ok ps)
  pub adds : (p : PortSpec) (z : Z) → (client.add_port zone p z).1 ≡ ok tt
  pub removes : (p : PortSpec) (z : Z) → (client.remove_port zone p z).1 ≡ ok tt
