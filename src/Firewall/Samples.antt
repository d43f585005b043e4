-- ===== src/Firewall/Samples.antt =====
-- Concrete collaborators for the tests: a zone whose calls fail after a number of them, and a state
-- file that always works.
use bulb.Base.{
  ℕ, zero, suc, ◌≡◌, ◌≢◌, refl, Bool, true, false, ◌&&◌, List, [], ◌∷◌, Text, codes, arith, ite,
  keep, if_neg,
}
use bulb.Base.Result.{M, ok, err}
use bulb.Firewall.Ports.{PortSpec, PortKey, port_key_discrete, key, has_key, protocol_tcp}
use bulb.Firewall.Backend.{ZoneClient, IsZoneClient, StateStore, IsStateStore}

-- The calls that will still succeed, and the open ports.
abbrev pub Zone : Type 0
Zone = ℕ × List PortSpec

abbrev others : PortSpec → List PortSpec → List PortSpec
others p = keep (λ q. ite (port_key_discrete (key q) (key p)) false true)

unfoldable pub sample_add : PortSpec → M Zone (Unit {0})
sample_add p (zero, ports) = ((zero, ports), err (codes "failed"))
sample_add p (suc n, ports) = ((n, p ∷ ports), ok tt)

unfoldable pub sample_remove : PortSpec → M Zone (Unit {0})
unfolding port_key_discrete key
sample_remove p (zero, ports) = ((zero, ports), err (codes "failed"))
sample_remove p (suc n, ports) = ((n, others p ports), ok tt)

unfoldable pub zone_client : ZoneClient Zone
unfolding sample_add sample_remove
zone_client = record {
  get_ports = λ zone s. ok s.1;
  add_port = λ zone. sample_add;
  remove_port = λ zone. sample_remove;
}

abbrev pub open_in : Zone → PortKey → Bool
open_in s k = has_key k s.1

has_key-others :
    (k : PortKey) (p : PortSpec) (ports : List PortSpec)
    → has_key k (others p ports) ≡ (has_key k ports && ite (port_key_discrete k (key p)) false true)
unfolding has_key
has_key-others k p [] = refl
has_key-others k p (q ∷ ports) = ground (arith, has_key-others k p ports)

add_other :
    (p : PortSpec) (s : Zone) (k : PortKey) → k ≢ key p → open_in (sample_add p s).0 k ≡ open_in s k
unfolding sample_add has_key
add_other p (zero, ports) k h = refl
add_other p (suc n, ports) k h = if_neg _ h true _

added :
    (p : PortSpec) (s : Zone)
    → (sample_add p s).1 ≡ ok tt
    → open_in (sample_add p s).0 (key p) ≡ true
unfolding sample_add has_key
added p (zero, ports) h = cc
added p (suc n, ports) h = ground arith

removed :
    (p : PortSpec) (s : Zone)
    → (sample_remove p s).1 ≡ ok tt
    → open_in (sample_remove p s).0 (key p) ≡ false
unfolding sample_remove
removed p (zero, ports) h = cc
removed p (suc n, ports) h = ground (arith, has_key-others (key p) p ports)

remove_other :
    (p : PortSpec) (s : Zone) (k : PortKey)
    → k ≢ key p
    → open_in (sample_remove p s).0 k ≡ open_in s k
unfolding sample_remove
remove_other p (zero, ports) k h = refl
remove_other p (suc n, ports) k h = ground (arith, has_key-others k p ports)

pub zone_laws : (zone : Text) → IsZoneClient zone zone_client open_in
unfolding zone_client
zone_laws zone = record {
  queried = λ s ps e k. ground (arith);
  added = added;
  add_other = add_other;
  removed = removed;
  remove_other = remove_other;
}

unfoldable pub file_store : StateStore (List PortKey)
file_store = record { load = ok; save = λ ks s. (ks, ok tt) }

pub file_laws : IsStateStore file_store
unfolding file_store
file_laws = record { load-save = λ ks s h. refl }

abbrev pub tcp : ℕ → PortSpec
tcp n = record { port = n; protocol = protocol_tcp; allow_privileged = false }

abbrev pub udp : ℕ → PortSpec
udp n = record { port = n; protocol = codes "UDP"; allow_privileged = false }
