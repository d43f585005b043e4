-- ===== src/Firewall/Backend.antt =====
-- The firewall agent's interfaces: `Backend` and its dry run (internal/firewall/backend.go), the
-- state store (state.go), and the firewalld client (firewalld.go). `S` is the state of the world
-- that an implementation acts on.
use bulb.Base.{◌≡◌, ◌≢◌, Bool, true, List, Text}
use bulb.Base.Result.{M, Result, ok, return}
use bulb.Firewall.Ports.{PortSpec, PortKey, key, has_key}

pub record Backend (S : Type 0) : Type 0 where
  pub name : Text
  pub validate : M S (Unit {0})
  pub apply : List PortSpec → M S (Unit {0})

-- `DryRunBackend`: the inner backend, but nothing is applied.
unfoldable pub dry_run : {S : Type 0} → Backend S → Backend S
dry_run inner = record {
  name = inner.name;
  validate = inner.validate;
  apply = λ desired. return tt;
}

pub record StateStore (S : Type 0) : Type 0 where
  pub load : S → Result (List PortKey)
  pub save : List PortKey → M S (Unit {0})

-- What the backend relies on: a save that succeeds is what the next load returns.
pub record IsStateStore {S : Type 0} (store : StateStore S) : Type 0 where
  pub load-save :
      (ks : List PortKey) (s : S)
      → (store.save ks s).1 ≡ ok tt
      → store.load (store.save ks s).0 ≡ ok ks

pub record ZoneClient (S : Type 0) : Type 0 where
  pub get_ports : Text → S → Result (List PortSpec)
  pub add_port : Text → PortSpec → M S (Unit {0})
  pub remove_port : Text → PortSpec → M S (Unit {0})

-- What firewalld documents of a zone's ports, `open` telling the keys that are open there: a query
-- returns them, and a call that succeeds opens or closes its port. A call never touches another.
pub record IsZoneClient {S : Type 0} (zone : Text) (c : ZoneClient S) (open_at : S → PortKey → Bool)
    : Type 0 where
  pub queried :
      (s : S) (ps : List PortSpec)
      → c.get_ports zone s ≡ ok ps
      → (k : PortKey) → has_key k ps ≡ open_at s k
  pub added :
      (p : PortSpec) (s : S)
      → (c.add_port zone p s).1 ≡ ok tt
      → open_at (c.add_port zone p s).0 (key p) ≡ true
  pub add_other :
      (p : PortSpec) (s : S) (k : PortKey)
      → k ≢ key p
      → open_at (c.add_port zone p s).0 k ≡ open_at s k
  pub removed :
      (p : PortSpec) (s : S)
      → (c.remove_port zone p s).1 ≡ ok tt
      → open_at (c.remove_port zone p s).0 (key p) ≡ Bool.false
  pub remove_other :
      (p : PortSpec) (s : S) (k : PortKey)
      → k ≢ key p
      → open_at (c.remove_port zone p s).0 k ≡ open_at s k
