-- ===== src/Controller/Cluster.antt =====
-- The Kubernetes API as the controller uses it: for each kind of object its calls, over the state
-- `S` of the API server. `list` takes labels that the objects must carry.
use bulb.Base.{◌≡◌, ◌≢◌, List, Text, Option, none, some}
use bulb.Base.Result.{M, Result, ok, err, Found, found, not_found, failed}
use bulb.Api.{Labels}

pub record ObjectClient (S O : Type 0) : Type 0 where
  pub get : Text → S → Found O
  pub list : Labels → S → Result (List O)
  pub create : O → M S (Unit {0})
  pub update : O → M S (Unit {0})
  pub delete : O → S → S × Found (Unit {0})

-- `err != nil && !IsNotFound(err)`
abbrev pub ignore_not_found : {A S : Type 0} → A → S × Found A → S × Result A
ignore_not_found a (s, found b) = (s, ok b)
ignore_not_found a (s, not_found) = (s, ok a)
ignore_not_found a (s, failed e) = (s, err e)

-- What the API server documents of a kind of object, `view` telling what is stored under a name: a
-- read returns it, a write that is accepted stores or removes it, and nothing else changes.
pub record IsObjectClient {S O : Type 0} (name : O → Text) (c : ObjectClient S O)
    (view : S → Text → Option O) : Type 0 where
  pub got : (n : Text) (s : S) (o : O) → c.get n s ≡ found o → view s n ≡ some o
  pub got_none : (n : Text) (s : S) → c.get n s ≡ not_found → view s n ≡ none
  pub named : (n : Text) (s : S) (o : O) → view s n ≡ some o → name o ≡ n
  pub created : (o : O) (s : S) → (c.create o s).1 ≡ ok tt → view (c.create o s).0 (name o) ≡ some o
  pub create_other : (o : O) (s : S) (n : Text) → n ≢ name o → view (c.create o s).0 n ≡ view s n
  pub updated : (o : O) (s : S) → (c.update o s).1 ≡ ok tt → view (c.update o s).0 (name o) ≡ some o
  pub update_other : (o : O) (s : S) (n : Text) → n ≢ name o → view (c.update o s).0 n ≡ view s n
  pub deleted :
      (o : O) (s : S) → (c.delete o s).1 ≡ found tt → view (c.delete o s).0 (name o) ≡ none
  pub delete_missing :
      (o : O) (s : S) → (c.delete o s).1 ≡ not_found → view (c.delete o s).0 (name o) ≡ none
  pub delete_other : (o : O) (s : S) (n : Text) → n ≢ name o → view (c.delete o s).0 n ≡ view s n
