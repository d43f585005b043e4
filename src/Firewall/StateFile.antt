-- ===== src/Firewall/StateFile.antt =====
-- The state file: `FileStateStore` of internal/firewall/state.go. The file system is a parameter,
-- and so is Go's JSON codec for the keys.
pub mod Atomic
use bulb.Base.{if◌then◌else◌, List, [], ◌∷◌, ◌++◌, Text, codes}
use bulb.Base.Result.{
  M, Result, ok, err, wrap, wrapping, Found, found, not_found, failed, return, continue_with, ◌>>=◌,
  ◌>>◌,
}
use bulb.Firewall.Ports.{PortKey}
use bulb.Firewall.Backend.{StateStore}

pub record FileSystem (S : Type 0) : Type 0 where
  pub read_file : Text → S → Found Text
  pub mkdir_all : Text → M S (Unit {0})
  pub write_file : Text → Text → M S (Unit {0})
  pub rename : Text → Text → M S (Unit {0})

-- `json.Marshal` and `json.Unmarshal` at the type of the keys.
pub record JsonCodec : Type 0 where
  pub marshal : List PortKey → Result Text
  pub unmarshal : Text → Result (List PortKey)

abbrev pub temp_path : Text → Text
temp_path path = path ++ codes ".tmp"

module _ {S : Type 0} (files : FileSystem S) (json : JsonCodec) (dir_of : Text → Text)
    (path : Text) where
  -- No file holds no keys.
  unfoldable pub load : S → Result (List PortKey)
  load s = elim (files.read_file path s) [
    | not_found ↦ ok []
    | failed e ↦ wrap (codes "read state file") (err e)
    | found content ↦ wrap (codes "decode state file") (json.unmarshal content)
  ]

  -- The text is written beside the file, and then takes its place.
  unfoldable pub replace_file : Text → M S (Unit {0})
  replace_file content = do
    wrapping (codes "write temp state file") (files.write_file (temp_path path) content)
    wrapping (codes "replace state file") (files.rename (temp_path path) path)

  -- What follows the directory.
  unfoldable pub save_keys : List PortKey → M S (Unit {0})
  unfolding replace_file
  save_keys keys s = elim (json.marshal keys) [
    | err e ↦ (s, wrap (codes "encode state") (err e))
    | ok content ↦ replace_file content s
  ]

  unfoldable pub save : List PortKey → M S (Unit {0})
  unfolding save_keys
  save keys = do wrapping (codes "mkdir state dir") (files.mkdir_all (dir_of path)); save_keys keys

  unfoldable pub file_state_store : StateStore S
  unfolding load save
  file_state_store = record { load = load; save = save }
