-- ===== src/Firewall/StateFile/Atomic.antt =====
-- What the state file holds after a save, whatever part of it fails.
use bulb.Base.{ℕ, ◌≡◌, ◌≢◌, refl, sym, ap, ◌∙◌, ◌⊎◌, inl, inr, List, [], ◌∷◌, ◌++◌, Text, codes}
use bulb.Base.Result.{
  Result, Error, ok, err, ok≢err, continue_with-cases, wrap, wrapping, wrap-eq-ok, found,
  Result-cases,
}
use bulb.Firewall.Ports.{PortKey}
use bulb.Firewall.Backend.{IsStateStore}
use bulb.Firewall.StateFile.{
  FileSystem, JsonCodec, temp_path, load, replace_file, save_keys, save, file_state_store,
}

-- What a file system promises of the file at a path: making a directory and writing another file
-- leave it as it was, a write that succeeds is read, and a rename replaces the file as a whole, or
-- leaves it as it was where it fails.
pub record IsFileSystem {S : Type 0} (files : FileSystem S) : Type 0 where
  pub made :
      (dir path : Text) (s : S)
      → files.read_file path (files.mkdir_all dir s).0 ≡ files.read_file path s
  pub written :
      (path content : Text) (s : S)
      → (files.write_file path content s).1 ≡ ok tt
      → files.read_file path (files.write_file path content s).0 ≡ found content
  pub write_other :
      (path other content : Text) (s : S)
      → path ≢ other
      → files.read_file path (files.write_file other content s).0 ≡ files.read_file path s
  pub renamed :
      (from path : Text) (s : S)
      → (files.rename from path s).1 ≡ ok tt
      → files.read_file path (files.rename from path s).0 ≡ files.read_file from s
  pub rename_failed :
      (from path : Text) (s : S) (e : Text)
      → (files.rename from path s).1 ≡ err e
      → files.read_file path (files.rename from path s).0 ≡ files.read_file path s

-- The codec reads what it writes.
pub record IsJsonCodec (json : JsonCodec) : Type 0 where
  pub unmarshal-marshal :
      (keys : List PortKey) (content : Text)
      → json.marshal keys ≡ ok content
      → json.unmarshal content ≡ ok keys

-- A text with more behind it is another.
append-differs : (s t : Text) (c : ℕ) → s ≢ s ++ c ∷ t
append-differs [] t c e = cc
append-differs (x ∷ s) t c e = append-differs s t c cc

module _ {S : Type 0} (files : FileSystem S) (json : JsonCodec) (dir_of : Text → Text) (path : Text)
    (laws : IsFileSystem files) (codec : IsJsonCodec json) where
  load_of :
      (s t : S)
      → files.read_file path t ≡ files.read_file path s
      → load files json dir_of path t ≡ load files json dir_of path s
  unfolding load
  load_of s t e = rw (e, load) refl

  load_found :
      (t : S) (keys : List PortKey) (content : Text)
      → files.read_file path t ≡ found content
      → json.unmarshal content ≡ ok keys
      → load files json dir_of path t ≡ ok keys
  unfolding load
  load_found t keys content e decoded = rw (e, load, decoded) refl

  -- The file's content is the old one, after an error, or the one that was to be written.
  Replaced : Text → S → S × Result (Unit {0}) → Type 0
  Replaced content s r =
      ((files.read_file path r.0 ≡ files.read_file path s) × ((e : Error) × (r.1 ≡ err e)))
      ⊎ (files.read_file path r.0 ≡ found content)

  replace_file-Replaced :
      (content : Text) (s : S) → Replaced content s (replace_file files json dir_of path content s)
  unfolding replace_file Replaced
  replace_file-Replaced content s =
      let beside = files.write_file (temp_path path) content s in
      let moved = files.rename (temp_path path) path beside.0 in
      let kept : files.read_file path beside.0 ≡ files.read_file path s =
        laws.write_other path (temp_path path) content s (append-differs path _ _) in
      continue_with-cases (Replaced content s)
        (λ (_ : Unit {0}).
          wrapping (codes "replace state file") (files.rename (temp_path path) path))
        (wrapping (codes "write temp state file") (files.write_file (temp_path path) content) s)
        (λ _ wrote. elim (Result-cases moved.1) [
          | inl (_, done') ↦ inr (
              laws.renamed (temp_path path) path beside.0 done'
              ∙ laws.written (temp_path path) content s
                  (wrap-eq-ok (codes "write temp state file") _ wrote))
          | inr (e, failed') ↦ inl (
            laws.rename_failed (temp_path path) path beside.0 e failed' ∙ kept,
            (_, ap (wrap (codes "replace state file")) failed'),
          )
        ])
        (λ e wrote. inl (kept, (e, refl)))

  -- Whatever part of a save fails, the next load returns what it would have returned before, or
  -- the keys that were to be saved; and after a save that succeeds, those keys.
  pub save-atomic :
      (keys : List PortKey) (s : S)
      → let end = save files json dir_of path keys s in
        ((load files json dir_of path end.0 ≡ load files json dir_of path s)
          × ((e : Error) × (end.1 ≡ err e)))
        ⊎ (load files json dir_of path end.0 ≡ ok keys)
  unfolding save save_keys Replaced
  save-atomic keys s =
      let Q = λ (r : S × Result (Unit {0})).
        ((load files json dir_of path r.0 ≡ load files json dir_of path s)
          × ((e : Error) × (r.1 ≡ err e)))
        ⊎ (load files json dir_of path r.0 ≡ ok keys) in
      let made = files.mkdir_all (dir_of path) s in
      let kept = laws.made (dir_of path) path s in
      continue_with-cases Q (λ (_ : Unit {0}). save_keys files json dir_of path keys)
        (wrapping (codes "mkdir state dir") (files.mkdir_all (dir_of path)) s)
        (λ _ _. elim (Result-cases (json.marshal keys)) [
          | inr (e, failed') ↦ rw (failed', save_keys) (inl (load_of s made.0 kept, (_, refl)))
          | inl (content, encoded) ↦
              rw (encoded, save_keys)
                elim (replace_file-Replaced content made.0) [
                  | inl (same, failed') ↦ inl (load_of s _ (same ∙ kept), failed')
                  | inr stored ↦ inr (
                      load_found _ keys content stored
                        (codec.unmarshal-marshal keys content encoded))
                ]
        ])
        (λ e _. inl (load_of s made.0 kept, (e, refl)))

  -- The state store that the backends rely on.
  pub file_state_store-IsStateStore : IsStateStore (file_state_store files json dir_of path)
  unfolding file_state_store
  file_state_store-IsStateStore = record {
    load-save = λ keys s h. elim (save-atomic keys s) [
      | inl (same, (e, failed')) ↦ absurd (ok≢err (sym h ∙ failed'))
      | inr stored ↦ stored
    ];
  }
