-- ===== src/Firewall/StateFileTests.antt =====
-- The state file on a file system that is a list of files, the last write first, and that may
-- refuse to rename.
use bulb.Base.{
  ◌≡◌, refl, sym, ap, ◌∙◌, ◌⊎◌, if◌then◌else◌, Bool, true, false, List, [], ◌∷◌, ◌++◌, map, Text,
  codes, text_discrete, decimal, digits_from, split_on, cut_at, ite, if_pos, if_neg, Option, none,
  some, join,
}
use bulb.Base.Dict.{lookup}
use bulb.Base.Result.{M, Result, Error, ok, err, ok≢err, Found, found, not_found}
use bulb.Firewall.Ports.{PortKey, port_key_discrete}
use bulb.Firewall.StateFile.{FileSystem, JsonCodec, load, save}
use bulb.Firewall.StateFile.Atomic.{IsFileSystem, IsJsonCodec, save-atomic}

-- Whether a rename works, and the files.
abbrev pub Disk : Type 0
Disk = Bool × List (Text × Text)

abbrev found_or_not : Option Text → Found Text
found_or_not none = not_found
found_or_not (some content) = found content

abbrev move : Text → Bool → Option Text → M (List (Text × Text)) (Unit {0})
move path works none m = (m, err (codes "no such file"))
move path false (some content) m = (m, err (codes "permission denied"))
move path true (some content) m = ((path, content) ∷ m, ok tt)

abbrev on_files : Bool → List (Text × Text) × Result (Unit {0}) → Disk × Result (Unit {0})
on_files works (m, r) = ((works, m), r)

unfoldable pub sample_files : FileSystem Disk
sample_files = record {
  read_file = λ path s. found_or_not (lookup text_discrete path s.1);
  mkdir_all = λ dir s. (s, ok tt);
  write_file = λ path content s. ((s.0, (path, content) ∷ s.1), ok tt);
  rename = λ from path s. on_files s.0 (move path s.0 (lookup text_discrete from s.1) s.1);
}

moved_lem :
    (path : Text) (works : Bool) (m : List (Text × Text)) (r : Option Text)
    → (move path works r m).1 ≡ ok tt
    → lookup text_discrete path (move path works r m).0 ≡ r
moved_lem path works m none h = cc
moved_lem path false m (some content) h = cc
moved_lem path true m (some content) h = if_pos (text_discrete path path) refl _ _

stopped_lem :
    (path : Text) (works : Bool) (m : List (Text × Text)) (r : Option Text) (e : Error)
    → (move path works r m).1 ≡ err e
    → (move path works r m).0 ≡ m
stopped_lem path works m none e h = refl
stopped_lem path false m (some content) e h = refl
stopped_lem path true m (some content) e h = cc

sample_files-IsFileSystem : IsFileSystem sample_files
unfolding sample_files
sample_files-IsFileSystem = record {
  made = λ dir path s. refl;
  written = λ path content s h. ap found_or_not (if_pos (text_discrete path path) refl _ _);
  write_other =
      λ path other content s ne. ap found_or_not (if_neg (text_discrete path other) ne _ _);
  renamed = λ from path s h. ap found_or_not (moved_lem path s.0 s.1 _ h);
  rename_failed = λ from path s e h.
      ap (λ m. found_or_not (lookup text_discrete path m)) (stopped_lem path s.0 s.1 _ e h);
}

abbrev print_key : PortKey → Text
print_key k =
    codes "{\"port\":" ++ decimal k.port ++ codes ",\"protocol\":\"" ++ k.protocol ++ codes "\"}"

abbrev print_keys : List PortKey → Text
print_keys ks = codes "[" ++ join (codes ",") (map print_key ks) ++ codes "]"

abbrev after : Option (Text × Text) → Text
after none = []
after (some (a, b)) = b

abbrev up_to : Option (Text × Text) → Text
up_to none = []
up_to (some (a, b)) = a

-- The number behind the first colon, and the text between the quotes behind the second.
abbrev read_key : Text → PortKey
read_key text =
    let rest = after (cut_at b':' text) in
    let protocol = after (cut_at b'"' (after (cut_at b':' rest))) in
    record { port = digits_from 0 rest; protocol = up_to (cut_at b'"' protocol) }

-- What ends in a brace; the bracket is left.
abbrev read_parts : List Text → List PortKey
read_parts [] = []
read_parts (part ∷ []) = []
read_parts (part ∷ next ∷ parts) = read_key part ∷ read_parts (next ∷ parts)

unfoldable pub keys_discrete : Discrete (List PortKey)
keys_discrete = hlevel port_key_discrete

-- A text that would not be read back is not written.
abbrev checked : (keys : List PortKey) → Result Text
checked keys =
    if ite (keys_discrete (read_parts (split_on b'}' (print_keys keys))) keys) true false
    then ok (print_keys keys)
    else err (codes "unsupported value")

unfoldable pub sample_json : JsonCodec
sample_json = record {
  marshal = checked;
  unmarshal = λ content. ok (read_parts (split_on b'}' content));
}

accepted :
    {A : Type 0} (d : Dec A) (x content : Text)
    → (if ite d true false then ok x else err (codes "unsupported value")) ≡ ok content
    → A × (x ≡ content)
accepted (yes a) x content h = (a, cc)
accepted (no n) x content h = absurd (ok≢err (sym h))

checked_lem :
    (keys : List PortKey) (content : Text)
    → checked keys ≡ ok content
    → read_parts (split_on b'}' content) ≡ keys
checked_lem keys content h =
    let (same, printed) = accepted (keys_discrete _ keys) (print_keys keys) content h in
    ap (λ text. read_parts (split_on b'}' text)) (sym printed) ∙ same

sample_json-IsJsonCodec : IsJsonCodec sample_json
unfolding sample_json
sample_json-IsJsonCodec = record {
  unmarshal-marshal = λ keys content h. ap ok (checked_lem keys content h);
}

abbrev keys : List PortKey
keys =
    record { port = 8443; protocol = codes "tcp" }
    ∷ record { port = 53; protocol = codes "udp" }
    ∷ []

abbrev path : Text
path = codes "/var/lib/bulb/state.json"

abbrev pub dir_of : Text → Text
dir_of p = codes "/var/lib/bulb"

-- A disk that renames, and one that does not.
abbrev sample_disk : Bool → Disk
sample_disk works = (works, (path, print_keys []) ∷ [])

test_saved :
    load sample_files sample_json dir_of path
      (save sample_files sample_json dir_of path keys (sample_disk true)).0
    ≡ ok keys
unfolding load save sample_files sample_json text_discrete port_key_discrete keys_discrete split_on
    join decimal digits_from cut_at
test_saved = refl

test_kept :
    load sample_files sample_json dir_of path
      (save sample_files sample_json dir_of path keys (sample_disk false)).0
    ≡ ok []
unfolding load save sample_files sample_json text_discrete port_key_discrete keys_discrete split_on
    join decimal digits_from cut_at
test_kept = refl

save-atomic_example :
    let end = save sample_files sample_json dir_of path keys (sample_disk false) in
    ((load sample_files sample_json dir_of path end.0
        ≡ load sample_files sample_json dir_of path (sample_disk false))
      × ((e : Error) × (end.1 ≡ err e)))
    ⊎ (load sample_files sample_json dir_of path end.0 ≡ ok keys)
save-atomic_example =
    save-atomic sample_files sample_json dir_of path sample_files-IsFileSystem
      sample_json-IsJsonCodec keys (sample_disk false)
