-- ===== src/Base/Split.antt =====
-- Cutting texts: `strings.Split` and `strings.IndexByte` at one byte, and `net.SplitHostPort`.
use Prim.Native.Nat.{ℕ}
use mathlib.Core.Path.{◌≡◌, refl, ap, ◌∙◌}
use mathlib.Core.Logic.{ite, inl, inr}
use mathlib.Core.Bool.{Bool, true, false, ◌&&◌, ◌||◌}
use mathlib.Core.Option.{Option, none, some}
use mathlib.Core.List.{List, [], ◌∷◌, ◌++◌, reverse}
use native.Mathlib.Omega.{arith}
use native.Mathlib.Decide.{ℕ_discrete}
use bulb.Base.Tests.{if◌then◌else◌, ◌==◌, Option-cases}
use bulb.Base.Lists.{contains, All, is_empty}
use bulb.Base.Strings.{Text, codes, join, is_space}
use bulb.Base.Result.{Result, ok, err}

abbrev pub in_front : ℕ → Option (Text × Text) → Option (Text × Text)
in_front x none = none
in_front x (some (a, b)) = some (x ∷ a, b)

-- What stands before and after the first occurrence of a byte.
unfoldable pub cut_at : ℕ → Text → Option (Text × Text)
cut_at c [] = none
cut_at c (x ∷ xs) = ite (ℕ_discrete x c) (some ([], xs)) (in_front x (cut_at c xs))

abbrev pub last_or_here : ℕ → ℕ → Text → Option (Text × Text) → Option (Text × Text)
last_or_here c x xs none = ite (ℕ_discrete x c) (some ([], xs)) none
last_or_here c x xs (some (a, b)) = some (x ∷ a, b)

-- What stands before and after the last occurrence of a byte.
unfoldable pub cut_at_last : ℕ → Text → Option (Text × Text)
cut_at_last c [] = none
cut_at_last c (x ∷ xs) = last_or_here c x xs (cut_at_last c xs)

abbrev pub onto_first : ℕ → List Text → List Text
onto_first x [] = (x ∷ []) ∷ []
onto_first x (s ∷ ss) = (x ∷ s) ∷ ss

-- `strings.Split` at one byte.
unfoldable pub split_on : ℕ → Text → List Text
split_on c [] = [] ∷ []
split_on c (x ∷ xs) = ite (ℕ_discrete x c) ([] ∷ split_on c xs) (onto_first x (split_on c xs))

pub cut_at-append :
    (c : ℕ) (a b : Text) → contains ℕ_discrete c a ≡ false → cut_at c (a ++ c ∷ b) ≡ some (a, b)
unfolding cut_at
cut_at-append c [] b h = ground arith
cut_at-append c (x ∷ a) b h = ground (arith, cut_at-append c a b)

pub cut_at-eq_some :
    (c : ℕ) (s a b : Text)
    → cut_at c s ≡ some (a, b)
    → (s ≡ a ++ c ∷ b) × (contains ℕ_discrete c a ≡ false)
unfolding cut_at
cut_at-eq_some c [] a b h = cc
cut_at-eq_some c (x ∷ s) a b h = elim (Option-cases (cut_at c s)) [
  | inl e ↦ (ground arith, ground arith)
  | inr ((a', b'), e) ↦
      let (same, absent) = cut_at-eq_some c s a' b' e in
      (ground (arith, same), ground (arith, absent))
]

-- No byte of the text is the separator.
abbrev pub IsFree : ℕ → Text → Type 0
IsFree c s = contains ℕ_discrete c s ≡ false

split_on_of_free : (c : ℕ) (s : Text) → IsFree c s → split_on c s ≡ s ∷ []
unfolding split_on
split_on_of_free c [] h = refl
split_on_of_free c (x ∷ s) h = ground (arith, split_on_of_free c s)

split_on-append : (c : ℕ) (s t : Text) → IsFree c s → split_on c (s ++ c ∷ t) ≡ s ∷ split_on c t
unfolding split_on
split_on-append c [] t h = ground arith
split_on-append c (x ∷ s) t h = ground (arith, split_on-append c s t)

-- Splitting what was joined gives the parts back, where no part has the separator.
pub split_on-join :
    (c : ℕ) (s : Text) (ss : List Text)
    → IsFree c s
    → All (IsFree c) ss
    → split_on c (join (c ∷ []) (s ∷ ss)) ≡ s ∷ ss
unfolding join
split_on-join c s [] h hs = split_on_of_free c s h
split_on-join c s (t ∷ ss) h (k, hs) =
    split_on-append c s (join (c ∷ []) (t ∷ ss)) h ∙ ap (λ r. s ∷ r) (split_on-join c t ss k hs)

abbrev address_error : {A : Type 0} → Text → Text → Result A
address_error s why = err (codes "address " ++ s ++ codes ": " ++ why)

-- The last checks of `net.SplitHostPort`, of the brackets that are left.
unfoldable pub check_brackets : Text → Text → Text → Text → Text → Result (Text × Text)
check_brackets s host port after_open after_close =
    if contains ℕ_discrete b'[' after_open
    then address_error s (codes "unexpected '[' in address")
    else if contains ℕ_discrete b']' after_close
    then address_error s (codes "unexpected ']' in address")
    else ok (host, port)

-- The bracketed form: `inside` is before the first closing bracket, `after` behind it.
unfoldable pub bracketed : Text → Text → Text → Text → Result (Text × Text)
unfolding check_brackets
bracketed s inside [] port = address_error s (codes "missing port in address")
bracketed s inside (x ∷ after) port =
    if x == 58
    then if contains ℕ_discrete 58 after
      then address_error s (codes "too many colons in address")
      else check_brackets s inside after (inside ++ b']' ∷ x ∷ after) (x ∷ after)
    else address_error s (codes "missing port in address")

unfoldable pub unbracketed : Text → Text → Text → Result (Text × Text)
unfolding check_brackets
unbracketed s host port =
    if contains ℕ_discrete 58 host
    then address_error s (codes "too many colons in address")
    else check_brackets s host port s s

unfoldable pub split_with : Text → Text × Text → Result (Text × Text)
unfolding bracketed unbracketed cut_at
split_with [] (host, port) = unbracketed [] host port
split_with (x ∷ s) (host, port) =
    if x == b'['
    then elim (cut_at b']' s) [
      | none ↦ address_error (x ∷ s) (codes "missing ']' in address")
      | some (inside, after) ↦ bracketed (x ∷ s) inside after port
    ]
    else unbracketed (x ∷ s) host port

-- `net.SplitHostPort`
unfoldable pub split_host_port : Text → Result (Text × Text)
unfolding cut_at_last split_with
split_host_port s = elim (cut_at_last 58 s) [
  | none ↦ address_error s (codes "missing port in address")
  | some parts ↦ split_with s parts
]

-- `net.JoinHostPort`
unfoldable pub join_host_port : Text → Text → Text
join_host_port host port =
    if contains ℕ_discrete 58 host then b'[' ∷ (host ++ b']' ∷ 58 ∷ port) else host ++ 58 ∷ port

test_split_host_port :
    (split_host_port (codes "0.0.0.0:80") ≡ ok (codes "0.0.0.0", codes "80"))
    × (split_host_port (codes "[::]:80") ≡ ok (codes "::", codes "80"))
    × (split_host_port (codes "a:b:80") ≡ err (codes "address a:b:80: too many colons in address"))
    × (split_host_port (codes "[::]80") ≡ err (codes "address [::]80: missing port in address"))
unfolding split_host_port ℕ_discrete
test_split_host_port = (refl, refl, refl, refl)

abbrev pub flush : Text → List Text → List Text
flush [] rest = rest
flush (c ∷ word) rest = reverse (c ∷ word) ∷ rest

-- The fields of a text, `word` being what is read of the current one, reversed.
unfoldable pub fields_from : Text → Text → List Text
unfolding is_space
fields_from word [] = flush word []
fields_from word (c ∷ s) = elim (is_space c) [
  | true ↦ flush word (fields_from [] s)
  | false ↦ fields_from (c ∷ word) s
]

-- `strings.Fields`
unfoldable pub fields : Text → List Text
unfolding fields_from
fields = fields_from []

test_fields : fields (codes " -A x  80 ") ≡ codes "-A" ∷ codes "x" ∷ codes "80" ∷ []
unfolding fields
test_fields = refl

-- `strings.Contains`
abbrev pub starts_with : Text → Text → Bool
starts_with [] s = true
starts_with (c ∷ p) [] = false
starts_with (c ∷ p) (d ∷ s) = c == d && starts_with p s

unfoldable pub contains_text : Text → Text → Bool
contains_text p [] = is_empty p
contains_text p (c ∷ s) = starts_with p (c ∷ s) || contains_text p s
