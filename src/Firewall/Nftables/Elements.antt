-- ===== src/Firewall/Nftables/Elements.antt =====
-- The elements of a set, as nft reads them from the text that `joinPorts` writes.
use bulb.Base.{
  ℕ, ◌==◌, all_digits, decimal-digits, is_empty-decimal, ◌≡◌, refl, ap, ap₂, ◌∙◌, if◌then◌else◌,
  true, false, List, [], ◌∷◌, ◌++◌, map, Text, codes, is_empty, decimal, digits_from,
  digits_from-decimal, join, split_on, split_on-join, IsFree, All, arith, ℕ_discrete, contains,
  contains-append, ◌||◌,
}
use bulb.Base.Hosts.{decimal-IsFree}
use bulb.Firewall.Nftables.{join_ports}

-- A number behind a space or none.
abbrev read_element : Text → ℕ
read_element [] = 0
read_element (c ∷ s) = if c == 32 then digits_from 0 s else digits_from 0 (c ∷ s)

-- Numbers that commas separate.
unfoldable pub read_elements : Text → List ℕ
unfolding split_on digits_from
read_elements text = if is_empty text then [] else map read_element (split_on 44 text)

spaced : ℕ → Text
spaced p = 32 ∷ decimal p

push_space :
    (s : Text) (ss : List Text) → 32 ∷ join (44 ∷ []) (s ∷ ss) ≡ join (44 ∷ []) ((32 ∷ s) ∷ ss)
unfolding join
push_space s [] = refl
push_space s (t ∷ ss) = refl

join-spaced :
    (s : Text) (ps : List ℕ)
    → join (codes ", ") (s ∷ map decimal ps) ≡ join (44 ∷ []) (s ∷ map spaced ps)
unfolding join spaced
join-spaced s [] = refl
join-spaced s (q ∷ ps) =
    ap (λ r. s ++ 44 ∷ r)
      (ap (λ r. 32 ∷ r) (join-spaced (decimal q) ps) ∙ push_space (decimal q) (map spaced ps))

spaced-IsFree : (ps : List ℕ) → All (IsFree 44) (map spaced ps)
unfolding spaced ℕ_discrete
spaced-IsFree [] = tt
spaced-IsFree (p ∷ ps) = (decimal-IsFree 44 p refl, spaced-IsFree ps)

read_spaced : (ps : List ℕ) → map read_element (map spaced ps) ≡ ps
unfolding spaced
read_spaced [] = refl
read_spaced (p ∷ ps) = ap₂ (λ a b. a ∷ b) (digits_from-decimal p) (read_spaced ps)

read_digits : (s : Text) → all_digits s ≡ true → read_element s ≡ digits_from 0 s
unfolding digits_from
read_digits [] h = refl
read_digits (c ∷ s) h = ground arith

read_decimal : (p : ℕ) → read_element (decimal p) ≡ p
read_decimal p = read_digits (decimal p) (decimal-digits p) ∙ digits_from-decimal p

join_ports-cons :
    (p : ℕ) (ps : List ℕ) → join_ports (p ∷ ps) ≡ join (codes ", ") (decimal p ∷ map decimal ps)
unfolding join_ports
join_ports-cons p ps = refl

nothing_joined : read_elements (join_ports []) ≡ []
unfolding read_elements join_ports
nothing_joined = refl

joined_full :
    (s : Text) (ss : List Text) → is_empty s ≡ false → is_empty (join (44 ∷ []) (s ∷ ss)) ≡ false
unfolding join
joined_full [] ss h = cc
joined_full (c ∷ s) [] h = refl
joined_full (c ∷ s) (t ∷ ss) h = refl

read_joined :
    (s : Text) (ss : List Text)
    → IsFree 44 s
    → All (IsFree 44) ss
    → is_empty s ≡ false
    → read_elements (join (44 ∷ []) (s ∷ ss)) ≡ read_element s ∷ map read_element ss
unfolding read_elements
read_joined s ss h hs full = rw (joined_full s ss full, split_on-join 44 s ss h hs) refl

-- The elements that are written are read again.
pub read_elements-join_ports : (ps : List ℕ) → read_elements (join_ports ps) ≡ ps
read_elements-join_ports [] = nothing_joined
read_elements-join_ports (p ∷ ps) =
    ap read_elements (join_ports-cons p ps ∙ join-spaced (decimal p) ps)
    ∙ read_joined (decimal p) (map spaced ps) (decimal-IsFree 44 p refl) (spaced-IsFree ps)
        (is_empty-decimal p)
    ∙ ap₂ (λ a b. a ∷ b) (read_decimal p) (read_spaced ps)

nothing-IsFree : IsFree b'}' (join_ports [])
unfolding join_ports
nothing-IsFree = refl

IsFree-joined :
    (s : Text) (ps : List ℕ) → IsFree b'}' s → IsFree b'}' (join (codes ", ") (s ∷ map decimal ps))
unfolding join ℕ_discrete
IsFree-joined s [] h = h
IsFree-joined s (p ∷ ps) h =
    contains-append ℕ_discrete b'}' s (44 ∷ 32 ∷ join (codes ", ") (decimal p ∷ map decimal ps))
    ∙ ap₂ (λ a b. a || b) h (IsFree-joined (decimal p) ps (decimal-IsFree b'}' p refl))

-- The text of a set has no brace.
pub join_ports-IsFree : (ps : List ℕ) → IsFree b'}' (join_ports ps)
join_ports-IsFree [] = nothing-IsFree
join_ports-IsFree (p ∷ ps) =
    ap (contains ℕ_discrete b'}') (join_ports-cons p ps)
    ∙ IsFree-joined (decimal p) ps (decimal-IsFree b'}' p refl)
