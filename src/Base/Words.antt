-- ===== src/Base/Words.antt =====
-- Texts that are joined of words, as `strings.TrimSpace` and `strings.Fields` see them.
use Prim.Native.Nat.{ℕ}
use mathlib.Core.Path.{◌≡◌, refl, sym, ap, ◌∙◌}
use mathlib.Core.Bool.{Bool, true, false, not, ◌&&◌}
use mathlib.Core.List.{List, [], ◌∷◌, ◌++◌, reverse, reverse_aux, append-nil}
use native.Mathlib.Omega.{arith}
use native.Mathlib.Decide.{ℕ_discrete}
use bulb.Base.Lists.{contains-append, is_empty, All}
use bulb.Base.Strings.{
  Text, is_space, trim_left, trim_space, join, decimal, all_digits, decimal-digits,
  is_empty-decimal,
}
use bulb.Base.Split.{IsFree, flush, fields_from, fields}

reverse_aux-append : (s t r : Text) → reverse_aux (s ++ t) r ≡ reverse_aux t (reverse_aux s r)
reverse_aux-append [] t r = refl
reverse_aux-append (c ∷ s) t r = reverse_aux-append s t (c ∷ r)

reverse_aux_twice : (s r t : Text) → reverse_aux (reverse_aux s r) t ≡ reverse_aux r (s ++ t)
reverse_aux_twice [] r t = refl
reverse_aux_twice (c ∷ s) r t = reverse_aux_twice s (c ∷ r) t

-- The first byte, and the last, is there and no space.
abbrev pub starts : Text → Bool
starts [] = false
starts (c ∷ s) = not (is_space c)

abbrev pub ends : Text → Bool
ends [] = false
ends (c ∷ []) = not (is_space c)
ends (c ∷ d ∷ s) = ends (d ∷ s)

pub ends-append : (s t : Text) → ends t ≡ true → ends (s ++ t) ≡ true
ends-append [] t h = h
ends-append (c ∷ []) [] h = cc
ends-append (c ∷ []) (d ∷ t) h = h
ends-append (c ∷ d ∷ s) t h = ends-append (d ∷ s) t h

last_byte :
    (s : Text) → ends s ≡ true → (u : Text) × (d : ℕ) × (s ≡ u ++ d ∷ []) × (is_space d ≡ false)
last_byte [] h = cc
last_byte (c ∷ []) h = ([], c, refl, ground (arith, h))
last_byte (c ∷ d ∷ s) h =
    let (u, e, same, no_space) = last_byte (d ∷ s) h in (c ∷ u, e, ap (λ t. c ∷ t) same, no_space)

trim_left-starts : (s : Text) → starts s ≡ true → trim_left s ≡ s
unfolding trim_left
trim_left-starts [] h = refl
trim_left-starts (c ∷ s) h = ground arith

-- There is nothing to trim from a text that has no space at its ends.
pub trim_space-tight : (s : Text) → starts s ≡ true → ends s ≡ true → trim_space s ≡ s
unfolding trim_space trim_left
trim_space-tight s h k =
    let (u, d, same, no_space) = last_byte s k in
    let turned : reverse s ≡ d ∷ reverse u = ap reverse same ∙ reverse_aux-append u (d ∷ []) [] in
    let kept : trim_left (d ∷ reverse u) ≡ d ∷ reverse u = ground (arith, no_space) in
    ap (λ t. reverse (trim_left (reverse t))) (trim_left-starts s h)
    ∙ ap (λ t. reverse (trim_left t)) turned
    ∙ ap reverse kept
    ∙ reverse_aux_twice u [] (d ∷ [])
    ∙ sym same

-- No byte is a space.
abbrev pub is_word : Text → Bool
is_word [] = true
is_word (c ∷ s) = not (is_space c) && is_word s

abbrev pub IsWord : Text → Type 0
IsWord w = (is_word w ≡ true) × (is_empty w ≡ false)

digits-is_word : (s : Text) → all_digits s ≡ true → is_word s ≡ true
unfolding is_space
digits-is_word [] h = refl
digits-is_word (c ∷ s) h = ground (arith, digits-is_word s)

pub decimal-IsWord : (n : ℕ) → IsWord (decimal n)
decimal-IsWord n = (digits-is_word (decimal n) (decimal-digits n), is_empty-decimal n)

turned-is_empty : (w r : Text) → is_empty r ≡ false → is_empty (reverse_aux w r) ≡ false
turned-is_empty [] r h = h
turned-is_empty (c ∷ w) r h = turned-is_empty w (c ∷ r) refl

flush_of : (s : Text) (rest : List Text) → is_empty s ≡ false → flush s rest ≡ reverse s ∷ rest
flush_of [] rest h = cc
flush_of (c ∷ s) rest h = refl

flush-reverse :
    (w : Text) (rest : List Text) → is_empty w ≡ false → flush (reverse w) rest ≡ w ∷ rest
flush-reverse [] rest h = cc
flush-reverse (c ∷ w) rest h =
    flush_of (reverse (c ∷ w)) rest (turned-is_empty w (c ∷ []) refl)
    ∙ ap (λ t. t ∷ rest) (reverse_aux_twice (c ∷ w) [] [] ∙ append-nil (c ∷ w))

fields_from-space :
    (w word s : Text)
    → is_word w ≡ true
    → fields_from word (w ++ 32 ∷ s) ≡ flush (reverse_aux w word) (fields_from [] s)
unfolding fields_from is_space
fields_from-space [] word s h = refl
fields_from-space (c ∷ w) word s h = ground (arith, fields_from-space w (c ∷ word) s)

fields_from-end :
    (w word : Text) → is_word w ≡ true → fields_from word w ≡ flush (reverse_aux w word) []
unfolding fields_from
fields_from-end [] word h = refl
fields_from-end (c ∷ w) word h = ground (arith, fields_from-end w (c ∷ word))

-- Words that are joined by spaces are the fields of the text.
pub fields-join :
    (w : Text) (ws : List Text) → All IsWord (w ∷ ws) → fields (join (32 ∷ []) (w ∷ ws)) ≡ w ∷ ws
unfolding fields join
fields-join w [] ((word, some'), h) = fields_from-end w [] word ∙ flush-reverse w [] some'
fields-join w (v ∷ ws) ((word, some'), h) =
    fields_from-space w [] (join (32 ∷ []) (v ∷ ws)) word
    ∙ flush-reverse w (fields (join (32 ∷ []) (v ∷ ws))) some'
    ∙ ap (λ r. w ∷ r) (fields-join v ws h)

abbrev pub ends_last : List Text → Bool
ends_last [] = false
ends_last (s ∷ []) = ends s
ends_last (s ∷ t ∷ ts) = ends_last (t ∷ ts)

pub ends-join : (sep : Text) (ss : List Text) → ends_last ss ≡ true → ends (join sep ss) ≡ true
unfolding join
ends-join sep [] h = h
ends-join sep (s ∷ []) h = h
ends-join sep (s ∷ t ∷ ts) h =
    ends-append s (sep ++ join sep (t ∷ ts))
      (ends-append sep (join sep (t ∷ ts)) (ends-join sep (t ∷ ts) h))

pub join-IsFree :
    (c : ℕ) (sep : Text) (ss : List Text)
    → IsFree c sep
    → All (IsFree c) ss
    → IsFree c (join sep ss)
unfolding join
join-IsFree c sep [] free h = refl
join-IsFree c sep (s ∷ []) free (p, h) = p
join-IsFree c sep (s ∷ t ∷ ts) free (p, h) = ground (
  arith,
  contains-append ℕ_discrete c s (sep ++ join sep (t ∷ ts)),
  contains-append ℕ_discrete c sep (join sep (t ∷ ts)),
  join-IsFree c sep (t ∷ ts) free h,
)
