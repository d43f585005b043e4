-- ===== src/Base/Strings.antt =====
-- Go strings as lists of bytes, with the parts of `strings` that the program uses.
use Prim.Native.Nat.{ℕ, zero, suc, ◌+◌, ◌-◌, ◌*◌, ◌/◌, ◌%◌, ◌<◌}
use Prim.Native.Char.{code}
use Prim.Native.String.{String}
use mathlib.Core.Path.{◌≡◌, refl}
use mathlib.Core.Bool.{Bool, true, false, ◌&&◌, ◌||◌}
use mathlib.Core.Logic.{ite}
use mathlib.Core.List.{List, [], ◌∷◌, ◌++◌, map, reverse}
use native.Mathlib.Omega.{arith}
use native.Mathlib.Decide.{ℕ_discrete}
use bulb.Base.Lists.{is_empty}
use bulb.Base.Tests.{ltb, leb, ◌==◌, if◌then◌else◌}
use bulb.Base.Sort.{IsOrder}

abbrev pub Text : Type 0
Text = List ℕ

-- The bytes of an ASCII literal.
abbrev pub codes : String → Text
codes String.[] = []
codes (String.◌∷◌ c s) = code c ∷ codes s

unfoldable pub text_discrete : Discrete Text
unfolding ℕ_discrete
text_discrete = hlevel ℕ_discrete

-- Go's `<` on strings: byte by byte, a proper prefix first.
unfoldable pub text_less : Text → Text → Bool
text_less s [] = false
text_less [] (b ∷ t) = true
text_less (a ∷ s) (b ∷ t) = if ltb a b then true else if ltb b a then false else text_less s t

text_less_trans :
    (a b c : Text) → text_less a b ≡ true → text_less b c ≡ true → text_less a c ≡ true
unfolding text_less
text_less_trans a b [] h k = k
text_less_trans a [] (z ∷ c) h k = cc
text_less_trans [] (y ∷ b) (z ∷ c) h k = refl
text_less_trans (x ∷ a) (y ∷ b) (z ∷ c) h k = ground (arith, text_less_trans a b c)

text_less_irrefl : (a : Text) → text_less a a ≡ false
unfolding text_less
text_less_irrefl [] = refl
text_less_irrefl (x ∷ a) = ground (arith, text_less_irrefl a)

text_less_connex : (a b : Text) → text_less a b ≡ false → text_less b a ≡ false → a ≡ b
unfolding text_less
text_less_connex [] [] h k = refl
text_less_connex [] (y ∷ b) h k = cc
text_less_connex (x ∷ a) [] h k = cc
text_less_connex (x ∷ a) (y ∷ b) h k = ground (arith, text_less_connex a b)

-- Go's order on strings is a strict total order.
pub text_less-IsOrder : IsOrder text_less
text_less-IsOrder = record {
  trans = text_less_trans;
  irrefl = text_less_irrefl;
  connex = text_less_connex;
}

to_lower_byte : ℕ → ℕ
to_lower_byte c = if leb b'A' c && leb c b'Z' then c + 32 else c

to_upper_byte : ℕ → ℕ
to_upper_byte c = if leb b'a' c && leb c b'z' then c - 32 else c

-- `strings.ToLower` and `strings.ToUpper`, on ASCII text.
unfoldable pub to_lower : Text → Text
unfolding to_lower_byte
to_lower = map to_lower_byte

unfoldable pub to_upper : Text → Text
unfolding to_upper_byte
to_upper = map to_upper_byte

pub to_lower_idem : (s : Text) → to_lower (to_lower s) ≡ to_lower s
unfolding to_lower
to_lower_idem [] = refl
to_lower_idem (c ∷ s) = ground (arith, to_lower_idem s)

-- White space within ASCII, as `strings.TrimSpace` and `strings.Fields` see it.
unfoldable pub is_space : ℕ → Bool
is_space c = c == 32 || leb 9 c && leb c 13

unfoldable pub trim_left : Text → Text
unfolding is_space
trim_left [] = []
trim_left (c ∷ s) = if is_space c then trim_left s else c ∷ s

unfoldable pub trim_space : Text → Text
unfolding trim_left
trim_space s = reverse (trim_left (reverse (trim_left s)))

-- `strings.Join`
unfoldable pub join : Text → List Text → Text
join sep [] = []
join sep (s ∷ []) = s
join sep (s ∷ t ∷ ts) = s ++ (sep ++ join sep (t ∷ ts))

-- `%q` on a text that needs no escapes.
abbrev pub quoted : Text → Text
quoted s = 34 ∷ (s ++ 34 ∷ [])

-- `%d` on a natural number; the fuel is the number of digits at most.
decimal_from : ℕ → ℕ → Text
decimal_from zero n = []
decimal_from (suc fuel) n =
    let front = decimal_from fuel (n / 10) in
    if ltb n 10 then (48 + n) ∷ [] else front ++ (48 + n % 10) ∷ []

unfoldable pub decimal : ℕ → Text
unfolding decimal_from
decimal n = decimal_from (suc n) n

-- A decimal digit.
abbrev pub is_digit : ℕ → Bool
is_digit c = leb 48 c && leb c 57

-- The number in front of a text, as `fmt.Sscanf` with `%d` reads it, after the digits of `n`.
unfoldable pub digits_from : ℕ → Text → ℕ
digits_from n [] = n
digits_from n (c ∷ s) = elim (is_digit c) [ true ↦ digits_from (n * 10 + (c - 48)) s | false ↦ n ]

abbrev pub all_digits : Text → Bool
all_digits [] = true
all_digits (c ∷ s) = is_digit c && all_digits s

digits_from-append :
    (m : ℕ) (s : Text) (d : ℕ)
    → all_digits s ≡ true
    → d < 10
    → digits_from m (s ++ (48 + d) ∷ []) ≡ digits_from m s * 10 + d
unfolding digits_from
digits_from-append m [] d h small = ground arith
digits_from-append m (c ∷ s) d h small = ground (arith, digits_from-append (m * 10 + (c - 48)) s d)

all_digits-append : (s t : Text) → all_digits (s ++ t) ≡ (all_digits s && all_digits t)
all_digits-append [] t = refl
all_digits-append (c ∷ s) t = ground (arith, all_digits-append s t)

decimal_from-digits : (fuel n : ℕ) → all_digits (decimal_from fuel n) ≡ true
unfolding decimal_from
decimal_from-digits zero n = refl
decimal_from-digits (suc fuel) n = ground (
  arith,
  decimal_from-digits fuel (n / 10),
  all_digits-append (decimal_from fuel (n / 10)) ((48 + n % 10) ∷ []),
)

-- A number is written in digits.
pub decimal-digits : (n : ℕ) → all_digits (decimal n) ≡ true
unfolding decimal
decimal-digits n = decimal_from-digits (suc n) n

is_empty-append_one : (s : Text) (c : ℕ) → is_empty (s ++ c ∷ []) ≡ false
is_empty-append_one [] c = refl
is_empty-append_one (x ∷ s) c = refl

-- A number is written in one digit at least.
pub is_empty-decimal : (n : ℕ) → is_empty (decimal n) ≡ false
unfolding decimal decimal_from
is_empty-decimal n = ground (arith, is_empty-append_one (decimal_from n (n / 10)) (48 + n % 10))

digits_from-decimal_from : (fuel n : ℕ) → n < fuel → digits_from 0 (decimal_from fuel n) ≡ n
unfolding decimal_from digits_from
digits_from-decimal_from zero n h = absurd (omega (arith, h))
digits_from-decimal_from (suc fuel) n h = ground (
  arith,
  digits_from-decimal_from fuel (n / 10),
  digits_from-append 0 (decimal_from fuel (n / 10)) (n % 10),
  decimal_from-digits fuel (n / 10),
)

-- A number that is written is read again.
pub digits_from-decimal : (n : ℕ) → digits_from 0 (decimal n) ≡ n
unfolding decimal
digits_from-decimal n = digits_from-decimal_from (suc n) n (omega arith)

test_text :
    (ite (text_discrete (to_lower (codes "TCP")) (codes "tcp")) true false ≡ true)
    × (trim_space (codes "  ab c ") ≡ codes "ab c")
    × (decimal 65535 ≡ codes "65535")
unfolding text_discrete to_lower trim_space decimal
test_text = (refl, refl, refl)
