-- ===== src/Base/Hosts.antt =====
-- What `net.SplitHostPort` makes of a host and a port that are joined.
use Prim.Native.Nat.{ℕ}
use mathlib.Core.Path.{◌≡◌, refl, sym, ap, ◌∙◌}
use mathlib.Core.Logic.{◌≢◌}
use mathlib.Core.Bool.{false, true}
use mathlib.Core.Option.{none, some}
use mathlib.Core.List.{[], ◌∷◌, ◌++◌, append_assoc}
use native.Mathlib.Omega.{arith}
use native.Mathlib.Decide.{ℕ_discrete}
use bulb.Base.Lists.{contains-append}
use bulb.Base.Strings.{Text, decimal, is_digit, all_digits, decimal-digits}
use bulb.Base.Split.{
  IsFree, cut_at-append, cut_at_last, split_with, unbracketed, bracketed, check_brackets,
  split_host_port,
}
use bulb.Base.Result.{ok}

digits-IsFree : (c : ℕ) (s : Text) → is_digit c ≡ false → all_digits s ≡ true → IsFree c s
digits-IsFree c [] h k = refl
digits-IsFree c (d ∷ s) h k = ground (arith, digits-IsFree c s h)

-- A number that is written has digits only.
pub decimal-IsFree : (c n : ℕ) → is_digit c ≡ false → IsFree c (decimal n)
decimal-IsFree c n h = digits-IsFree c (decimal n) h (decimal-digits n)

cut_at_last-none : (c : ℕ) (s : Text) → IsFree c s → cut_at_last c s ≡ none
unfolding cut_at_last
cut_at_last-none c [] h = refl
cut_at_last-none c (x ∷ s) h = ground (arith, cut_at_last-none c s)

cut_at_last-append : (c : ℕ) (a b : Text) → IsFree c b → cut_at_last c (a ++ c ∷ b) ≡ some (a, b)
unfolding cut_at_last
cut_at_last-append c [] b h = ground (arith, cut_at_last-none c b h)
cut_at_last-append c (x ∷ a) b h = ground (arith, cut_at_last-append c a b h)

-- A text without the bytes that `net.SplitHostPort` looks for.
pub record IsPlain (s : Text) : Type 0 where
  pub no_colon : IsFree 58 s
  pub no_open : IsFree 91 s
  pub no_close : IsFree 93 s

pub decimal-IsPlain : (n : ℕ) → IsPlain (decimal n)
decimal-IsPlain n = record {
  no_colon = decimal-IsFree 58 n refl;
  no_open = decimal-IsFree 91 n refl;
  no_close = decimal-IsFree 93 n refl;
}

IsFree-joined : (c : ℕ) (a b : Text) → IsFree c a → IsFree c b → c ≢ 58 → IsFree c (a ++ 58 ∷ b)
IsFree-joined c a b h k ne = ground (arith, contains-append ℕ_discrete c a (58 ∷ b))

check_brackets-plain :
    (s host port a b : Text)
    → IsFree 91 a
    → IsFree 93 b
    → check_brackets s host port a b ≡ ok (host, port)
unfolding check_brackets
check_brackets-plain s host port a b h k = ground arith

-- `host:port`
pub split_host_port-plain :
    (host port : Text)
    → IsPlain host
    → IsPlain port
    → split_host_port (host ++ 58 ∷ port) ≡ ok (host, port)
unfolding split_host_port split_with unbracketed
split_host_port-plain [] port h p =
    rw (cut_at_last-append 58 [] port p.no_colon, split_host_port)
      (check_brackets-plain (58 ∷ port) [] port (58 ∷ port) (58 ∷ port) (ground (arith, p.no_open))
        (ground (arith, p.no_close)))
split_host_port-plain (x ∷ host) port h p =
    let s = x ∷ (host ++ 58 ∷ port) in
    rw (cut_at_last-append 58 (x ∷ host) port p.no_colon, split_host_port)
      (ground (
        arith,
        h.no_open,
        h.no_colon,
        check_brackets-plain s (x ∷ host) port s s
            (IsFree-joined 91 (x ∷ host) port h.no_open p.no_open (omega arith))
            (IsFree-joined 93 (x ∷ host) port h.no_close p.no_close (omega arith)),
      ))

-- `[host]:port`
pub split_host_port-bracketed :
    (host port : Text)
    → IsFree 91 host
    → IsFree 93 host
    → IsPlain port
    → split_host_port (91 ∷ (host ++ 93 ∷ 58 ∷ port)) ≡ ok (host, port)
unfolding split_host_port split_with bracketed
split_host_port-bracketed host port h k p =
    let joined : 91 ∷ (host ++ 93 ∷ 58 ∷ port) ≡ (91 ∷ (host ++ 93 ∷ [])) ++ 58 ∷ port =
      ap (λ t. 91 ∷ t) (sym (append_assoc host (93 ∷ []) (58 ∷ port))) in
    let last : cut_at_last 58 (91 ∷ (host ++ 93 ∷ 58 ∷ port))
        ≡ some (91 ∷ (host ++ 93 ∷ []), port) =
      ap (cut_at_last 58) joined ∙ cut_at_last-append 58 (91 ∷ (host ++ 93 ∷ [])) port p.no_colon in
    rw (last, split_host_port)
      (rw (cut_at-append 93 host (58 ∷ port) k, split_with)
        (ground (
          arith,
          p.no_colon,
          check_brackets-plain (91 ∷ (host ++ 93 ∷ 58 ∷ port)) host port (host ++ 93 ∷ 58 ∷ port)
              (58 ∷ port)
              (ground (arith, h, p.no_open, contains-append ℕ_discrete 91 host (93 ∷ 58 ∷ port)))
              (ground (arith, p.no_close)),
        )))
