-- ===== src/Proxy/Header.antt =====
-- The PROXY protocol's headers as internal/proxy/proxy.go builds them, and a receiver that reads
-- version 2 by its length field, as the protocol's specification tells it to.
use bulb.Base.{
  ℕ, zero, suc, ◌+◌, ◌*◌, ◌/◌, ◌%◌, ◌<◌, ◌==◌, ◌≡◌, refl, sym, ap, ◌∙◌, if◌then◌else◌, Bool, true,
  false, List, [], ◌∷◌, ◌++◌, Text, codes, text_discrete, decimal, length, length-append, ite,
  Option, none, some, arith, inl, inr, ◌⊎◌, subst,
}
use bulb.Base.Result.{Result, ok, err}

-- An address by its bytes: four, or sixteen that are no IPv4 address in disguise.
pub data Ip : Type 0 where
  v4 : List ℕ → Ip
  v6 : List ℕ → Ip

pub record TcpAddr : Type 0 where
  pub ip : Ip
  pub port : ℕ

-- `IP.To4() == nil`
abbrev pub is_v6 : Ip → Bool
is_v6 (v4 bs) = false
is_v6 (v6 bs) = true

-- `IP.To4()`, or else `IP.To16()`.
abbrev pub bytes_of : Ip → List ℕ
bytes_of (v4 bs) = bs
bytes_of (v6 bs) = bs

-- `IP.String()` is a parameter.
unfoldable pub build_proxy_v1_header : (Ip → Text) → TcpAddr → TcpAddr → Text
unfolding decimal
build_proxy_v1_header ip_string src dst =
    let ial = if is_v6 src.ip then codes "INET6" else codes "INET" in
    codes "PROXY "
    ++ (ial
        ++ (codes " "
            ++ (ip_string src.ip
                ++ (codes " "
                    ++ (ip_string dst.ip
                        ++ (codes " "
                            ++ (decimal src.port
                                ++ (codes " " ++ (decimal dst.port ++ 13 ∷ 10 ∷ [])))))))))

abbrev pub signature : List ℕ
signature = 13 ∷ 10 ∷ 13 ∷ 10 ∷ 0 ∷ 13 ∷ 10 ∷ 81 ∷ 85 ∷ 73 ∷ 84 ∷ 10 ∷ []

-- Two bytes, the high one first.
abbrev pub big_endian : ℕ → List ℕ
big_endian n = n / 256 % 256 ∷ n % 256 ∷ []

abbrev pub payload_len : Ip → ℕ
payload_len ip = if is_v6 ip then 36 else 12

unfoldable pub build_proxy_v2_header : TcpAddr → TcpAddr → List ℕ
build_proxy_v2_header src dst =
    signature
    ++ (33
        ∷ (if is_v6 src.ip then 33 else 17)
        ∷ (big_endian (payload_len src.ip)
            ++ (bytes_of src.ip
                ++ (bytes_of dst.ip
                    ++ (big_endian src.port ++ (big_endian dst.port ++ 13 ∷ 10 ∷ []))))))

-- `writeProxyHeader`: the bytes for the upstream, whose write may fail.
unfoldable pub proxy_header : (Ip → Text) → Text → TcpAddr → TcpAddr → Result (List ℕ)
unfolding build_proxy_v1_header build_proxy_v2_header text_discrete
proxy_header ip_string version src dst =
    if ite (text_discrete version (codes "1")) true false
    then ok (build_proxy_v1_header ip_string src dst)
    else if ite (text_discrete version (codes "2")) true false
    then ok (build_proxy_v2_header src dst)
    else err (codes "unsupported PROXY protocol version: " ++ version)

abbrev onto : ℕ → Option (List ℕ × List ℕ) → Option (List ℕ × List ℕ)
onto x none = none
onto x (some (xs, rest)) = some (x ∷ xs, rest)

-- The first bytes and the rest, if there are as many.
abbrev take_bytes : ℕ → List ℕ → Option (List ℕ × List ℕ)
take_bytes zero xs = some ([], xs)
take_bytes (suc n) [] = none
take_bytes (suc n) (x ∷ xs) = onto x (take_bytes n xs)

take_bytes-append : (xs ys : List ℕ) → take_bytes (length xs) (xs ++ ys) ≡ some (xs, ys)
take_bytes-append [] ys = refl
take_bytes-append (x ∷ xs) ys = ap (onto x) (take_bytes-append xs ys)

-- The ports at the end of a payload.
abbrev read_ports : (List ℕ → Ip) → List ℕ → List ℕ → List ℕ → Option (TcpAddr × TcpAddr)
read_ports make src dst (a ∷ b ∷ c ∷ d ∷ []) =
    some
      (record { ip = make src; port = a * 256 + b }, record { ip = make dst; port = c * 256 + d })
read_ports make src dst _ = none

-- A payload of two addresses of a given size and their ports.
abbrev read_payload : (List ℕ → Ip) → ℕ → List ℕ → Option (TcpAddr × TcpAddr)
read_payload make size payload = elim (take_bytes size payload) [
  | none ↦ none
  | some (src, rest) ↦ elim (take_bytes size rest) [
    | none ↦ none
    | some (dst, ports) ↦ read_ports make src dst ports
  ]
]

abbrev with_rest : List ℕ → Option (TcpAddr × TcpAddr) → Option (TcpAddr × TcpAddr × List ℕ)
with_rest rest none = none
with_rest rest (some (src, dst)) = some (src, dst, rest)

abbrev read_family : ℕ → Option (List ℕ × List ℕ) → Option (TcpAddr × TcpAddr × List ℕ)
read_family family none = none
read_family family (some (payload, rest)) =
    if family == 17
    then with_rest rest (read_payload v4 4 payload)
    else if family == 33
    then with_rest rest (read_payload v6 16 payload)
    else none

-- What follows the signature: version and command, family, length, payload.
abbrev read_body : List ℕ → Option (TcpAddr × TcpAddr × List ℕ)
read_body (version ∷ family ∷ high ∷ low ∷ body) =
    if version == 33 then read_family family (take_bytes (high * 256 + low) body) else none
read_body _ = none

-- A receiver of version 2: the addresses, and the bytes behind the header.
unfoldable pub read_proxy_v2 : List ℕ → Option (TcpAddr × TcpAddr × List ℕ)
unfolding text_discrete
read_proxy_v2 bytes = elim (take_bytes 12 bytes) [
  | none ↦ none
  | some (sig, body) ↦ if ite (text_discrete sig signature) true false then read_body body else none
]

-- Two addresses of one family, of its size, with 16-bit ports.
abbrev pub IsPair : TcpAddr → TcpAddr → Type 0
IsPair src dst =
    (src.port < 65536)
    × (dst.port < 65536)
    × (((a : List ℕ) × (b : List ℕ) × (src.ip ≡ v4 a)
          × (dst.ip ≡ v4 b)
          × (length a ≡ 4)
          × (length b ≡ 4))
        ⊎ ((a : List ℕ) × (b : List ℕ) × (src.ip ≡ v6 a)
            × (dst.ip ≡ v6 b)
            × (length a ≡ 16)
            × (length b ≡ 16)))

ports_lem : (n : ℕ) → n < 65536 → n / 256 % 256 * 256 + n % 256 ≡ n
ports_lem n h = omega (arith, h)

tail_lem :
    (a b ports end_bytes sent : List ℕ)
    → (a ++ (b ++ (ports ++ end_bytes))) ++ sent ≡ (a ++ (b ++ ports)) ++ (end_bytes ++ sent)
tail_lem [] [] [] end_bytes sent = refl
tail_lem [] [] (p ∷ ports) end_bytes sent = ap (λ r. p ∷ r) (tail_lem [] [] ports end_bytes sent)
tail_lem [] (y ∷ b) ports end_bytes sent = ap (λ r. y ∷ r) (tail_lem [] b ports end_bytes sent)
tail_lem (x ∷ a) b ports end_bytes sent = ap (λ r. x ∷ r) (tail_lem a b ports end_bytes sent)

take_exactly : (n : ℕ) (xs ys : List ℕ) → length xs ≡ n → take_bytes n (xs ++ ys) ≡ some (xs, ys)
take_exactly n xs ys same =
    ap (λ (k : ℕ). take_bytes k (xs ++ ys)) (sym same) ∙ take_bytes-append xs ys

read_payload_lem :
    (make : List ℕ → Ip) (size : ℕ) (a b : List ℕ) (m n : ℕ)
    → length a ≡ size
    → length b ≡ size
    → m < 65536
    → n < 65536
    → read_payload make size (a ++ (b ++ (big_endian m ++ big_endian n)))
      ≡ some (record { ip = make a; port = m }, record { ip = make b; port = n })
read_payload_lem make size a b m n p q hm hn = ground (
  arith,
  take_exactly size a (b ++ (big_endian m ++ big_endian n)) p,
  take_exactly size b (big_endian m ++ big_endian n) q,
  ports_lem m hm,
  ports_lem n hn,
)

payload_length :
    (a b : List ℕ) (m n size : ℕ)
    → length a ≡ size
    → length b ≡ size
    → length (a ++ (b ++ (big_endian m ++ big_endian n))) ≡ size + size + 4
payload_length a b m n size p q = omega (
  arith,
  length-append a (b ++ (big_endian m ++ big_endian n)),
  length-append b (big_endian m ++ big_endian n),
  p,
  q,
)

abbrev address : Ip → ℕ → TcpAddr
address ip port = record { ip = ip; port = port }

-- The payload and what follows it, for addresses of one size.
read_family_lem :
    (family size : ℕ) (make : List ℕ → Ip) (a b sent : List ℕ) (m n : ℕ)
    → ((p : List ℕ) (rest : List ℕ)
        → read_family family (some (p, rest)) ≡ with_rest rest (read_payload make size p))
    → length a ≡ size
    → length b ≡ size
    → m < 65536
    → n < 65536
    → read_family family (
        take_bytes
          (size + size + 4)
          ((a ++ (b ++ ((big_endian m ++ big_endian n) ++ 13 ∷ 10 ∷ []))) ++ sent))
      ≡ some (address (make a) m, address (make b) n, 13 ∷ 10 ∷ sent)
read_family_lem family size make a b sent m n knows p q hm hn =
    let payload = a ++ (b ++ (big_endian m ++ big_endian n)) in
    ap (λ r. read_family family (take_bytes (size + size + 4) r))
      (tail_lem a b (big_endian m ++ big_endian n) (13 ∷ 10 ∷ []) sent)
    ∙ ap (read_family family)
        (take_exactly (size + size + 4) payload (13 ∷ 10 ∷ sent) (payload_length a b m n size p q))
    ∙ knows payload (13 ∷ 10 ∷ sent)
    ∙ ap (with_rest (13 ∷ 10 ∷ sent)) (read_payload_lem make size a b m n p q hm hn)

abbrev Reads : List ℕ → TcpAddr → TcpAddr → Type 0
Reads sent src dst =
    read_proxy_v2 (build_proxy_v2_header src dst ++ sent) ≡ some (src, dst, 13 ∷ 10 ∷ sent)

-- A receiver that goes by the length field reads the addresses that the header was built from, and
-- is left with CR and LF in front of the data.
pub read_proxy_v2-build :
    (src dst : TcpAddr) (sent : List ℕ)
    → IsPair src dst
    → read_proxy_v2 (build_proxy_v2_header src dst ++ sent) ≡ some (src, dst, 13 ∷ 10 ∷ sent)
unfolding read_proxy_v2 build_proxy_v2_header text_discrete
read_proxy_v2-build src dst sent (m, n, inl (a, b, e, f, p, q)) =
    let reads : Reads sent (address (v4 a) src.port) (address (v4 b) dst.port) =
      read_family_lem 17 4 v4 a b sent src.port dst.port (λ _ _. refl) p q m n in
    subst (λ (x : Ip). Reads sent (address x src.port) dst) (sym e)
      (subst (λ (y : Ip). Reads sent (address (v4 a) src.port) (address y dst.port)) (sym f) reads)
read_proxy_v2-build src dst sent (m, n, inr (a, b, e, f, p, q)) =
    let reads : Reads sent (address (v6 a) src.port) (address (v6 b) dst.port) =
      read_family_lem 33 16 v6 a b sent src.port dst.port (λ _ _. refl) p q m n in
    subst (λ (x : Ip). Reads sent (address x src.port) dst) (sym e)
      (subst (λ (y : Ip). Reads sent (address (v6 a) src.port) (address y dst.port)) (sym f) reads)
