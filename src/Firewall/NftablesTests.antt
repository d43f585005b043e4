-- ===== src/Firewall/NftablesTests.antt =====
-- The nftables backend on a node whose nft reads the ruleset's text.
use bulb.Base.{
  ℕ, zero, suc, ◌≡◌, refl, sym, ap, ap₂, ◌∙◌, if◌then◌else◌, Bool, true, false, ◌||◌, List, [], ◌∷◌,
  ◌++◌, Text, codes, cut_at, cut_at-append, contains, contains-append, IsFree, ℕ_discrete,
  text_discrete, append_assoc, trim_space, contains_text, Option, none, some, inl, inr,
}
use bulb.Base.Result.{M, Error, ok, err}
use bulb.Firewall.Ports.{PortSpec, has_key}
use bulb.Firewall.Commands.{CommandRunner, Exec, exec_runner}
use bulb.Firewall.Nftables.{nft_ruleset, apply}
use bulb.Firewall.Nftables.Elements.{read_elements}
use bulb.Firewall.Nftables.Opens.{IsNft, one_of, set_key, apply-opens}
use bulb.Firewall.Nftables.Missing.{apply-missing_table}
use bulb.Firewall.Samples.{tcp, udp}

-- The ports of the two sets.
abbrev Table : Type 0
Table = List ℕ × List ℕ

abbrev is_open : Table → Bool → ℕ → Bool
is_open (t, u) false n = contains ℕ_discrete n t
is_open (t, u) true n = contains ℕ_discrete n u

abbrev skip : ℕ → Text → Text
skip zero s = s
skip (suc n) [] = []
skip (suc n) (c ∷ s) = skip n s

-- A text without its last byte.
abbrev but_last : Text → Text
but_last [] = []
but_last (c ∷ []) = []
but_last (c ∷ d ∷ s) = c ∷ but_last (d ∷ s)

-- The texts of the two sets: what stands up to the brace behind each `elements = { `.
abbrev element_texts : Text → Option (Text × Text)
element_texts input = elim (cut_at b'}' (skip 85 input)) [
  | none ↦ none
  | some (t, rest) ↦ elim (cut_at b'}' (skip 57 rest)) [
    | none ↦ none
    | some (u, end) ↦ some (but_last t, but_last u)
  ]
]

abbrev load : Option (Text × Text) → M Table (Unit {0})
load none s = (s, err (codes "syntax error"))
load (some (t, u)) (old_t, old_u) = ((read_elements t ++ old_t, read_elements u ++ old_u), ok tt)

unfoldable sample_nft : CommandRunner Table
sample_nft = record {
  run = λ args s. (s, ok tt);
  run_input = λ input args s. load (element_texts input) s;
  output = λ args s. ok (codes "table inet bulb_firewall_agent {");
  error_output = λ args s. [];
}

but_last-append : (s : Text) (c : ℕ) → but_last (s ++ c ∷ []) ≡ s
but_last-append [] c = refl
but_last-append (x ∷ []) c = refl
but_last-append (x ∷ y ∷ s) c = ap (λ r. x ∷ r) (but_last-append (y ∷ s) c)

-- The text up to the brace.
cut_lem :
    (t rest : Text)
    → IsFree b'}' t
    → cut_at b'}' ((t ++ 32 ∷ b'}' ∷ []) ++ rest) ≡ some (t ++ 32 ∷ [], rest)
unfolding ℕ_discrete
cut_lem t rest free =
    ap (cut_at b'}')
      (append_assoc t (32 ∷ b'}' ∷ []) rest ∙ sym (append_assoc t (32 ∷ []) (b'}' ∷ rest)))
    ∙ cut_at-append b'}' (t ++ 32 ∷ []) rest
        (contains-append ℕ_discrete b'}' t (32 ∷ []) ∙ ap (λ b. b || false) free)

element_texts-nft_ruleset :
    (t u : Text) → IsFree b'}' t → IsFree b'}' u → element_texts (nft_ruleset t u) ≡ some (t, u)
unfolding nft_ruleset cut_at
element_texts-nft_ruleset t u ft fu =
    rw (cut_lem t _ ft)
      (rw (cut_lem u _ fu) (ap₂ (λ a b. some (a, b)) (but_last-append t 32) (but_last-append u 32)))

contains-opened :
    (n : ℕ) (es old : List ℕ)
    → contains ℕ_discrete n (es ++ old) ≡ (contains ℕ_discrete n es || contains ℕ_discrete n old)
contains-opened n es old = contains-append ℕ_discrete n es old

load_lem :
    (input t u : Text) (s : Table) (set : Bool) (n : ℕ)
    → element_texts input ≡ some (t, u)
    → is_open (load (element_texts input) s).0 set n
      ≡ (contains ℕ_discrete n (read_elements (if set then u else t)) || is_open s set n)
load_lem input t u (a, b) false n e = rw e (contains-opened n (read_elements t) a)
load_lem input t u (a, b) true n e = rw e (contains-opened n (read_elements u) b)

loaded_lem :
    (t u : Text) (s : Table) (set : Bool) (n : ℕ)
    → IsFree b'}' t
    → IsFree b'}' u
    → is_open (load (element_texts (nft_ruleset t u)) s).0 set n
      ≡ (contains ℕ_discrete n (read_elements (one_of set (t, u))) || is_open s set n)
loaded_lem t u s false n ft fu =
    load_lem (nft_ruleset t u) t u s false n (element_texts-nft_ruleset t u ft fu)
loaded_lem t u s true n ft fu =
    load_lem (nft_ruleset t u) t u s true n (element_texts-nft_ruleset t u ft fu)

sample_nft-IsNft : IsNft sample_nft is_open
unfolding sample_nft
sample_nft-IsNft = record { loaded = λ t u s ft fu h set n. loaded_lem t u s set n ft fu }

abbrev wanted : List PortSpec
wanted = tcp 8443 ∷ udp 53 ∷ tcp 80 ∷ []

-- 22 was opened before, and is not wanted.
abbrev before : Table
before = (22 ∷ [], [])

apply_run : apply sample_nft wanted before ≡ ((80 ∷ 8443 ∷ 22 ∷ [], 53 ∷ []), ok tt)
unfolding apply sample_nft nft_ruleset read_elements cut_at text_discrete
apply_run = refl

apply-opens_example :
    is_open (apply sample_nft wanted before).0 false 22
    ≡ (has_key (set_key false 22) wanted || is_open before false 22)
apply-opens_example =
    apply-opens sample_nft is_open sample_nft-IsNft wanted before
      (inl refl, (inr refl, (inl refl, tt))) (ap (λ r. r.1) apply_run) false 22

-- What nft prints of a table that is missing.
abbrev missing : Text
missing =
    codes "Error: No such file or directory" ++ 10 ∷ codes "list table inet bulb_firewall_agent"

abbrev sample_exec : Exec Table
sample_exec input args s = (s, (missing ++ 10 ∷ [], some (codes "exit status 1")))

apply-missing_table_example :
    (e : Error) × (apply (exec_runner sample_exec) wanted before ≡ (before, err e))
unfolding trim_space contains_text
apply-missing_table_example =
    apply-missing_table sample_exec before (missing ++ 10 ∷ []) missing (codes "exit status 1") refl
      refl refl refl wanted
