-- ===== src/Firewall/Config/Bounds.antt =====
-- The denied ports that a configuration can have.
use bulb.Base.{
  ◌≡◌, ℕ, ◌≤◌, List, [], ◌∷◌, Text, All, arith, is_empty, trim_space, inl, inr, Bool-cases, codes,
  subst, sym, ◌∙◌, split_on,
}
use bulb.Base.Result.{ok, Result-cases, ok≢err}
use bulb.Api.{Labels, get_label}
use bulb.Firewall.Config.{
  AgentConfig, default_config, parse_denied_port, parse_parts, parse_denied_ports, parse_bool,
  parsed_or, load_config,
}

abbrev pub IsPort : ℕ → Type 0
IsPort n = (1 ≤ n) × (n ≤ 65535)

parse_denied_port-IsPort : (part : Text) (n : ℕ) → parse_denied_port part ≡ ok n → IsPort n
unfolding parse_denied_port
parse_denied_port-IsPort part n h = (ground arith, ground arith)

parse_parts-IsPort :
    (parts : List Text) (ports : List ℕ) → parse_parts parts ≡ ok ports → All IsPort ports
unfolding parse_parts
parse_parts-IsPort [] ports h = let same : [] ≡ ports = ground arith in subst (All IsPort) same tt
parse_parts-IsPort (raw ∷ parts) ports h = elim (Bool-cases (is_empty (trim_space raw))) [
  | inl blank ↦ parse_parts-IsPort parts ports (ground arith)
  | inr full ↦ elim (Result-cases (parse_denied_port (trim_space raw))) [
    | inr (e, failed) ↦ absurd (ground arith)
    | inl (n, first) ↦ elim (Result-cases (parse_parts parts)) [
      | inr (e, failed) ↦ absurd (ground arith)
      | inl (rest, more) ↦
          let same : n ∷ rest ≡ ports = ground arith in
          subst (All IsPort) same
            (parse_denied_port-IsPort (trim_space raw) n first, parse_parts-IsPort parts rest more)
    ]
  ]
]

parsed-IsPort :
    (v : Text) (ports : List ℕ)
    → parsed_or (codes "parse deniedPorts") v parse_denied_ports default_config.denied_ports
      ≡ ok ports
    → All IsPort ports
unfolding parse_denied_ports default_config
parsed-IsPort [] ports h =
    let same : 22 ∷ 80 ∷ 443 ∷ [] ≡ ports = ground arith in
    subst (All IsPort) same
      ((omega arith, omega arith), ((omega arith, omega arith), ((omega arith, omega arith), tt)))
parsed-IsPort (c ∷ v) ports h = elim (Result-cases (parse_denied_ports (c ∷ v))) [
  | inr (e, failed) ↦ absurd (ground arith)
  | inl (read, parsed) ↦ parse_parts-IsPort (split_on 44 (c ∷ v)) ports (parsed ∙ ground arith)
]

-- A configuration that loads denies ports in 1 to 65535 only, whatever the ConfigMap holds.
pub load_config-IsPort :
    (namespace name : Text) (cm : Labels) (cfg : AgentConfig)
    → load_config namespace name (ok cm) ≡ ok cfg
    → All IsPort cfg.denied_ports
unfolding load_config
load_config-IsPort namespace name cm cfg h =
    let ports_read =
      parsed_or (codes "parse deniedPorts") (trim_space (get_label (codes "deniedPorts") cm))
        parse_denied_ports default_config.denied_ports in
    let dry_read =
      parsed_or (codes "parse dryRun") (trim_space (get_label (codes "dryRun") cm)) parse_bool
        default_config.dry_run in
    elim (Result-cases ports_read) [
      | inr (e, failed) ↦ absurd (ok≢err (sym (rw (failed, load_config) at h)))
      | inl (ports, read) ↦ elim (Result-cases dry_read) [
        | inr (e, failed) ↦ absurd (ok≢err (sym (rw (read, load_config, failed) at h)))
        | inl (dry, parsed) ↦
            let same : ports ≡ cfg.denied_ports =
              ground (arith, rw (read, load_config, parsed) at h) in
            subst (All IsPort) same
              (parsed-IsPort (trim_space (get_label (codes "deniedPorts") cm)) ports read)
      ]
    ]
