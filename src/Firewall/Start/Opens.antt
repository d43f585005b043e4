-- ===== src/Firewall/Start/Opens.antt =====
-- What an agent that has started does to its node.
use bulb.Base.{
  ◌≡◌, refl, sym, ap, ap₂, ◌∙◌, Bool, true, false, not, ◌&&◌, ◌||◌, List, ◌++◌, Text, codes,
  is_empty, Bool-cases, inl, inr, subst, text_discrete,
}
use bulb.Base.Result.{Result, ok, ok≢err, Result-cases, continue_with-ok, wrapping}
use bulb.Api.{Labels, LbPort}
use bulb.Firewall.Ports.{PortKey}
use bulb.Firewall.Config.{AgentConfig, load_config}
use bulb.Firewall.Policy.{FirewallPolicy}
use bulb.Firewall.Policy.Exposure.{exposes}
use bulb.Firewall.Backend.{Backend, ZoneClient, IsZoneClient}
use bulb.Firewall.Firewalld.{World, firewalld_backend}
use bulb.Firewall.Firewalld.Sync.{manages}
use bulb.Firewall.StateFile.{FileSystem, JsonCodec, file_state_store}
use bulb.Firewall.Commands.{CommandRunner}
use bulb.Firewall.Agent.{LbPortClient, AgentState, reconcile}
use bulb.Firewall.Agent.Node.{reconcile-opens, reconcile-dry}
use bulb.Firewall.Start.{
  AgentReconciler, chosen, setup_with_manager, new_firewalld_backend, new_backend, start_backend,
  start,
}

setup_lem :
    {S : Type 0} (x agent : AgentReconciler S) (s : S)
    → (setup_with_manager x s).1 ≡ ok agent
    → agent ≡ x
unfolding setup_with_manager
setup_lem x agent s h = elim (Bool-cases (is_empty x.node_name)) [
  | inl nameless ↦ absurd (ok≢err (sym (rw (nameless, setup_with_manager) at h)))
  | inr named ↦ let same : ok x ≡ ok agent = rw (named, setup_with_manager) at h in cc
]

module _ {Z F : Type 0} (client : ZoneClient Z) (connected : Result (Unit {0}))
    (files : FileSystem F) (json : JsonCodec) (dir_of : Text → Text)
    (runner : CommandRunner (World Z F)) where
  -- The agent of a configuration and its backend.
  abbrev IsAgent : Text → AgentConfig → Backend (World Z F) → AgentReconciler (World Z F) → Type 0
  IsAgent node_name cfg backend agent = agent ≡ record {
    node_name = node_name;
    backend = chosen cfg.dry_run backend;
    policy = record { denied_ports = cfg.denied_ports };
    dry_run = cfg.dry_run;
  }

  start_backend-IsAgent :
      (node_name : Text) (cfg : AgentConfig) (backend : Backend (World Z F)) (s : World Z F)
      (agent : AgentReconciler (World Z F))
      → (start_backend client connected files json dir_of runner node_name cfg backend s).1
        ≡ ok agent
      → IsAgent node_name cfg backend agent
  unfolding start_backend
  start_backend-IsAgent node_name cfg backend s agent h =
      let (_, _, set_up, _) =
        continue_with-ok
          (λ (_ : Unit {0}). setup_with_manager record {
            node_name = node_name;
            backend = chosen cfg.dry_run backend;
            policy = record { denied_ports = cfg.denied_ports };
            dry_run = cfg.dry_run;
          })
          (wrapping (codes "validate firewall backend " ++ (chosen cfg.dry_run backend).name)
            (chosen cfg.dry_run backend).validate s)
          h in
      setup_lem _ agent _ set_up

  start-IsAgent :
      (node_name namespace name : Text) (fetched : Result Labels) (s : World Z F)
      (agent : AgentReconciler (World Z F)) (cfg : AgentConfig)
      → (start client connected files json dir_of runner node_name namespace name fetched s).1
        ≡ ok agent
      → load_config namespace name fetched ≡ ok cfg
      → (backend : Backend (World Z F)) × (new_backend client connected files json dir_of runner
            cfg.backend cfg.zone cfg.state_file
          ≡ ok backend)
        × IsAgent node_name cfg backend agent
  unfolding start
  start-IsAgent node_name namespace name fetched s agent cfg h loaded =
      elim (Bool-cases (is_empty node_name)) [
        | inl nameless ↦ absurd (ok≢err (sym (rw (nameless, start) at h)))
        | inr named ↦
            elim (Result-cases (
              new_backend client connected files json dir_of runner cfg.backend cfg.zone
                cfg.state_file)) [
                  | inr (e, failed') ↦
                      absurd (ok≢err (sym (rw (named, loaded, start, failed') at h)))
                  | inl (backend, made) ↦ (
                    backend,
                    made,
                    start_backend-IsAgent node_name cfg backend s agent
                        (rw (named, loaded, start, made) at h),
                  )
                ]
      ]

  new_firewalld_backend-eq :
      (zone state_file : Text) (backend : Backend (World Z F))
      → new_firewalld_backend client connected files json dir_of runner zone state_file ≡ ok backend
      → backend ≡ firewalld_backend client (file_state_store files json dir_of state_file) zone
  unfolding new_firewalld_backend
  new_firewalld_backend-eq zone state_file backend h = elim (Bool-cases (is_empty zone)) [
    | inl nameless ↦ absurd (ok≢err (sym (rw (nameless, new_firewalld_backend) at h)))
    | inr named ↦ elim (Result-cases connected) [
      | inr (e, failed') ↦ absurd (ok≢err (sym (rw (named, failed', new_firewalld_backend) at h)))
      | inl (_, done') ↦
          let made : ok
                (firewalld_backend client (file_state_store files json dir_of state_file) zone)
              ≡ ok backend =
            rw (named, done', new_firewalld_backend) at h in
          cc
    ]
  ]

  -- The name selects the constructor.
  new_backend-firewalld :
      (zone state_file : Text)
      → new_backend client connected files json dir_of runner (codes "firewalld") zone state_file
        ≡ new_firewalld_backend client connected files json dir_of runner zone state_file
  unfolding new_backend text_discrete
  new_backend-firewalld zone state_file = refl

  -- An agent that has started with firewalld and not in dry run: after each of its reconciles that
  -- succeeds, a port is open on its node exactly when the LBPorts expose it under the ports that
  -- the ConfigMap denies, or it was open before and is not entered in the ConfigMap's state file.
  pub start-opens :
      {K : Type 0} (kube : LbPortClient K) (open_at : Z → PortKey → Bool)
      (node_name namespace name : Text) (fetched : Result Labels) (s : World Z F)
      (agent : AgentReconciler (World Z F)) (cfg : AgentConfig)
      → (start client connected files json dir_of runner node_name namespace name fetched s).1
        ≡ ok agent
      → load_config namespace name fetched ≡ ok cfg
      → cfg.backend ≡ codes "firewalld"
      → cfg.dry_run ≡ false
      → IsZoneClient cfg.zone client open_at
      → (a : AgentState K (World Z F)) (lbports : List LbPort) (k : PortKey)
      → kube.list a.api ≡ ok lbports
      → (reconcile kube agent.backend agent.policy agent.node_name agent.dry_run a).1 ≡ ok tt
      → open_at
          (reconcile kube agent.backend agent.policy agent.node_name agent.dry_run
            a).0.firewall.zone
          k
        ≡ (exposes (record { denied_ports = cfg.denied_ports }) node_name lbports k
            || (open_at a.firewall.zone k
                && not (
                    manages (file_state_store files json dir_of cfg.state_file) a.firewall.file k)))
  start-opens kube open_at node_name namespace name fetched s agent cfg h loaded named wet laws a
        lbports k listed done' =
      let (backend, made, same) =
        start-IsAgent node_name namespace name fetched s agent cfg h loaded in
      let store = file_state_store files json dir_of cfg.state_file in
      let policy : FirewallPolicy = record { denied_ports = cfg.denied_ports } in
      let firewalld : backend ≡ firewalld_backend client store cfg.zone =
        new_firewalld_backend-eq cfg.zone cfg.state_file backend (
          sym (
            ap
              (λ b. new_backend client connected files json dir_of runner b cfg.zone cfg.state_file)
              named
            ∙ new_backend-firewalld cfg.zone cfg.state_file)
          ∙ made) in
      let equal =
        same
        ∙ ap₂
            (λ (b : Backend (World Z F)) (d : Bool). record {
              node_name = node_name;
              backend = b;
              policy = policy;
              dry_run = d;
            })
            (ap (λ d. chosen d backend) wet ∙ firewalld) wet in
      subst
        (λ (x : AgentReconciler (World Z F)).
          (reconcile kube x.backend x.policy x.node_name x.dry_run a).1 ≡ ok tt
          → open_at (reconcile kube x.backend x.policy x.node_name x.dry_run a).0.firewall.zone k
            ≡ (exposes policy node_name lbports k
                || (open_at a.firewall.zone k && not (manages store a.firewall.file k))))
        (sym equal)
        (reconcile-opens kube client store cfg.zone open_at laws policy node_name false a lbports k
          listed)
        done'

  -- An agent that has started in dry run, with any backend: no reconcile of its writes to the API
  -- server or changes the node.
  pub start-dry :
      {K : Type 0} (kube : LbPortClient K) (node_name namespace name : Text)
      (fetched : Result Labels) (s : World Z F) (agent : AgentReconciler (World Z F))
      (cfg : AgentConfig)
      → (start client connected files json dir_of runner node_name namespace name fetched s).1
        ≡ ok agent
      → load_config namespace name fetched ≡ ok cfg
      → cfg.dry_run ≡ true
      → (a : AgentState K (World Z F))
      → let a' = (reconcile kube agent.backend agent.policy agent.node_name agent.dry_run a).0 in
        (a'.api ≡ a.api) × (a'.firewall ≡ a.firewall)
  start-dry kube node_name namespace name fetched s agent cfg h loaded dry a =
      let (backend, made, same) =
        start-IsAgent node_name namespace name fetched s agent cfg h loaded in
      let policy : FirewallPolicy = record { denied_ports = cfg.denied_ports } in
      let equal =
        same
        ∙ ap₂
            (λ (b : Backend (World Z F)) (d : Bool). record {
              node_name = node_name;
              backend = b;
              policy = policy;
              dry_run = d;
            })
            (ap (λ d. chosen d backend) dry) dry in
      subst
        (λ (x : AgentReconciler (World Z F)).
          let a' = (reconcile kube x.backend x.policy x.node_name x.dry_run a).0 in
          (a'.api ≡ a.api) × (a'.firewall ≡ a.firewall))
        (sym equal) (reconcile-dry kube backend policy node_name a)
