-- ===== src/Lib.antt =====
-- Verification of bulb, a bare-metal load balancer for Kubernetes Services.
--
-- The program has four cooperating parts. The controller (internal/controller) turns each Service
-- that it claims into LBPorts, DNS records and a DaemonSet of proxies. The firewall agent
-- (internal/firewall) runs on every node, reads the LBPorts, opens the node's ports under a policy,
-- and enters the node in the LBPorts' statuses. The proxy (internal/proxy) forwards connections and
-- datagrams. The labeler (internal/labeler) enters a node's public addresses in its annotations, where
-- the controller reads them. They meet in the API types of api/v1alpha1.
--
-- The files:
--   Base: texts as lists of codes, Go's sorting, its maps as association lists, its error results
--     and their chains, and the lemmas that the parts share.
--   Api: the types LBPort and DNSRecord of api/v1alpha1.
--   Firewall/Config: the agent's configuration from its ConfigMap; Bounds is about the denied ports.
--   Firewall/Ports: the port lists of internal/firewall/firewalld.go and state.go (`diffPorts`,
--     `intersectPorts`, `nextManagedPorts`, `stableUniquePorts`), one function each; Sets, Unique and
--     Kept are their laws.
--   Firewall/Desired: `DesiredPortsForNode`; Exact describes it LBPort by LBPort.
--   Firewall/Policy: `FirewallPolicy.Filter`; Exposure says what a node exposes under a policy.
--   Firewall/Backend: the interfaces Backend, StateStore and the zone client, with what firewalld and
--     the state file promise as the records `IsZoneClient` and `IsStateStore`.
--   Firewall/Commands: the runner of commands. Firewall/Iptables: the iptables backend over any runner;
--     Listing is about what the parser reads of `iptables -S`, Runner says what iptables promises,
--     and Rules is about a call. Firewall/Nftables: the nftables backend; Elements is about the text
--     of its sets, Opens and Missing about a call.
--   Firewall/StateFile: the state file; Atomic says what it holds after a save.
--   Firewall/Start: the agent's start; Opens says what the agent that has started does to its node.
--   Firewall/Firewalld: `FirewalldBackend.Apply` as a chain on the zone and the state file; Sync says
--     what one call does, Repeat what further calls do, Works what it does where every call succeeds.
--   Firewall/Agent: `AgentReconciler`; Status and Cycle are about the statuses that it writes, Node
--     about the ports that it opens.
--   Proxy/Pairs: the rules that the proxy's flags give; Format is their round trip.
--   Proxy/Upstream: `upstreamFor` with its wrapping 64-bit counters, and readiness; Turns says how the
--     endpoints take turns.
--   Proxy/Flags: the arguments of the proxy's command. Proxy/Serve: the sockets of `Serve` and of the
--     health server; Closed is about what stays open after it.
--   Proxy/Header: the PROXY headers, and a receiver of version 2.
--   Proxy/Udp: the UDP session table; Transitions is its step relation and Consistent the invariant,
--     Life and Packets say when sessions begin and end.
--   Controller/Service: a Service as the controller reads it, and the names made from it.
--   Controller/Conflicts: conflicts.go; Duplicates, Overlap and Ownership are its laws.
--   Controller/LbPorts: lbport.go; Applied says what `applyLBPorts` leaves on the API server, whose
--     calls and their laws are Controller/Cluster.
--   Controller/Nodes: the nodes' public addresses. Controller/DnsRecords: dnsrecord.go; Targets says
--     where the records point to.
--   Controller/Cleanup: the DaemonSet's life, the cleanup of a Service, and the pruning of statuses;
--     Owned says what a cleanup leaves alone, Gone what it takes away.
--   Controller/Endpoints: a Service's ready endpoints; Ready describes them.
--   Controller/Pods, ProxyArgs, DaemonSets: daemonset.go; Started says which rules the pods' command
--     reads from its arguments, which Proxy/Flags reads; ProxyArgs/Shared is about two rules on one
--     address.
--   Controller/Status: status.go and the events. Controller/Server: the API server with all its stores,
--     and the calls on it. Controller/Reconcile: `Reconcile`; Outcomes says how it ends, Served, Refused
--     and Released what each outcome leaves on the API server.
--   Controller/Watches: the watches' predicate and requests.
--   Labeler: internal/labeler/labeler.go; Annotations says what it leaves on the Node.
--   The samples and tests beside them hold concrete collaborators, runs and instances.
--
-- Correspondence: a Go function `fooBar` is `foo_bar` here, a loop is a recursive function of its own,
-- a struct is a record. Code that changes outside state returns the state beside its result, also
-- where it fails, so that a failure half-way keeps what was done before it. The API server, the
-- firewall's daemon and commands, the file system and Kubernetes' parsers are parameters: records of
-- functions, with documented behaviour as a record of laws where a theorem needs it. Every loop is
-- structural recursion; only the printing of a number takes fuel, one more than the number, and
-- `digits_from-decimal` of Base/Strings shows that it is enough. A port is a natural number: the API
-- server admits 1 to 65535 only, which fits the code's int32. A text is the list of its codes; case
-- is changed on ASCII letters only, as the names in use are.
--
-- Not modelled: the event FirewallPortClosed of `applyLBPorts`; the proxy's accept loop, copying
-- of bytes and drain; the entry point cmd/bulb, the managers' wiring, metrics and logging,
-- generated deep copies, the deployment files, and the D-Bus, exec and file calls themselves.
pub mod Api
pub mod Base
pub mod Controller
pub mod Firewall
pub mod Labeler
pub mod Proxy
