-- ===== src/Lib.antt =====
-- A verification library for SkyNet, which connects the overlay networks of several Kubernetes
-- clusters by EVPN. The clusters share a broker, an API server that stores the networks
-- (MultiClusterNetwork, "MCN") and the clusters. On each cluster an agent watches objects
-- (MultiClusterNetworkConnect, "MCNC") that ask for a connection.
--
-- The parts and how they interact. The controller (pkg/agent/controller) handles one MCNC: it has
-- the MCN manager (pkg/agent/mcn) create or join the network on the broker, which takes a VNI from
-- the VNI allocator (pkg/agent/allocator) for a new one and marks the membership of the cluster by
-- a finalizer; it has the CUDN integrator (pkg/agent/cudn) put the network's EVPN configuration
-- into the local ClusterUserDefinedNetwork; and it has the creator (pkg/agent/routeadv) advertise
-- the routes. On deletion it takes these back. The operator (pkg/operator) gives each cluster its AS
-- number and VTEP subnet (pkg/operator/skynet) out of pools that a ConfigMap on the broker sets
-- (pkg/operator/alloc). When it starts (cmd/operator) it puts the broker's Deployment in place. It
-- deploys the agent with these in its environment, from which the agent reads them
-- (pkg/agent/bootstrap). The agent registers its cluster (pkg/agent), puts the VTEP object in place
-- (pkg/agent/vtep), has the clusters synced with the broker (pkg/agent/syncer), reports the nodes of its cluster (pkg/agent/endpoint) and has each node peer
-- by BGP with the nodes that the clusters report (pkg/agent/bgp).
--
-- Files, each with the modules below it:
--   Prelude    lists, texts, decimal numerals and int32 over the native numbers
--   Kube       the client libraries: nested maps, errors by reason, calls as `Exec W A`
--   Paths      the documented semantics of the nested accessors of apimachinery
--   Crd        pkg/apis/skynet.io/v1/types.go and gvr.go
--   Vni        pkg/agent/allocator/vni_allocator.go
--   Mcn        pkg/agent/mcn/mcn_manager.go
--   Cudn       pkg/agent/cudn/cudn_integrator.go
--   RouteAdv   pkg/agent/routeadv/creator.go
--   Connect    pkg/agent/controller/mcnc_controller.go
--   Pools      pkg/operator/alloc/poolconfig.go, and ValidateASN of validate.go
--   Cidr       net.ParseCIDR and IPNet of the standard library, on IPv4
--   Asn        pkg/operator/alloc/asn.go
--   VtepPool   pkg/operator/alloc/vtep.go, and ValidateVtepCIDR of validate.go
--   Endpoint   pkg/agent/endpoint/endpoint_reporter.go
--   Bgp        pkg/agent/bgp/bgp_configurator.go
--   Names      pkg/names/names.go, and the variables' names of pkg/agent/bootstrap/env.go
--   Install    cmd/operator/main.go
--   Bootstrap  pkg/agent/bootstrap/env.go, and what cmd/agent/main.go makes of the environment
--   AgentPod   pkg/operator/skynet/agent_resources.go, broker_config.go and broker_sync_secret.go
--   Vtep       pkg/agent/vtep/vtep_manager.go
--   Syncer     pkg/agent/syncer/broker_syncer.go
--   Registration   pkg/agent/agent.go: NewAgent and registerCluster
--   Agent      pkg/agent/agent.go: the start, and what its two loops call
--   Operator   pkg/operator/skynet/reconciler.go
--   Tests      runs on in-memory servers, and the theorems at inputs where their hypotheses hold
--
-- Correspondence. A function of the code is the definition of the same name in snake case, a struct
-- the record. A method that calls a server is a function into `Exec W A`, that is from a world `W`
-- to a result and a world: the state of the servers and what other clients do to it are a
-- parameter, and each call is a field of a client that may change the world however it ends. What
-- theorems rely on of a server is a named record of laws on single calls (Mcn.Server.IsServer,
-- RouteAdv.Idempotent.IsServed, Agent.Interleaved.IsVersioned, Install.Present.IsServed,
-- Bgp.Written.IsServed); what they rely on of the environment of a pod is
-- AgentPod.Environment.IsPodEnv. In-memory servers that satisfy the laws are in Tests.
-- Texts formatted by Sprintf are written out; log lines are left out; contexts are left out but for
-- the pause between two polls, which may end with an error.
--
-- Bounds. uint32 fields are natural numbers and conversions to uint32 wrap; the scan for a VNI has
-- 5001 rounds, one for each identifier of 5000..10000, as the loop of the code does; the polls have
-- 60 and 30 rounds, as in the code. The loop over AS numbers counts on an int32 that wraps; it has
-- 2 ^ 32 + 1 rounds, more than an int32 has values, and comes out as none if it is still running.
-- The walk over a pool's subnets has 256 rounds. IPv6 networks are read by a parameter.
--
-- Not modelled: informers, leader election and goroutines of the libraries, the flags and clients of
-- the commands, generated code, and the parts that the manifest of this library lists as not modelled.
pub mod Prelude
pub mod Kube
pub mod Paths
pub mod Crd
pub mod Vni
pub mod Mcn
pub mod Cudn
pub mod RouteAdv
pub mod Connect
pub mod Pools
pub mod Cidr
pub mod Asn
pub mod VtepPool
pub mod Endpoint
pub mod Bgp
pub mod Names
pub mod Install
pub mod Bootstrap
pub mod AgentPod
pub mod Vtep
pub mod Syncer
pub mod Registration
pub mod Agent
pub mod Operator
pub mod Tests
