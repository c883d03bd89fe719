-- ===== src/Tests.antt =====
-- Runs of the model on concrete inputs, and the theorems at inputs where their hypotheses hold. The
-- API servers of these runs are in-memory ones.
mod Codec
mod Pod
mod Loops
mod SkynetRuns
mod Start
mod Broker
mod Vni
mod Mcn
mod Cluster
mod ClusterCodec
mod Cudn
mod Connect
mod Alloc
mod Nodes
mod Frr
mod Adverts
mod Agent
