-- ===== src/Lib.antt =====
-- KVMService: policies of KubeArmor for virtual machines outside of a Kubernetes cluster. Three
-- programs share an etcd store. The operator watches external workloads: it gives each an identity of
-- 16 bits and publishes which identities a label has. The service keeps a gRPC stream open to the
-- agent of each identity, watches host policies, and sends a policy to the agents of the labels that
-- its node selector names. The controllers check host policies and write their status.
--
-- Which file models which part:
--   Constants    src/constants/constants.go: the key prefixes
--   Types        src/types/types.go: host policies, external workloads and their events
--   Etcd         src/etcd/etcdClient.go. Etcd.Driver is the library clientv3 with the promises of etcd
--                as laws (a put writes one key, get and delete work on all keys with a prefix);
--                Etcd.Client is EtcdClient; Etcd.Memory is a store that meets the laws
--   Operator     src/operator/core. Operator.State is KVMSOperator (kvmOperator.go); the rest is
--                crdHandler.go: Identities has GenerateExternalWorkloadIdentity, Labels has Find,
--                convertLabelsToStr, UpdateIdentityLabelsMap and UnMapLabelIdentity, Events has the
--                handler of WatchExternalWorkloadSecurityPolicies (added, modified, deleted), Daemon
--                its loop and KVMSOperatorDaemon. Catalog is what events say of the workloads by
--                themselves, without the operator's state
--   Service      src/service. State is KVMS (core/kvmService.go) with the variables of server/server.go;
--                Server has GetIdentityFromContext, UpdateETCDLabelToIdentitiesMaps,
--                IsIdentityServing, RegisterAgentIdentity (server/kvmserver.go) and HandleCliRequest
--                (server/clihandler.go); Core has GetAllEtcdEWLabels, PassOverToKVMSAgent and
--                UpdateHostSecurityPolicies (core/kvmsUpdate.go); Stream is what SendPolicy does with a
--                message, Stream.Isolation all streams over one channel, as steps, and
--                Stream.Closing the routine that waits for the end of a stream; Sends is the channel
--                between them, State has its states; Daemon has
--                WatchHostSecurityPolicies and KVMSDaemon. Core.Reach joins operator and service: what
--                the one publishes, the other reads
--   GenScript    src/service/genscript/genscript.go: the installation script
--   HostPolicy   pkg/KubeArmorHostPolicy: the resource types, the four schema checks and Reconcile; the
--                reconciler of pkg/KubeArmorExternalWorkload
--   Common       src/common/common.go: Match has Clone, ContainsElement and MatchIdentities, Expand the
--                comma expansion, Network the addresses, Environment the tests for Kubernetes
--   K8s          src/operator/core/k8sHandler.go and its copy in src/service/core: Handler has the client
--                and its requests, over a parameter for the HTTP client and the client library;
--                Watch is the loop of both daemons around their handlers
--   System       the calls of the operator (src/operator/core) and of the service (src/service) on the one
--                store that they share, as steps in any order
--   Go           what the code uses of Go: an outcome that is a return, log.Fatal or a panic, with the
--                state in every case (Outcome); strconv; strings; the loop that removes an element from
--                a slice over a shared array (Slice); encoding/json for a slice of uint16 (Json)
--   Prelude      lists, maps and texts that the parts share; Tests has the runs on concrete inputs
--
-- A Go map is an association list in the order of first writes; where code ranges over a map, the
-- order of the run is an argument. A slice that may be nil is an Option. An error that ends in
-- log.Fatal or a nil dereference is an exit of the outcome, which carries the state, so that what was
-- written before it stays. The operator's lock is left out: its handler runs under it from start to end.
--
-- PolicyChan has no buffer. Service.State has it as nil (before InitServer), made or closed, and a made one
-- tells of each message whether a stream receives it: a send on nil, or of a message that no stream
-- receives, waits for ever and is the exit `blocked`; a send on a closed channel is a panic. Claims that an
-- update returns therefore suppose that streams receive. In Service.Stream.Isolation the messages that were
-- sent and not yet taken stand in a list, from which any stream may take the first.
--
-- The operator's watcher is never stopped (nothing reads StopChan): Operator.Daemon runs rounds of it before
-- and after the deletion in DestroyKVMSOperator, which the model puts between two rounds.
-- GetExternalIP and GetEtcdEndPoint panic where no client can be made, as the source does.
--
-- Bounds: the search for a free identity draws until one is free, so the model runs a number of
-- rounds, and the run is still going past them. The theorem on it names the draw that is free, for
-- which one round more than its index is enough. The wait for an external address is bounded in the
-- same way, by the answer that ends it. The watch loops have no end: the model runs their first rounds,
-- for any number of them. All other loops are over lists.
--
-- Not modelled: the entries of the processes, signals, logging, the gRPC listener, generated code and
-- TLS; the interleaving of a daemon's routines within a call, but for two registrations at once
-- (Service.Server.Registration.Racing); UpdateExternalWorkloadSecurityPolicies,
-- which drops the slice that it builds; dates, uptime and the running of commands in
-- src/common/common.go.
mod Prelude
pub mod Go
pub mod Constants
pub mod Types
pub mod Etcd
pub mod HostPolicy
pub mod Operator
pub mod GenScript
pub mod Common
pub mod K8s
pub mod Tests
pub mod Service
pub mod System
