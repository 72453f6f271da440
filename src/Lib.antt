-- ===== src/Lib.antt =====
-- The decision logic of the etcd operator: what its controllers conclude from the objects and
-- answers they see, and what they write and call. Quorum safety rests on it, so the claims are
-- about when the operator may act on a cluster, what it reports and that its runs end.
--
-- The parts, and where they come from (paths from the repository's root):
--
-- Api (Api/Meta, Cluster, Member, Defrag, Policy): the types of api/v1alpha2 with the source's
-- fields. A type parameter stands for the Kubernetes types that are only copied and compared.
--
-- Condition: setCondition of controllers/helpers.go and the upserts of the controllers over it.
--
-- Naming, Naming/DataDir, Naming/Schemes, Naming/PeerUrl, Members, Metadata: the pure helpers of
-- controllers/helpers.go, that is URLs, labels, Secret names, a member's TLS, its data directory,
-- the name in a peer URL, the additional metadata and the selections of members, one function per
-- Go function.
--
-- Client: internal/etcdclient/etcdclient.go and controllers/etcd_client.go, that is the TLS
-- configuration and the credentials of a dial; Client/Sound is about them. The cluster and the
-- member controller dial through it.
--
-- Cluster: controllers/etcdcluster_controller.go. Cluster/Target has the latched target and its
-- deadline, Cluster/Latch the part of Reconcile that moves the target (the first-reconcile init,
-- handleDeadlineExceeded, the adoption of a changed spec), Cluster/Health updateStatus with
-- soonerRequeue and isBroken, Cluster/Pdb reconcilePDB, Cluster/Voters syncIsVoter and the
-- promotion of learners, Cluster/ScaleDown scaleDown, Cluster/Bootstrap bootstrap,
-- Cluster/Discovery tryDiscoverCluster and surfaceDiscoveryError, Cluster/Join
-- completePendingMember, Cluster/ScaleUp scaleUp, Cluster/Auth reconcileAuth, and
-- Cluster/Reconcile the whole Reconcile over all of these, in the order of the source. Health
-- calls Pdb in every pass, as updateStatus calls reconcilePDB. What a pass asks about members is a
-- list of Cluster/Calls; Cluster/Reconcile/Script has the lists that may occur, with their
-- conditions, Seeding, Growth, Scale and Justified the proofs that no others do.
--
-- Member: controllers/etcdmember_controller.go. Member/Removal has handleDeletion,
-- removeMemberFromEtcd and resolveMemberID, Member/Pods what is read of a Pod, Member/Dial
-- discoverMemberID and observeVersion, Member/Health updateStatus and clusterHasQuorumWithout,
-- Member/Storage ensurePVC, Member/Template buildPod and optionFlags, and Member/Reconcile the
-- whole Reconcile; Reconcile/Start and Reconcile/Loss are about when it starts etcd and when it
-- deletes the member. A Pod is read anew by each part that asks for it, so each has its own
-- answer.
--
-- Defrag: controllers/etcddefrag_controller.go, whole. Defrag/World has what a pass sees (Env) and
-- carries along (World), Rule defragRuleTriggered, Plan plannedMembers, pickTransferee and
-- markMember, Queue oldestActive, Gate clusterDefragHealthy, Finish the ways in which a pass ends,
-- and Run the Reconcile, from `reconcile` through `serialized`, `headed`, `gated` and `work` to
-- `sweep`, in the order of the source. The modules under Run are the proofs about a pass: Safety
-- on the calls of Defragment, Outer and Sweep on what every pass keeps, Count and Invariant on the
-- counter, Progress on sequences of passes.
--
-- Policy: controllers/etcddefragpolicy_controller.go, whole. Policy/Schedule has nextSchedule,
-- lookbackFloor and requeueFor, Policy/Runs the selections of runs and gcHistory, and
-- Policy/Reconcile the Reconcile with buildDefrag and parseSchedule, each early return of it a
-- function of what it met. Schedule/Walk, Runs/History and Reconcile/Stamp are the proofs. What it
-- creates are the runs that Defrag serves. Next of a cron schedule is a parameter; where it
-- matters it is assumed to be what the cron library says of it, later than the time it is given.
-- The walk is bounded by defragPolicyMaxCatchup, on which it is structural.
--
-- A pass is a function: the object in memory, the stored status and the calls made are state that
-- is passed on explicitly, errors are values, and an early return is a branch. The API server,
-- etcd, the clock and the float64 comparison of a quota share are not part of the repository: an
-- `Env` holds their answers within one pass, and a theorem says for which answers it holds.
-- Semantic.DeepEqual is a parameter that is assumed to be reflexive where that is used. An
-- interleaving of passes is a list of environments, one for each pass.
--
-- Times are nanoseconds as natural numbers, 0 being Go's zero time. int32 and int64 values are
-- unbounded, since none of the modelled functions multiplies or adds values that come from outside
-- except a deadline; an etcd ID is below 2 ^ 64 where its digits are concerned. Loops are
-- structural; only the printing of a number runs on fuel: a decimal one on the number itself,
-- which is at least the number of further digits, a hexadecimal one on the 16 digits that 64 bits
-- have. Maps are association lists with the first entry of a key in force.
--
-- Not modelled: the Services and Certificates of the cluster controller, of which a pass sees the
-- outcome; the resources, security context, ports, probes and restore containers of a Pod; the
-- snapshot controller, the agent, the migration and the command line tools; logging, metrics and
-- the texts of events; generated code.
--
-- Tests has concrete objects and applies the theorems to them. Prelude has the shared helpers.
pub mod Prelude
pub mod Api
pub mod Condition
pub mod Naming
pub mod Members
pub mod Metadata
pub mod Client
pub mod Cluster
pub mod Member
pub mod Defrag
pub mod Policy
pub mod Tests
