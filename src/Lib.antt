-- ===== src/Lib.antt =====
-- TrustMap prototype: what a MapNode computes about trust between chains.
--
-- A chain (the home chain) keeps a Merkle tree of dependencies: each leaf binds a trust root and a
-- block hash of another chain. A request to trust a block of a source chain is answered by a path
-- of such dependencies, checked hop by hop (internal/proof), or by a direct verification. The
-- replay (Mapnode/replay) runs recorded cross-chain events through the same decision with integer
-- costs: a graph of the blocks seen so far, the baselines of direct verification, the checkpoints.
-- Each followed chain has a stored cursor, which a reorganisation of the chain degrades. The live
-- planner (Mapnode/planner) decides a request on a sealed snapshot of the trust view
-- (Mapnode/trustview), whose nodes are blocks and whose edges are verified dependencies.
--
-- Merkle, Merkle/*: internal/proof/merkle.go and incremental.go. RootFromWitness is
--   root_from_witness, VerifyPath verify_path, NewIncrementalTree new_incremental_tree, and Append
--   append, whose loop over the levels is climb. Merkle/Reference has the complete binary tree
--   that the roots stand for; Frontier and Append prove what the incremental tree stores, Witness
--   and Paths what witnesses and paths rebuild and bind. Keccak-256 of go-ethereum is a parameter
--   (Hashing), with a decidable equality of the words and no further law: a statement on binding
--   yields a collision instead of assuming that there is none.
-- Replay/Text, Replay/Cost: chain names (replay_checkpoint_policy.go) and checked uint64 costs
--   (replay_cost_profile.go). Text is a list of byte values; TrimSpace and ToLower are Go's on
--   ASCII.
-- Replay/Heights, Replay/Heights/*: the treap of heights in replay_trust_view.go (insert, contains,
--   neighbours), against the increasing list of its heights.
-- Replay/View, Replay/View/*: ReplayTrustView of replay_trust_view.go. A method that changes the
--   view returns the new one beside its result, also where it fails. Edges has the edge counter,
--   Splice and Placement what activation does to the edges, Numbering, Soundness, Dependency and
--   Runs the invariant of the graph over all calls, Weights that its weights are positive.
-- Replay/Checkpoints: CheckpointPolicy of replay_checkpoint_policy.go.
-- Replay/Baselines, Replay/Baselines/*: ReplayBaselines of replay_baseline.go: get, advance and
--   estimate_direct.
-- Replay/Scratch, Replay/Search, Replay/Search/*: ShortestPath of replay_dijkstra.go. The heap of
--   container/heap is the list of its items, of which Pop takes a least one; visit is one round of
--   the loop over the queue, relax_edge one of the loop over the neighbours. Walks says what the
--   search knows between two rounds, Marks, Neighbours and Rounds that a round keeps it,
--   Shortest and Optimal what is returned; Potential, Progress and Total that the loops end without
--   an error of the graph.
-- Replay/Planner: ReplayPlanner of replay_planner.go.
-- Replay/Setting: the settings B0 to B3 of config.go.
-- Replay/Coordinator, Replay/Coordinator/*: ReplayCoordinator of replay_coordinator.go. process is
--   Process: activate_both, estimate_event, decide (which asks the planner) and commit, in this
--   order, with the state as it is left beside the result, also where it fails. Restore has Restore
--   and validateRestoredDecision. Decided says what decide returns, Comparisons and Validated that
--   Restore accepts it, Invariant what Process keeps of the state, Estimates, Resume and Costs what
--   holds of a returned decision.
-- Live/Domain, Live/Ids: internal/domain/types.go and hash.go, and Mapnode/evidence/id.go: words of
--   256 bits as lists of 32 bytes, dependencies, the IDs of evidence and of requests; Ids/Binding
--   has what an ID binds. Keccak-256 is a parameter.
-- Live/View, Live/View/*: the nodes, the edges, NewTrustView and ComputeSnapshotID of
--   Mapnode/trustview. sort.Slice is an insertion sort by ID; the IDs that it sorts are distinct.
--   Indexed has what the two maps hold, Checked the view that is built.
-- Live/Planner, Live/Planner/*: Mapnode/planner/planner.go. directed_reachability and shortest_path
--   are the two searches, Proposal has Plan up to the plan to be stored (check_snapshot, propose),
--   Encoding ComputePlanID, persist and Plan over an interface of the repositories. Graph has the
--   walks along the edges of a snapshot, Reach the first search, Answers, Ranks, Frontiers,
--   Relaxed, Rounds and Shortest the second one, Proposals and Proposed what is proposed; Snapshots
--   has what the checks accept; Addresses has what a plan ID binds, Stored what Plan returns over a
--   repository that loads what it stored.
-- Cursor, Cursor/*: the canonical cursor of Mapnode/reorg/canonical_cursor.go (advance, degrade)
--   and its repository in Mapnode/store/canonical_cursor_repository.go (initialize, advance_stored,
--   degrade_stored) on a table; Effects says what a call does to the table, History what a sequence
--   of calls does to a row.
-- Lifecycle, Lifecycle/*: the states and accepted transitions of a request in
--   Mapnode/coordinator/state.go and of a piece of evidence in Mapnode/evidence/state.go.
-- Common, Common/*: tests on numbers, lists, results, orders, and Go maps as association lists.
--
-- Numbers are native; a uint64 that can wrap is reduced by u64, in the graph's counters and in the
-- checked costs. The depth of a tree is at most 32, so a leaf index and a capacity fit a uint64 and
-- the shifts are exact. The loops are structural, but for four in the searches: in the replay, the
-- one over the queue, on a fuel above the number of nodes times the distances up to the cutoff,
-- since each item but the first was pushed when a node got a shorter distance; and the one over the
-- predecessors, on the cost of the path, since each predecessor is nearer; in the live planner,
-- both loops over the queue, on a fuel of the number of edges and two. There a round takes the
-- start or what one edge added, and each edge adds at most once, when its node is taken for the
-- first time. The errors fuel_exhausted and out_of_fuel, which the code does not have, are shown
-- not to occur. Mutexes leave no trace: each method runs alone. The order of a Go map's iteration
-- is the order of a list that the statements quantify over.
--
-- Not modelled: the coordinator of requests, the proof builder, the stores of requests and
-- evidence, the trace and the run of the replay; verified dependencies, observations and witnesses
-- of the trust view; the guards of Plan against nil repositories; files, SQL, RPC, the peer network
-- and the HTTP API; the contracts.
pub mod Common
pub mod Merkle
pub mod Replay
pub mod Cursor
pub mod Lifecycle
pub mod Live
