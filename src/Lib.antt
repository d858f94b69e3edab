-- ===== src/Lib.antt =====
-- fyer-cache: a cache library in Go, with an ordered skip list, sharded maps, a consistent-
-- hash ring, a cache sharded over nodes, a replication log with a leader and followers, and a
-- cluster of nodes with an election.
--
-- This library models the following parts of it.
--
-- - Prelude: Boolean tests, lists over the native naturals, integers, Go strings (lists of
--   bytes in lexicographic order), Go arrays with their bounds (an access out of bounds
--   panics), Go maps, and results that are a value, an error or a panic.
-- - SkipList: cache/skiplist.go. Nodes stand on a heap under addresses, so that the pointers
--   that Set and Delete rewrite are shared as in Go. `get`, `set`, `delete`, `for_each` and
--   `range` are Get, Set, Delete, ForEach and Range; `descend` is the loop that Set and Delete
--   share in form, `seek` the one of Get and Range. The child modules hold the levels (Chain),
--   the invariant (Represent), and a proof for each operation against an ascending list of
--   keys and values (Ranging has Range, Traversal ForEach).
-- - SkipMap: cache/skipmap.go. `store`, `load`, `delete_key` and `load_and_delete` are Store,
--   Load, Delete and LoadAndDelete, over the shards that `shard_index` (getShard, with the
--   FNV-1 hash and the mask written out on 32 bits) picks; SkipMap/Shards relates the shards
--   to the lists of SkipList, SkipMap/Reads what is read after a change, SkipMap/Taking
--   LoadAndDelete, SkipMap/Counting the item counter, SkipMap/Visits what Range visits;
--   SkipMap/Ranges has Range, RangeShard, RangeKeys, Count and ShardCount. The number of
--   shards is rounded up to a power of two on whole numbers, where the code does it in
--   floating point: this is meant for counts whose shards fit the memory. So is the number of
--   virtual nodes of Ring: that `make` panics for lack of memory is not modelled.
-- - MemCache: cache/memcache.go over SkipMap, with the counters of cache/stats.go. `set`,
--   `get` and `del` are Set, Get and Del; times are whole nanoseconds without a bound, and the
--   clock's reading is an argument. The calls of onEvict are recorded in a list.
--   MemCache/Cleaning has cleanUp and GetRange.
-- - Ring: cache/consthash.go. `add`, `remove`, `get` and `search` are Add, Remove (with
--   removeWithoutLock), Get and search; Ring/Valid holds the invariant, Ring/Added what Add
--   leaves, Ring/Owners which hash owns a key. The hash function is a parameter; sort.Search
--   is its bisection, on fuel one more than the number of hashes. `get_n` and `get_nodes` of
--   Ring/Nodes are GetN and GetNodes; Ring/Distinct is about the nodes that GetN returns,
--   Ring/Enough about the end of its loop, which runs on fuel: two turns of the ring are
--   enough, if each node owns a hash.
-- - Replication/Entry, Replication/Log: cache/replication/interface.go (ReplicationEntry) and
--   cache/replication/replication_log.go (MemoryReplicationLog). uint64 indices wrap at 2 ^
--   64, int is taken as 64 bits, and the conversion to int is written out. An entry is a
--   value, where the code stores the caller's pointer: `append` says what Append does with an
--   entry that nothing else refers to.
-- - Cluster/NodeInfo, Cluster/Events, Cluster/Membership, Cluster/Gossip, Cluster/Election:
--   cache/interface.go (NodeInfo, NodeStatus, ClusterEvent), and events.go, membership.go,
--   gossip.go and election.go of cache/cluster. The channels of the publisher are bounded
--   lists. A method of Membership is a function on the member table and the table of
--   suspicions; the outcome of a probe is an argument. The mutex, the stop channel and the
--   timers of ElectionManager are part of its state; Election/Candidacy has the election and
--   the count of the votes, Election/Handlers the requests of other nodes and the heartbeats;
--   Election/Voting is about the votes of one node, Election/Quorum about those of a cluster
--   whose nodes' states are in lists, in the order of time; and the body of a method that
--   locks is a definition whose name ends in `_locked`.
-- - NodeSharding: cache/nodesharding.go over Ring, the nodes' caches being a parameter. A
--   method is a function on the table of the nodes' states; aliases between the nodes' caches
--   are left out. NodeSharding/Calls says what a call of one node leaves of the others.
-- - Replication/Store, Replication/Syncer, Replication/Leader, Replication/Follower:
--   syncer.go, leader.go and follower.go of cache/replication, over a cache (`Store`) that is
--   a parameter and whose calls may fail. An outcome is a state with an error or none; where a
--   call may also run for ever (`send_sync_request`, on fuel) or panic (`stop`), it is an
--   option of that. The responses of other nodes are arguments. Syncer/Requests has the
--   requests to other nodes. encoding/json is taken to hand over what was sent, and the
--   several readings of the clock in one call are one.
--
-- A pointer loop of the skip list runs on fuel, one more than the list's length. The theorems
-- show that each operation returns `ok` on a list that satisfies the invariant, so the fuel is
-- enough. The random levels are a stream of coin flips that the theorems range over.
--
-- Each method of a component with a mutex is one critical section, and the lock is left out
-- but for the election, whose code takes it twice. Not modelled are the rest of the caches, of
-- the replication and of the cluster, the consistency strategies, the distributed lock, the
-- metrics and the HTTP layers; encoding/json, the transport and the clock are parameters.
pub mod Prelude
pub mod SkipList
pub mod SkipMap
pub mod MemCache
pub mod Ring
pub mod NodeSharding
pub mod Replication
pub mod Cluster
