-- ===== src/Lib.antt =====
-- crocks: a distributed key-value store. Keys are hashed to shards, each shard is a column family of
-- RocksDB on one node, and the nodes and clients agree through etcd on which node has which shard.
-- A shard migrates while it is in use: its new master asks the old one for it, takes over, and
-- receives the contents as files, which it puts behind what has been written since.
--
-- Which file models what:
--   Prelude (with Prelude/Tests, Lists, Int, Outcome, Sums): shared types and lemmas. `Run` is how a
--     call ends: with a value, or in an abort (a failed assert, exit, or an access out of range).
--   Cluster: the messages of src/proto/info.proto and the const methods of InfoWrapper
--     (src/common/info_wrapper.h, src/common/info_wrapper.cc). Cluster/Valid: what is to hold of
--     the cluster info. Cluster/Update: the methods that change it. Cluster/Redistribute:
--     RedistributeShards, with its map `diffs` and its cursor.
--   Hash: MurmurHash (src/common/hash.cc).
--   Etcd: the requests of src/common/etcd_client.cc and src/common/etcd_util.cc, over etcd as the
--     parameter Etcd.
--   Info: the class Info (src/common/info.cc): a process reads the cluster info, changes its copy,
--     and sends it in a transaction that succeeds if the key has not changed meanwhile; else it
--     begins again. A list says what other processes do to etcd in each round, and after the list
--     they are idle, so the loop needs no more rounds than the list has and one. protobuf is the
--     parameter Proto.
--   Etcd/Watch, Info/Watching: the watches of EtcdClient and of Info, with WaitUntilHealthy. What the
--     stream gives is a list of readings; a function that has used them up without an end blocks, and
--     gives `none`.
--   Info/Printing: Info::Print. The text of ListToString is kept as its pieces.
--   Status: Status (include/crocks/status.h, src/common/status.cc) and Ensure (src/common/util.cc),
--     whose ten retries are counted down.
--   Server/Shard: Shard and Shards (src/server/shards.cc), over RocksDB as the parameter RocksDb.
--     Each method holds a lock, so an execution is a sequence of calls (Server/Shard/Refs).
--   Server/Calls: what GetCall, PutCall and DeleteCall do with a request. Server/Calls/Unary: these and
--     PingCall as objects, with OnDone. Server/Batch: BatchCall. Server/Responses: IteratorCall
--     (all src/server/async_server.cc) with its functions of src/server/util.cc. A call's Proceed is a
--     function of its status and of the event.
--   Server/Giving: MigrateCall, in two parts before and after WaitRefs, since other handlers go on
--     while it blocks.
--   Heap: Heap (src/common/heap.h). Server/Iterator: MultiIterator (src/server/iterator.h), over the
--     iterators of RocksDB as the parameter RocksIterator.
--   Server/Migrate: ShardMigrator and ShardImporter (src/server/migrate_util.cc). That ReadChunk comes
--     to an end is said by a finite derivation (Sends), not by fuel.
--   Server/Importing: AsyncServer::WatchThread, with MigrationOver and HandleError, and what Init does
--     from the announcement to etcd on. A request is a function of what its stream gives (Exchange) and
--     of what the watch reads while it waits.
--   Client: the connections of ClusterImpl (src/client/cluster_impl.cc). Client/Node: Node
--     (src/client/node.cc) over its stub. Client/Operation: ClusterImpl::Operation, which repeats a
--     request. Its fuel is one unit for each request, and it is stated below for which amount the
--     operation returns.
--   Client/NodeIterator: NodeIterator (src/client/node_iterator.cc). Client/Iterator: IteratorImpl
--     (src/client/iterator_impl.cc), which merges one NodeIterator for each node.
--   Client/Buffer: the buffer of a shard in a WriteBatchImpl (src/client/write_batch_impl.cc).
--   Client/WriteBatch: WriteBatchImpl with the calls that the shards of a node share and its
--     completion queue, which is a list of events. A wait that uses up the list blocks, and gives
--     `none`.
--   Tests: stand-ins for the parameters, and runs of the model.
--
-- How the parts meet: Info applies the methods of Cluster/Update to what it reads through Etcd;
-- Server/Calls finds a key's shard by Info and Hash and works on the Shard; a migration stops the
-- writers of a Shard by its reference counter, dumps it by Server/Migrate, and the receiver ingests
-- the files into its Shard. A client finds the node of a key by the same Info and Hash, repeats its
-- request while the cluster changes, and merges what the nodes answer to its iterators.
--
-- Numbers: the int fields are kept as integers, since they stay far from the limits of 32 bits; the
-- hash wraps around at 32 bits.
--
-- Not modelled: threads, and of completion queues and the lifetime of call objects what is not said
-- above; the locks of etcd, which EtcdClient only passes on; shared mutexes (src/common/lock.h); the
-- options and the start of the server (src/server/main.cc) and the tool (src/crocksctl), which only
-- read a command line; the messages that are only logged; the reading of environment variables; the
-- messages of src/proto/etcd.proto, which are etcd's.
pub mod Prelude
pub mod Heap
pub mod Cluster
pub mod Hash
pub mod Etcd
pub mod Status
pub mod Info
pub mod Client
pub mod Server
pub mod Tests
