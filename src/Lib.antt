-- ===== src/Lib.antt =====
-- Armiarma, a crawler of libp2p networks: the model of its core and what is proved of it.
--
-- The crawler keeps a queue of the peers that it knows from its database. An iterator hands the peers
-- that are ready to workers, each worker dials its peer and reports the outcome, and a recorder
-- schedules the peer anew from that outcome or gives it up, and hands the connection events to the database,
-- whose persister turns them into batches of queries. Connected peers are asked for their status and
-- metadata by the request and response protocol of the consensus layer. Discovered peers go to the database, and
-- their addresses to a locator, which asks a web service where they are.
--
-- Where each part stands, paths from the repository's root:
--   * Base: lists, maps with string keys (`map[string]T`), signed integers, texts as code points.
--   * Hosts.ConnErrors: pkg/hosts/conn_errors.go, the class of a dial error. Hosts.Notify: pkg/hosts/notify.go and
--     identify.go, the notices of connections.
--   * Models: pkg/db/models/connevents.go, conn_attempt.go and peer_info.go.
--   * Peering.Delay: pkg/peering/prunning_error_structs.go. Peering.Peer, Peering.Queue,
--     Peering.Recorder and Peering.Iterator: pkg/peering/pruning_strategy.go, the types `PrunedPeer`
--     and `PeerQueue` and the two routines of `PruningStrategy`. Peering.Exports: its methods for the
--     metrics. Peering.Worker: the worker of pkg/peering/peering.go. Peering.Metrics: pkg/peering/metrics.go, a module of
--     Metrics, which is pkg/metrics.
--   * Config: pkg/config/ethereum_config.go and defaults.go. Gossip: pkg/gossipsub.
--   * ReqResp: pkg/networks/ethereum/rpc/reqresp. Reader is buf_limit_read.go, Varint the size header,
--     Request handle_request.go, Response handle_response.go with the chunks of encode.go and
--     rpc_method.go.
--     Method is rpc_method.go, the codecs and the handlers that a listener is given.
--   * Db: pkg/db/postgresql. Batch is batch.go, Persister the routine of server.go, and Persister.Pair the
--     two of them that NewDBClient launches. Tables has the tables; in
--     Tables.PeerInfo are the statements of peer_info.go and connevents.go, in Tables.Network those of eth_status.go,
--     eth_nodes.go, ethereum_msgs.go, ips.go and active_peers_backup.go. Peers reads peer_info.go's rows back; Peers.View
--     says what the items make of a peer, without statements. Times has the units of the columns.
--     Distributions is crawler_metrics.go, with the grouping and the order of SQL in Groups.
--   * Ethereum.Topics: the topic names of pkg/networks/ethereum/network_info.go. Ethereum.Node: enode.go,
--     beacon_status.go, beacon_metadata.go and beacon_rpc.go beside it. Ethereum.Records: enr.go, utils.go,
--     gossip_messages.go and gossip_handlers.go. Ethereum.ForkDigests: CheckValidForkDigest of network_info.go.
--     Ethereum.Stamps: eth_node_metadata.go.
--   * Apis: pkg/utils/apis/ip_api.go. IpQueue is its queue, Call one request to the web service, Locator the two
--     routines.
--   * Utils.UserAgent: pkg/utils/useragent.go. Utils.Addresses: pkg/utils/multiaddress.go.
--   * Discovery: pkg/discovery/discovery.go. Discovery.Kdht: the list of peers in kdht/service.go beside it.
--     Discovery.Kdht.Neighbours: kdht/neighbours.go. Discovery.Dv5: the iterator of dv5/dv5_service.go.
-- An operation is named like its function, in snake case, and takes and returns the state that
-- the function changes.
--
-- How it is modelled. A `time.Time` is the integer of its nanoseconds since the zero time, and each
-- reading of the clock is an argument. A duration is an int64. Pointers to peers are shared by the list and the
-- map of the queue, so the queue carries the heap they point into. A routine that
-- receives from channels is a function of one message; a run is the list of the messages. What
-- the database, libp2p and the clock answer are arguments. The order in which Go visits a map is an
-- argument where a result depends on it. `sort.Sort` leaves ties open: the model resolves
-- them as an insertion sort does, and the theorems use only the order and the permutation.
-- The two routines of the locator, the two persisters, and the workers and the iterator of kad-dht, are step relations: an event says
-- which of them moves. Between the test of the next peer and the read of it the iterator gives up the lock of the queue: a step
-- takes the peers that the recorder removes there and before. The persisting of a batch, with its retries, is one step of its
-- persister.
-- All loops recur on a list or on the count of rounds that the code has: ten for a varint, three for the
-- persisting of a batch, the maximum number of chunks for a response.
--
-- PostgreSQL is a parameter, the record `Database` of Db.Sql, with the laws `IsLawful`. They are stated of statements that fit
-- their table and of tables with one key whose columns are read back as they were written, so not of times, floating-point numbers
-- and the further `UNIQUE` of eth_nodes: there an insert and an update by the primary key do to a row what their columns say, and a
-- value is scanned as it was stored. `NULL` is not scanned into a plain variable, and into a slice as nil. Which texts the
-- database takes is an argument: PostgreSQL refuses the character NUL and invalid UTF-8. A nil slice is `NULL`, so the
-- host that kad-dht sends without addresses is a statement of its own. Db.Sql.Memory has a database that keeps the laws.
--
-- Not modelled: that the texts of the SQL statements mean what the model's statements do, the distributions of
-- versions, addresses and systems, the web server of the metrics and the metrics of the hosts and the crawlers, the declaration of the flags, the start of
-- discv5, the dials of the kad-dht workers and the router of the gossip, which pass data between libraries; logging,
-- timers and, but for the persister, the locator and discv5, the shutdown.
pub mod Base
pub mod Models
pub mod Metrics
pub mod Peering
pub mod Hosts
pub mod ReqResp
pub mod Db
pub mod Ethereum
pub mod Config
pub mod Apis
pub mod Utils
pub mod Discovery
pub mod Gossip
pub mod Groups
