-- ===== src/Lib.antt =====
-- The distributed query engine for taxi trip records: a coordinator on each node of an overlay
-- answers COUNT and EXECUTE queries with the trips of its own files and with chunks that it pulls
-- from its child nodes.
--
-- Parts, from the bottom up; paths are below basic/src of the repository.
--   Model         model/TaxiTrip.hpp, QueryRequest.hpp, QueryResult.hpp, RowRef.hpp,
--                 LocalQueryResult.hpp: trips, requests with their visited path, results.
--   Store         dataset/PartitionStore.hpp: the files of a shard, their totals, validation.
--   Loader        dataset/PartitionLoader.cpp: the files of a shard enter its store.
--   Ingest        ingest/IngestQueue.hpp, IngestDispatcher.hpp, model/ShardAssignment.hpp: shards for
--                 workers. Loader/Loading and Ingest/Balance hold proofs.
--   InMemory      apps/implementationA: the in-memory program; its own header says more.
--   Config        common/config.cc: the configuration file of a node. Config/Validity holds proofs.
--   Engine        query/LocalQueryEngine.cpp: `matches_row`, `count` and `execute`. The loops of
--                 `execute` are `scan_files`, `scan_lines` and `scan_row`; an `Outcome` tells a
--                 return from within them from going on. Engine/Rows flattens the files into rows,
--                 Engine/Window is one call, Engine/Paging a query by repeated calls.
--   Csv           dataset/PartitionCsvParser.hpp: Csv/Fields cuts a line, Csv/Money and Csv/Dates
--                 read amounts and dates, Csv/Row is `initFromHeader` and `parseRow`.
--   WorkerNode    querycoordination/WorkerNode.cpp: the engine on a node's own store.
--   RequestState  querycoordination/RequestState.cpp: one query's cache of rows, read cursor and
--                 progress of each worker.
--   Overlay       model/OverlayConfig.hpp, NodeInfo.hpp: nodes and edges; Overlay/Traversal has
--                 the recursive walks and `validate`. Parents, Reachable, Termination, Cycles,
--                 Acyclic and Validation hold proofs.
--   Coordinator   querycoordination/QueryCoordinator.cpp: the table of requests, chunk sizes and
--                 the choice of workers; Coordinator/Fetch is the EXECUTE path, Coordinator/Count
--                 the COUNT path, Coordinator/Rpc the operations that the RPC service calls.
--                 Table, Delivery, Updates, Extension, Serving, Tracking, Starting, Naming and
--                 Totals hold proofs;
--                 Single, Rounds, Answering, Draining and Submitting follow a whole EXECUTE query of
--                 a node without children; WorkerNode/Draining closes it with the engine.
--   TripCsv       taxi_implementation/TaxiTripCSVParser.cpp: the CSV reader of whole trips. TripCsv/Order
--                 compares its two orders of columns, TripCsv/Agreement its amounts with Csv's.
--   Dataset       dataset/TaxiTripDataset.cpp, taxi/BufferedFileReader.cpp: queries over CSV files.
--                 Dataset/Predicates is query/*Predicate.hpp; Collecting and Batches have the queries
--                 that keep trips and that go by batches; Serial, Schedule and Keeping
--                 hold proofs.
--   Protocol      proto/query.proto: the messages of the query service.
--   Transport     transport/QueryProtoConverters.cpp; Transport/Client is
--                 transport/GrpcRemoteQueryClient.cpp, over gRPC (`Grpc`), and Transport/RoundTrip
--                 what messages keep of trips and requests.
--   QueryService  server/QueryServiceImpl.cpp: the handlers. QueryService/Network joins the client
--                 of one node to the service of another (`direct`), QueryService/Leaf drains it.
--   Common        conditionals, lists, 64-bit sums, decimals and association lists.
--   Tests         a shard of two files, overlays with and without cycles, a coordinator on them,
--                 CSV lines, the configuration file of a node, the in-memory program on two files.
-- The coordinator takes its workers by the record `Worker`, which WorkerNode fills (`as_worker`),
-- and the other nodes by `RemoteClient` over a state `W` of everything that is not this node, which
-- Transport/Client fills (`as_remote_client`); the
-- engine takes a `RowParser`, which Csv/Row fills (`partition_csv_parser`), and a `FileSystem`. The
-- CSV parsers take the library functions that they call (`Conversions`). Dataset takes the file
-- system and `std::sort`; a load of the stop flag gives what its number says (`StopFlag`), and a
-- parallel loop is the sequence of the files in the order in which the threads come to them.
--
-- Choices. `std::uint64_t` counters that are added up wrap at 2 ^ 64; positions and lengths of
-- containers are plain numbers, since a container holds fewer than 2 ^ 64 elements. Signed fields
-- are integers; the `int64_t` total of an amount wraps where it overflows, and a loop bound that
-- is cast to `int` keeps 32 bits. A message that does not parse is a failed call of gRPC; what
-- Protocol Buffers make of a `string` is a parameter of the statement on trips (`Protobuf`).
-- OpenMP chooses the places of each thread anew in each parallel region. A float is its 32 bits,
-- compared as IEEE 754 says. The pressure of the coordinator is kept exactly, in units of 1 /
-- 10000. Hash maps are association lists with distinct keys, in the order of insertion; the order
-- in which the code walks them is not specified. A reference to a request state is a copy that is
-- written back under its query ID. Calls on one coordinator run one after the other; the code
-- takes no lock, so calls of several threads at once are not covered.
--
-- The walks of the overlay take fuel and return `none` when it runs out; for `collect_reachable`
-- one more than the number of edges and the start node is enough. `drain` counts calls of
-- `execute`; one more than the number of rows is enough. `drain_rpc` and `drain_remote` count
-- chunks; two for each row and two more are enough. `query_batches` counts batches; one more than
-- the lines is enough. `has_cycle` takes the fuel of `collect_reachable`, and `each_row` one round
-- more than there are rows. Everything else recurs on its data.
--
-- Not modelled: the start-up programs and clients, the Basecamp service, the benchmarks of metrics/
-- and the Python node, since they are input and output, timing, or in another language. Printing
-- and timing are left out elsewhere too.
mod Common
pub mod Model
pub mod RequestState
pub mod Store
pub mod Engine
pub mod Csv
pub mod Overlay
pub mod Coordinator
pub mod WorkerNode
pub mod Loader
pub mod Ingest
pub mod Config
pub mod TripCsv
pub mod Dataset
pub mod InMemory
pub mod Protocol
pub mod Transport
pub mod QueryService
mod Tests
