-- ===== src/Lib.antt =====
-- OrderForge, an order system of small services that each show one container pattern. This library
-- models its Go services, under services/. An order enters at order-api, which asks inventory-root
-- whether it can be met and then posts it to workqueue-coordinator. The coordinator stores a task
-- in Redis; a worker runs workqueue-framework, which claims the task, hands it to its stage through
-- files and acknowledges it; the coordinator's reaper brings back the tasks of workers that have
-- died. order-api reaches its cache through cache-ambassador, and every pod sends its log lines to
-- log-sink.
--
-- Common has what the modules share: byte strings as lists of numbers, Boolean tests on the native
-- numbers and laws of lists. Decimal is strconv's Atoi and the printing of numbers.
--
-- LogSink is services/log-sink/main.go. LogSink.Ring is the ring with add and snapshot,
-- LogSink.Ring.Abstract the quotient by what snapshot shows, LogSink.Handlers is handlePush and
-- handleQuery.
--
-- Resp is services/cache-ambassador/resp.go: Resp.Command has readCommand, encodeCommand and
-- encodeBulk, Resp.Reply has readReply. A reader is the bytes that the connection will still
-- deliver. An error of Resp.Wire is the end of the input, a protocol error, a panic or the end of
-- the fuel; an allocation panics above 2^48 bytes. Ambassador is the rest of that service:
-- Ambassador.Pool is pool.go, where the network is the parameter Net; Ambassador.Pool.Shared lets
-- any number of commands use one pool at once. Ambassador.Dispatch is newServer, shardFor, dispatch
-- and forward of main.go, and Ambassador.Server is handleConn with its buffered writer;
-- Ambassador.Serve is serve, its accept loop and its drain, on one shard's pool. Ambassador.Crc32
-- is the checksum.
--
-- WorkQueue is the queue. WorkQueue.Redis is the server as a parameter: a state, what it shows, and
-- each command with its documented effect, which WorkQueue.Redis.Effects writes out on what is
-- shown. WorkQueue.Coordinator is services/workqueue-coordinator (enqueue.go and reaper.go, each
-- Lua script one function), with the life of its process in WorkQueue.Coordinator.Process;
-- WorkQueue.Framework is services/workqueue-framework/main.go, and WorkQueue.Framework.Stage its
-- file protocol. Every call over the network has an outcome: a reply, a loss before the command ran
-- or a loss after it. WorkQueue.Tracking says when a task is tracked: it is in the ready list, the
-- dead list, the inflight set, some worker's processing list or the set of the finished tasks.
-- WorkQueue.System lets the calls of all processes interleave as steps. The loops of the code are
-- functions of the store, in which the others act at named places, before a claim or a tick and
-- while a stage runs; WorkQueue.System.Worker and WorkQueue.System.Loops show that they are runs of
-- that system, where what the others do is asked for only at the system as it stands at each place.
-- Attempt counters have no upper bound, and a task's directory is written by its own set-up only.
--
-- Inventory is services/inventory-root/main.go: Inventory.Scatter is callLeaf, scatter and
-- summarize, with the order in which the leaves end as an argument, and Inventory.Root is
-- handleAvailability and relayMerge. OrderApi is services/order-api: OrderApi.Stats is stats.go,
-- where counters wrap around at 2^64, and OrderApi.Orders is handleOrders and the calls that it
-- makes. Elector is services/leader-elector/main.go: each load and store of an atomic by a
-- callback, the refreshing loop or the handler of /leader is a step of its own; the election itself
-- is client-go's.
--
-- EndToEnd joins the services: EndToEnd.place_order is one request from handleOrders of order-api
-- through handleEnqueue of workqueue-coordinator to the transaction on Redis, with its call of the
-- inventory root in EndToEnd.Availability. EndToEnd.Batch takes any number of requests, one after
-- the other. EndToEnd.Finished goes on with the worker, whose rounds of runLoop are
-- WorkQueue.Framework.Progress.
--
-- Environment is what the loadConfig functions share, and each service's own is its Settings:
-- Inventory.Settings, Ambassador.Settings, OrderApi.Settings, and WorkQueue.Settings for the
-- coordinator and the worker. OrderApi.Concurrent has all requests of order-api at once, each
-- operation of the counters a step; OrderApi.Stats.Snapshot is what /stats reports, and
-- OrderApi.Log is logger.go on the contents of its files, with the events of handleOrders in
-- OrderApi.Log.Events and the opening of the files in OrderApi.Log.Files. OrderApi.Ids is
-- newOrderID.
--
-- Fuel and bounds: readReply runs on one more than the bytes that are left, and
-- read_one_reply_total shows that this is enough. handleConn runs on one more than the bytes that
-- the client sends, and serve_conn_relays shows the same. All other functions recurse on their
-- data. The capacity of the ring is any positive number; the log sink's default is 5000.
--
-- Not modelled: encoding/json, HTTP, TCP, the clock and the file system, which are parameters or
-- arguments; mutexes, since what they protect is one step each; the log lines of the other
-- services; the start and the end of the other processes than the coordinator and the ambassador; a
-- failing write to the ambassador's client; the float sum of latencies; in WorkQueue.System, a ZADD
-- of handleTask that is lost before it ran, after which the task is in no list; the services in
-- Python and JavaScript; manifests, scripts and documents.
pub mod Common
pub mod LogSink
pub mod Decimal
pub mod EndToEnd
pub mod Environment
pub mod Resp
pub mod WorkQueue
pub mod Ambassador
pub mod Inventory
pub mod OrderApi
pub mod Elector
