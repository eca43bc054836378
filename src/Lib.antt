-- ===== src/Lib.antt =====
-- A verification library for the XRootD monitoring shoveler and collector.
--
-- The program receives XRootD monitoring datagrams. In shoveling mode it checks their framing
-- (verify.go) and keeps them in a queue in memory and on disk until they are published (queue.go).
-- In collecting mode it parses them (parser/) and correlates opens, closes, users, tokens and
-- servers over state maps whose entries expire (collector/), to make one record for each close.
--
-- - Base: the Boolean tests, byte strings, decimal numbers, integers and association lists that the
--   other modules share, and the functions of Go's strings and strconv packages that the code calls.
-- - Parser: parser/xrootd_parser.go. Records has the structs, Wire the big-endian reads, FileRecords
--   and Files parseFileRecords, Info the user, authorization, token and server texts, Packet
--   ParsePacket with the map, user, token and g-stream records. A read is an Option of a value and
--   the bytes left; an error is a constructor in place of its text. Signed Go integers are integers
--   that are read from words of their width, unsigned ones are natural numbers below it.
-- - Verify: verify.go, VerifyPacket.
-- - Queue: queue.go. The disk queue of github.com/joncrlsn/dque is the interface Queue.Disk.Dque,
--   whose laws say that it is first in, first out; a read or a write of it may fail. Each method
--   holds the mutex for its whole run, so it is one step. Opening is openQueue with the quarantine of
--   corrupt segments, over a disk that is a parameter. Waiting is Dequeue with its wait, for any number
--   of callers; Messages is the interface that the queue's clients use.
-- - Collector: State is collector/state.go, Keys collector/key_builder.go, Scitags
--   collector/scitags.go, Filter collector/filter.go. Types, Hosts, Paths, UserInfo, Lookup
--   (getUserInfo), Record (createCorrelatedRecord), Dictionary (handleDictIDRecord) and Correlator
--   (ProcessPacket and the other handlers) are collector/correlator.go. WorkQueue is the queue of the
--   DNS workers, PowerOfTen IsPowerOfTen and Enrichment what a worker does with a record, all of
--   collector/enrichment.go; Enrichment has ProcessGStreamPacket too, for its lookup. The four maps
--   of the Correlator are its state, and each handler is a function from state to state. Time is an
--   argument in nanoseconds; all time.Now calls of a packet give one time.
-- - Collector.Wlcg: collector/wlcg_converter.go, with the events of g-streams in Events; an event is an
--   association list of JSON values.
-- - Packaging: packageudp.go and map.go, the envelope that a shoveler publishes; Input.Rabbit:
--   input/rabbitmq_input.go, the reader that takes it from the message bus, as a run of events.
-- - Input.Source, Input.Udp and Input.Lines: input/input.go, the channel that its readers share, the UDP
--   listener with the message bus consumer, and the file reader.
-- - Publisher: amqp.go, the pool of workers with its feeder, the watcher of the token file and
--   StartAMQP, as a step relation whose steps are what one goroutine does between two waits; Session is
--   the connection of a worker. Order and Counts say what the pool does with the messages, Restart what a
--   new token file can do. Publisher.Stomp is stomp.go. The pool takes messages through the interface
--   Queue.Messages, which the confirmation queue fills.
-- - Shoveler: cmd/shoveler/main.go, the rounds of the shoveling mode; Shoveler.Delivers joins it
--   with the queue and the pool, from datagram to publication, and Shoveler.Received with the reader of
--   a collector.
-- - Config: config.go, as a function of the settings; Workers joins it with the pool.
-- - Service: cmd/collector/main.go, processPackets with handleParsedPacket, which put the parser, the
--   correlator and the queues together; Service.Events is its emitGStreamEvent and Service.Outputs is
--   connectors/output.go. Service.Setup and Collector.Setup are buildCorrelatorConfig and
--   NewCorrelatorWithConfig, from the settings to the rules.
-- - Monitor: metrics/xrootd_metrics.go, HandlePacket and HandleSummaryPacket, which make Prometheus
--   metrics of packets sent to the shoveler's own port. A packet is a slice of a buffer, so it has
--   memory behind its end; Memory says which slices panic, and an outcome can be a panic. Offsets and
--   sizes wrap at their widths.
-- - Tests: runs of the theorems at concrete inputs.
--
-- Fuel: the loop of parseFileRecords runs on the packet's length, since a round reads eight bytes
-- at least; the transfer from disk to memory in dequeueLocked runs on the disk queue's size, since
-- a round takes one message; the loop of IsPowerOfTen runs on its number. Each is enough, so no
-- result is lost to it. The loop over the records in Monitor.Loop takes its fuel as an argument, since
-- it need not end. openQueue recurses on the renames that are left.
--
-- Parameters: net.ParseIP, net.SplitHostPort and strings.ToLower outside ASCII are the record
-- Collector.GoLib.GoLib; ttlcache, the Prometheus counters and xml.Unmarshal are the record
-- Monitor.State.Library; json and base64 are the records Input.Rabbit.Codec and Packaging.Encoders;
-- float64 is Collector.Wlcg.Events.Floats; reverse DNS is in Collector.Enrichment.Services;
-- json.Unmarshal is an argument of the g-stream parser, and the SciTags document is what it reads.
-- bufio.Scanner is Input.Lines.Scanner, with its law that it stops for good; viper is Config.Settings. The
-- network is a list of answers for STOMP and a list of events for a session; of the AMQP library the
-- model has that a closed connection opens no channel.
--
-- Not modelled: log lines, the declarations of metrics and the socket of the monitoring port; profiling,
-- the token generator and the status page; opening and closing sockets, files and connections; reading
-- the token file; the file connector and the file writer; the threads of the DNS workers. A pool and
-- the sessions of its workers are modelled apart: in the pool a Push works or fails. Loads and stores
-- of the pool's fields are atomic.
-- Handlers run one after the other: interleavings of workers inside one handler are not modelled.
pub mod Base
pub mod Parser
pub mod Verify
pub mod Queue
pub mod Collector
pub mod Tests
pub mod Config
pub mod Input
pub mod Monitor
pub mod Packaging
pub mod Publisher
pub mod Service
pub mod Shoveler
