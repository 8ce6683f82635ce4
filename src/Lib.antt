-- ===== src/Lib.antt =====
-- AnLF is an analytics function of a 5G core. It reads traffic counters of each user equipment
-- (UE) from eBPF maps, turns them into features, asks a language model for an anomaly score,
-- keeps a risk score for each UE, and writes everything to CSV files. This library models its
-- logic.
--
-- How the parts interact: the monitor polls the counters and the table of UEs, and sends one
-- batch of records for each interval to the analyzer. The analyzer numbers the batch, fills in
-- the averages, and puts it into the export queue and into the inference queue. The workers of
-- the inference queue hand it to the detector, which asks the language model about each UE,
-- passes the results to the risk scorer, and puts the enhanced results into the export queue. The
-- workers of the export queue hand the messages to the dispatcher, and it to the exporters. The
-- application builds all of them from the configuration, registers them with the lifecycle
-- manager, and registers itself at the NRF.
--
-- Parts, files and code:
--   Base and its children: numbers, integers, text as lists of bytes, Go maps as association
--     lists.
--   Float: float64 as a parameter, a record of the operations that the code uses, with the facts
--     of IEEE 754 that proofs need in IsIeee. NaN and the infinities are values. Float.Fixed is a
--     concrete instance, integers that count thousandths, with which the tests run.
--   Models: pkg/models. Sort: the exchange sort of pkg/ebpf/manager.go (getTop3),
--     internal/analyzer/exporter/csv_exporter.go and
--     internal/analyzer/detector/anomaly_detector.go, with its laws, and what a sort by distinct
--     keys determines.
--   Scorer: internal/analyzer/scorer/risk_scorer.go. The clock is an argument; an update of one
--     UE is one step, as the lock makes it.
--   Queue: internal/analyzer/queue/base_queue.go as a step relation. An event is one choice of a
--     select or one call, and a run is any sequence of events, so every interleaving of the
--     workers is covered. The state also keeps a history of accepted and handled messages.
--   Message: message.go, export_queue.go and inference_queue.go beside it.
--   Rows and Exporter: internal/analyzer/exporter, the rows and the exporters; the CSV writer
--     with its file is a parameter.
--   Dispatcher: internal/analyzer/dispatcher/dispatcher.go; the exporters are a parameter.
--   TopStats: the top-N statistics of pkg/ebpf/manager.go.
--   Prompt, Regex and Client: internal/analyzer/detector/llm_client.go, the text of a request,
--     the part of Go's regexp package that reads the answer, and the request with its errors. The
--     server and JSON are a parameter.
--   Detector: internal/analyzer/detector/anomaly_detector.go. The goroutines of a batch are a
--     list of runs in the order in which they end, each with the server that it met.
--   Analyzer and AnalyzerRun: internal/analyzer/analyzer.go, the handling of a batch, and the
--     goroutine with its channel and its stop. Lifecycle: pkg/app/lifecycle.go.
--   UeTable: internal/sbi/consumer/smf_client.go and mock_smf.go. The order in which a Go map is
--     read and the sort of Go's library are parameters.
--   Features: pkg/ebpf/features.go. Monitor: internal/monitor, a poll, the cache of TLS events
--     and the addresses, which Address reads as net.ParseIP and To4 do.
--   Counters: the reads of the kernel's maps in pkg/ebpf/manager.go. An iteration gives its
--     entries and whether it failed; the kernel's packets between the deletes are an argument.
--   Settings: pkg/factory/config.go, its sections, getters and setters, and the validation with
--     pkg/factory/factory.go. The library govalidator is a parameter.
--   NfContext, Nrf and Server: internal/context/context.go, internal/sbi/consumer/nrf_service.go
--     and internal/sbi/server.go. What a round of the registration meets is a function of its
--     number.
--   Service: pkg/service/init.go. Lifecycle.Laws and Service.Order run the lifecycle manager on
--     components that record what is done to them. Service.Termination and Service.Waiting are
--     step relations: the termination with its timeouts, and the wait of Start for the
--     goroutines.
--   EbpfComponent: pkg/ebpf/component.go. MonitorRun: the goroutines of internal/monitor as a
--     step relation.
--   Delivery and Pipeline: from the export queue through the dispatcher to the files, and from
--     the batches of the analyzer and the detector to them.
--   Tests and its children: concrete runs.
--
-- Bounds and fuel: the replacement loop of Prompt has one round for each byte and one more, and
-- the loop of CountBits has 65 rounds for 64 binary digits; both are shown to be enough. All
-- other loops follow their data. Counters of packets are natural numbers below 2^64, and times
-- are integers. Counters of polls and attacks grow by one at a time and are natural numbers
-- without a bound.
--
-- Not modelled: the libraries for eBPF, HTTP, JSON and YAML, the log itself, and the command
-- line. The timeouts of requests, the semaphore of the detector and the capacity checks of Go's
-- runtime have no part in a result.
pub mod Base
pub mod Float
pub mod Models
pub mod Address
pub mod Sort
pub mod Scorer
pub mod Queue
pub mod TopStats
pub mod Message
pub mod Rows
pub mod Exporter
pub mod Dispatcher
pub mod Prompt
pub mod Regex
pub mod Client
pub mod Detector
pub mod Analyzer
pub mod AnalyzerRun
pub mod Lifecycle
pub mod UeTable
pub mod Features
pub mod Monitor
pub mod Settings
pub mod Counters
pub mod NfContext
pub mod Nrf
pub mod Server
pub mod Service
pub mod EbpfComponent
pub mod MonitorRun
pub mod Delivery
pub mod Pipeline
pub mod Tests
