-- ===== src/Lib.antt =====
-- cloud-route-manager: a verification library.
--
-- The program keeps route tables in step with lists of prefixes. It reads the lists from its sources
-- (internal/source), parses them (internal/routes), and in each cycle (internal/app) writes the routes
-- into the route tables of a cloud (internal/cloud/aws, internal/cloud/yandex) and into the routing
-- table of its host (internal/localroutes). internal/config holds what it is told to do.
--
-- Base: shared types and lemmas. A text is a list of code points; an error keeps its format, its
--   arguments and what it wraps. Base.Strings has the functions of Go's `strings`, Base.Sorting a sort
--   by a strict order, Base.Maps maps as association lists, which the program indexes and, but for one
--   loop, does not range over, and Base.Decimal the numbers of `strconv.Itoa` and of %d.
-- Time: Go's `time.Duration` and `time.ParseDuration`, and the %d of `fmt.Sscanf`. A duration is a
--   number of nanoseconds with its sign; what wraps around in the source is taken modulo 2 ^ 64.
-- Netip: Go's `net/netip`. An address is a number below 2 ^ 32 or 2 ^ 128 with its family, a prefix has
--   Go's own representation with one more than its length. It is parsed, printed, masked and compared
--   as the package does it.
-- Routes: internal/routes/routes.go. `RouteSet` is Set, `add` Add, `sorted` Sorted, `less` Less,
--   `parse_one` ParseOne, `parse` Parse, whose loops are `parse_lines` and `parse_tokens`.
-- Cloud: internal/cloud/cloud.go. `applied` is Applied. `Cloud.Detection` is internal/cloud/detect.go.
-- Aws: internal/cloud/aws/aws.go. The SDK is the record `Ec2`: each call takes the world and gives its
--   result and the next world. `sync_table` is syncTable, with its loop `sync_routes` and the loop's
--   body `sync_route`; `sync` is Sync, with the cached interface passed through. What EC2 documents of
--   its calls is `IsFaithful`, the hypothesis of the theorems on what a table holds after a run.
-- Yandex: internal/cloud/yandex/routes.go. A row is a map from texts to JSON values. `merge` is what
--   syncTable computes from the rows: `merge_rows` goes over the table and `create_rows` over the
--   routes. The two calls of the service are the record `RouteTables`.
--   `Yandex.Client` is the rest of the file: `do_into` is do, `wait_operation` waitOperation with its
--   loop `poll`, and `service` is the record `RouteTables` that getRouteTable and updateStaticRoutes
--   fill. What the VPC service documents of its requests is `IsVpc`, in `Yandex.Client.Faithful`; what
--   the theorem on the whole cycle asks of the two calls is `IsStore`, in `Yandex.Stores`.
-- Metadata: internal/cloud/yandex/metadata.go. `iam_token` is Token, with the client, which keeps the
--   token, passed through; `get` is Get.
-- Http: the HTTP client, the clock and the environment, as the record `Host` that Metadata,
--   Yandex.Client and Cloud.Detection take.
-- LocalRoutes: internal/localroutes. `Specs` parses the entries of the configuration, `Listing` reads
--   the output of ip(8), and `Manager` is Sync. ip(8) is the record `Runner`.
-- Config: internal/config/config.go. `validate` is Validate; its checks are a list, in their order.
--   `Config.Decoding` has `unmarshal`, which is UnmarshalYAML of Duration, `parse` and `load`.
-- Source: internal/source. A source is a name and a function of the world; `build` is Build and
--   `collect` Collect. The file system and the clients of S3, SSM and the metadata are `Clients`.
-- App: internal/app/app.go. `new_app` is New, `cycle` cycle and `run_once` RunOnce, over the record
--   `Machine` of the managers, the detection of the interface and the actions. A call that panics is
--   an `Outcome`; the field `local` keeps apart a nil interface value and a nil pointer in one.
-- Loop: the loop of Run in internal/app/app.go, as a step relation over the requests of Trigger, the
--   ticks and the cycles. Where a cycle panics there is no step.
-- Actions: internal/actions/actions.go. `expand` is Expand, over Go's os.Expand, and `run` Run, over the
--   record `Shell`.
-- NetInfo: internal/netinfo/netinfo.go. `detect` is Detect, over the record `Kernel` of what package net
--   reads of the system.
-- Logging: internal/logging/logging.go. `new_logger` is New and `level_of` Level.
-- CommandLine: main.go. `apply_to` is applyTo and `run` is run, over the record `Program` of what it
--   reads and starts.
-- Tests: runs on concrete data, instances of the records, and the theorems at examples.
--
-- Most loops of the program go over a list and are structural recursions here. Two have fuel: the loop
-- of waitOperation, one round more than its timeout has seconds, since a ticker ticks once a second and
-- a request fails behind the deadline; and the loop of ParseDuration, the length of the text, since a
-- round takes a character at least.
-- The theorems on AWS and Yandex Cloud ask of the prefixes in the list that they are read back from
-- their printed form (`IsReadBack`), which is what writing them into a table and reading the table
-- relies on. `IsVpc` and `IsStore` leave out that anyone else changes a table, or that an operation of
-- an earlier run, whose wait has failed, ends between two calls.
--
-- Not modelled: the YAML and JSON codecs, the handlers of the logger, the HTTP and SDK clients, the
-- start of processes, the parser of command line flags, the product of floating point numbers in
-- ParseDuration, and the reading of struct tags in GeneralKeys; all but the last and the handlers are
-- parameters. The managers are called by one goroutine; what happens beside it, requests and ticks, are
-- steps of the loop. A context is its deadline where the program measures time, and shows only as
-- errors of the calls elsewhere.
pub mod Base
pub mod Netip
pub mod Routes
pub mod Cloud
pub mod Aws
pub mod Yandex
pub mod LocalRoutes
pub mod Config
pub mod Source
pub mod App
pub mod Time
pub mod Actions
pub mod NetInfo
pub mod Logging
pub mod CommandLine
pub mod Http
pub mod Metadata
pub mod Loop
mod Tests
