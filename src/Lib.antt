-- ===== src/Lib.antt =====
-- Verification of librespeed-cli, the command line client of LibreSpeed, in Rust.
--
-- The program loads a list of servers, chooses one, measures its latency and its download and
-- upload rates over HTTP, prints a report and sends it to a telemetry server if it is asked to.
-- Everything that it reads off the wire is foreign: server names, addresses, responses and
-- redirects. This library models the parts that decide what is done with it.
--
-- The files and the code they stand for, whose paths are from the repository's root:
--   Base        helpers: text as code points, splitting and finding, sorted tables, decimals, and
--               Float, the interface of the 64-bit floats
--   Main        src/main.rs: main and the exit code
--   Cli         src/cli.rs: silent, csv_delimiter_byte and go_usage_error
--   Speedtest   src/speedtest.rs: Run is run, with its checks and print_version and parse_source in
--               Run/Settings, and the listing, the choice and the tests of servers in Run/Flow;
--               Load is load_servers, Servers preprocess_servers, Scheme apply_scheme, Fastest
--               ping_all and the choice of a server, Files read_file, Telemetry resolve_telemetry
--   Helper      src/helper.rs: Run is do_speed_test, whose phases are in Run/Turn and Run/Closing and
--               whose loop is in Run/Loop, Run/Measuring the measurements that it takes,
--               Multipart multipart_form, Telemetry send_telemetry
--   Defs        src/defs: Server is the probe of server.rs, with its pings in Server/Pings; Transfer its
--               download and upload, a stream in Transfer, the loop of a phase in Transfer/Phase, the
--               whole in Transfer/Measure; Upload the UploadBody; Counter bytes_counter.rs with
--               src/http/meter.rs; Telemetry telemetry.rs; Ip the responses of mod.rs
--   Ping        src/ping.rs: the rounds of icmp_rtts, and compute_jitter
--   Http        src/http/mod.rs: Http/Request is the loop of HttpClient::request, Http/Origin the
--               origins it compares, Http/Body collect_limited, drain_body and body_prefix,
--               Http/Client the requests that read a response and send_streaming; of
--               src/http/connector.rs Http/Family has the families, the bind options and resolve,
--               Http/Dial dial_serial and dial_with; Http/Tls is client_config and split_pem of src/http/tls.rs
--   Report      src/report.rs: the records of the two reports, csv_text, escape_like_go, Client::new,
--               numbers and format_timestamp
--   Output      src/output.rs: the write functions, and sanitize under Output/Sanitize
--   Spinner     src/spinner.rs: what a spinner draws
--   Quote       src/quote.rs: GoQuote, with the table of printable characters in Quote/Table
--   Util, Url   src/util.rs: path_clean and path_join, averages and durations, and url_join_path over
--               the url crate as an interface
--   Tests       concrete runs
--
-- How the parts meet. Main runs Speedtest/Run, which settles the options, loads the servers by
-- Speedtest/Load and picks one by Speedtest/Fastest, and hands them to Helper/Run. What
-- Helper/Run needs of a server is a Backend; Helper/Run/Measuring fills it with Defs/Server and
-- Defs/Transfer. A transfer adds to the counter of Defs/Counter by the streams of Defs/Transfer,
-- whose upload body is Defs/Upload. Speedtest/Telemetry settles a TelemetryServer, whose
-- addresses Defs/Telemetry makes by Url/Join and Util/Path; Helper/Telemetry posts a form of
-- Helper/Multipart there, by the client of Http/Request. What came off the wire and is shown goes
-- through Output/Sanitize.
--
-- How code becomes definitions. Text and bytes are lists of numbers. Code that fails returns
-- Result or Option. Code with state takes it and returns it: the loop of HttpClient::request has
-- its variables in Exchange, and the requests that went out are a list, last first, from which
-- the transport may choose its answers. Dialling addresses one by one has a clock, and the
-- race of two address families a list of the wakes of its loop. A response body is the frames
-- that are read of it. A phase of a transfer is a list of what its tasks do, in any order, up
-- to the deadline and the end of the shutdown behind it. What a function prints goes onto a
-- console, the list of the writes. The counter and the meter that several streams share are
-- changed by a list of events in any order, since each operation holds its lock. A run that
-- ends early says whether by an error, by output::fatal or by a panic. The release build does
-- not check overflow, so that counters are modulo 2^64.
--
-- Bounds and fuel. The loop of HttpClient::request has ten rounds of fuel, as many as
-- MAX_REDIRECTS allows requests. A body of upload frames has as many rounds as the payload has
-- chunks, and one more. Decimal digits have as many rounds as the number has units, and one more.
-- All other loops are by recursion on a list: the frames of a response, the echos of a ping, the
-- wakes of a race or of a phase, the servers of a run.
--
-- What is not modelled: sockets, timers, tasks, name resolution, the handshake of TLS and ICMP,
-- which are calls of libraries, with the wrappers that hand a connection's facts on; clap,
-- serde_json, csv and chrono, whose results are parameters here; and what floats compute, of
-- which only the order is assumed, and that where a theorem says so.
--
-- The parameters: UrlCrate stands for the url crate, Float for f64, Wire for hyper's client and
-- the conversions of the http crate, FileSystem for std::fs, Socket for tokio's sockets,
-- TlsLibrary for rustls, from_slice for serde_json, Post for a client's POST, Pinger and Backend
-- for what a server answers, the World of Helper/Run/Measuring for the network of one test and
-- that of Speedtest/Run for the machine, the libraries and the network of a run. Nothing is
-- assumed of them except where a theorem says so in its hypotheses.
pub mod Base
pub mod Cli
pub mod Defs
pub mod Helper
pub mod Http
pub mod Main
pub mod Output
pub mod Ping
pub mod Quote
pub mod Report
pub mod Speedtest
pub mod Spinner
pub mod Tests
pub mod Url
pub mod Util
