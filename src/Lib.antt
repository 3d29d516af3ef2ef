-- ===== src/Lib.antt =====
-- The verification library of SLIMHUB_v2, a hub that talks to BLE sensor nodes over the Nordic UART
-- service. A node notifies chunks of bytes; the hub puts them together to frames, parses these,
-- looks up the node's config, logs the data, and has an estimator decide which nodes are told that
-- someone enters or leaves.
--
-- The parts, and the files that model them:
-- * slimhub/protocol/nus.py, in Protocol. `normalize_mac` and `mac_to_bytes` in Mac, the command
--   table in Command, `parse_rawdata` in Rawdata, frames (`build_frame`, `parse_frame`) in Frame,
--   `hex_dump` in Dump, and `FrameAssembler` in Assembler. Utf8 is Python's UTF-8 codec, decoding with `errors="replace"`.
-- * slimhub/events.py, in Events. A timestamp is a number of microseconds.
-- * slimhub/unitspace/estimator.py, in Unitspace: `SimpleUnitspaceEstimator` as a function from its
--   status and an event to the commands and the next status.
-- * slimhub/config.py, in Config: `DeviceConfigStore` over a dict of files, and in Config.Hub
--   `HubConfigStore` over one file. Config.Shelf is the store without its files, as a function from
--   addresses in normal form. Paths has `AppPaths`, `_path_for` and `get_mac_address`.
-- * slimhub/ble/registry.py, in Ble.Registry: sessions by address, and aliases.
-- * slimhub/ble/device_session.py, in Ble.Session (the methods outside the task), Ble.Notify (the
--   notify handler, which joins the assembler and the parser), Ble.Worker (the command worker) and
--   Ble.Task (`_run`, `_wait_for_target_update`, `stop`). The task is a state machine of the places
--   where it waits; what else happens to the session between two of its steps is an event.
-- * slimhub/ble/central.py, in Ble.Central: the registry refers to sessions by their number in a heap.
--   `DeviceRegistry.list_status` stands there too.
-- * slimhub/logging/raw_logger.py, in Logger: paths, rows and alert lines; Logger.Store is the data
--   directory, and Logger.Queue the queue with its task, over calls in any interleaving.
-- * slimhub/daemon.py, in Daemon: `SlimHubDaemon` as its config files, its central, its estimator and
--   the events that it gave to the raw logger; `handle_frame` joins them, and Daemon.Requests has the
--   requests, with `command_device` for `send_command`. The task of a frame runs to its end before
--   the next one starts, since nothing in it waits. Daemon.Scan has the scan loop, with
--   slimhub/ble/scanner.py; Daemon.Report the list of devices, `raw.tail` and the lines of
--   `_log_commands`; Daemon.Dispatch the requests on the socket, Daemon.Response the JSON of their
--   responses, and Daemon.Socket the socket's file and server. Daemon.Delivery says which commands get
--   to which queues, Daemon.Presence and Daemon.Moves follow a frame to these. Daemon.Streams goes
--   from the bytes of a node to the logged events, and Daemon.Written on to the files. Daemon.Begin is
--   `run` up to its wait, with the address of the command line, and Daemon.Run what it starts and what it
--   stops, with `DeviceRegistry.stop_all`. Daemon.Reach is the step relation of a server, by
--   lines of clients, scans and frames, and Daemon.History what its log says of its estimator.
-- * slimhub/cli, in Cli: from the arguments that argparse gives (`Namespace`) to the call that `_send`
--   makes, its request, what `send_request` makes of the bytes of the response, and what is printed.
-- * ble_nus_central.py, in Script: the device that it takes, and what its notify handler logs of a chunk.
--   Script.Loop is its loop, a state machine of the places where it waits.
-- Prelude has lists, texts, dicts and results, and Tests has the theorems at concrete inputs.
--
-- A text is a list of code points, and bytes are a list of numbers; where it matters that these are
-- below 256 a theorem says so. An exception is a value of `Error` in a `Result`; the state of a
-- function that raises is that of before the call, and where it is not, as for a request whose session
-- was made already, the state left is a definition of its own. `temperature_c` is in hundredths, where
-- the program divides by 100.0. The configs' JSON files are their fields, each a text or missing. A text
-- with a lone surrogate, which JSON can escape, cannot be encoded: a write of it to a log file is an error
-- that ends the logger's task; a write of it to a config, which truncates the file and raises, is outside
-- the model, and the theorems on requests ask for texts that can be encoded. A path is followed through the
-- slashes and dots of a location or a type. Each write of a data file has a later time than those before.
-- A line on the socket that is over asyncio's limit of 64 KiB is an error.
--
-- Parameters: `Machine` of Logger has the clock and the json module for alerts, and `Runtime` of
-- Daemon.Arguments has Python's `str` and `int` of values that are no texts, the json module, the lines of
-- a data file as the csv module writes them, and the hub's own MAC address. What the adapter finds, how an
-- awaited BLE call ends, the number of the machine and what `Path.resolve` gives are arguments.
--
-- The loop of `FrameAssembler.push` runs on fuel, and the length of the buffer is given: each round
-- that does not end the loop takes a byte at least. All other loops are structural.
--
-- Not modelled: signals, and the transport of the socket; argparse, the logging module, and the log lines
-- of searches and connections; calls of the file system that fail; the cancellation of tasks; the moment
-- at which a wait for a time ends.
mod Prelude
pub mod Protocol
pub mod Events
pub mod Unitspace
pub mod Config
pub mod Paths
pub mod Ble
pub mod Logger
pub mod Daemon
pub mod Cli
pub mod Script
mod Tests
