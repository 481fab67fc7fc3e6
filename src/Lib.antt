-- ===== src/Lib.antt =====
-- The daemon of yonderboy, a web browser cut into processes: renderers show pages, viewers hold the
-- windows, controllers send commands, and the daemon stands between them. This library models the
-- daemon's logic, as the files under daemon/src have it, the clients' end of a connection, the
-- command line controller, the renderer and the viewer, and proves what makes them correct.
--
-- Clients talk to the daemon in packages, maps of text with a line of JSON, that an empty line ends.
-- A host is the daemon's end of a connection; it cuts what it receives into packages, checks them
-- and gives them to its class or to the router. The router makes a job of a package and gives it to
-- a manager or to another host; the job manager acknowledges a job when the jobs that it waits for
-- are finished, and leads a response back to the host that asked.
--
--   Macros               daemon/src/macros.h: the enumerations with their numbers
--   Package              daemon/src/package.cpp (parse_package, make_package and copy_package are
--                        the three constructors)
--   PackageFactories     daemon/src/package_factories.cpp
--   Framing              daemon/src/abstract_host.cpp: parseReceivedData
--   AbstractHost         daemon/src/abstract_host.cpp: sendPackage, writeCallback, identifiers
--   Server               the state: the objects on a heap, and the members of the managers
--   Job, JobManager      daemon/src/job.cpp, daemon/src/job_manager.cpp
--   DisplayManager       daemon/src/display_manager.cpp
--   HostsManager         daemon/src/hosts_manager.cpp
--   HostLifecycle        construction and destruction of hosts and views
--   IpcListener          daemon/src/ipc_listener.cpp, and the callbacks of the two listeners
--   ConfigurationManager daemon/src/configuration_manager.cpp
--   Replies, ViewerHost, RendererHost, ControllerHost, ClientHosts
--                        handlePackage and doJob of the three classes, and forwardJob
--   ServerController     daemon/src/server_controller.cpp: the states
--   CommandTable, PackageRouter, ManagerJobs, StatusChanges
--                        daemon/src/package_router.cpp and the doJob of the managers
--   Dispatch             daemon/src/abstract_host.cpp: processPackage, readCallback
--   DecisionMaker        daemon/src/meta_decision_maker.cpp
--   PersistentStorage    daemon/src/persistent_storage.h
--   FileStream           the `std::fstream` that the persistence manager uses
--   FileRecords, FilePersistenceManager, StorageReader
--                        daemon/src/file_persistence_manager.cpp
--   PersistenceManager, Storages
--                        daemon/src/abstract_persistence_manager.cpp
--   SyncThread           daemon/src/abstract_persistence_manager_sync.cpp
--   ServerConnection     shared/server_connection.cpp, shared/client_controller.cpp and the parts of
--                        shared/abstract_host.cpp that differ from the daemon's
--   ConfigurationReader  shared/configuration_reader.cpp, shared/configuration_finder.cpp
--   CommandParser        controllers/cli-controller/src/command_parser.cpp
--   CliController        controllers/cli-controller/src/controller.cpp, help_command_parser.cpp
--   RendererClient       renderers/webkit-renderer/src/renderer_controller.cpp
--   ViewerClient         viewers/tabbed-gtk-viewer/src/viewer_controller.cpp
--   Tests                runs at concrete inputs
--   Prelude              shared names, lists, byte strings, numbers in text, ordered maps
--
-- A byte string is a list of numbers, std::map is a list of entries in key order, a pointer is a
-- reference into a heap, and code that changes state is a function from a server to an outcome:
-- a result with the new server, a fault (a null or dangling pointer, or an exception that nothing
-- catches), or no fuel. Counters of 64 bits wrap around.
--
-- Loops with fuel: take_packages has the length of the text, which each round shortens;
-- parse_lines has the length of the text; job_done_loop has the number of objects, and each level
-- goes to an older job. write_loop has a round for each answer of the system, and counts the bytes
-- that are left in an int, as the source does. table_entries,
-- compact_loop and read_loop have the length of a text, and one more where the last line has no
-- newline; sync_records has the length of the queue, and one more;
-- handle_packages has the length of the queue, and one more; later_completions has the number of
-- options.
--
-- Storages are written by a thread of their own. Its loop is cut into the parts between which the
-- other threads may run, and the queue that both change is a step relation; so are the parts of a
-- change of a storage that are between its locks (PersistentStorage.Locks). Keys count up from 0 and
-- are not wrapped at 2^63.
--
-- Outside: the sockets, whose answers are arguments, libev, the YAML library, files, signals, the
-- processes of the renderers, and memory management of packages. Iteration over the set of hosts
-- that hear of status changes is in the order of their references. popt, readline, GTK and
-- WebKit are outside: what they answer is an argument. The clients' packages (shared/package.cpp)
-- are the same code as the daemon's.
pub mod Prelude
pub mod Macros
pub mod Package
pub mod PersistentStorage
pub mod FileStream
pub mod FileRecords
pub mod PersistenceManager
pub mod FilePersistenceManager
pub mod StorageReader
pub mod Storages
pub mod SyncThread
pub mod ConfigurationReader
pub mod ServerConnection
pub mod CommandParser
pub mod CliController
pub mod RendererClient
pub mod ViewerClient
pub mod PackageFactories
pub mod Framing
pub mod AbstractHost
pub mod Server
pub mod Job
pub mod JobManager
pub mod DisplayManager
pub mod HostsManager
pub mod HostLifecycle
pub mod IpcListener
pub mod ConfigurationManager
pub mod Replies
pub mod ViewerHost
pub mod RendererHost
pub mod ControllerHost
pub mod ClientHosts
pub mod ServerController
pub mod CommandTable
pub mod ManagerJobs
pub mod StatusChanges
pub mod PackageRouter
pub mod Dispatch
pub mod DecisionMaker
pub mod Tests
