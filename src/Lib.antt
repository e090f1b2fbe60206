-- ===== src/Lib.antt =====
-- The MCX server: a C++ core that takes events of a game server and answers with actions.
--
-- The program's parts and how they interact. The server object (src/core/server.cpp) owns the scene
-- manager, the player registry, the scheduler, the metrics, the permissions and the module loader.
-- HandleEvent counts an event, keeps the registry of players, asks the script runtime for actions, and
-- hands the event to every loaded module, which may add actions. The action applier carries the actions
-- out: it loads scenes and logs the others. Each frame the scheduler runs the tasks that are due.
-- Beside it stand the managers (economy, bans, kits, chat filter, teleports, statistics), each with
-- maps of its own, the wire formats (the binary protocol, the packet serializer, RCON and WebSocket
-- frames), the HTTP client with its worker, the listening servers, the console with its command parser
-- and command registry, the update check, the pool of asynchronous workers, the thread that runs timed
-- tasks, the backups, and the setup wizard with the loader of the configuration. The main program
-- (src/main.cpp) starts a demo, in which events go through the server and the applier, or the wizard.
-- Two launchers with a window are programs of their own: the one with Qt starts the main program as a
-- process and keeps its settings, the one with ImGui only plays the part of a server in a thread.
--
-- Which file models which part; a function keeps its name, in snake_case:
--   Prelude, Maps        shared helpers; std::map and std::unordered_map as association lists
--   Wire/Protocol        src/core/protocol.cpp, include/mcx/protocol.hpp
--   Wire/Serializer      src/core/packet_serializer.cpp
--   Wire/Rcon            src/core/rcon.cpp, the packets of the client
--   Wire/WebSocket       src/core/websocket_server.cpp, DecodeFrame and EncodeFrame; in its child Clients
--                        AcceptLoop, PerformHandshake and HandleClient
--   Wire/Http            src/core/http_client.cpp, PerformRequest; in its child Worker the queue
--   Sockets              Start and Stop of src/core/websocket_server.cpp and src/core/rcon.cpp; in its
--                        child Client Connect, Disconnect and AcceptLoop of src/core/rcon.cpp, in Paper
--                        src/integration/paper_bridge.cpp, in Network src/integration/network_bridge.cpp
--   Managers/Economy     src/core/economy_manager.cpp
--   Managers/Bans        src/core/ban_manager.cpp
--   Managers/Kits        src/core/kit_manager.cpp
--   Managers/Chat        src/core/chat_filter.cpp
--   Managers/Teleports   src/core/teleport_manager.cpp
--   Managers/Stats       src/core/stats_manager.cpp
--   Log, Events          src/core/log.cpp, file_logger.cpp, event_utils.cpp, include/mcx/events.hpp, actions.hpp
--   Server/Scenes        src/core/scene_manager.cpp, action_applier.cpp, action_utils.cpp
--   Server/Players       src/core/player_registry.cpp, permissions.cpp
--   Server/Loader        src/core/module_loader.cpp, include/mcx/imodule.hpp
--   Server/Tasks         src/core/scheduler.cpp
--   Server/Core          src/core/server.cpp, the two script runtimes, config_validator.cpp
--   Server/Loop          Run, MainLoop, Update and LoadModules of src/core/server.cpp
--   Server/Demo          RunDemo and RunSetup of src/main.cpp, src/integration/fake_event_source.cpp
--   Server/Main          main of src/main.cpp
--   Server/Entities      src/core/entity_manager.cpp
--   Server/Bus           src/core/event_bus.cpp
--   Server/Lua           src/core/lua_runtime.cpp
--   Server/Worlds        src/core/world_manager.cpp
--   Server/Signals       src/core/signal_handler.cpp
--   Commands/Parser      src/core/command_parser.cpp
--   Commands/Registry    src/core/command_registry.cpp, and the loop of src/core/console.cpp
--   Commands/Console     the thread of src/core/console.cpp
--   Updates              src/core/update_checker.cpp; in its child Notices also CheckForUpdates of
--                        src/main.cpp
--   Setup/Address        ValidateIp of src/core/setup_wizard.cpp
--   Setup/Wizard         the rest of src/core/setup_wizard.cpp
--   Setup/Config         src/core/config_loader.cpp
--   Setup/Watcher        src/core/config_watcher.cpp
--   Threads/Async        src/core/async_worker.cpp; in its child Pool the workers under any schedule
--   Threads/Timed        src/core/thread_scheduler.cpp, as a step relation
--   Backups              src/core/backup_manager.cpp; in its child Thread the thread
--   Launchers/Imgui      src/launcher_imgui/mcx_imgui_launcher.cpp and .hpp; its children Config (the file),
--                        Console, System (the threads), Ui (the controls) and Lifetime
--   Launchers/Qt         src/launcher/mcx_launcher.cpp and .hpp; its children Settings, Window (the
--                        handlers), Events and Menu
--   Tests                the theorems at concrete inputs
-- The children of a module hold what is proved of it.
--
-- The state of a class is a record, or the map alone where the class has one field. A method is a
-- function from the arguments and the state to its result and the new state. A std::string is the
-- list of its bytes. Time is an argument. A double is its 64-bit pattern, or a value of a parameter
-- type. The order of an association list stands for the order of an iteration. What the source leaves
-- undefined (an overflow of int64_t, an access past the end) is a result of its own. Log lines are
-- values where scenes, players and commands log them, and are left out elsewhere. Mutexes are left out
-- where a class has no thread of its own. The worker pool runs under a list of turns, one turn being
-- what a thread does between two accesses to shared members; the thread of timed tasks and the threads
-- that call it are a step relation, in which a wait may return without a notification. The launchers,
-- the console, the backups and NetworkBridge run under lists of turns or events too, in which the user,
-- the threads, the process and the timers come in any order; AppendConsole of the ImGui launcher, which
-- takes no lock, is a single turn there, and its accesses one by one are in Launchers/Imgui/Interleaved.
--
-- Bounds and fuel. The economy tests the range of int64_t at each sum; the counters of the metrics
-- wrap at 2^64; the statistics and the times of bans and kits are unbounded integers. The loop of
-- the command parser has the length of the input as fuel, and so has the loop over the assets of a
-- release; each turn takes at least one byte. The wizard's loops take one unit of fuel for each line of
-- the input, and two more are enough, since each line behind the end is the default. The loop that
-- starts the workers has fuel, and a result of its own where that runs out. Ports modulo 2^16, client
-- numbers modulo 2^32 and the gauge of the workers modulo 2^64 are written out.
--
-- Parameters. std::regex, std::sort, the text of a double, the dynamic linker with the code of the
-- modules, tasks, handlers, the JSON library, std::filesystem::copy, the growth of a vector, the calls of
-- the network, the bytes that a socket delivers, the C interface of Lua, QSettings, and the answers of
-- QProcess, GLFW and inotify, std::filesystem::remove_all, the disk of the wizard, and the top of a
-- std::priority_queue are arguments of the definitions; what is asked of them stands in the
-- hypotheses of the theorems or in the laws of an interface.
--
-- Not modelled: the calls of sockets, threads and files themselves, which are parameters or steps; the
-- callbacks that nothing calls; what is printed on the console beside log lines; what the launchers draw;
-- the code for Windows; the launcher in Rust, another program, and the copy of the JSON library.
pub mod Prelude
pub mod Maps
pub mod Wire
pub mod Sockets
pub mod Managers
pub mod Log
pub mod Events
pub mod Server
pub mod Commands
pub mod Updates
pub mod Setup
pub mod Threads
pub mod Backups
pub mod Launchers
pub mod Tests
