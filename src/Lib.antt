-- ===== src/Lib.antt =====
-- auto_drop: the program that loads vehicles from a silo by itself. Drivers, each a process, switch
-- the gate, the lights and the chute (LC) and read the scale and the lidar; a state machine, each a
-- process too, runs Lua code from a configuration file and calls the drivers; the configuration
-- daemon starts and supervises these processes; the command line edits the configuration. All talk
-- through thrift over a transport of their own, on an event loop of coroutines.
--
-- Which file models which part:
-- - Driver/Common.antt: src/driver/lib/common_driver.{h,cpp}. The record CommonDriver has the
--   fields of the class; doubles are an abstract type, `int` is an unbounded integer,
--   and the virtual methods are the record Methods. Division by zero is `none`.
-- - Driver/Tastek.antt: src/driver/tastek/main.cpp, over the parameter Modbus (libmodbus and the
--   device).
-- - Core/Daemons.antt: src/core/rpc_imp_lib/config_rpc.{h,cpp}, with registerNode and unregisterNode
--   of src/public/event_sc/ad_event_sc.cpp. The kernel's answers are the parameter Kernel. The
--   operations that yield (stop_device, wait_stop_daemon, handleEvent) are also given as their
--   parts before and after the yield, so that other calls can come between. `programs` records what
--   each new process executes; the order in which an unordered_map is walked is the argument `walk`.
-- - Rpc/Transport.antt: AD_RPC_TRANSPORT of src/rpc/ad_rpc.h. A chunk is what one read below returns.
--   The loop of read_more takes fuel: one more than the number of frames is enough.
-- - Sm.antt: src/sm/lib/sm.{h,cpp}. The interpreter is the parameter `run`. The recursion of trigger
--   takes fuel: one more than the number of states that follow is enough.
-- - Events/Mutex.antt: AD_CO_MUTEX of src/public/event_sc/ad_event_sc.{h,cpp}, with the steps of the
--   coroutines as a relation.
-- - Cli/SmConfig.antt: src/cli/sm_config.cpp. Its trees are those that Sm.antt reads. Between two
--   commands stands the file of src/cli/common_cli.cpp: yaml-cpp is the parameter `stored`, which
--   says how a code comes back from it.
-- - Rpc/Remote.antt: the calls of src/rpc/ad_rpc.cpp that find a device by its name.
-- - Cli/DeviceConfig.antt: src/cli/device_config.cpp. Cli/RuntimeConfig.antt: src/cli/runtime_config.cpp,
--   with the log that open_log follows (Cli/RuntimeConfig/Follow.antt), less `list` and `mock`.
-- - Driver/Mock.antt: src/driver/mock_driver.cpp. Driver/Modbus.antt: src/driver/lib/modbus_driver.{h,cpp},
--   one round of whose thread, under the lock, is one step.
-- - Driver/Rd.antt: the lidar driver, src/driver/rd_driver. Rd/SgFilter.antt is pg.h with every access
--   of a vector checked (`none` is an index out of range), Rd/Offsets.antt is lp_filter.h and the
--   filters of the offset, Rd/Cloud.antt and Rd/Position.antt are what pc_opt.cpp computes from one
--   point cloud, and Rd/Detect.antt is what it keeps between frames, process_msg and the timer. Float
--   and double are one abstract type (the narrowing to float is left aside) with the instructions as
--   the record FloatOps; the point cloud library, Eigen and std::sort are the record Pcl, the values
--   of the ini file the record Ini. An order of the polynomial below 0 is left aside. A frame and a
--   tick are single steps, since each
--   takes the lock where it uses the result.
-- - Cli/RuntimeConfig/Restart.antt: restart of runtime_config.cpp, run on the model of the
--   configuration daemon; the RPCs arrive, and the parsed configuration file is an argument.
-- - Utils/Split.antt: the splitting of a text and the lines of a log entry, src/public/utils/ad_utils.
--   The loop takes fuel: one more than the length of the text is enough.
-- - Events/Timer.antt: what startTimer, yield_by_timer and start_timer_ms set a timer to;
--   timerfd_settime is a parameter with its documented behaviour.
-- - Events/Redis.antt: the subscriber of src/public/event_sc/ad_redis.{h,cpp}, with
--   create_redis_event_node of src/core/action/ad_action.cpp and restart_redis_subscriber of
--   config_rpc.cpp; hiredis is outside, a connection is the descriptor it gives or a failure.
-- - Events/RedisHelper.antt: AD_REDIS_HELPER of the same files; what hiredis answers to a call is the
--   argument Net.
-- - Cli/Session.antt: src/cli/main.cpp with common_cli.h: the menus, `save`, `clear` and a session
--   that runs a file of commands. The library of the command line (cli.h and cli/detail) is the
--   record Library, its documented behaviour the record Documented (a command without parameters
--   stands alone on its line); Cli/Words.antt states how it
--   splits a line. The parts of make_bdr stand beside their menus (Cli/SmConfig/Bdr.antt for the
--   states); a text that is appended with a newline at its end is an element of a list of lines.
-- - Cli/RedisConfig.antt: src/cli/redis_config.cpp, with std::stoi and std::to_string.
-- - Core/Daemons/Runs.antt: sequences of the calls of the configuration daemon.
-- - Events/Wait.antt: yield_by_fd, its node and its time limit, and non_block_system.
-- - Core/Runner.antt: the map of devices of src/core/rpc_imp_lib/runner.h and its RPCs in sm_rpc.cpp.
-- - Events/Loop.antt: the coroutines in AD_EVENT_SC::runEventLoop. What a coroutine does when it is
--   resumed is a parameter; the inner loop takes fuel, one more than the rounds until none is ready.
-- Each part has its proofs in the modules below it and its runs on concrete inputs in a module
-- Examples. Prelude holds the shared helpers: lists, texts as lists of bytes, maps as association
-- lists, integers, decimal numbers,
-- and code that may fault, with its counting loop (Loops).
--
-- Not modelled: the point cloud library and the lidar's SDK with its queues, the log file, sockets and
-- epoll themselves, the generated RPC code, the JSON of the state that is published, and the copies
-- of other projects' libraries.
pub mod Prelude
pub mod Driver
pub mod Core
pub mod Rpc
pub mod Sm
pub mod Events
pub mod Cli
pub mod Utils
