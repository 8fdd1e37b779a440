-- ===== src/Lib.antt =====
-- A model of the uscope driver, the server that runs next to an FPGA with fCore processors.
--
-- The server receives commands, and its endpoints call managers that write registers of the FPGA. The
-- parts modelled here:
--
-- - Bus: the two memory-mapped buses and the log of their operations, bus_accessor of
--   includes/hw_interface/bus/bus_accessor.hpp and src/hw_interface/bus/bus_accessor.cpp. In sink mode
--   an operation is only logged, which is how a deployment is simulated.
-- - Bridge: fpga_bridge of includes/hw_interface/fpga_bridge.hpp and src/hw_interface/fpga_bridge.cpp,
--   which holds back register accesses until a bitstream is loaded.
-- - Metadata: includes/hw_interface/channel_metadata.hpp, the description of a scope channel.
-- - BusMap: hil_bus_map of includes/deployment/hil_bus_map.hpp and src/deployment/hil_bus_map.cpp, the
--   slots of the interconnect between the cores.
-- - Deployer: deployer_base of includes/deployment/deployer_base.hpp and
--   src/deployment/deployer_base.cpp. Its children are Outputs (the output DMA of a core), Memories
--   (initial states) and Inputs (constants, random numbers and waveforms). Layout holds the address
--   map, and Floats the conversions of includes/deployment/deployment_utilities.hpp.
-- - Hil: hil_deployer of includes/deployment/hil_deployer.hpp and src/deployment/hil_deployer.cpp. Its
--   children are Reciprocal (the scan of a program), Timebase (frequencies, dividers and shifts),
--   Sequencer, InitialValues, Wiring (inputs, outputs, start and stop) and Deploy (the whole).
-- - Custom: custom_deployer of includes/deployment/custom_deployer.hpp and
--   src/deployment/custom_deployer.cpp, the deployer of other logic.
-- - Scope: scope_manager of includes/hw_interface/scope_manager.hpp and
--   src/hw_interface/scope_manager.cpp. Its children are Samples (captured data) and Acquisition.
-- - Timing: timing_manager of includes/hw_interface/timing_manager.hpp and
--   src/hw_interface/timing_manager.cpp.
-- - Response: includes/server_frontend/infrastructure/response.hpp.
-- - Emulator: hil_emulator of includes/deployment/hil_emulator.hpp and src/deployment/hil_emulator.cpp.
-- - Frontend: the commands. Its children ControlEndpoints, ScopeEndpoints, CoresEndpoints,
--   DebugEndpoint and PlatformEndpoints are the handlers of src/server_frontend/endpoints, and
--   CommandProcessor is the dispatcher of src/server_frontend/infrastructure/command_processor.cpp with
--   the sets of includes/server_frontend/infrastructure/command.hpp. Replies and Caught are
--   about them all.
-- - Interfaces: the paths of the kernel's files, includes/hw_interface/interfaces_dictionary.hpp. Startup:
--   the start of the driver, src/uscope_driver.cpp, up to the files that it opens.
-- - MockModule: the kernel module that stands in for the FPGA's, mock_module/mock_module.c. Its children
--   are Lifecycle (loading and unloading) and Calls (sequences of system calls).
-- - ScopeAccessor: the words of the sample file, src/hw_interface/bus/scope_accessor.cpp. Its child
--   Mocked puts it on the kernel module, FailedRead on the scope.
-- - DataGenerator: recorded or made-up samples, src/emulated_data_generator.cpp.
-- - Standalone: the program of src/hil_depoyer_standalone.cpp that deploys a file.
-- - Connector: the messages of src/server_frontend/infrastructure/server_connector.cpp, and Server the
--   loop of start_server over the commands of a client.
--
-- A method is a function from its arguments and its object's state to a result and the state after it
-- (Exec). Exceptions, calls of exit and undefined accesses are errors of that result, with the state
-- that they leave. Every bridge and every deployer has the bus it works on as a part of its state.
-- Integers are natural numbers with the wrap-around of their C++ type written out; in Prelude, u8 to
-- u64 cut a number to its width. A float is its bit pattern, and the floating-point operations are a
-- parameter. Maps are association lists (Prelude.Dict) and vectors are lists.
--
-- The fCore toolchain, the JSON library, the kernel's files and the sort are not in the repository:
-- what they answer is an argument. The loop that raises the divider of the time base runs on fuel,
-- since it need not end for every floating-point arithmetic. The search for a free bus address runs
-- once for each address of 16 bits, as in the code.
--
-- The JSON library is the record Json.JsonLibrary of its operations, and World gathers all that the
-- handlers learn from outside. In the connector the socket is a list of arrivals, and the loops run on
-- a fuel, for which a number above that of the bytes and the failures is enough, since each read takes
-- one at least.
--
-- In MockModule a copy between a process and the kernel is a function that says how many bytes were
-- left out and which arrived, and the answers of the kernel's registrations are a record. The class of
-- the devices and their nodes are taken to be created. An exception of the path getters has a type of
-- its own, which the bridge turns into an error of Exec when it sets a clock.
--
-- Not modelled: logging, with the texts of arguments that only a debugger would read, mutexes and
-- pauses, which leave this state alone; the accepting of a connection; the schemas, which are data for
-- the validator; signal handlers and the parsing of options.
mod Prelude
pub mod Exec
pub mod Response
pub mod Decimal
pub mod Bus
pub mod BusMap
pub mod Bridge
pub mod Metadata
pub mod Floats
pub mod Layout
pub mod Deployer
pub mod Hil
pub mod Json
pub mod Emulator
pub mod Frontend
pub mod Connector
pub mod Server
pub mod Custom
pub mod Scope
pub mod Timing
pub mod MockModule
pub mod Interfaces
pub mod ScopeAccessor
pub mod Startup
pub mod Standalone
pub mod DataGenerator
mod Tests
