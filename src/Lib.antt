-- ===== src/Lib.antt =====
-- A model of the LDC1614 driver: an inductance-to-digital converter behind an I2C bus, driven without
-- blocking by an application that lends its own transport callbacks.
--
-- The program. `src/LDC1614.cpp` with `include/LDC1614/` is one class. `bind` checks a profile and
-- keeps it; `startInitialize`, `startApplyConfig`, `startResetAndReapply` and `startAcquire` admit one
-- job at a time; `poll` drives the job by at most as many register transfers as it is allowed before
-- the job's deadline; a job that ends leaves one result in a queue of two, which `takeResult` empties.
-- `sleep`, `wake`, `readDeviceStatus`, `readDataReady` and the raw register access make one transfer at
-- once, and only between jobs. The driver keeps a state of trust in the configuration of the device,
-- which every write may confirm or lose.
--
-- The model, file by file (a child module stands in the folder of its parent):
--   Base                  helpers: Boolean tests, unsigned widths, bits of a number
--   Status, Config, Types the types of include/LDC1614/Status.h, Config.h and LDC1614.h
--   Cmd                   include/LDC1614/CommandTable.h
--   Four                  the arrays of one entry for each channel
--   Registers, Profile    register predicates, channel masks, the encoders and `configWriteAt`
--   Decode                STATUS and DATA decoders, drive-current codes
--   Clock, Validate       reference-clock arithmetic in uint64_t and `validateConfig`
--   Timing                `estimateFrameTiming`
--   Driver, Bus           the members of the class, and the two transfers over the callbacks
--   Batch                 `_buildAcquisition`
--   Jobs, Lifecycle       admission, `_finishJob`, `cancelJob`, `takeResult`; `bind`, `end`, updates
--   Round                 one iteration of the loops of `_pollInitializeOrApply` and `_pollAcquire`
--   Poll                  `poll` and its loops
--   Direct                the operations that make at most one transfer
--   Api                   every public operation as a step, a client as a list of steps
--   Invariant             what holds of the driver between calls
--   Liveness              the end and the success of a job
--   Esp32                 examples/esp32/I2cMasterTransport.cpp over ESP-IDF
--   Cli                   examples/common/Ldc1614Cli.h and .cpp: lines, commands, jobs and sessions
--   Trust                 what the applied-configuration state promises of the device
--   Tests                 runs and instances at a concrete profile
--
-- The diagnostic command line under `examples/common` is a client of the driver: it parses a line into
-- a command, and lets a job or a session of many small steps run behind it.
--
-- The transport under `examples/esp32` is one implementation of the callbacks: a context of handles
-- that ESP-IDF has given out for one bus, the device, and a device of the probe.
--
-- Conventions. A call takes the driver and the world and returns them with its status. The
-- callbacks and the device behind them are the parameter `Bus W`; nothing is assumed of them but
-- where a theorem's hypothesis says so (`Charges` for time and counts, `IsFaithful` for register
-- contents, `Answers` for a device that answers). ESP-IDF under the transport is the parameter `Idf
-- W`, of which `Carries`, `Accounts` and `Clocks` say what is assumed. A function or user pointer
-- is a number, 0 for nullptr. An unsigned operation wraps where the C++ type does (`u8`, `u16`,
-- `u32`, `u64`); a static message of a status is left out.
--
-- Loops and fuel. The loop of a state machine recurs on the transfers that remain, since a round that
-- goes on uses one. The outer loop of `poll` has its transfers and one more as fuel, where each
-- run of a state machine ends the job or uses up the transfers. The loops over channels, bits and
-- registers have their constant bounds.
--
-- The command line keeps one pending operation and one session over the driver. Of what it prints, the
-- reports at the end of a session are modelled, as a list; `strtoull` is written out as the C library
-- documents it, for the bases 10 and 16 and the texts that reach it.
--
-- Not modelled: `calculateSensorFrequencyHz` and the statistics of frequencies, which compute in
-- double; of the command line, the handlers of the single commands, the mixed, discovery and
-- self-test sessions, the results of their jobs, and `service`; its copy under examples/esp_idf;
-- the applications under examples, the tests and the tools of the repository.
pub mod Api
pub mod Base
pub mod Batch
pub mod Bus
pub mod Cli
pub mod Clock
pub mod Cmd
pub mod Config
pub mod Decode
pub mod Direct
pub mod Driver
pub mod Esp32
pub mod Four
pub mod Invariant
pub mod Jobs
pub mod Lifecycle
pub mod Liveness
pub mod Poll
pub mod Profile
pub mod Registers
pub mod Round
pub mod Status
pub mod Tests
pub mod Timing
pub mod Trust
pub mod Types
pub mod Validate
