-- ===== src/Lib.antt =====
-- chassis_host: the host program of a wheeled robot. A single event loop joins TCP clients (text
-- commands in, JSON out) to the chassis board on a serial port (binary frames both ways).
--
-- Parts that are modelled, with the file of the repository and the modules here:
-- * proto/FrameDefs.h, proto/FrameCodec.h, proto/FrameCodec.cc: `Proto`. `Proto.Defs` has the
--   constants and typeName, `Proto.Crc` crc16Modbus, `Proto.Bytes` the little-endian helpers,
--   `Proto.Frame` packFrame, `Proto.Parser` the class FrameParser, `Proto.Telemetry` the parsers of
--   telemetry payloads, `Proto.Command` unpackCon, parsePing and the packers of payloads.
-- * link/ConSm.h, link/ConSm.cc: `Link`. `Link.ConSm` has the fields, the transition table sm and
--   process with flush, `Link.ConSm.Api` the public operations connect, disconnect, reset, onFrame
--   and tick.
-- * serial/SerialPort.h, serial/SerialPort.cc: `Serial`, for openDevice, send with sendInLoop,
--   handleRead, handleWrite and closeInLoop, as the loop's thread runs them. A state callback comes
--   last in each, so it is returned as a `Notice`.
-- * app/ChassisHost.h, app/ChassisHost.cc: `App`. `App.Defs` has the fields, in groups (`Tcp`,
--   `Radio`, `Motion`, `Cache`, `Ping`, `Watch`, `OtaTask`); `App.Output` the sends,
--   sendFrameToBoard, otaFinish and onCommState; `App.Ota` otaBeginFlasher, otaOnChildLine and
--   otaOnChildExit; `App.Lines` onMessage, handleLine and splitTokens on bytes; `App.Commands` and
--   `App.Dispatch` the commands and handleCommand; `App.Events` onConnection and onFrame,
--   `App.Timers` the timers; `App.Step` the events that the loop delivers, as one machine. The field
--   conSm_ stands beside the rest of the host, which is the environment of its two callbacks.
-- * ota/OtaFlasher.h, ota/OtaFlasher.cc: `Ota`. `Ota.Lines` has the loop of onReadable that cuts
--   lines, `Ota.Child` the child process from start to finish as a machine whose queued and delayed
--   callbacks may run in any order, `Ota.Status` the reading of a status. `App` knows the child by
--   the interface in `Platform` and takes the same lines and exits as events.
-- * log/LogStream.h, log/LogStream.cc: `Log.Buffer`, `Log.Convert` and `Log.Stream`, for
--   FixedBuffer, convert and each operator<<. log/FileUtil.h, log/FileUtil.cc: `Log.File`.
--   log/LogFile.h, log/LogFile.cc: `Log.LogFile`, with the file names in `Log.LogFile.Name`.
--   log/AsyncLogging.h, log/AsyncLogging.cc: `Log.Async`, one step for each part under the mutex and
--   each part of a round outside it; it uses its file through the interface `Sink`, which
--   `Log.Async.FileSink` fills with `Log.LogFile`. log/Logger.h, log/Logger.cc: `Log.Logger` for the
--   line that a statement writes, `Log.Level` for levelFromString.
-- * app/main.cc, the function main: `Main`, from the options that getopt_long finds to the start of the loop.
-- `Common` has what they share. The children of each module hold proofs and are named for what they
-- prove; `Proto.Tests`, `Link.Tests`, `Serial.Tests`, `Ota.Tests`, `Log.Tests`, `Main.Tests`,
-- `App.Lines.Tests` and `App.Step.Tests` hold runs on concrete inputs.
--
-- How the code is read. A byte or a word is a natural number, and every cast or wrap is written out
-- (`u8`, `u16`, `u32`, `u64`); `&`, `|` and `^` are the bit operations on numbers. A std::vector is
-- a list. A function with an out parameter returns its Boolean and that parameter. A method returns
-- the new object. One turn of the `for (;;)` of FrameParser::feed is `turn`; the loop runs on fuel,
-- one more than the bytes in the buffer, which is enough since every turn that goes on erases at
-- least two bytes, and fuel that runs out would be `none`. `process` of ConSm calls itself for a
-- follow-up event; fuel 2 is enough since a follow-up has none of its own. `write_digits` of convert
-- has fuel 20, which is enough below 2 ^ 64; `turn_round` has as much as there are digits, and the
-- loop of AppendFile::append one more than there are bytes. `message_loop` of onMessage has one more
-- than there are bytes in the buffer, and each turn that goes on takes one away. A null pointer that
-- is used, a wrong `back()` or a write to a file that is not open is `none`. Of muduo's
-- Buffer the bytes are kept, and findEOL is the place of the first '\n'. The send function and
-- the communication callback of ConSm are a parameter (`Callbacks`) over an environment of any type.
-- Clock readings are arguments, and a handler of the host reads one time, the field `clock`. A
-- connection is a number; what is sent to a client is a value of `Msg` with the values that the
-- source prints, in place of its text. The machine of `App.Step` takes a client's commands as
-- tokens, that of `App.Step.Bytes` takes bytes (`App.Step.Reads` for the serial line). System calls, strtod, access, muduo's connections
-- and the child process are the parameter `Platform`. The list `sent` of frames handed to the serial
-- port is kept by the model alone.
--
-- Floats: putF32 and getF32 copy the 32-bit pattern, and the model does so too; conversion,
-- division, multiplication, comparison and lround are the parameter `Float32`, of which the lossless
-- copy is assumed and, for the speeds of packCmdVel, that the upper limit is not less than the lower
-- one.
--
-- Not modelled: the log statements of the other parts, the texts that localtime and strerror make,
-- the set-up of a spawned process, the set-up of the serial line, signals, the start of the timers, and
-- the mock board and the tests, which are not part of the program.
pub mod Common
pub mod Proto
pub mod Link
pub mod Serial
pub mod App
pub mod Ota
pub mod Log
pub mod Main
