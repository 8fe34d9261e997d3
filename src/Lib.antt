-- ===== src/Lib.antt =====
-- Verification of diskforge, which writes a verified disk image to a whole block device.
--
-- The program: the engine (diskforge.go) tests a request and hands it to the guarded sequence
-- (internal/linux/execute.go). That sequence asks a boundary to inspect the target, to verify the
-- image, to compare the confirmation token, in live mode to prepare the host, to open the target, to
-- write and to flush. The safety policy (internal/policy) decides an inspection and makes the token;
-- internal/image verifies a source, streams it, and stages a download; internal/naming names release
-- archives. internal/linux/system.go is the boundary of the running host, over what
-- internal/linux/observer.go reads of procfs and sysfs.
--
-- The files:
--   Base, Go           shared lemmas, and what the program uses of Go's strings, path/filepath,
--                      encoding/hex, slices and strconv, `strings.Fields` among them
--   Errors             errors as values: `errors.Is`, `errors.As`, internal/policy/model.go's gates
--   Digest             the test of a SHA-256 digest that three packages spell out
--   Naming             internal/naming/naming.go
--   Policy/Model       internal/policy/model.go
--   Policy/Confirmation  internal/policy/confirmation.go: `ConfirmationToken`
--   Policy/Inspect     internal/policy/inspect.go: `Inspect`, `inspectMode`, `intersects`
--   Image/Model        the data of internal/image
--   Image/Streams      readers, writers and `io.CopyBuffer` as internal/image/write.go uses them
--   Image/Write        internal/image/write.go: `Write`
--   Image/Verify       internal/image/verified.go: `Verify`
--   Image/Closing      internal/image/verified.go: `Close`
--   Image/Stage        internal/image/stage.go: `Stage`
--   Linux/Files        what internal/linux asks of package os
--   Linux/Procfs, Sysfs, Devices, Observer, Root
--                      internal/linux/observer.go: the parsers; the walk over related devices; the
--                      target and device numbers; mounts, swap areas and sources; the root disk
--   Linux/Controls, OpenedTarget, System, Machine
--                      internal/linux/system.go: the calls that change the kernel's state; `OpenTarget`;
--                      `Inspect`; and `System` as a boundary of `Execute`
--   Linux/Boundary     the interfaces of internal/linux/execute.go
--   Linux/Execute      internal/linux/execute.go: `Prepare`, `Execute`
--   Engine/Types       types.go and errors.go
--   Engine/Requests    the validations and conversions of diskforge.go
--   Engine             diskforge.go: `New`, `Inspect`, `Write`, `ConfirmationToken`, `publicError`
--   Engine/Staging     diskforge.go: `Stage` and `StagedImage.Close`
--   Tests              runs at concrete data
--
-- How the model reads the code: a string is the list of its bytes. An int64 is an integer; where it
-- is only compared and copied its bounds play no part, and counts of bytes are natural numbers below
-- an int64 bound. A Go map is the list of its entries in the order of one iteration. A formatted text
-- is kept as its format and arguments, and an error keeps what it wraps; texts of errors are not
-- rendered. A result that carries an error carries no value. `if err != nil { return }` is the bind
-- of a do block.
--
-- Parameters: SHA-256 is any function on byte lists (`IsHash`, where a proof needs it, says that it
-- gives 32 bytes). The zstd decoder is any function from a reader to a reader or an error.
-- `url.ParseRequestURI` is any function from a text to a URL or none. A boundary's answer may depend
-- on every call made before it, so that a theorem about a run holds whatever the host does between
-- two calls. What an opened file answers to `Stat`, `Seek` and `Read` is given with it: two readings
-- of one file may differ. A context is what its `Err` gives each time that it is asked; where a call
-- only passes it on it is left out, and so is the progress callback.
--
-- The files of the host are given as functions of their paths, at one moment for each call of the
-- boundary: `Machine` gives them, and what the system calls answer, behind every trace of calls, and the
-- wait for read-only mounts gets them at each of its polls. An HTTP client, a temporary file and the
-- calls of package os that `Stage` makes are records of functions.
--
-- Fuel: `walkRelated` alone recurses on no list. It runs on a depth of two more than the number of names
-- in the tree, and a walk that sees no name twice cannot be deeper; a case of its own stands for too
-- little fuel. Every other loop is a recursion on the list or the number of attempts that the code
-- walks. A reader is the finite list of pieces that its reads give, each no longer than the buffer of
-- the call.
--
-- Not modelled: the command line of cmd/diskforge; internal/version, which holds variables set at link
-- time. Mutexes are left out, as each run is one call, and so are closes whose error is dropped and
-- that no property is about: those of files that were only read, and of a control file whose write
-- failed.
pub mod Base
pub mod Go
pub mod Digest
pub mod Errors
pub mod Naming
pub mod Policy
pub mod Image
pub mod Linux
pub mod Engine
mod Tests
