-- ===== src/Lib.antt =====
-- tnvme, the NVMe compliance test suite: the framework that selects, runs and reports tests, and
-- the command objects that tests send to the device.
--
-- The parts and how they interact. tnvme.cpp parses the command line, builds the groups of tests
-- (one subclass of Group for each directory Grp...) and calls ExecuteTests. That asks each group
-- for the set of tests that a target needs (Group::GetTestSet) and then calls Group::RunTest on it
-- until nothing is left; RunTest runs one Test object, decides by its result which tests behind it
-- are skipped, and restores the state of the device. A Test builds commands (Cmds/), whose fields
-- the framework packs into DWORDs, and sends them by queues.
--
-- Base holds what the parts share: native numbers and their Boolean tests, the result of code that
-- throws (Base/Results), lists with native indices (Base/Lists), and the binary digits of numbers
-- (Base/Bits).
--
-- Suite is the framework. Suite/Ref is testRef.cpp, Suite/Results testResults.cpp, Suite/Test the
-- parts of test.cpp that run a test, Suite/Group the matrix of tests and the selection of a test
-- set in group.cpp, Suite/Advance the dependencies between the tests of a set, Suite/Run
-- Group::RunTest and Suite/Execute ExecuteTests of tnvme.cpp. The `int64_t` index of a test set is
-- an option whose `none` is -1. The objects of the test classes, the device, the registers and the
-- file system are the record TestEnv of functions on a state of the device; the virtual SaveState
-- and RestoreState of a group, and what ExecuteTests asks of other parts (VerifySpecCompatibility,
-- CtrlrConfig::SetState), are fields of RunConfig and ExecConfig. The in-out parameters of a
-- function are fields of the state that it takes and returns.
--
-- Cmds is the command objects. Cmds/Cmd is Cmds/cmd.cpp with Cmds/Field for the arithmetic of
-- SetBits and GetBits, Cmds/Read and Cmds/Write are Cmds/read.cpp and Cmds/write.cpp, and
-- Cmds/SetFeatures is Cmds/setFeatures.cpp with Cmds/baseFeatures.cpp. A command is the list of
-- its DWORDs and a data direction. Cmds/Writes says what it means that a setter writes one field
-- and nothing else, Cmds/Update is about a field inside a byte or a word that is read, masked and
-- written back, and Cmds/Fields about what getters return. The identify data that
-- SetPowerManagementPS reads (NPSS) is an argument.
--
-- Meta is Singletons/metaRsrc.cpp, the metadata buffers. A buffer is its address, size and
-- identifier; the calls of the kernel driver are the record Kernel of functions on its state.
-- Meta/Invariant says when the lists of reserved and released buffers are well formed,
-- Meta/Reserve, Meta/Release, Meta/Free and Meta/Freed are about the operations. FreeAllMetaBuf has as many
-- rounds as there are reserved buffers, since each round releases one that is not mapped at NULL.
--
-- Control is the controller's registers. Control/Registers is Singletons/registers.cpp with the
-- tables of Singletons/regDefs.h in Control/Registers/Tables; an index of a table is the value of
-- its enumeration, and the calls of the driver are the record Ioctl, whose buffer of 8 bytes is a
-- number. Control/Registers/Discover is the traversal of the capabilities. Control/Config is the
-- fields of CC and the interrupts of Singletons/ctrlrConfig.cpp, Control/State its states, with
-- the Subject of subject.h, whose observers are functions on their state; Control/Cap is
-- Singletons/ctrlrCap.cpp. Control/Merge is about a field that is masked out of a register and
-- written over. Where the code leaves a variable uninitialised, its contents are an argument
-- (`tmp`).
--
-- Resources is Singletons/objRsrc.cpp and Singletons/rsrcMngr.cpp: the map of names is a list of
-- pairs, and the resource manager is put together from it and from Meta. As an observer of the
-- controller it has a driver state of its own. Where the code has no defined behaviour the flag
-- `defined` is false, and so it is where the destructor of a queue throws, since that ends the
-- program.
--
-- Exceptions. Every constructor of FrmwkEx (Exception/frmwkEx.cpp, DumpStateOfTheSystem) calls
-- SetState(ST_DISABLE_COMPLETELY), which disables the controller and, if that succeeds, has the
-- resource manager free all objects and all metadata; with --postfail it calls SetState(ST_DISABLE),
-- and while another exception is alive it does nothing. If SetState returns false the constructor
-- throws in its turn, which is still a FrmwkEx.
-- Meta/frmwk_ex is what this does to the metadata, Resources/ex_update to all resources, and the
-- field `frmwk_ex` of QueueIoctl to the device of a queue. The other parts do not contain these
-- resources: there an exception is its value alone, and the theorems are about the object.
--
-- Data is Singletons/memBuffer.cpp, with memory as a list of bytes and the heap as the record
-- Heap; a write past the end of memory has no result (`none`).
--
-- Queues is the setup of Queues/queue.cpp, Queues/cq.cpp and Queues/sq.cpp (Queues/Create and
-- Queues/Setup), the wait for completions, DoReapInquiry (Queues/Wait), and the peeks of entries
-- (Queues/Peek); Queues/Entry is Queues/ce.cpp with the table of Queues/ceDefs.h, and the word of
-- 16 bits that it decodes. The driver, the registers, the clock and the sleep are the record
-- QueueIoctl; times are in microseconds, and what the code stores in `isrCount` is left out.
--
-- Cmdline is tnvmeParsers.cpp, less its XML files. Cmdline/Text is what it uses of the C library:
-- a text is the list of its characters, and `endptr` is the text that is left, which the code
-- reads after the temporary that it points into is gone. Cmdline/Target is ParseTargetCmdLine,
-- Cmdline/Skip ParseSkipTestCmdLine, Cmdline/Words ParseErrorCmdLine and ParseQueuesCmdLine,
-- Cmdline/Mmap ParseRmmapCmdLine and ParseWmmapCmdLine; Cmdline/Digits prints numbers, which
-- Cmdline/Printed reads back.
--
-- Payload is Cmds/prpData.cpp and Cmds/metaData.cpp, the two base classes of a command that hold
-- its data. A shared pointer to a buffer is the number of an object, and the objects are a
-- function from numbers; the address of read-only memory is a number. Payload/Masks is the test of
-- a mask, Payload/Buffers SetPrpBuffer, Payload/Reach any sequence of its calls; Payload/Returned,
-- Payload/Allocation and Payload/Metadata put AllocMetaBuffer and the destructor together with
-- Meta, and Payload/Compare is about patterns. What ReserveMetaBuf leaves in its
-- argument, also when it throws, is `reserved_into`. The masks of dnvme.h are arguments.
--
-- Bounds. Numbers are unbounded and every wrap of the code is written out (`% 2 ^ w`); an argument
-- is the value that a parameter of its C++ type has received; the size_t levels of a test
-- reference stay below the size of a container, and UINT_MAX stands for ALL. A width of 0 is a
-- division by 0 in SetBits, where the model throws; no caller passes it. The loop of GetTestSet
-- over all tests and the one of TestRefToIterator run on as many rounds as the group has tests and
-- one more, since each round finds another test; the loop of ExecuteTests over a test set has two
-- rounds more than the set has tests, since each round but the last moves past a test. The loop of
-- DiscoverPciCapabilities has its rounds as an argument; it needs as many as the list has
-- capabilities. The loop of DoReapInquiry needs 100 rounds for each millisecond and one more,
-- since each round sleeps for 10 microseconds.
--
-- Not modelled: logging and formatting (GetGroupSummary, report's text, Dump, Print,
-- FormatRegister, DecodeStatus), the register accesses that hand an array of bytes to the driver,
-- the test classes in the Grp directories, what else queues do (sending, ringing, reaping), the
-- identify data, getopt, the command line's XML files and firmware image, the reading of files,
-- the calls of the kernel driver, and the PRP permissions that the constructors of commands pass
-- to SetPrpAllowed.
pub mod Base
pub mod Suite
pub mod Cmds
pub mod Meta
pub mod Control
pub mod Resources
pub mod Data
pub mod Queues
pub mod Cmdline
pub mod Payload
