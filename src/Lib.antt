-- ===== src/Lib.antt =====
-- The core of the System/36 simulator: its main storage processor (MSP), the registers, main
-- storage with its address translation, the interpreter of the machine's 28 operations, the
-- scheduler of events, and parts of the control storage processor: the system queue space, the
-- allocator of work spaces, action control elements and their queues, the transient area, the
-- translation files of request blocks, the direct areas, the decimal numbers of BASIC and the table
-- of supervisor calls. Beside it stand the media that the simulator keeps on the host: SIMH tapes,
-- disk volumes with their tables of contents and libraries, and the EBCDIC code pages.
--
-- How the parts interact. src/Machine/MspRegisters.{h,cpp} is the register file,
-- src/Machine/MachineState.{h,cpp} owns it together with main storage and the address translation
-- registers. src/Processors/MainStorageProcessor.{h,cpp} runs one instruction at a time on them
-- (`step`): patches and breakpoints of the operator, fetch through the PACT register of the
-- instruction address, decoding by src/Processors/InstructionSet.{h,cpp}, the operation byte by
-- byte through `operandByte`, and then the next instruction, an abort or a stop. Supervisor calls,
-- XFER, storage protection and unassigned opcodes call the control storage processor
-- (src/Processors/ControlStorage/IControlStorageProcessor.h), a parameter here: a record of
-- functions on a state of its own which may change the MSP too.
--
-- Files. Machine.Registers models MspRegisters (`loadPsr` is load_psr, `pmr`, `setPmr` is set_pmr,
-- and so on, in the words of the source with underscores). Machine.State models the accesses
-- (Machine.State.Ints those at an address that may be negative) and the translation of
-- MachineState; its children Extents and Frames model `translatedExtents`, `guest24Extents`, the
-- block transfers and `writePageFrames`. Processor.Instructions models InstructionSet,
-- Processor.Debug the breakpoints and patches, Processor.Core the processor's state, decoding and
-- operand access, Processor.Characters the moves, comparisons and bit tests, Processor.Binary ALC,
-- SLC, SLI and SRC, Processor.Zoned the decimal operations, Processor.Selection the register
-- operations, Processor.Branches the branches and LPMR, Processor.Step the step. Control.WorkSpace
-- models `WorkSpaceHeap` of src/Processors/ControlStorage/GuestHeap.{h,cpp}, a list of free ranges.
-- Control.Heap models `GuestHeap` of the same files: Sets the std::set and std::map, FreeLists the
-- twelve free lists with `enqueue`, Pool the state with its journal, Checks `checkInvariants` and
-- the reports, Requests `allocate` and `free`, Restore the checkpoints. Control.Elements models the
-- guest structures of src/Processors/ControlStorage/ActionControlElement.{h,cpp} with `enqueue` and
-- `elements` of ActionControlElementQueue.cpp, and Control.Elements.Queue the rest of that class,
-- on the pool and main storage. Control.Transient models TransientArea.{h,cpp}, Control.Translation
-- `NuPttPool` of NuPtt.{h,cpp}, Machine.Scheduler src/Machine/Scheduler.{h,cpp}, Control.DirectArea
-- src/Processors/ControlStorage/DirectArea.{h,cpp}, Control.BasicNumber the decimal numbers of
-- BasicNumber.{h,cpp} beside it, Control.MapTable `MapTable` of MapParameterList.{h,cpp} there, and
-- Control.SvcTable the table of supervisor calls in src/Processors/ControlStorage/SvcTable.cpp.
-- Storage.Tape models SimhTapeBackend of src/Storage as a drive over a list of items,
-- Storage.Tape.Container its file (`index`, `flush`, `open` is open_file), Storage.Tape.Restore
-- `restoreTapePosition` of src/Storage/TapeBackend.cpp over the operations of any drive;
-- Storage.Ebcdic is src/Storage/Ebcdic.{h,cpp}, Storage.Disk DiskBackend, Storage.Disk.Vtoc and
-- Storage.Disk.Library the files of those names. The modules below each of them hold the proofs,
-- named for what they prove; the modules called Tests hold the theorems at concrete inputs. Base
-- has the native numbers, tests, lists, tables over all bytes, and numbers in base 256.
--
-- State and numbers. A register or byte is the natural number it holds, and wrapping is written
-- out. Storage is a function of which the first `size` places exist; an access outside latches the
-- fault as the source does. An operand byte is named by its distance to the left or right of the
-- operand's address. A zoned value is an integer without the bound of the source's 64 bits, which
-- fields of up to 18 digits do not reach. A text is a list of bytes, and the reason for a stop is a
-- value with the parts of the source's message.
--
-- Loops and fuel. The loops over the bytes of an operand recurse on their count. `extents_loop`,
-- `validate` and `copy_frames` take fuel, one more than there are bytes: every round takes at least
-- one byte, and the theorems on them show that the fuel does not run out. The chains of queued
-- elements are followed for 4096 links, the guard of the source. The first loop of the pool's
-- `enqueue` has one round for each free element, the buddy loop twelve, the decomposition one for
-- each byte: enough, as Control.Heap.Ends shows. `runUntil` has fuel for the events that it runs
-- and the transient area for the requests that it serves; an event or a body may schedule more, so
-- that both give no result when it runs out. The index of a tape has fuel for every byte of its
-- file, and the decoder of text for every byte of it; both take at least one byte in a round. The
-- loops that space a tape recurse on the records, files or items that are left.
--
-- Not modelled. Traces, reports of checks, write observers and watchpoints, the hook before an
-- instruction: they show what happens and change no state. The texts of the disassembly. Of the
-- control storage processor (src/Processors/ControlStorage) only the parts named above: everything
-- else on the other side of the control storage interface, the machine's own loop, the devices, the
-- catalogs, folders and diskettes of src/Storage, the host and the monitor: the supervisor and I/O,
-- to be built on this core.
pub mod Base
pub mod Machine
pub mod Processor
pub mod Storage
pub mod Control
