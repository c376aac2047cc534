-- ===== src/Lib.antt =====
-- Verification of minixfs, an emulator that runs the programs of a Linux 0.11 disk image.
--
-- The parts modelled, with the file of the repository that each is translated from:
-- * Memory (x86mem.py, AddressSpace): the low region and the stack region of a process, the break,
--   the growth of the stack, words, strings and the cache of decoded instructions. An address is a
--   natural number. Operations return the new space beside a result, since a write that faults keeps
--   the stack it has grown. `write` calls itself at most once more, after a growth: two units of fuel
--   are enough. Memory/Flush, Reach, Joined, Words and Apart hold lemmas about single steps,
--   two stores and words, the other children the properties.
-- * MinixFs (minixfs.py): Format has the records on the disk, Partition the search for the file
--   system, Disk the blocks, inodes and bitmaps, Files the zones and the content of files, Dir the
--   directories and paths. The image file is the list of its bytes; a text is the list of its latin-1
--   characters. The loop of `read_file` has the end of the range as fuel, and each round advances by a
--   block; the loop of `read_dir` has the length of the directory as fuel. Not modelled:
--   `mode_string`, `find_references` and `check_fs`.
-- * Pipe (kvfs.py, Pipe): the buffer of a pipe between its ends. A caller that has to wait gets `none`.
-- * Overlay (kvfs.py, OverlayFS): Dict has the dictionaries, State the objects, the table of inodes and
--   copying on write, Lookup directories and paths, Ops the operations that change files, directories
--   and metadata. Where Python holds a reference to an object, the model holds its number, under which
--   the table of the state has the object; an operation that raises returns the state it has reached
--   beside the error. The time is an argument. Not modelled: `stat_tuple` and the reports, the export
--   and the import of the changes.
-- * Exec (kexec.py): the header of an executable, its validation and its loading into the address
--   space; Stack has the initial stack, Fits the lemmas on its place, Shebang the interpreter line of a
--   script and the search for the file that is run, whose depth is a number of calls that are left, as
--   in the source.
-- * Tty (ktty.py, TTY): the line discipline. What is written to the terminal, the signals posted and
--   the escape commands are logs in the state; the commands are answered as `Kernel.on_escape` of
--   kernel.py does, whose texts are written to the same terminal at once. The bytes that the terminal
--   delivers are an argument of `pump`. A signal character whose echo is no byte raises ValueError, so
--   feeding returns a result beside the terminal. Rearm and Feed have input that comes in pieces, Edit the
--   editing of lines, the signal characters and reads. Not modelled: the packed termios and `ioctl`.
-- * Kernel (kernel.py, Kernel, Process and OpenFile): State has the records, the tables of open files,
--   pipes and processes, and the errors; a call takes the state of the kernel and returns it beside a
--   result, whatever the result is. Fds has the descriptors, Creds the credentials, Io reading, writing
--   and seeking, Open the opening of files, Paths the calls on names, Signals the signals and masks,
--   Procs fork, exit, wait and the choice of the next process. The files, the time and the terminal are
--   those of Overlay, an argument and those of Tty; a blocked call is the error `asleep` with what it
--   waits for. Counts states what the counts of open files and pipe ends stand for; Slots, Acquire,
--   Balance and Keeps hold the lemmas, the other children one group of calls each, and Calls puts them
--   together for sequences of calls. Frames builds the frames of signal handlers and delivers what is
--   pending, Sigreturn takes a frame down, Pushing, Popping, FlagsWord, Framing and Returning hold what
--   the two do to each other. Actions has `sigaction`, `sgetmask` and `pause`. Execve has `execve`, with
--   a value for `Replaced` and a count of the strings that may still come; Replaced, Marked, Image and
--   Executing say what it does. Slices has the end of a time slice in `run`, for each way in which the
--   processor stops, and Resuming what follows a call that blocks; `eip` there is that behind an
--   instruction of two bytes. Guarded, Masking and Killing say what the calls on masks and actions, and
--   the start of handlers, do about SIGKILL. Not modelled: the rest of `run`, which needs the whole table of calls, boot
--   and the built-in init, `stat`, `ioctl`, the calls that report times, names and limits, and the statistics.
-- * Processor (cpu86.py): Flags and Alu have the flags, the condition codes and the arithmetic at 8, 16
--   and 32 bits, Machine the decoded instruction, the registers and the steps that a handler takes,
--   Operands registers, operands and the stack, Perform the handlers that the source makes from
--   templates, Simple, Wide and Strings those that are written by hand, Fetch, Decode and Opcodes the
--   decoder, Run the table of handlers, the cache of decoded instructions, `run` and `step`. A handler
--   is a course of steps on the registers and the memory of Memory, whose cache holds the instructions;
--   an exception is a way to stop. The callbacks `on_int` and `on_fault` are parameters: functions that
--   may change the registers, the memory and a state of their own, and raise. The loop over the prefixes
--   has as much fuel as there are addresses; each round reads the next byte, and past the last address a
--   read faults. `run` is given the number of its rounds, as in the source, and the loops that scan the
--   bits of a word take 32. Finish has the lemmas on the fuel, Compare those on flags, Pieces and Blocks
--   those on string instructions, Cached those on the cache. Not modelled: the profiler, the snapshots,
--   and how the source text of templates is pasted and compiled.
--
-- The host terminals, the shell, the pager, the monitor and the disassembler are input and output, and
-- are not modelled. The table of system calls (ksyscall.py) is not modelled, since it names all the
-- calls, also those that are left out above.
-- Prelude holds the names that all parts share: numbers, tests, lists, slices, little-endian words and
-- results.
pub mod Prelude
pub mod Memory
pub mod MinixFs
pub mod Pipe
pub mod Tty
pub mod Overlay
pub mod Exec
pub mod Kernel
pub mod Processor
