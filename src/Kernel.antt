-- ===== src/Kernel.antt =====
-- The kernel of kernel.py: processes, descriptors, signals and the scheduler.
-- A shared object (an open file, a pipe, an inode, a process) is named by its number, under which a
-- table of the state holds it.
pub mod State
pub mod Fds
pub mod Creds
pub mod Io
pub mod Open
pub mod Seeking
pub mod Guarded
pub mod Killing
pub mod Turns
pub mod Granting
pub mod Using
pub mod Reading
pub mod Writing
pub mod Opening
pub mod Paths
pub mod Signals
pub mod Procs
pub mod Frames
pub mod Sigreturn
pub mod Masking
pub mod Pushing
pub mod Popping
pub mod FlagsWord
pub mod Framing
pub mod Returning
pub mod Slices
pub mod Resuming
pub mod Actions
pub mod Execve
pub mod Replaced
pub mod Steps
pub mod Marked
pub mod Image
pub mod Executing
pub mod Counts
pub mod Acquire
pub mod Balance
pub mod Slots
pub mod Sharing
pub mod Ending
pub mod Keeps
pub mod Lifecycle
pub mod Leaving
pub mod Calls
pub mod Control
pub mod Piping
pub mod Replacing
mod Tests
