-- ===== src/Proc.antt =====
-- stage0/tlpi/proc/longjmp.c and mem_segments.c: a jump out of nested calls, and int arithmetic
-- whose overflow is an error of the run.
pub mod Jumps
pub mod Segments
mod Tests
