-- ===== src/Lib.antt =====
-- Verification of the programs of stage0, a collection of small C programs.
--
-- The programs do not call each other. Each has a module of its own over the shared helpers of
-- Base: lists and arrays whose accesses are checked (Cells), Options, the signed integers over
-- the native numbers (Int), the bits of words (Bits) and their two's complement (Words), and
-- bytes with decimal printing and reading and the test of equal strings (Text). Life and Kilo
-- share the interface of the terminal, Tty. Env also takes the function `store` of FileIo, a map
-- with one value replaced.
--
-- Life: stage0/life/main.c.
--   Life.antt has the board, `init_board`, `set_cell`, `populate_board`, `count_neighbors` and
--   `update`. A board is the list of its 45 * 180 cells, and each read and write of an array is
--   checked, so a result `some` says that no access left its array. A loop of C is a recursion
--   on the rounds left, 3, 45, 180 or 8100 of them, as its bounds are constants.
--   Life/Screen.antt has `draw_board`, the diff of the two buffers that `main` prints, and the
--   loop of `main` as the function `round` on the variables of `main`. Life/Program.antt has
--   `test`, the options, and `main` with the settings of the terminal in front of the loop and
--   behind it. The screen is a list of commands, one for each `printf` that moves the cursor, and
--   Life/Screen/Paint.antt has a terminal of a number of rows and columns, on which the cursor
--   stops at the last row and column. `generation` is an `int` whose overflow is a fault of the
--   run, and `ch` holds at first what memory held.
--   The arrays of the rules, Life/Rule.antt, are a description of the game that is independent
--   of the code: a grid padded with dead cells.
--
-- Kilo: stage0/kilo/kilo.c.
--   Kilo.antt has the editor's state and the escape sequences; Kilo/Input.antt `editorReadKey`
--   and `editorMoveCursor`; Kilo/Output.antt the append buffer, `editorDrawRows` and
--   `editorRefreshScreen`; Kilo/Window.antt `getCursorPosition`, `getWindowSize` and
--   `initEditor`; Kilo/Program.antt `editorProcessKyepress` and `main` in raw mode, and
--   Kilo/RawMode.antt `enableRawMode`, `disableRawMode` and `main` with its exit handler. What
--   the calls of `read` return is a list, and what `ioctl`, `write` and `realloc` return is a
--   parameter. A program writes a list of byte strings, one for each call of `write`.
--   `main_loop` has fuel for one round more than there are reads, which is enough since each
--   round takes a read; the reply of the terminal is read in at most 31 rounds, the size of the
--   buffer.
--
-- Search: stage0/modern_c/control/binary_search.c.
--   Search.antt has both searches, with the reads of the array checked and the arithmetic on
--   `int` checked for overflow. A `double` is a type with the tests `==` and `>`, as an array
--   with NaN is not excluded from the code; a theorem names what it needs of the tests. The loop
--   of `binary_search` has fuel size + 1, which is enough since each round narrows the range.
--   Search/Program.antt has what is printed, and `main`.
--
-- Heron: stage0/modern_c/control/heron.c.
--   Heron.antt has `main` over parameters for `double`, `strtod` and the formats of `printf`.
--   Its two loops have fuel, since they need not end. Heron/Endless.antt has the rules
--   of `double` for signs.
--
-- Tty: the terminal of Life and Kilo.
--   `struct termios` with words of 32 bits, the masks of the platform as parameters, and the
--   calls `tcgetattr` and `tcsetattr` as an interface with what they promise on a terminal that
--   supports what is set.
--
-- FileIo: the programs of stage0/tlpi/fileio.
--   FileIo.antt has the calls of the system as an interface over any type of states, with what
--   their manual pages document as a record of laws, and a program as a function on states that
--   goes on with a value or exits. A proposition of the interface says whether calls may fail.
--   FileIo/Copy.antt, FileIo/Tee.antt and FileIo/Cp.antt have a `main` each, and
--   FileIo/System.antt a system that satisfies the laws. The loops have fuel for one round more
--   than there are bytes to read, which is enough since each round but the last reads a byte.
--   FileIo/AtomicAppend.antt and FileIo/BadExclusiveOpen.antt have programs that are about other
--   processes: `main` is a machine that makes one system call in a step, and two of them run
--   over one system in the order of a list of turns. FileIo/SeekIo.antt, FileIo/Append.antt and
--   FileIo/Readv.antt print, which FileIo/Console.antt adds to the state; the commands of
--   seek_io.c have a description of their own in FileIo/SeekIo/Session.antt, a step relation on
--   a content and an offset. FileIo/LargeFile.antt has large_file.c and large_file2.c.
--   FileIo/Dup.antt has dup.c and verify_dup.c over an interface of `fcntl` and `dup`, as their
--   descriptors share offsets, which the other interface leaves out.
--
-- Env: setenv.c, modify_env.c, display_env.c and necho.c of stage0/tlpi/proc.
--   Env.antt has `setenv2` over an interface of `getenv` and `putenv`, with what `snprintf` and
--   `malloc` return as parameters. The function has no loop. Env/Spider.antt has `unsetenv2` up
--   to its loop, which the source does not finish, and `main` of setenv.c. Env/Programs.antt has
--   the `main` of the others, over an interface of the calls on the environment and its strings.
--
-- Users: stage0/tlpi/user_groups.
--   Users.antt has the four functions of ugid_functions.c over the lookups of the system,
--   Users/Lookup.antt `getpwnam2` over a stream of entries, with fuel for one entry more than
--   are left, and Users/Password.antt the program check_password.c, with what its calls return
--   as parameters and what is left of the password in memory.
--
-- Memalloc: stage0/tlpi/memalloc.
--   Memalloc.antt has free_and_sbrk.c and free_and_sbrk2.c over an interface of `malloc`, `free`
--   and `sbrk`, with the array of blocks and the range of `int` checked. The loop of free has
--   fuel for one round more than the end of its range, which is enough since each step is
--   positive.
--
-- Proc: longjmp.c and mem_segments.c of stage0/tlpi/proc.
--   Proc/Jumps.antt has a jump as a value that `setjmp` returns again, with fuel for two
--   returns, and Proc/Segments.antt arithmetic on `int` whose overflow is an error of the run.
--
-- Csapp: stage0/csapp.
--   Csapp/Arith.antt has the functions of assembly on words of 16, 32 and 64 bits,
--   Csapp/Memory.antt those of data that go through pointers, and Csapp/ShowBytes.antt the bytes
--   of values, lowest first. Widths, order of bytes and conversions are those of x86-64 and its
--   compilers.
--
-- Ostep: stage0/ostep.
--   Ostep.antt has common.h, cpu.c and mem.c over a list of what gettimeofday gives. The
--   programs never end; a run goes as far as that list, with fuel for one round more than its
--   length, which is enough since each round takes two readings. Ostep/Rounds.antt describes the
--   waits of a clock without the functions of the code.
--
-- Not modelled: what `perror` and `errExit` write to the standard error; how `double` rounds;
-- the permissions of a new file and the access mode of a descriptor; `usleep` and `fflush`; the
-- wrapping of a line on a terminal that is narrower than the status line of life; the overflow of
-- the editor's coordinates, which the size of the window bounds; the loop of `unsetenv2`, which
-- does not compile; the output of the compiler in stage0/csapp.
-- stage0/life/termbox2.h is a library that the program does not use, and stage0/tlpi/tlpi-dist
-- is the distribution of example programs of a book.
pub mod Base
pub mod Life
pub mod Kilo
pub mod Search
pub mod Heron
pub mod Tty
pub mod FileIo
pub mod Env
pub mod Users
pub mod Memalloc
pub mod Proc
pub mod Csapp
pub mod Ostep
