-- ===== src/Csapp.antt =====
-- stage0/csapp: arithmetic on machine words (assembly/arith.c, arith3.c, leaq.c, shift.c), and data in
-- memory (data/exchange.c, mstore.c, main.c, show_bytes.c). The widths and the order of the bytes are
-- those of x86-64; `>>` of a negative number keeps its sign and a conversion to `short` wraps,
-- which C leaves to the compiler. What C leaves undefined is none.
pub mod Arith
pub mod Memory
pub mod ShowBytes
mod Tests
