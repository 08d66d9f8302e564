-- ===== src/Printk.antt =====
-- printk.c: the log of a kernel with the lockless ring buffer. The structures of printk.h are in
-- Layout, the descriptor states in State, dump_record in Record and the walk over the ring in Ring.
pub mod Layout
pub mod State
pub mod Vmcoreinfo
pub mod Record
pub mod Ring
pub mod Lockless
