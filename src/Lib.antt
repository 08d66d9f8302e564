-- ===== src/Lib.antt =====
-- kvm-dmesg prints the kernel log of a running guest, or of a guest's memory image, from outside.
-- It reads the guest's memory through libvirt, a QMP socket or a file, finds the kernel's symbols in
-- System.map, computes how far the kernel is from where it was linked, and prints the log that it
-- finds in memory. This library models its core and proves it correct.
--
-- The parts, and the files that model them:
--
-- Base, Text: what the others share. Base/Run is what a run of C code comes to: a value, a fault (an
-- access outside an object) or no end; Base/Word has the arithmetic of 64-, 32- and 16-bit words with
-- its wrap-around; Base/Bytes has buffers, the loads ULONG, UINT and USHORT of defs.h and the layout of
-- arrays; Text has the character loop that printk.c and main.c share, `%lu`, the time stamp, strstr on a
-- buffer, and what sscanf, strtok and strtoul make of text (Text/Scan); Text/Hex prints hexadecimal numbers
-- and reads them back, Text/Words and Text/Lines do so for the lines of a dump.
--
-- Machine: the structures of defs.h and client.h and the variables of global_data.c, as one record that
-- is passed from function to function. A pointer to the one instance of a structure is the structure.
-- The two function pointers of guest_client_t are functions from what stands behind the pointers before
-- the call to the result and what stands there after it.
--
-- Guest: readmem and get_cr3_idtr of libvirt_client.c, by which all other parts reach the guest.
-- Guest/Translate has Serves, the interface to them: a client that reads a given memory.
--
-- Xutil: xutil.c. xmalloc; Xutil/Io has the loops of xread and xwrite, by the results of the calls of read
-- and write; Xutil/Strings the copies of strings, Xutil/Numbers the numbers that are read from strings,
-- and Xutil/Files file_read.
--
-- Messages: log.c, the level and what it lets through.
--
-- Client: how a client reads. The loop over steps of 4096 bytes, which libvirt_readmem of
-- libvirt_client.c and qmp_readmem of qmp_client.c share, has the function that reads a part as its
-- argument (Client/Steps); file_readmem has fseek and fread as parameters (Client/File). Client/Libvirt is
-- what libvirt_client.c asks QEMU's monitor and makes of its answers: Client/Libvirt/Memory about the
-- lines that are stored, Client/Libvirt/Serves that memory is read, Client/Libvirt/Answer about the
-- registers. Client/Qmp is qmp_client.c: Client/Qmp/Session its session, with what it takes for an answer
-- in Client/Qmp/Session/Accepts; Client/Qmp/Delivers the poll loop; Client/Qmp/Memory, Client/Qmp/Serves
-- and Client/Qmp/Answer the same as for libvirt. The monitor of libvirt and the calls of poll, read and
-- write on the socket are parameters. Client/Life is how clients come and go, with a count of what the
-- process holds beside the global handles: Client/Life/Round on success, Client/Life/Failure on failure.
--
-- Symbols: symbols.c. Symbols/Map reads System.map, as fgets and sscanf do; Symbols/Chains is one chain
-- of the hash table, Symbols/Lookup the table as a map from names to addresses, Symbols/Load and
-- Symbols/Init what the table is after symtab_init, Symbols/Bounds that the addresses fit, Symbols/Data what
-- get_symbol_data reads.
--
-- Paging: x86_64_kvtop of main.c and what it calls, with the pages kept by FILL_PUD, FILL_PMD and
-- FILL_PTBL; Paging/Tables are the tables as they stand in memory, Paging/Walk relates the two.
--
-- Kaslr: calc_kaslr_offset and its callers in main.c. Kaslr/Gate is about the gate that is read,
-- Kaslr/Relocation about the addresses behind set_relocation, Kaslr/Derive about all of it.
--
-- Printk: printk.c. Printk/Layout has the structures of printk.h as bytes, Printk/State the state
-- variable of a descriptor, Printk/Record one record, Printk/Ring the loop over the IDs,
-- Printk/Vmcoreinfo the guest's own sizes and offsets (Tables is the text that has them all), Printk/Lockless the copies of the ring buffer
-- and the function as a whole.
--
-- Log: the older logs in main.c. Log/Records has struct log as bytes, Log/Loop the loop over records of
-- a variable length, Log/Dump the function as a whole, Log/Endless a loop that does not end, Log/Plain the
-- loop over the plain buffer that main prints, and Log/Buffer that part of main as a whole.
--
-- Main: main itself. Main/Arguments is the choice between its two arguments, with stat, fopen and fread as
-- parameters; Main/Choice is the choice between the logs, Main/Locate puts Symbols, Paging and Kaslr
-- together, Main/Guests puts the clients of libvirt and QMP in front of that, Main/Kernel says where the
-- kernel is behind x86_64_post_reloc, and Main/Whole is main from its arguments to its end, with
-- Main/Records and Main/Ring for a guest that has a log of records or the lockless one.
--
-- Tests has runs of the model on small guests, and the concrete guests to which the theorems apply.
--
-- Locals of C that are read before they are certainly written are arguments of the model. Memory that
-- malloc returns is what xmalloc clears it to, or an argument. An allocation that fails ends the program
-- and is not modelled.
--
-- The loop over the descriptor IDs has fuel for one test of each of the 2^62 IDs and two more; with both
-- ends in range that is proved to be enough. The digits of a number have fuel for the twenty that 64
-- bits take, which is proved to be enough too. The loop over records of a variable length has fuel for as
-- many rounds as a buffer can have bytes, which is proved to be enough for buffers that are well formed.
--
-- QEMU's side of a client is described by lines that each have a label and some numbers, in the digits that
-- its `xp` prints, and by the names and numbers of its `info registers`; that is what the theorems on
-- clients ask of the monitor and of the socket.
--
-- Not modelled: the lines that name the version and the arguments, write_data_to_file, the version text,
-- daemonize and the wrappers in xutil.c of one system call each, which have no behaviour of their own.
pub mod Base
pub mod Text
pub mod Machine
pub mod Guest
pub mod Symbols
pub mod Paging
pub mod Kaslr
pub mod Printk
pub mod Log
pub mod Xutil
pub mod Messages
pub mod Client
pub mod Main
mod Tests
