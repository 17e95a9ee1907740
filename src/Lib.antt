-- ===== src/Lib.antt =====
-- Verification of vitarecomp, a static recompilation toolkit for PlayStation Vita modules.
--
-- The program has two halves. The recompiler (tools/armrecomp) opens a module: container.c parses the
-- SELF and ELF layers, inflate.c unpacks compressed segments, module.c reads the module info and the
-- imports, decode.c decodes ARM and Thumb instructions, analyze.c finds the functions, and emit.c writes
-- them as C, with the names of the imports from nids.c. The runtime (src, include/vitarecomp) is what this C links
-- against: arithmetic with ARM's flags, a flat guest memory, the dispatch of indirect transfers, and
-- the C library forwarded to the host.
--
-- Base            lists, Boolean tests and bit operators over native numbers, shared by all.
-- Runtime.Alu     include/vitarecomp/recomp_rt.h: vita_lsl to vita_bfi as lsl to bfi, on numbers below
--                 2 ^ 32, with the wrap-around written out. The flags are a record that is passed on.
-- Runtime.Search  the loop of the binary search in src/dispatch.c, module.c and emit.c.
-- Runtime.Probe   the hash set of src/trap.c and emit.c, and Runtime.Trap the traps of src/trap.c.
-- Runtime.Dispatch  src/dispatch.c: vita_dispatch_init as init, vita_dispatch as dispatch. Its result
--                 names the function to run, or the trap.
-- Runtime.Mem     src/mem.c: vita_mem_ptr as mem_ptr, which returns an offset; vita_read8/16/32 and
--                 vita_write8/16/32 as mem_read and mem_write with a width.
-- Runtime.Heap    the heap of src/hle_libc.c: vita_heap_init, heap_alloc, vita_hle_malloc.
-- Runtime.Hle     the other calls of src/hle_libc.c, as functions on a machine of registers, heap, count
--                 of traps and memory. It uses Mem and Heap.
-- Inflate         tools/armrecomp/inflate.c: Reader is the bit reader, Huff the canonical Huffman codes,
--                 Tables the constants, Block the three kinds of blocks, Stream inf_inflate, Zlib inf_zlib.
--                 Zlib.Format has the header, the trailer and the checksum of RFC 1950 in arithmetic.
-- Container       tools/armrecomp/container.c: rd16 and rd32 as rd, vc_identify as identify, vc_parse as
--                 parse. A read outside of the buffer is an outcome of its own.
-- Decode          tools/armrecomp/decode.c: Thumb is decode_t16, one function for each form; Wide is
--                 decode_t32, Arm decode_a32 and Entry arm_decode; Vfp is decode_vfp; Immediate is
--                 thumb_expand_imm. Valid has the well-formedness of what they return.
-- Imports         tools/armrecomp/module.c: vm_ptr, vm_va and vm_find_stub, on the search of the
--                 dispatcher, and in Parse vm_parse.
-- Nids            tools/armrecomp/nids.c: the tables of names, add_func, add_lib and the look-ups.
-- Analyze         tools/armrecomp/analyze.c: Bitmap is the map of decoded instructions, Walk follows a
--                 function, Walk.Reached says where control can flow, Shape is the sweep for pointers,
--                 Discover is vf_discover. It uses Decode and Imports.
-- Emit            tools/armrecomp/emit.c: Funcs is fs_has, Body is collect, and Table the dispatch table
--                 of em_emit, which Runtime.Dispatch serves.
-- Runtime.Float   src/vfp.c: the flags of a float comparison.
--
-- Loops without a bound of their own run on fuel. The binary search has one round more than there are
-- rows, and each round drops one at least. The loops of inflate have one round more than the input has
-- bits, since each round reads a bit or ends the loop. The loops of analyze.c and of collect have their
-- fuel from the halfwords of the segment and from the 8192 slots of the visited set, since each
-- instruction takes one of them. The walk of the imports has a round for each of 256 and one to see that
-- there are others. The rounds over the export table are bounded by the entries of 32 bytes
-- that the segment holds.
--
-- Conventions: what an uninitialised table of inf_inflate holds is an argument (fresh). Whether the
-- host's calloc succeeds, and which bits the compiler's >> shifts into a negative number, are
-- arguments too. In Runtime.Hle, vita_trap_unimpl counts and returns, as in a traced run, and the
-- host's memcmp, strcmp, strncmp and strstr are parameters; Runtime.Trap has both kinds of run. Host
-- integers are little-endian, as on every platform that the runtime supports. The C library's qsort is
-- a parameter, and allocations of the recompiler succeed.
--
-- Not modelled: emit_insn, the files and the lines of nids.c, loader.c, the accessors of vfp.h, the
-- command line, and all printing. They are input and output, or remain to be done.
pub mod Base
pub mod Runtime
pub mod Inflate
pub mod Container
pub mod Decode
pub mod Imports
pub mod Nids
pub mod Analyze
pub mod Emit
