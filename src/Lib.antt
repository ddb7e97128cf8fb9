-- ===== src/Lib.antt =====
-- libgpuarray: arrays on GPUs, with the caches, string buffers and type tables they rest on.
--
-- The program. An array (gpuarray_array.c) is a strided window on a device buffer, which a back end
-- (CUDA or OpenCL) provides behind the operations of gpuarray_buffer.c. Slices, transposes and
-- reshapes make new windows; copies and conversions run elementwise kernels, whose dimensions
-- gpuarray_util.c collapses first and whose source grows in a string buffer (util/strb.c). Compiled
-- kernels are kept in a 2Q cache (cache/twoq.c) of the context; an LRU cache (cache/lru.c) stands before
-- the disk cache of their binaries. Both have the interface of cache.h. The CUDA back end
-- (gpuarray_buffer_cuda.c) cuts buffers from large blocks of the device and keeps the free ones in a
-- list. util/integerfactoring.c factors numbers into small factors, by which a kernel's work is split
-- into blocks and grids.
--
-- The files.
--   Base: shared names, lists and integers over the native numbers, bit operations, remainders.
--   Cache.Node, Cache.Hash: struct _node, _list and _hash of cache/lru.c, of which cache/twoq.c has
--     a copy: node_alloc, list_push, list_pop, list_remove, roundup2, hash_init, hash_find, hash_add,
--     hash_del, hash_clear. Hash/Holds has the invariant of the table, and Hash/Add, Hash/Del and
--     Hash/Init that the operations keep it.
--   Cache.Spec: the abstract cache, live entries in order of use and released entries.
--   Cache.Lru: cache_lru, lru_add, lru_del, lru_get, lru_prune, lru_destroy.
--   Cache.Twoq: cache_twoq, twoq_add, twoq_del, twoq_get, twoq_prune, twoq_destroy; Twoq/Parts is the
--     abstract view of its three sections.
--   Strb: util/strb.h and util/strb.c.
--   Types: gpuarray_types.c, gpuarray/types.h and the registry of gpuarray_util.c.
--   Error: gpuarray_error_str of gpuarray_error.c.
--   Util: gpuarray_elemwise_collapse and gpuarray_elem_perdim of gpuarray_util.c.
--   Array: gpuarray_array.c; Array.View has GpuArray_empty, zeros, fromdata, view, clear and share,
--     Array.Slice GpuArray_index, index_inplace and split, Array.Layout transpose and reshape_inplace,
--     Array.Copy move, write, read, memset, copy, transfer, reshape, setarray and concatenate;
--     Array/Contiguous says what C and Fortran order are, and Array/Marks what fix_flags does.
--   Pool: the allocator of gpuarray_buffer_cuda.c with the structures of private_cuda.h. Pool/Bytes has
--     the bytes that blocks cover, Pool/Fit the search for a block, Pool/Alloc, Pool/Return and
--     Pool/Cycle the operations, Pool/Steps the histories of a context as a step relation.
--   Factor, Prime: util/integerfactoring.c. Factor has the factor lists (gaIFLAddFactors,
--     gaIFLGetProduct, gaIFLIsOverflowed, ...), Factor.Smooth gaICtz, gaIClz and the 2-, 3- and 5-smooth
--     optimizers, Factor.Search gaIFactorize, which takes gaIIsPrime as an argument, Factor.Schedule
--     gaIFLSchedule and gaISchedule. Factor/Ends has the termination of gaIFactorize, Factor/Factorize
--     its result, Factor/Take the moves of the schedulers, Factor/Limits the end of
--     gaIFLScheduleSatisfyTot. Prime has the modular operations and Prime.Check gaIIsPrime with the
--     strong Fermat and Lucas tests and the Jacobi symbol.
--
-- How code becomes a definition. State is passed on; `none` is a fault of the code (a NULL or an index
-- out of bounds, a division by zero) where the comment of a definition says so. What malloc, calloc
-- and realloc return is an argument. `size_t` is a number with its wrap-around written out; `ssize_t`
-- is an integer, whose overflow is undefined in C and not modelled. Addresses and alignments are those
-- of x86-64. A doubly linked list is the sequence of its nodes. Counts of live nodes do not wrap,
-- since each takes memory; the reference counts of contexts and buffers, of 32 bits, do. The caches
-- take keq and khash as an interface with the laws that a hash table needs. Recursion on fuel: in
-- reshape, match_loop has one step for each dimension and one more, and group_loop one step for each
-- new dimension. In gaIFactorize an attempt has a step for each arrival at the label primetest, for
-- which 65 times the upper bound plus 2 is shown to be enough; its trial divisions have 2 ^ 32 steps,
-- since f grows by 2 up to 0xffffffff. The Jacobi symbol has a step for each value of its second
-- argument, which falls, and the search for D of the Lucas test takes its fuel as an argument, as do
-- the loops of the schedulers, which move one factor or the powers of one in each step. The other
-- loops there have as many rounds as a number has bits.
--
-- What is not modelled: the calls of device libraries, generation of kernel source, the disk cache
-- and printing, since they are input and output; xxhash.c, skein.c and gpuarray_strl.c, which are
-- copies of other projects; bindings. The argument checks of elementwise and BLAS operations are not
-- modelled. gaIMulMod has its two ways; for the first, the instructions of x86-64, one factor must be
-- below the modulus.
pub mod Base
pub mod Cache
pub mod Strb
pub mod Error
pub mod Types
pub mod Array
pub mod Util
pub mod Pool
pub mod Prime
pub mod Factor
