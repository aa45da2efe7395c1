-- ===== src/Lib.antt =====
-- A model of the core data structures of go-zero-admin-pkg, a Go library of containers, converters,
-- caches and timers under utils/, with its errors and a part of its helpers for strings. gtimer keeps
-- its jobs in the priority queue of its own package, ListMap of gmap keeps its order in a list of glist,
-- errors of gerror carry codes of gcode and are what gutil's Try makes of a panic, the arrays of garray
-- share the quicksort of garray_func.go, and the memory cache of gcache keeps the order of its keys in a
-- list of glist.
--
-- Files and code:
--   Prelude: tests and lists over the native numbers, Go's `int` as an integer (Int), and `Run`, a
--   computation that returns or panics, with slices, reads and writes (Run, Swap).
--   Garray.Normal and Garray.Bulk: IntArray, utils/tools/garray/garray_normal_int.go. An array is a
--   record of its list and the `safe` flag; a method is a function that returns the new array with
--   the method's results. The element type is any type with a zero value and an equality, as the
--   string version is the same code. A Go name is written in snake case (PopLefts is pop_lefts,
--   Set is set_at, Range is range).
--   Garray.Reads: its constructors from a slice, iterators, Search, Sum and CountValues.
--   Garray.Order and Garray.QuickSort: the comparators and quickSortInt,
--   utils/tools/garray/garray_func.go.
--   Garray.Sorted: SortedIntArray, utils/tools/garray/garray_sorted_int.go; Unique is uniqued.
--   Garray.Sorted.Methods holds the constructors and the methods whose bodies are those of IntArray.
--   Gtimer.Heap and Gtimer.Queue: utils/tools/gtimer/gtimer_queue_heap.go and
--   utils/tools/gtimer/gtimer_queue.go, with the sift loops of Go's container/heap.
--   Gtimer.Entry: utils/tools/gtimer/gtimer_entry.go, the job's status and limit; callJobFunc is two
--   steps, job_returned and job_exited, that happen later than the start.
--   Gtimer.Timer: utils/tools/gtimer/gtimer_timer.go and gtimer_timer_loop.go. The timer pops entries
--   from the queue, checks them, and pushes them back; a pointer to an entry is its index in `entries`.
--   Glist: utils/tools/glist/glist.go, a list whose elements have numbers in place of pointers. A method
--   is given elements of its own list only: container/list leaves an element of another list alone, and
--   such a call is not modelled. Glist.Steps has its operations as steps; Glist.Deque has calls on it
--   against calls on the plain list of its values.
--   Gset: IntSet, utils/tools/gset/gset_int_set.go, as the list of the keys of its map; its insertion and
--   removal are those of the sets in the cache's index by second.
--   Gmap: IntIntMap, utils/tools/gmap/gmap_hash_int_int_map.go, as an association list.
--   Gmap.ListMap: ListMap, utils/tools/gmap/gmap_list_map.go, a map from keys to the elements of a list of
--   Glist. Its methods that set a missing key are in Gmap.ListMap.GetOrSet; Gmap.ListMap.Refines has calls on
--   it against calls on the plain list of its pairs.
--   Gcode: utils/tools/gcode/gcode.go and gcode_local.go. Gerror and, for the functions that make errors,
--   Gerror.Api: utils/tools/gerror. An error is nil, a nil *Error, an *Error around another error, or a
--   foreign error with at most one of the methods that gerror asks for. The codes are an interface
--   (Codes) that the codes of gcode fill.
--   Gutil and Gutil.TryCatch: utils/tools/gutil/gutil_comparator.go, gutil_try_catch.go.
--   Gstr: Levenshtein of utils/tools/gstr/gstr_similar.go; Gstr.Distance has its rows and the edit scripts.
--   Gstr.Version: utils/tools/gstr/gstr_version.go. Gstr.Slashes: gstr_slashes.go of that folder, with
--   StripSlashes of utils/tools/utils/utils_str.go. Gstr.Sub: gstr_sub.go, whose `int`s wrap;
--   Gstr.Sub.Plain has its bounds where they do not, Gstr.Sub.Between the parts by indices.
--   Gbinary: the integers of utils/tools/gbinary/gbinary_le.go, with bytes as numbers below 256.
--   Gcache.Lru: utils/tools/gcache/gcache_adapter_memory_lru.go; Gcache.Lru.Spec specifies it on a
--   plain list of keys, the most recently used first.
--   Gcache.Data: gcache_adapter_memory_data.go and gcache_adapter_memory_item.go of that folder.
--   Gcache.Adapter, Gcache.Checked and Gcache.Expire: gcache_adapter_memory.go, namely the plain
--   operations, those that set a missing key, and the task that runs each second with the maps of
--   gcache_adapter_memory_expire_times.go and gcache_adapter_memory_expire_sets.go. Gcache.Steps
--   has the operations as steps; Gcache.Covers, Bounded, Handled, SetMap, Synced and Missing are about the
--   keys that a cache with an LRU manager may hold, Sync, Sweep and Due about the expiry task.
--
-- Conventions: an `int` is an integer without a bound, except in Gutil and Gstr.Sub, so the rest of the
-- model holds where the program's sums do not wrap. A slice is its list of elements: that two slices
-- share memory, as those that PopRights and Chunk return do with the array, is not modelled. The locks
-- make each method one step. A loop that is not over a list runs on fuel and panics without it. The fuel
-- is the length of the list, or one more, where each round takes an element away or moves an index on;
-- proceed gets one round for each entry, which is not due again once checked, and one more.
-- NewIntArrayRange takes its number of rounds as an argument. An atomic cell is read and written in one
-- step: that another goroutine changes a status between two accesses of one method is not modelled.
--
-- A Go map is an association list (Prelude.Maps), whose order is the one in which Go happens to range
-- over it. In gcache the clock is an argument, the same through one call, and so is what a callback
-- returns; a nil interface value is `none`, and no key is nil. Each operation of the cache, and each
-- run of its task, is one step: two that run at the same time are not modelled.
--
-- A range over a Go map that the source makes in between, as Clone and Flip of ListMap do, has its order
-- as an argument. A string is its bytes, or its runes where the source ranges over runes and the text is
-- valid UTF-8. What fmt makes of its arguments, what gconv.Int makes of a string, and the call stack are
-- arguments; an `int` that a comparator computes wraps in the type that the source computes in.
--
-- Not modelled: the arrays' random picks, JSON and text forms, also of glist and ListMap; errors.Is and
-- errors.As of the standard library; SimilarText, Soundex and CompareVersionGo of gstr; the big endian
-- codecs and bit lists of gbinary; the other packages, which are wrappers, reflection, or drivers.
pub mod Prelude
pub mod Garray
pub mod Gbinary
pub mod Gcache
pub mod Gcode
pub mod Gerror
pub mod Glist
pub mod Gmap
pub mod Gset
pub mod Gstr
pub mod Gtimer
pub mod Gutil
