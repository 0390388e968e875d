-- ===== src/Lib.antt =====
-- The objects of fth, a Forth whose C library adds arrays, hashes and strings to the Ficl
-- interpreter. The library keeps every object as a tagged instance; Forth words take their
-- arguments from the interpreter's stack and call the C functions modelled here, which raise
-- exceptions by a long jump out of the call.
--
-- Base holds shared names: Boolean tests, lists and integers on the native numbers, and `Outcome`,
-- how a call ends: with a value, with an exception, or with an access outside its memory, which C
-- leaves undefined and the model calls `fault`. A call that never faults is thereby proved to stay
-- within its buffers.
--
-- Memory models what src/array.c uses of the C heap: a block of `size` cells with FTH_CALLOC,
-- FTH_REALLOC, memmove and single accesses. A cell is an object of any type `A`. The contents of
-- the cells that FTH_REALLOC adds are the parameter `fresh`, and a cleared cell is `zero_bits`.
--
-- Array models src/array.c. `FArray` is the C structure of that name; the pointer `data` is the
-- offset `data_offset` into `buf`. A function that changes its array takes the array and returns
-- how it ended together with the array that it leaves.
--   Array.Valid   the invariant of the structure: `data` is `buf + top`, and the elements lie in
--                 the buffer
--   Array.Ends    fth_array_push, fth_array_pop, fth_array_unshift, fth_array_shift
--   Array.Access  ary_ref, fth_array_ref, fth_array_set and the functions that make arrays
--   Array.Edit    fth_array_insert, fth_array_delete
--   Array.Copy    fth_array_copy, fth_array_map, fth_array_append, fth_array_subarray,
--                 fth_array_reverse, fth_array_fill
--   Array.Search  fth_array_index, fth_array_member_p, fth_array_uniq, fth_array_compact,
--                 fth_array_reject
-- The abstract view of an array is the list `view` of its elements. `Yields r x xs` says that the
-- run `r` returns `x` and leaves a valid array that holds `xs`; `Makes r xs` that the run makes a
-- valid array that holds `xs` unless its buffer would be too long.
--
-- Hash models src/hash.c: `FHash` with its buckets, chains as lists of items, newest first.
--   Hash.Chain    the loops over one chain
--   Hash.Count    the number of items
--   Hash.Valid    the invariant, and `lookup`, the value that a hash has for a key
--   Hash.Lookup   fth_hash_ref, fth_hash_find, fth_hash_member_p
--   Hash.Update   fth_hash_set
--   Hash.Delete   fth_hash_delete
--   Hash.Fresh    make_hash, fth_hash_clear
--   Hash.Entries  the items of a hash in the order of its loops
--   Hash.Each     fth_hash_each
--   Hash.Fill     loops of fth_hash_set, for Hash.Images, Hash.Rebuild and Hash.Mapped
--   Hash.Mapped   fth_hash_map, fth_hash_copy
--   Hash.Export   fth_hash_keys, fth_hash_values, fth_hash_to_array: the pushes of Array.Ends
--                 inside the loop of Hash.Each
--   Hash.Equal    hs_equal_p
--   Hash.Loops    the loops themselves, and the words >hash and make-hash-with-len
-- The abstract view of a hash is the function `lookup h` from keys to values. Its theorems take
-- `Lawful`: that fth_object_equal_p is an equivalence and that equal objects have one hash id, as
-- the help text of hash-id says.
--
-- Assoc models the assoc arrays of src/array.c, on Array. Their elements are `Element`s: pairs of a
-- key and a value (acells), or other objects.
--   Assoc.Search  assoc_index; its loop runs on fuel, one round more than the array has elements,
--                 which is enough because each round shortens the range that is left
--   Assoc.Insert  assoc_insert
--   Assoc.Ids     lists of elements sorted by ids, as maps from ids
--   Assoc.Refine  fth_array_assoc_ref, fth_array_assoc_set
--   Assoc.Remove  fth_array_assoc_remove
--   Assoc.Words   the word >assoc
--
-- Cons models the lists of src/array.c, which are arrays with another mark, or nil.
--   Cons.Front    fth_cons, fth_car, fth_cadr, fth_caddr, fth_cadddr
--   Cons.Rest     fth_cdr, fth_cddr
--   Cons.Slice    list-slice, list-slice!
--   Cons.Words    fth_list_to_array, fth_list_copy, fth_list_reverse and the words list-insert,
--                 list-fill, list-index and list-head
--
-- Strings models src/string.c on Memory. `FString` is the C structure of that name; its `view` is the
-- list of its characters, each a byte. A valid string has a NUL byte behind the last, and a text has
-- none among its characters: only then does the C library read all of them.
--   Strings.Valid    the invariant of the structure, and what growing and shrinking keep
--   Strings.Libc     strlen, strcmp and strstr on pointers into a block
--   Strings.Ends     fth_string_push, fth_string_pop, fth_string_unshift, fth_string_shift
--   Strings.Edit     fth_string_insert, fth_string_delete, fth_string_fill
--   Strings.Make     fth_make_string, fth_make_string_len, fth_string_copy, fth_string_substring,
--                    fth_string_to_array, which makes an array of Array.Access
--   Strings.Compare  fth_string_equal_p and its kin, fth_string_index, fth_string_find
--   Strings.Chars    fth_string_char_ref, fth_string_char_set, the changes of case,
--                    fth_string_chomp
--   Strings.Rounds   operations one after the other
-- What is pushed, unshifted or inserted is a string: the string representation of another object is
-- made by the code before. The functions of the C library that depend on the locale, toupper and
-- tolower, are parameters.
--
-- Simple models the simple arrays of src/utils.c: pointers in a block that grows by a fixed number of
-- cells.
--   Simple.Valid    the invariant: there is room up to the next multiple of the increment
--   Simple.Push     simple_array_push, simple_array_pop
--   Simple.Search   simple_array_index, simple_array_rindex, simple_array_member_p
--   Simple.Delete   simple_array_delete, simple_array_rdelete
--   Simple.Reverse  simple_array_reverse, make_simple_array_var
--
-- Hooks models src/hook.c on Simple and on Array, and proc_from_proc_or_xt of src/proc.c. The other
-- functions on procedures are the parameter `Procs`; a procedure reads and changes a state of any
-- type, but not the hook that runs it.
--   Hooks.Edit    fth_add_hook, fth_remove_hook and the hooks that they lead to
--   Hooks.Run     fth_hook_apply, against a run of the procedures one after the other
--   Hooks.Test    fth_run_hook_bool
--
-- Collector models the collector of src/object.c. An object is its place in the table of instances,
-- and the parameter `refs` gives the objects that its mark function marks.
--   Collector.Frames   gc_push, gc_pop, gc_loop_reset, init_gc
--   Collector.Make     gc_next_instance, fth_make_instance
--   Collector.Marking  fth_gc_mark; its fuel is the depth of the recursion, which is enough where it
--                      is above a rank that each object has over those that it refers to
--   Collector.Run      the marking loops of gc_run
--   Collector.Sweep    the freeing loop of gc_run
--   Collector.Keeps    whole runs
--   Collector.Sound    the free list as an invariant
--   Collector.Spare, Collector.Fresh  what an allocation hands out
-- A cell of the stack that is no instance is a place behind the last of the table. `inst_minmem` and
-- `inst_maxmem`, which tell instances from other words, are left out.
--
-- Sizes are numbers without a bound: MAX_SEQ_LENGTH keeps every length that an operation accepts
-- below 2^23, far from the ends of ficlInteger, and a pointer has eight bytes. Equality of objects
-- (fth_object_equal_p), their copies (fth_object_copy) and the procedures that the words are
-- handed are parameters, taken to be functions without effects on the structure at hand. Loops are
-- recursion on the number of rounds left, but for the binary search of Assoc, which has fuel.
--
-- Not modelled: the Forth words that only move arguments between the stack and these functions;
-- printing and dumping; sorting, which is qsort(3); symbols; object types; input and output;
-- numbers; and Ficl itself, which is another project's code.
pub mod Base
pub mod Memory
pub mod Array
pub mod Hash
pub mod Assoc
pub mod Cons
pub mod Strings
pub mod Simple
pub mod Hooks
pub mod Collector
mod Tests
