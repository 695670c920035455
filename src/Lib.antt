-- ===== src/Lib.antt =====
-- Verified models of the data structure, algorithm and numeric libraries of foo.
--
-- The program is a set of C++ libraries behind a command line application. The libraries do not
-- call each other; what is modelled here is the core of three of them, with caches, heaps, lists
-- and trees of the first.
--
-- - Heap: the heaps of data_structure/source/heap.cpp and the traversals of
--   data_structure/include/heap.hpp. Heap/Compare.antt is the compare function that the caller
--   passes, a parameter of every operation. Heap/Binary.antt is namespace `binary`: `getIndex`,
--   `filterUp`, `filterDown`, `create`, `insert`, `remove` and `Traverse::order` on an array.
--   Heap/Leftist.antt and Heap/Skew.antt are the namespaces `leftist` and `skew`: `mergeNode` and
--   the operations that are built on it, and the traversals in their Traverse.antt.
-- - Tree: Tree/Avl.antt is namespace `avl` of data_structure/source/tree.cpp: the rotations,
--   `insert`, `remove`, `search`, `create` and `getHeight`, with `getMinimum`, `getMaximum`,
--   `destroy` and the traversals of data_structure/include/tree.hpp in Tree/Avl/Traverse.antt.
--   Tree/Bs.antt is namespace `bs` without `remove`, a search tree that keeps equal keys, and
--   Tree/Splay.antt is namespace `splay`. The abstract view of the three is the list of the
--   keys in order, whose operations are in Tree/Avl/Sorted.antt and Tree/Bs/Sorted.antt.
-- - Algorithm: Algorithm/Notation.antt is algorithm/source/notation.cpp, the conversion of infix
--   expressions with a stack of operators; Algorithm/Search.antt is `binary`, `fibonacci` and the
--   generator of Fibonacci numbers of algorithm/include/search.hpp; Algorithm/Sort.antt is
--   `bubble`, `selection` and `insertion` of algorithm/include/sort.hpp; Algorithm/Match.antt is
--   `kmp`, `horspool` and `sunday` of algorithm/source/match.cpp.
-- - Numeric: Numeric/Divisor.antt is numeric/source/divisor.cpp, both algorithms for the greatest
--   common divisor and the listing of its divisors.
-- - Cache: data_structure/include/cache.hpp. Cache/Fifo.antt, Cache/Lfu.antt and Cache/Lru.antt
--   are the classes `FIFO`, `LFU` and `LRU`: their lists, the elements and the hash map as fields,
--   one function per operation. The loops over ranges, the same in the three, are in
--   Cache/Interface.antt with runs of calls. The abstract view of a cache is a list of entries in
--   the order of its policy, in the Policy.antt of each class; Cache/Simulation.antt carries a
--   relation between the two over runs of calls.
-- - Linear: Linear.antt is data_structure/source/linear.cpp, the doubly linked list of namespace
--   `dll` on a store of nodes; Linear/Stack.antt and Linear/Queue.antt are the namespaces `stack`
--   and `queue`, which call it. The abstract view of a list is its size and a function from its
--   indices.
-- - Prelude: names of the libraries, Boolean tests, arrays as functions, occurrences in lists.
--
-- A C++ pointer is an Option, and a tree that owns its nodes is a value: the heaps and trees share
-- no nodes. The nodes of the doubly linked lists are in a store. The result of `::new
-- (std::nothrow)` is a Boolean parameter, or for these lists the address. Keys of heaps and trees
-- are of any type, since the code only passes them to the compare function; keys of caches are
-- natural numbers. `std::uint32_t` indices of the searches and the matchers wrap at 2 ^ 32. `none`
-- is a read out of bounds, a read of the top of an empty stack or of the end of a list, a use or a
-- deletion of a node that is not allocated, an `int` that overflows (the counter of the nodes of a
-- doubly linked list, the index of a child in `filterDown`, `std::abs`), or fuel that has run out,
-- so a theorem that a result is `some` excludes all of them.
--
-- Fuel: the merges of heaps have the sizes of both trees, of which a step drops one node;
-- `filter_up` the start index plus one; `filter_down` the size plus one; the binary search the
-- length plus one; the Fibonacci generator 48 rounds, past which its numbers exceed 2 ^ 32; the
-- Fibonacci search the number of Fibonacci numbers; the matchers the length of the text plus one,
-- twice that length plus one in `kmp`; the remainders of Euclid the second number plus one; the
-- listing of divisors the number plus one; Stein's recursion the sum of its numbers plus one;
-- `splay` the size of the tree, since the root loses a node in every round; the loops over a
-- doubly linked list any number above its size, a parameter of the operations.
--
-- Not modelled: `destroy` of the binary heap, which only frees memory, and the printers; the
-- parent pointers of the binary search tree with `remove`, `getPredecessor` and `getSuccessor`,
-- which follow them; the interpolation search (floating-point); the load factor of the caches'
-- hash maps, which changes no result; and the rest of the libraries and the application: the other
-- sorts, graphs, filters, the matchers `rk` and `bm`, primes, arithmetic by bit operations,
-- command line, logger and viewer.
pub mod Prelude
pub mod Heap
pub mod Algorithm
pub mod Numeric
pub mod Tree
pub mod Cache
pub mod Linear
