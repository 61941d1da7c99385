-- ===== src/Lib.antt =====
-- The parts of nogocommons that carry its own logic, modelled from the Go source, with the theorems
-- that make them correct. Paths are those of the repository.
--
-- Base: the shared names, lists and tests over the native numbers, 64-bit and 32-bit words, the order
-- of `bytes.Compare`, and the operations on binary digits.
--
-- PowCache: nogopow/cache.go. Recent is `simpleLRU`, with its items as cells of a store, Data the calls of
-- the cache; Tame is what the list operations leave alone, Answers and Calls what the map holds and what
-- the cache gives, and Lost what a hit does to the map. One call
-- runs at a time. Not modelled: the locks, `singleflight`, and `Stats`.
--
-- Treap: database/internal/treap, which backs the cached transactions of database/ffldb. Node has the
-- nodes and the loops that immutable.go and mutable.go share: `descend` is the search that keeps the
-- parents, `bubble` the rotations of an insertion, `sink` those of a deletion, and `plug` what the
-- pointers reach from the root. Immutable and Mutable are the two types with their methods, and
-- ParentStack is the stack of common.go, which the loops use as a list. Traverse is `ForEach`.
-- Inorder, Order, SortedMap, Gaps, Valid, Put, Delete, Heap, HeapDelete and MutableLaws hold the
-- proofs. A priority that `rand.Int` draws is an argument, counts are unbounded and the total size
-- wraps at 2^64. `ForEach` takes as many rounds as the tree has nodes, which is enough. Not modelled:
-- the pool of nodes, and iterators.
--
-- Gcs: nogoutil/gcs. Reduction is `fastReduction`; Stream is what the package uses of bstream and
-- siphash, as a parameter with the documented behaviour; Filter has `Filter`, how it is built and
-- written, and how a value of it is read; Match and MatchAny are the queries. Rice, Sorted, Built,
-- Zip, Hash, AnyBuilt and Codec hold the proofs, and Memory are streams that meet the assumptions. The
-- loops that read until the bits end take one round more than the filter has bits, which is enough,
-- since every round takes a bit.
--
-- Bech32: address/bech32. Checksum is `bech32Polymod` and what is computed by it, Text the strings.
-- Linear shows by the laws of the exclusive or (Base/Bits) that six values at the end are added to the
-- checksum; RoundTrip and Encoded are about whole strings.
--
-- Coinset: nogoutil/coinset. Coins has the set and the selector by index, Totals the cached totals,
-- Select what the selector answers, and Fewest the selector by number, whose sorting is a parameter.
--
-- Bloom: nogoutil/bloom. Murmur is MurmurHash3, and Filter has `matches` and `add`, with Kept, Found
-- and Added as what they find; Match is `matchTxAndUpdate`, with Adds, Outputs and Inputs for any
-- reading of the scripts, and Spends and Watched for the placeholders of txscript. Merkle has the tree
-- of merkleblock.go and Block `NewMerkleBlock`; Partial is the receiver of BIP 37, which the repository does
-- not have; Widths, Tree, Built, Nodes and Whole are about the tree, Flags about the bits, and Message and
-- Delivered about the whole message. A result `none` is a panic. The height of a tree is counted with 31
-- rounds of fuel, since a block has no more than 2^31 transactions. Not modelled: `NewFilter`, which
-- computes in floating point, and the mutex.
--
-- Chanutils: neutrino/chanutils. Queue is the goroutine of the concurrent queue with its channels, one
-- event at a time, Batch the goroutine of the batch writer; Order and Runs are what the queue gives out,
-- Written is what the writer writes, and Stopped what it has written at its end. The events are the sends, receives and ticks in the order in
-- which the channels let them happen, and `received` of the queue is what the writer takes.
--
-- ConnMgr: connmgr/connmanager.go. Manager has the state of the handler's goroutine and `handle`, one
-- round of its loop, with what it starts as a list of effects; a run is any sequence of messages, so
-- that every interleaving of the senders is one. Sets, Invariant and Steps are about one message,
-- Runs and Over about all of them, Delays about the timers. Listeners, `Start` and `Stop` are left out.
--
-- HeaderList: neutrino/headerlist. Node is header_list.go and Ring is bounded_header_list.go, where a
-- `*Node` is an index of the slice. Window says which numbers of insertions stand in the slots, and
-- has the search; Push, Pushed and Runs are about `PushBack`, Items and Newest about the chain as a
-- list. The loop of `Ancestor` has one round more than the chain has slots, which is enough, since
-- every round comes to a lower node.
--
-- Lru: neutrino/cache/lru. Cache has `Cache` with its methods: an element is its number with its entry,
-- the list is the sequence of the elements from the back to the front, the mutex is a flag, and the
-- keys and `cache.Value` are an interface. One call runs at a time, and a value always has the same
-- size. Recency has the list of pairs that a cache stands for, and Elements, Append, Evict, Insert,
-- Put, Methods and Runs hold the proofs. The eviction takes at most as many rounds as there are
-- elements. Not modelled: the ranges, which only read, and calls that overlap.
--
-- Wire: wire. Codec has readers from bytes, with the errors of `io.ReadFull`, and writers to bytes;
-- writers that fail are left out. Number is the little-endian encoding, VarInt the variable length
-- integers, byte strings and strings of common.go, Header the codecs of blockheader.go and
-- invvect.go, Messages those of msginv.go and msgheaders.go, Locators those of
-- msggetheaders.go and msggetblocks.go, and Tx the transactions of msgtx.go with
-- the witness format: the slab that scripts are read into is the room that is left of it. Tx/Sizes
-- has the sizes and Tx/Locs `PkScriptLocs`; Tx/Laws, Tx/Inputs, Tx/RoundTrip and
-- Tx/Size hold proofs. A signed field is its bit pattern and a time its seconds. Not modelled:
-- buffer pools, hashing, and the other messages.
pub mod Base
pub mod Bech32
pub mod Chanutils
pub mod Coinset
pub mod Bloom
pub mod ConnMgr
pub mod Gcs
pub mod HeaderList
pub mod Lru
pub mod PowCache
pub mod Treap
pub mod Wire
