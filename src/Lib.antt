-- ===== src/Lib.antt =====
-- A model of the python simulator of the zamlet vector processor (python/zamlet), with theorems.
--
-- The machine is a grid of kamlets, each a grid of jamlets that hold a column of every vector
-- register and a piece of memory. A vector line of memory is spread over all jamlets, element by
-- element, in an order of words that the page's ordering gives. An address is translated in
-- steps: the TLB takes a global address to VPU memory, a line in logical order; the elements are
-- reordered to the physical order of the jamlets' words; each word goes to the kamlet and jamlet
-- of its place in the order; and the cache table says where the jamlet's SRAM holds it. The
-- kamlets rename and lock vector registers, packets travel between them by XY routing, and each
-- kamlet and the lamlet have a synchronizer, which tells its eight neighbours over a bus of its own
-- what it knows: that all places of a region saw an event, with a small packed value. The lamlet
-- keeps the elements of an ordered vector access in a circular buffer.
--
-- Files and the sources that they model:
--   Params, Params/Valid: python/zamlet/params.py, `ZamletParams`, its derived sizes and the
--     checks of `__post_init__`, which are on integers; the rest of the model reads natural numbers.
--   Moore: python/zamlet/moore.py, the Moore curve. Moore/Signed and Moore/Hilbert have the lemmas
--     on its steps and loops, Moore/Inverse the curve as a whole.
--   Addresses/Coords: the coordinate functions of python/zamlet/addresses.py.
--   Addresses/Vline: `VPUAddress`, `LogicalVLineAddress`, `PhysicalVLineAddress`, `KMAddr`, `JSAddr`
--     of the same file, and `CacheTable.addr_to_slot` of python/zamlet/kamlet/cache_table.py. The
--     children are about the reordering in a line, the spread over kamlets, and SRAM.
--   Addresses/Tlb: `TLB`, `PageInfo` and `VLineInfo`: the pages it hands out and takes back.
--     Addresses/Tlb/Translate: the methods that read them, and `GlobalAddress`;
--     Addresses/Tlb/Translate/Back: a page's addresses to VPU memory and back, and Allocated
--     beside it, the page that `allocate_memory` makes;
--     Addresses/Tlb/Chain: chains of translations, and `AddressConverter`.
--   Addresses/Register: `RegAddr`.
--   Kamlet/RenameTable: python/zamlet/kamlet/rename_table.py.
--   Kamlet/RegisterFile: `KamletRegisterFile` of python/zamlet/register_file_slot.py.
--   Kamlet/RegisterSlot: `RegisterFileSlot` there, with the futures that the event loop resolves.
--   Network/Router: the routing decisions of python/zamlet/router.py.
--   Network/Sync: the packed values and packets, Network/Sync/Bus their words on the bus, and
--     Network/Sync/Aggregate the aggregation (its children are about its orders and faults), of
--     python/zamlet/synchronization.py. Network/Sync/Grid has the places and their neighbours, with
--     the regions that a direction stands for; Network/Sync/State what one place knows of one
--     synchronization; Network/Sync/Node `Synchronizer` at one place, with its dictionaries;
--     Network/Sync/Protocol one synchronization at all places, with the packets between them,
--     which `sync_network_connections` of python/zamlet/oamlet/oamlet.py moves.
--   Lamlet/OrderedBuffer: python/zamlet/lamlet/ordered_buffer.py.
--   ControlStructures: python/zamlet/control_structures.py, the fields of headers.
--   Utils: python/zamlet/utils.py.
--   Common, Bits, Digits: shared lists, dictionaries, results, bits and mixed radix numbers.
--   Tests, and the module Tests of each component: concrete runs.
--
-- State is a record that the methods take and return. A python exception is an `err` of `Result`,
-- which ends the call; the state that a failed call leaves behind is not modelled, since it ends
-- the simulation. Log messages have no part in the model. Numbers are natural where the source's
-- are never negative; the Hilbert loops and `KMAddr.bit_offset` use integers, with `&` on two's
-- complement. A page's object stands in two dictionaries of the TLB, so objects are in a store and
-- the dictionaries hold their places.
--
-- Loops are recursion on lists or on fuel. The Hilbert loops have the side of the grid as fuel,
-- since they double or halve the step up to it; `halvings` and `power_of_two_loop` have the value
-- that they halve. The hops of a packet have fuel, and the distance is enough. A synchronization
-- that completes may complete the next one of a chain, with the number of chains as fuel. The loops
-- of the ordered buffer have as many rounds as there are elements up to their bound.
--
-- The network of synchronizers is a step relation: a place sees the event, sends a packet or checks
-- for completion, or a packet is received, in any order. A link holds a packet from its first word
-- to its last. That each place sees the event once, for one use of an identifier, is a premise of
-- the step; the identifier query of the lamlet sees to it.
--
-- Not modelled: the queues of words between synchronizers; the tasks of kamlets, jamlets, memlets and the oamlet, and the protocols between
-- them (transactions, lamlet, the cache table's waiting items); instruction
-- decoding; reports and scripts. `JSAddr.to_k_maddr` is left out: it reads a field that does not
-- exist.
pub mod Common
pub mod Digits
pub mod Bits
pub mod Utils
pub mod Params
pub mod Moore
pub mod Addresses
pub mod ControlStructures
pub mod Kamlet
pub mod Lamlet
pub mod Network
pub mod Tests
