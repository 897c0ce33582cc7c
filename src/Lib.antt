-- ===== src/Lib.antt =====
-- The OSRM backend: a routing engine over road networks. The extractor reads OSM data, the
-- contractor turns the road network into an edge-based graph (with the turn restrictions) and
-- contracts it to a hierarchy, and the server answers HTTP requests by searches over the hierarchy
-- and prints the routes it finds. This library models the contraction of a node, the steps
-- of these searches, and the data structures, parsers and encoders that the parts stand on.
--
--   DataStructures/BinaryHeap        DataStructures/BinaryHeap.h: the addressable priority queue of every
--                                    search. heap is the C++ vector with its sentinel, inserted_nodes
--                                    the vector of nodes, node_index one of the three storages.
--   DataStructures/RestrictionMap    DataStructures/RestrictionMap.cpp: turn restrictions by edge.
--   DataStructures/DynamicGraph      DataStructures/DynamicGraph.h: the graph that the contractor changes.
--   DataStructures/ConcurrentQueue   DataStructures/ConcurrentQueue.h: a bounded queue under a mutex;
--                                    Wakeups has the threads that wait on its condition variables.
--   DataStructures/LruCache          DataStructures/LRUCache.h: a list and a map from keys to its elements.
--   DataStructures/ImportEdge        DataStructures/ImportEdge.cpp: the orders the contractor sorts by.
--   Server/RequestParser             Server/RequestParser.cpp: the HTTP state machine, one character at a
--                                    time. A Session holds the parser's fields and what Parse refers to.
--   Algorithms/PolylineCompressor    Algorithms/PolylineCompressor.cpp: the text encoding of a route.
--   Util/StringUtil                  Util/StringUtil.h: JSON escapes and URI decoding.
--   DataStructures/StaticGraph       DataStructures/StaticGraph.h: the graph that the searches run on.
--   DataStructures/TurnInstructions  DataStructures/TurnInstructions.h: the instruction for an angle.
--   DataStructures/RangeTable        DataStructures/RangeTable.h: the parts of a text, in blocks.
--   Contractor/GeometryCompressor    Contractor/GeometryCompressor.cpp: the nodes on compressed edges. Its file
--                                    is read by Server/DataStructures/InternalDataFacade.h, modelled in
--                                    Server/InternalDataFacade.
--   RoutingAlgorithms/BasicRoutingInterface
--                                    RoutingAlgorithms/BasicRoutingInterface.h: the steps of the searches, on
--                                    the static graph and the binary heap; Search is RoutingStep, PackedPath
--                                    reads off the path that the heaps have recorded.
--   DataStructures/XorFastHash       DataStructures/XORFastHash.h: the hash of the contractor's tie breaking.
--   Contractor/Contractor            Contractor/Contractor.h: WitnessSearch is Dijkstra, ContractNode,
--                                    DeleteIncoming and Independence are the functions of their names, and
--                                    InsertShortcuts is the part of Run that inserts the noted edges; Round
--                                    composes them for one node. They run on the
--                                    dynamic graph and the binary heap.
--   DataStructures/XorFastHashStorage
--                                    DataStructures/XORFastHashStorage.h: a hash table with open addressing.
--   Prelude                          Arrays with bounds checks, the option monad, numbers, integers, texts.
--
-- Functions keep the source's names in lower case (DeleteMin is delete_min). A vector is an Array: a
-- size and the elements by index. An operation that an assertion, an index out of range or a failed
-- lookup can stop returns an option, and `none` is the failure. Counters and ids are natural
-- numbers, with the 32-bit shift of the heap written out; a function that relies on a bound has it
-- as a hypothesis. The loops of the heap run on fuel, which is the size of the heap: each round
-- moves the position at least to its half or its double, so the fuel is enough. The encoder's loop
-- recurses on the accessibility of its number. UnpackEdge's loop ends within twice the edge's weight of
-- rounds, since the halves of a shortcut share its weight, and the walk along the parents of a search
-- within the distance of its node, since each step is an edge of positive length.
--
-- Not modelled: file, network and shared-memory access, floating-point geometry, third-party code,
-- the parallel loops around the contraction of a node, the searches around the routing step, which
-- are glue over it or use geometry, and the static r-tree. Priorities of nodes are floats, of which
-- the model takes the comparisons as parameters. The index of the contractor's heap is a map, within
-- the limits under which the hash table is one: fewer than 2 ^ 16 nodes and a timestamp below 2 ^ 32
-- - 1 (Contractor/Contractor/Index); beyond them an insertion or a clearing fails. The witness
-- search of a contraction ends after the source's limit of 1000 or 2000 nodes. The loop of the hash
-- table has seen all positions it can come to after 2 ^ 16 rounds.
pub mod Prelude
pub mod Server
pub mod DataStructures
pub mod Algorithms
pub mod Util
pub mod Contractor
pub mod RoutingAlgorithms
