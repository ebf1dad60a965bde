-- ===== src/Lib.antt =====
-- lob-project: a limit order book with a matching engine, its wire protocol, and the ingest of
-- NASDAQ ITCH 5.0 feeds into fixtures that the engine is replayed against.
--
-- The parts and their files. Types: engine/include/types.h and event_listener.hpp (orders, sides,
-- 32-bit quantities, the calls of the listener as events). RefBook: engine/src/ref_book.cpp, the
-- reference book on two sorted maps of price levels, with add, cancel, modify and matching; a side
-- is a SortedMap from prices to lists of orders, and the locations are a function from ids.
-- Protocol: protocol/messages.h and message_types.h (Message, MsgType, Layout) and
-- engine/src/codec.cpp (Codec). Runner: engine/src/runner.cpp, which decodes inbound messages,
-- calls a book, and writes the book's events as outbound messages; the book is an interface, and
-- RefBook is an instance of it. Ingest: engine/src/ingest_book.cpp, the book that is rebuilt from
-- ITCH events. Itch: engine/src/itch_parser.cpp, with the loop of engine/src/itch_ingest.cpp in
-- Itch/Main, which feeds IngestBook. Bytes holds the little-endian layout that the structs and the
-- parser share, SortedMap the model of std::map, Base the tests, lists and words.
--
-- Numbers are natural numbers; the operations of the source on 32 and 64 bits keep their
-- wrap-around. Streams are lists of bytes. A method that calls the listener or writes a message
-- returns the events or the messages. Two loops of these parts run on fuel: the retries of a market order, for
-- which two rounds are enough, and the loops over a stream, which use up a byte in every round, so
-- that more fuel than the stream has bytes is enough.
--
-- Bitset: engine/src/hierarchical_bitset.cpp, the set of price ticks in tiers of 64-bit words; the
-- tiers are a list, and the constructor's loop makes at most the four that the source has room for.
-- OrderTable and FastBook: engine/src/fast_book.cpp, the book that is built for speed. OrderTable is
-- its open-addressing hash table from ids to the pool, with ht_find, ht_insert and ht_erase; the
-- loops run on fuel, and a table that keeps an empty slot has enough of it with as many rounds as
-- slots. FastBook is the rest of the class, on the pool of orders, the levels as linked lists of
-- indices, the bitsets and the table; FastBook/Adding has the matching loops and the adding of
-- orders, FastBook/Links and Unlink the linked lists, and FastBook/Valid the invariant, which names
-- for each side and price the queue of indices that the level leads along. The matching loops run
-- on fuel: an inner round for each order of the pool, an outer round for each level.
--
-- Not modelled: the engine that only forwards calls (engine/include/trading_engine.hpp), the
-- legacy book, the benchmarks and tests, and the opening of files in the two main functions.
pub mod Base
pub mod Types
pub mod SortedMap
pub mod RefBook
pub mod Bytes
pub mod Protocol
pub mod Runner
pub mod Ingest
pub mod Itch
pub mod Bitset
pub mod OrderTable
pub mod FastBook
