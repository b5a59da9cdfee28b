-- ===== src/Lib.antt =====
-- AxonCache builds a read-only key-value cache in memory, writes it to a file, and serves reads from
-- the file's bytes. This library models the cache and its files.
--
-- A linear probe cache is one block of bytes: first a key space of 8-byte slots, then a data space of
-- records that are appended and never moved. A slot holds the high bits of a key's hash and, in its
-- low bits, the offset of the key's record; it is 0 if it is free. A put finds the first free slot
-- from the key's hash on, appends the record, and fills the slot; a read walks the same slots.
--
-- Parts, files and their correspondence to the code:
-- - Ram, Bits: bytes by address, little-endian numbers, bit masks; `memcpy`, `memcmp` and loads.
-- - Memory (src/axoncache/memory): MallocMemoryHandler and MemoryHandler::grow. A block has a name
--   that changes with every allocation, so that a pointer into a freed block shows.
-- - Domain (include/axoncache/Constants.h, domain/CacheValue.h, cache/CacheType.h).
-- - Probe (include/axoncache/cache/probe/LinearProbe.h): findKeySlotOffset and
--   findFreeKeySlotOffset are find_key_slot_offset and find_free_key_slot_offset; reading a slot or a
--   record that is not within the data is undefined behaviour.
-- - Value (src/axoncache/cache/value/LinearProbeValue.cpp and its header): add, addToEnd, get,
--   getFromSlot, getWithType, for values and for indices of frequent values.
-- - Table: an open addressing table as a function from slots to entries, with the walk of a probe as
--   an indexed data type. Probe/Find shows that the loops of Probe are such walks.
-- - Cache (include/axoncache/cache/base/HashedCacheBase.h and its source file): new_cache,
--   put_internal, contains, get_internal, get_with_type_internal. Cache/Models states when the bytes
--   represent a partial map; Cache/Outcome, Cache/Lookup, Cache/New and Cache/Run have the
--   refinement of each operation; Cache/Dangling has the state after one of the exceptions.
-- - Math, Chain (include/axoncache/Math.h, include/axoncache/cache/probe/SimpleProbe.h,
--   src/axoncache/cache/value/ChainedValue.cpp): the bucket chain cache. put_chain, get_chain and
--   contains_chain are putInternal, getInternal and contains of HashedCacheBase over SimpleProbe and
--   ChainedValue. Chain/Layout states how the records stand one behind the other, each with the link to
--   the next one of its bucket; Chain/Walks has the loops, Chain/Append and Chain/Write a new record.
-- - Convert (src/axoncache/transformer): StringListToString, StringViewToNullTerminatedString and
--   TypeToString.
-- - Text (include/axoncache/common/StringUtils.h).
-- - Typed (include/axoncache/cache/base/HashedCacheBase.h and its source file): the overloads of put,
--   getString, getBool, getInt64, getDouble, get, getVector, getFloatSpan, readKey, readKeys,
--   getKeyType, over an interface of the lookups (Reader, with its laws in Typed/Reads), which the
--   linear probe cache fills (Typed/Linear).
-- - Typed/Floats: getFloatVector, getFloatAtIndices, getFloatAtIndex; the bodies of the last two are
--   separate definitions, as they are in the code.
-- - Views (include/axoncache/common/StringViewUtils.h and StringConversion.h): splits, trims, and
--   vectors of numbers.
-- - Header (include/axoncache/domain/CacheHeader.h, src/axoncache/writer/detail/GenerateHeader.cpp):
--   write and read of a cache file's header.
-- - Dedup (src/axoncache/cache/LinearProbeDedupCache.cpp and its header): set_duplicated_values,
--   put_dedup (putInternal), get_dedup and get_dedup_with_type (getInternal, getWithTypeInternal);
--   Dedup/Entries and Dedup/Record have what the records say and how they come about, Dedup/Lookup and
--   Dedup/Put the operations on the map of typed values, Dedup/Found and Dedup/Index the index of the
--   frequent values; Dedup/File has output, frequent_values_output and set_frequent_value. The views of
--   the frequent values are their bytes, since nothing writes to them once they are made.
-- - Parser (src/axoncache/parser/CacheValueParser.cpp): parse_value and parse_vector.
-- - MapCache (src/axoncache/cache/base/MapCacheBase.cpp): put, get, getVector, contains and output.
-- - Loader (include/axoncache/loader/CacheOneTimeLoader.h and its source file,
--   src/axoncache/writer/CacheFileWriter.cpp, src/axoncache/memory/MmapMemoryHandler.cpp): write_linear
--   and write_dedup are the bytes of a cache file; open_mmap maps one, open_cache and open_dedup are the
--   caches' constructors over a header, load_absolute_path is loadAbsolutePath; Loader/Names has the
--   names of the files and the timestamp in them. What `open`, `fstat` and `mmap` give is an argument:
--   the bytes of the file, or nothing.
-- - Build (src/axoncache/reader/DataFileReader.cpp, src/axoncache/consumer/CacheValueConsumer.cpp,
--   include/axoncache/builder/CacheFileBuilder.h): read_values is readValues, over what the standard library's
--   `getline` gives (get_lines); build is CacheBuilder::build, and build_files the file builder's
--   constructor and then build. Build/Getline has the lines of a file, Build/Lines and Build/Files the
--   cache that they fill and the file that is built.
-- - Settings (include/axoncache/common/SharedSettingsProvider.h): new_settings is the constructor,
--   get_setting is getString. Settings/Laws has which line counts.
-- - Generator (src/axoncache/CacheGenerator.cpp): new_generator is the constructor of CacheGenerator.
-- - Writer (src/axoncache/capi/CacheWriterCApi.cpp): insert_key is insertKey of AxonCacheWriter, with
--   insert_scalar_key and insert_vector_key; Writer/Codes has the error codes. An error is the value that
--   its message stands for.
-- - Copies (src/axoncache/capi/CacheReaderCApi.cpp): get_key, get_vector_key_item, get_vector_key_size,
--   get_vector_copy, get_long, get_integer, get_double_value, get_flag, get_float_vector_copy,
--   get_key_type_copy and contains_key are the methods of CacheReader. A copy is its bytes, and null is
--   nothing.
-- - Tests: small caches, at which the theorems are applied.
--
-- How the code is read. Numbers are natural numbers with the wrap-around of their type written out.
-- A call ends in a value, in an exception, in undefined behaviour, or in a loop without end
-- (Result), and a call that changes an object returns the object also when it throws. The two probe
-- loops run on fuel of one step more than there are slots, the split of a view at a string on the
-- size of the view, the walks along a chain on one step more than there are bytes; a loop that comes
-- back to its start without an answer does so for ever, and is `diverges`. The theorems on caches
-- show that this does not happen where a slot is free. A `double` and a `float` are their bit
-- patterns.
--
-- Parameters. The hash function is any function into 64-bit numbers. What the code asks of a
-- `double` load factor (comparison with 0.8, and the product with the number of slots, which is
-- undefined where no `uint64_t` holds it) is FloatOps; fast_float and strtod are DoubleParsers and
-- NumberParser.
--
-- Assumptions. `calloc` and `realloc` succeed. Sizes stay below 2^64 (CanGrow).
--
-- Not modelled: logging, the file system, threads, the bindings to other languages, the vendored
-- hash and number parsing libraries, `start` of CacheGenerator, streams that fail while they are read
-- or written, and of the C interface the initialization, the statistics and the frequent values.
pub mod Prelude
pub mod Bits
pub mod Ram
pub mod Memory
pub mod Domain
pub mod Probe
pub mod Value
pub mod Table
pub mod Cache
mod Tests
pub mod Convert
pub mod Text
pub mod Typed
pub mod Views
pub mod Header
pub mod Dedup
pub mod Parser
pub mod MapCache
pub mod Loader
pub mod Build
pub mod Settings
pub mod Generator
pub mod Writer
pub mod Copies
pub mod Math
pub mod Chain
