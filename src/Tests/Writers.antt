-- ===== src/Tests/Writers.antt =====
-- An insert through the C interface.
use axon_cache.Prelude.{none, []}
use axon_cache.Cache.{Cache}
use axon_cache.Writer.{Parsers, Writer}
use axon_cache.Tests.Linear.{fresh}
use axon_cache.Tests.TypedCache.{no_parsers}
use axon_cache.Tests.Formats.{no_numbers}

abbrev writer : Writer Cache
writer = record { cache = fresh; collisions_counter = []; offset_bits = 16; last_error = none }

abbrev parsers : Parsers
parsers = record { doubles = no_parsers; floats = no_numbers }
