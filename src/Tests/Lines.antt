-- ===== src/Tests/Lines.antt =====
-- Lines of an input file.
use axon_cache.Prelude.{◌≡◌, refl, List, [], ◌∷◌, Bytes, ok}
use axon_cache.Text.{join}
use axon_cache.Typed.Values.{text, texts}
use axon_cache.Parser.{CacheValueParser, parse_value, sort}
use axon_cache.Parser.Lines.{parse_value-text, parse_value-texts}

abbrev pub commas : CacheValueParser
commas = record { vector_type = b'*'; vector_elem_separator = b','; key_value_separator = b'=' }

parse_value-text_example :
    parse_value commas (b'k' ∷ b'=' ∷ b'v' ∷ b'=' ∷ []) ≡ ok (b'k' ∷ [], text (b'v' ∷ b'=' ∷ []))
parse_value-text_example = parse_value-text commas b'k' [] (b'v' ∷ b'=' ∷ []) (refl, tt) refl

abbrev pair : List Bytes
pair = (b'z' ∷ []) ∷ (b'a' ∷ b'b' ∷ []) ∷ []

parse_value-texts_example :
    parse_value commas (b'*' ∷ b'k' ∷ b'=' ∷ join b',' pair) ≡ ok (b'k' ∷ [], texts (sort pair))
parse_value-texts_example =
    parse_value-texts commas (b'k' ∷ []) (b'z' ∷ []) ((b'a' ∷ b'b' ∷ []) ∷ []) (refl, (refl, tt))
      ((refl, tt), ((refl, (refl, tt)), tt)) (unfold join in refl)

sort_run : sort pair ≡ (b'a' ∷ b'b' ∷ []) ∷ (b'z' ∷ []) ∷ []
unfolding sort
sort_run = refl
