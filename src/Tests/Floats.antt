-- ===== src/Tests/Floats.antt =====
-- A stored list of two floats.
use axon_cache.Prelude.{◌≡◌, refl, Option, some, [], ◌∷◌, Bytes, ok, arith}
use axon_cache.Domain.{float_list}
use axon_cache.Convert.{floats_to_string}
use axon_cache.Cache.Outcome.{Spec}
use axon_cache.Cache.Lookup.{spec_get, spec_get_with_type}
use axon_cache.Typed.{Reader}
use axon_cache.Typed.Values.{Typed, reals, reals_stored}
use axon_cache.Typed.Reads.{IsReader, Encodes}
use axon_cache.Typed.Floats.{get_float_at_index}
use axon_cache.Typed.Floats.Single.{get_float_at_index-float_answer}
use axon_cache.Tests.Formats.{no_numbers}

abbrev one_two : Bytes → Option Typed
one_two key = some (reals (1065353216 ∷ 1073741824 ∷ []))

abbrev bytes : Spec
bytes key = some (float_list, floats_to_string (1065353216 ∷ 1073741824 ∷ []))

abbrev floats : Reader
floats = record {
  get_internal = λ key type. ok (spec_get (bytes key) type 7);
  get_with_type_internal = λ key. ok (spec_get_with_type (bytes key) 7);
}

floats-IsReader : IsReader (λ _. 7) bytes floats
floats-IsReader = record { get_internal = λ key type. refl; get_with_type_internal = λ key. refl }

floats-Encodes : Encodes bytes one_two
floats-Encodes key = reals_stored (1065353216 ∷ 1073741824 ∷ []) (omega arith, (omega arith, tt))

get_float_at_index-float_answer_example :
    get_float_at_index no_numbers floats [] 1 ≡ ok (1073741824, 7)
get_float_at_index-float_answer_example =
    get_float_at_index-float_answer (λ _. 7) bytes floats floats-IsReader one_two floats-Encodes
      no_numbers [] 1 (omega arith) λ t values e. absurd (cc e)
