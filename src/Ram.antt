-- ===== src/Ram.antt =====
-- Raw memory: the byte at each offset from `data()`. The C++ code reads and writes it through
-- `reinterpret_cast` and `memcpy` on a little-endian machine, which is what these helpers spell out.
pub mod Laws
pub mod Encoding
use axon_cache.Prelude.{
  ℕ, zero, suc, ◌+◌, ◌*◌, ◌/◌, ◌%◌, Bool, true, ◌&&◌, List, [], ◌∷◌, ◌==◌, if◌then◌else◌, Bytes,
}

abbrev pub Ram : Type 0
Ram = ℕ → ℕ

abbrev pub poke : Ram → ℕ → ℕ → Ram
poke m a b x = if x == a then b else m x

-- `*(uintN_t *)(data + a)` with a width in bytes
unfoldable pub load : ℕ → Ram → ℕ → ℕ
load zero m a = 0
load (suc w) m a = m a + 256 * load w m (suc a)

-- `*(uintN_t *)(data + a) = v`
unfoldable pub store : ℕ → Ram → ℕ → ℕ → Ram
store zero m a v = m
store (suc w) m a v = store w (poke m a (v % 256)) (suc a) (v / 256)

-- `memcpy(data + a, s.data(), s.size())`
unfoldable pub copy : Ram → ℕ → Bytes → Ram
copy m a [] = m
copy m a (b ∷ bs) = copy (poke m a b) (suc a) bs

-- `std::string_view{data + a, n}`
unfoldable pub view : Ram → ℕ → ℕ → Bytes
view m a zero = []
view m a (suc n) = m a ∷ view m (suc a) n

-- `memcmp(data + a, s.data(), s.size()) == 0`
unfoldable pub memcmp_eq : Ram → ℕ → Bytes → Bool
memcmp_eq m a [] = true
memcmp_eq m a (b ∷ bs) = m a == b && memcmp_eq m (suc a) bs

-- `( const char * )( &v )` with `sizeof( v )` bytes
unfoldable pub le : ℕ → ℕ → Bytes
le zero v = []
le (suc w) v = v % 256 ∷ le w (v / 256)

-- `*( (uintN_t *)s.data() )`; bytes past the end are not the string's
unfoldable pub from_le : Bytes → ℕ
from_le [] = 0
from_le (b ∷ bs) = b + 256 * from_le bs
