-- ===== src/Header/RoundTrip.antt =====
-- Reading a cache file's header that was written, and refusing others
-- (src/axoncache/writer/detail/GenerateHeader.cpp).
use axon_cache.Prelude.{
  ℕ, ◌+◌, ◌^◌, ◌≤◌, ◌<◌, ◌≡◌, refl, sym, ap, ◌∙◌, Bytes, ◌++◌, length, length-append, ok, throw,
  arith, malformed_cache, ltb, ◌==◌, true, false,
}
use axon_cache.Ram.{le}
use axon_cache.Convert.Laws.{split_bytes-append}
use axon_cache.Header.{
  CacheHeader, CacheInfo, header_memory, header_bytes, new_header, write, read, behind_first,
  name_loop, c_string,
}
use axon_cache.Header.Fields.{IsHeader, header_of-header_memory}
use axon_cache.Header.Name.{length-print_name, name_loop-print_name}

length-header_memory : (h : CacheHeader) → length (header_memory h) ≡ 72 + length h.cache_name
unfolding header_memory le
length-header_memory h = omega arith

behind_first-header_memory : (h : CacheHeader) → behind_first 72 (header_memory h) ≡ h.cache_name
unfolding header_memory le behind_first
behind_first-header_memory h = refl

ltb-false : {n m : ℕ} → m ≤ n → ltb n m ≡ false
ltb-false h = ground arith

read-header_memory :
    (h : CacheHeader) (name rest : Bytes)
    → IsHeader h
    → h.header_size ≡ 104
    → h.name_start ≡ 72
    → name_loop 32 h.cache_name ≡ ok name
    → read (header_memory h ++ rest) ≡ ok ((name, h), rest)
unfolding read
read-header_memory h name rest i size start loop =
    let whole : length (header_memory h) ≡ 104 =
      omega (arith, length-header_memory h, i.name_size) in
    let long = length-append (header_memory h) rest in
    let split = split_bytes-append (header_memory h) rest 104 (sym whole) in
    let at_name : behind_first h.name_start (header_memory h) ≡ h.cache_name =
      ap (λ (n : ℕ). behind_first n (header_memory h)) start ∙ behind_first-header_memory h in
    let sizes : (h.header_size == h.name_start + 32) ≡ true = rw (size, start) in
    let enough : ltb (length (header_memory h ++ rest)) 104 ≡ false = ltb-false (omega arith) in
    rw (enough, split, header_of-header_memory h i, sizes, at_name, loop)

-- What the cache and the clock report fits the fields.
pub record IsInfo (info : CacheInfo) (now : ℕ) : Type 0 where
  pub version : info.version < 256 ^ 2
  pub type : info.type < 256 ^ 2
  pub hashcode_bits : info.hashcode_bits < 256 ^ 2
  pub offset_bits : info.offset_bits < 256 ^ 2
  pub hash_func_id : info.hash_func_id < 256 ^ 2
  pub max_collisions : info.max_collisions < 256 ^ 4
  pub max_load_factor : info.max_load_factor < 256 ^ 8
  pub creation_time : now < 256 ^ 8
  pub number_of_key_slots : info.number_of_key_slots < 256 ^ 8
  pub number_of_entries : info.number_of_entries < 256 ^ 8
  pub data_size : info.data_size < 256 ^ 8
  pub size : info.size < 256 ^ 8

new_header-IsHeader :
    (info : CacheInfo) (name : Bytes) (now : ℕ) (buffer : Bytes)
    → IsInfo info now
    → length buffer ≡ 32
    → IsHeader (new_header info name now buffer)
unfolding new_header
new_header-IsHeader info name now buffer i h = record {
  magic_number = omega arith;
  header_size = omega arith;
  name_start = omega arith;
  version = i.version;
  cache_type = i.type;
  hashcode_bits = i.hashcode_bits;
  offset_bits = i.offset_bits;
  hash_func_id = i.hash_func_id;
  reserved = omega arith;
  max_collisions = i.max_collisions;
  max_load_factor = i.max_load_factor;
  creation_time_ms = i.creation_time;
  number_of_key_slots = i.number_of_key_slots;
  number_of_entries = i.number_of_entries;
  data_size = i.data_size;
  size = i.size;
  name_size = length-print_name name buffer h;
}

-- Reading an input that begins with a written header gives that header, with the first 31 characters
-- of the name up to a terminator in it, and leaves the rest of the input, if what the cache and the
-- clock report fits the fields.
pub read-write :
    (info : CacheInfo) (name : Bytes) (now : ℕ) (buffer rest : Bytes)
    → IsInfo info now
    → length buffer ≡ 32
    → read (write info name now buffer ++ rest)
      ≡ ok ((c_string 31 name, new_header info name now buffer), rest)
unfolding write
read-write info name now buffer rest i h =
    let header = new_header info name now buffer in
    read-header_memory header (c_string 31 name) rest (new_header-IsHeader info name now buffer i h)
      (unfold new_header in refl) (unfold new_header in refl)
      (unfold new_header in name_loop-print_name name buffer)

pub length-write :
    (info : CacheInfo) (name : Bytes) (now : ℕ) (buffer : Bytes)
    → IsInfo info now
    → length buffer ≡ 32
    → length (write info name now buffer) ≡ header_bytes
unfolding write
length-write info name now buffer i h =
    let fits = new_header-IsHeader info name now buffer i h in
    omega (arith, length-header_memory (new_header info name now buffer), fits.name_size)

-- An input of fewer bytes than a header has is refused.
pub read-short : (input : Bytes) → length input < header_bytes → read input ≡ throw malformed_cache
unfolding read
read-short input h = ground arith
