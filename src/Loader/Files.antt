-- ===== src/Loader/Files.antt =====
-- A file that was written is mapped behind its header
-- (src/axoncache/memory/MmapMemoryHandler.cpp, src/axoncache/writer/detail/GenerateHeader.cpp).
use axon_cache.Prelude.{
  ℕ, zero, suc, ◌+◌, ◌≤◌, ◌<◌, ◌≡◌, refl, ap, ◌∙◌, subst, some, [], ◌∷◌, ◌++◌, Bytes, length,
  length-append, arith, leb, false, Returns,
}
use axon_cache.Ram.{Ram, view}
use axon_cache.Ram.Laws.{Agree}
use axon_cache.Ram.Encoding.{At, at_end, at_byte}
use axon_cache.Memory.{Memory, new_mmap}
use axon_cache.Header.{CacheHeader}
use axon_cache.Probe.{Probe}
use axon_cache.Probe.Holds.{SlotHolds-Agree}
use axon_cache.Cache.{Hasher}
use axon_cache.Cache.Models.{Map, Represents}
use axon_cache.Loader.{byte_at, open_mmap}

byte_at-right : (xs ys : Bytes) (a : ℕ) → byte_at (xs ++ ys) (length xs + a) ≡ byte_at ys a
unfolding byte_at
byte_at-right [] ys a = let same : 0 + a ≡ a = omega arith in ap (byte_at ys) same
byte_at-right (x ∷ xs) ys a =
    let same : suc (length xs) + a ≡ suc (length xs + a) = omega arith in
    ap (byte_at (x ∷ (xs ++ ys))) same ∙ byte_at-right xs ys a

byte_at-behind :
    (xs ys : Bytes) (n a : ℕ) → length xs ≡ n → byte_at (xs ++ ys) (n + a) ≡ byte_at ys a
byte_at-behind xs ys n a e =
    subst (λ (k : ℕ). byte_at (xs ++ ys) (k + a) ≡ byte_at ys a) e (byte_at-right xs ys a)

byte_at-left : (xs ys : Bytes) (a : ℕ) → a < length xs → byte_at (xs ++ ys) a ≡ byte_at xs a
unfolding byte_at
byte_at-left [] ys a h = absurd (omega arith)
byte_at-left (x ∷ xs) ys zero h = refl
byte_at-left (x ∷ xs) ys (suc a) h = byte_at-left xs ys a (omega arith)

byte_at-view : (m : Ram) (s n a : ℕ) → a < n → byte_at (view m s n) a ≡ m (s + a)
unfolding byte_at view
byte_at-view m s zero a h = absurd (omega arith)
byte_at-view m s (suc n) zero h = let same : s ≡ s + 0 = omega arith in ap m same
byte_at-view m s (suc n) (suc a) h =
    let same : suc s + a ≡ s + suc a = omega arith in
    byte_at-view m (suc s) n a (omega arith) ∙ ap m same

pub length-view : (m : Ram) (a n : ℕ) → length (view m a n) ≡ n
unfolding view
length-view m a zero = refl
length-view m a (suc n) = omega (arith, length-view m (suc a) n)

-- A text that the bytes spell stands there.
byte_at-At :
    (m : Ram) (a : ℕ) (bs : Bytes)
    → ((i : ℕ) → i < length bs → m (a + i) ≡ byte_at bs i)
    → At m a bs
unfolding byte_at
byte_at-At m a [] h = at_end
byte_at-At m a (b ∷ bs) h =
    let start : a ≡ a + 0 = omega arith in
    at_byte (ap m start ∙ h 0 (omega arith)) (
      byte_at-At m (suc a) bs λ i lt.
        let shift : suc a + i ≡ a + suc i = omega arith in ap m shift ∙ h (suc i) (omega arith))

-- The map is in the bytes still when they are copied, and more follows them.
pub Represents-Agree :
    (h : Hasher) (f : Map) (p : Probe) (m n : Ram) (end end' entries : ℕ)
    → Represents h f p m end entries
    → end ≤ end'
    → Agree n m 0 end
    → Represents h f p n end' entries
Represents-Agree h f p m n end end' entries v le same = record {
  probe = v.probe;
  above = omega (arith, v.above);
  table = v.table;
  held = λ i lt.
      SlotHolds-Agree h.hash p m n end end' i (v.table i) (v.held i lt) le
        (λ x lo hi. same x (omega arith) (omega (arith, v.above)))
        (λ x lo hi. same x (omega arith) hi);
  reaches = v.reaches;
  counted = v.counted;
  room = v.room;
  sound = v.sound;
  complete = v.complete;
}

-- The memory that a file of a header, data and more maps to.
pub record Mapped (header : Bytes) (source : Ram) (size : ℕ) (rest : Bytes) (m : Memory)
    : Type 0 where
  pub end : m.data_size ≡ size + length rest
  pub copied : Agree m.bytes source 0 size
  pub behind : At m.bytes size rest

pub open_mmap-Mapped :
    (info : CacheHeader) (header : Bytes) (source : Ram) (size : ℕ) (rest : Bytes)
    → info.header_size ≡ length header
    → 1 ≤ size
    → Returns
        (open_mmap info (some (header ++ (view source 0 size ++ rest))))
        (Mapped header source size rest)
unfolding open_mmap new_mmap
open_mmap-Mapped info header source size rest sized some_data =
    let file = header ++ (view source 0 size ++ rest) in
    let whole : length file ≡ length header + size + length rest = omega (
      arith,
      length-append header (view source 0 size ++ rest),
      length-append (view source 0 size) rest,
      length-view source 0 size,
    ) in
    let longer : leb (length file) (length header) ≡ false = ground arith in
    (
      new_mmap (length header) (length file) (byte_at file),
      rw (sized, longer) refl,
      record {
        end = omega (arith, whole);
        copied = λ x lo hi.
            byte_at-right header _ x
            ∙ byte_at-left (view source 0 size) rest x (omega (arith, length-view source 0 size))
            ∙ byte_at-view source 0 size x hi
            ∙ (let start : 0 + x ≡ x = omega arith in ap source start);
        behind = byte_at-At _ size rest λ i lt.
            byte_at-right header _ (size + i)
            ∙ byte_at-behind (view source 0 size) rest size i (length-view source 0 size);
      },
    )
