-- ===== src/Encrypted/Read.antt =====
-- The File of Open as a Reader, ReaderAt and Seeker over its decrypted-chunk cache.
use gooru.Prelude.{
  ℕ, zero, suc, ◌+◌, ◌-◌, ◌*◌, ◌/◌, ◌%◌, List, [], ◌∷◌, ◌++◌, length, Option, none, some, true,
  false, eqb, leb, ltb, not, ◌&&◌, if◌then◌else◌,
}
use gooru.Prelude.Int.{ℤ, pos, negsuc}
use gooru.Prelude.Outcome.{Outcome, ok, err}
use gooru.Encrypted.Bytes.{Bytes, take, drop}
use gooru.Encrypted.Format.{
  Error, invalid_format, end_of_file, negative_offset, negative_position, invalid_whence,
  endless_loop, chunk_size, overhead, header_size, max_uint64, to_int64, nonce, chunk_aad,
  decrypted_chunk_cache_entries,
}
use gooru.Encrypted.Open.{or_authentication, Container, File, CacheEntry}

-- The index is that of a chunk of the file, so the difference is not negative.
unfoldable pub chunk_plain_length : ℕ → ℕ → ℕ
chunk_plain_length size index =
    let remaining : ℕ = size - index * chunk_size in
    if ltb chunk_size remaining then chunk_size else remaining

unfoldable pub decrypt_chunk : Container → ℕ → Outcome Error Bytes
decrypt_chunk c index =
    let cipher_length : ℕ = chunk_plain_length c.size index + overhead in
    let cipher_offset : ℕ = header_size + index * (chunk_size + overhead) in
    let buffer : Bytes = take cipher_length (drop cipher_offset c.file) in
    if ltb (length buffer) cipher_length
    then err invalid_format
    else or_authentication
        (c.aead.open_sealed (nonce c.prefix index) buffer (chunk_aad c.core index))

unfoldable pub cached_plain : List CacheEntry → ℕ → Option Bytes
cached_plain [] index = none
cached_plain ((valid, at, plain) ∷ entries) index =
    if valid && eqb at index then some plain else cached_plain entries index

unfoldable pub set_entry : ℕ → CacheEntry → List CacheEntry → List CacheEntry
set_entry slot entry [] = []
set_entry zero entry (e ∷ entries) = entry ∷ entries
set_entry (suc slot) entry (e ∷ entries) = e ∷ set_entry slot entry entries

unfoldable pub invalidate : ℕ → List CacheEntry → List CacheEntry
invalidate slot [] = []
invalidate zero ((valid, index, plain) ∷ entries) = (false, index, plain) ∷ entries
invalidate (suc slot) (e ∷ entries) = e ∷ invalidate slot entries

pub record ChunkRead : Type 0 where
  pub file : File
  pub plain : Outcome Error Bytes

-- the file and the result after a miss that `decryptChunk` answered
unfoldable pub cache_miss : File → ℕ → Outcome Error Bytes → ChunkRead
cache_miss f index (err e) = record {
  file = record {
    container = f.container;
    offset = f.offset;
    cache = invalidate f.cache_next f.cache;
    cache_next = f.cache_next;
  };
  plain = err e;
}
cache_miss f index (ok plain) = record {
  file = record {
    container = f.container;
    offset = f.offset;
    cache = set_entry f.cache_next (true, index, plain) f.cache;
    cache_next = suc f.cache_next % decrypted_chunk_cache_entries;
  };
  plain = ok plain;
}

-- from what the search of the cache found
unfoldable pub cache_search : File → ℕ → Option Bytes → ChunkRead
cache_search f index (some plain) = record { file = f; plain = ok plain }
cache_search f index none = cache_miss f index (decrypt_chunk f.container index)

unfoldable pub cached_chunk : File → ℕ → ChunkRead
cached_chunk f index = cache_search f index (cached_plain f.cache index)

-- the file afterwards, the bytes copied to the buffer, and the error
pub record Reading : Type 0 where
  pub file : File
  pub bytes : Bytes
  pub failure : Option Error

-- What an iteration copies from its chunk, which is not shorter than `within`.
abbrev pub copied : ℕ → ℕ → Bytes → Bytes
copied position left plain =
    let within : ℕ = position - (position / chunk_size) * chunk_size in
    let available : ℕ = length plain - within in
    take (if ltb left available then left else available) (drop within plain)

unfoldable pub on_chunk : File → Outcome Error Bytes → (Bytes → Reading) → Reading
on_chunk f (err e) continue = record { file = f; bytes = []; failure = some e }
on_chunk f (ok plain) continue = continue plain

abbrev pub after_part : Bytes → Reading → Reading
after_part part r = record { file = r.file; bytes = part ++ r.bytes; failure = r.failure }

-- The loop `for written < limit` at `position`, with `left` bytes to go; the first argument
-- bounds its iterations.
unfoldable pub read_chunks : ℕ → File → ℕ → ℕ → Reading
read_chunks zero f position left = record {
  file = f;
  bytes = [];
  failure = if ltb 0 left then some endless_loop else none;
}
read_chunks (suc bound) f position left =
    let chunk : ChunkRead = cached_chunk f (position / chunk_size) in
    if not (ltb 0 left)
    then record { file = f; bytes = []; failure = none }
    else on_chunk chunk.file chunk.plain (λ plain.
      let part : Bytes = copied position left plain in
      after_part part (read_chunks bound chunk.file (position + length part) (left - length part)))

abbrev pub or_end_of_file : ℕ → Reading → Reading
or_end_of_file requested r = record {
  file = r.file;
  bytes = r.bytes;
  failure = elim r.failure [
    | some e ↦ some e
    | none ↦ if ltb (length r.bytes) requested then some end_of_file else none
  ];
}

-- `readAt` for a buffer of `requested` bytes
unfoldable pub read_at : File → ℕ → ℤ → Reading
read_at f requested (negsuc n) = record { file = f; bytes = []; failure = some negative_offset }
read_at f requested (pos off) =
    let available : ℕ = f.container.size - off in
    let limit : ℕ = if ltb available requested then available else requested in
    if eqb requested 0
    then record { file = f; bytes = []; failure = none }
    else if leb f.container.size off
    then record { file = f; bytes = []; failure = some end_of_file }
    else or_end_of_file requested (read_chunks limit f off limit)

abbrev pub at_offset : ℕ → File → File
at_offset offset f = record {
  container = f.container;
  offset = offset;
  cache = f.cache;
  cache_next = f.cache_next;
}

unfoldable pub read : File → ℕ → Reading
read f requested =
    let r : Reading = read_at f requested (pos f.offset) in
    record {
      file = at_offset (r.file.offset + length r.bytes) r.file;
      bytes = r.bytes;
      failure = r.failure;
    }

pub data Whence : Type 0 where
  seek_start seek_current seek_end other_whence : Whence

-- int64 addition to a number that is not negative
abbrev pub add_int64 : ℕ → ℤ → ℤ
add_int64 a (pos b) = to_int64 ((a + b) % suc max_uint64)
add_int64 a (negsuc b) = if ltb b a then pos (a - suc b) else negsuc (b - a)

pub record Seeking : Type 0 where
  pub file : File
  pub at : ℕ
  pub failure : Option Error

unfoldable pub seek_to : File → ℤ → Seeking
seek_to f (negsuc n) = record { file = f; at = f.offset; failure = some negative_position }
seek_to f (pos next) = record { file = at_offset next f; at = next; failure = none }

unfoldable pub seek : File → ℤ → Whence → Seeking
seek f offset seek_start = seek_to f offset
seek f offset seek_current = seek_to f (add_int64 f.offset offset)
seek f offset seek_end = seek_to f (add_int64 f.container.size offset)
seek f offset other_whence = record { file = f; at = f.offset; failure = some invalid_whence }
