-- ===== src/Encrypted/Open.antt =====
-- Open and IsEncryptedFile: what is checked before any content is read.
use gooru.Prelude.{
  ℕ, suc, ◌+◌, ◌*◌, ◌%◌, List, [], ◌∷◌, length, Option, none, some, Bool, false, eqb, ltb, not,
  ◌&&◌, ◌||◌, if◌then◌else◌,
}
use gooru.Prelude.Int.{ℤ, pos, negsuc, ltb_ℤ}
use gooru.Prelude.Outcome.{Outcome, ok, err, ◌>>=◌}
use gooru.Encrypted.Bytes.{Bytes, take, drop, zeros, same_bytes, uint}
use gooru.Encrypted.Format.{
  Error, invalid_format, authentication, not_opened, read_failed, Aead, overhead, magic, version,
  header_core_size, header_size, max_uint64, max_int64, to_int64, new_aead, nonce, chunk_count,
}
use gooru.Encrypted.Encrypt.{Source, ReadFull, read_full, is_filled, is_broken_end}

-- what os.Open and Stat give for a path
pub record Opened : Type 0 where
  pub bytes : Bytes
  pub is_dir : Bool

-- The fields of a File that no operation changes.
pub record Container : Type 0 where
  pub file : Bytes
  pub aead : Aead
  pub core : Bytes
  pub prefix : Bytes
  pub size : ℕ

abbrev pub CacheEntry : Type 0
CacheEntry = (valid : Bool) × (index : ℕ) × Bytes

pub record File : Type 0 where
  pub container : Container
  pub offset : ℕ
  pub cache : List CacheEntry
  pub cache_next : ℕ

abbrev pub empty_cache : List CacheEntry
empty_cache = (false, 0, []) ∷ (false, 0, []) ∷ (false, 0, []) ∷ (false, 0, []) ∷ []

abbrev pub is_plain_header : Bytes → Bool
is_plain_header core =
    same_bytes (take 8 core) magic
    && same_bytes (take 1 (drop 8 core)) (version ∷ [])
    && same_bytes (take 7 (drop 9 core)) (zeros 7)

abbrev pub core_prefix : Bytes → Bytes
core_prefix core = take 16 (drop 24 core)

abbrev pub core_size : Bytes → ℤ
core_size core = to_int64 (uint (take 8 (drop 16 core)))

-- The size checks, each sum without wrap-around: a size above `file_size` is refused first.
unfoldable pub checked_size : ℤ → ℕ → Outcome Error ℕ
checked_size (negsuc n) file_size = err invalid_format
checked_size (pos size) file_size =
    let tags : ℕ = chunk_count size * overhead in
    if ltb file_size size
    then err invalid_format
    else if ltb_ℤ (to_int64 (tags % suc max_uint64)) (pos 0)
        || ltb max_int64 (size + header_size + tags)
    then err invalid_format
    else if not (eqb file_size (header_size + size + tags))
    then err invalid_format
    else ok size

-- `ErrAuthentication` for what the cipher does not open
unfoldable pub or_authentication : Option Bytes → Outcome Error Bytes
or_authentication none = err authentication
or_authentication (some plain) = ok plain

unfoldable pub authenticated : Aead → Bytes → Bytes → Outcome Error Bytes
authenticated aead core tag =
    or_authentication (aead.open_sealed (nonce (core_prefix core) max_uint64) tag core)

unfoldable pub read_header : Aead → Bytes → Outcome Error File
read_header aead bytes =
    let core : Bytes = take header_core_size bytes in
    let tag : Bytes = drop header_core_size (take header_size bytes) in
    if ltb (length bytes) header_size
    then err invalid_format
    else if not (is_plain_header core)
    then err invalid_format
    else authenticated aead core tag >>= λ _.
        checked_size (core_size core) (length bytes) >>= λ size. ok (record {
          container = record {
            file = bytes;
            aead = aead;
            core = core;
            prefix = core_prefix core;
            size = size;
          };
          offset = 0;
          cache = empty_cache;
          cache_next = 0;
        })

-- `Open`, from what the path leads to
unfoldable pub open_file : (Bytes → Aead) → Option Opened → Bytes → Outcome Error File
open_file new_x path key = new_aead new_x key >>= λ aead. elim path [
  | none ↦ err not_opened
  | some opened ↦ if opened.is_dir then err invalid_format else read_header aead opened.bytes
]

-- `IsEncryptedFile`, on the source that os.Open returned
unfoldable pub is_encrypted_file : Option Source → Outcome Error Bool
is_encrypted_file none = err not_opened
is_encrypted_file (some src) =
    let prefix : ReadFull = read_full 9 src in
    if is_broken_end prefix.end
    then err read_failed
    else if not (is_filled prefix.end)
    then ok false
    else ok
        (same_bytes (take 8 prefix.bytes) magic && same_bytes (drop 8 prefix.bytes) (version ∷ []))
