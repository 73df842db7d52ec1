-- ===== src/Encrypted/Format.antt =====
-- The container's layout: header core, nonces, associated data and the number of chunks.
use gooru.Prelude.{
  ℕ, ◌+◌, ◌-◌, ◌/◌, ◌%◌, ◌≡◌, List, [], ◌∷◌, ◌++◌, length, Option, some, eqb, leb, not,
  if◌then◌else◌,
}
use gooru.Prelude.Int.{ℤ, pos, negsuc}
use gooru.Prelude.Outcome.{Outcome, ok, err}
use gooru.Encrypted.Bytes.{Bytes, zeros, put_uint}

-- The errors of the package, by what the callers can tell apart. `endless_loop` is the model's:
-- a loop that its bound stopped.
pub data Error : Type 0 where
  invalid_key invalid_format authentication plaintext_size end_of_file : Error
  negative_offset negative_position invalid_whence endless_loop : Error
  -- errors of the operating system, and of the other side of a stream
  not_opened read_failed random_failed : Error

abbrev pub magic : Bytes
magic = 71 ∷ 79 ∷ 79 ∷ 82 ∷ 85 ∷ 69 ∷ 78 ∷ 67 ∷ []

abbrev pub version : ℕ
version = 1

abbrev pub chunk_size : ℕ
chunk_size = 1048576

abbrev pub decrypted_chunk_cache_entries : ℕ
decrypted_chunk_cache_entries = 4

abbrev pub nonce_prefix_size : ℕ
nonce_prefix_size = 16

abbrev pub header_core_size : ℕ
header_core_size = 40

-- chacha20poly1305.KeySize and chacha20poly1305.Overhead
abbrev pub key_size : ℕ
key_size = 32

abbrev pub overhead : ℕ
overhead = 16

abbrev pub header_size : ℕ
header_size = header_core_size + overhead

abbrev pub max_uint64 : ℕ
max_uint64 = 18446744073709551615

abbrev pub max_int64 : ℕ
max_int64 = 9223372036854775807

-- `int64(n)` of a uint64
abbrev pub to_int64 : ℕ → ℤ
to_int64 n = if leb n max_int64 then pos n else negsuc (max_uint64 - n)

-- cipher.AEAD of golang.org/x/crypto/chacha20poly1305 under one key: nonce, text, associated
-- data. An authenticated cipher opens what it sealed, and, being deterministic, only that.
pub record Aead : Type 0 where
  pub seal : Bytes → Bytes → Bytes → Bytes
  pub open_sealed : Bytes → Bytes → Bytes → Option Bytes
  pub open_sealed-seal :
      (nonce plain aad : Bytes) → open_sealed nonce (seal nonce plain aad) aad ≡ some plain
  pub seal-open_sealed :
      (nonce sealed aad plain : Bytes)
      → open_sealed nonce sealed aad ≡ some plain
      → sealed ≡ seal nonce plain aad
  pub length-seal : (nonce plain aad : Bytes) → length (seal nonce plain aad) ≡ length plain + 16

-- `newX` is chacha20poly1305.NewX
unfoldable pub new_aead : (Bytes → Aead) → Bytes → Outcome Error Aead
new_aead new_x key = if not (eqb (length key) key_size) then err invalid_key else ok (new_x key)

unfoldable pub nonce : Bytes → ℕ → Bytes
nonce prefix index = prefix ++ put_uint 8 index

unfoldable pub chunk_aad : Bytes → ℕ → Bytes
chunk_aad core index = core ++ put_uint 8 index

unfoldable pub chunk_count : ℕ → ℕ
chunk_count size = (size / chunk_size) + (if not (eqb (size % chunk_size) 0) then 1 else 0)

-- the core for a prefix that crypto/rand returned
unfoldable pub header_core : ℕ → Bytes → Bytes
header_core size prefix = magic ++ version ∷ zeros 7 ++ put_uint 8 size ++ prefix

-- crypto/rand as the prefixes that it will return: the core, the prefix and those left
pub record NewHeader : Type 0 where
  pub core : Bytes
  pub prefix : Bytes
  pub random : List Bytes

unfoldable pub new_header_core : ℕ → List Bytes → Outcome Error NewHeader
new_header_core size [] = err random_failed
new_header_core size (prefix ∷ random) =
    ok (record { core = header_core size prefix; prefix = prefix; random = random })
