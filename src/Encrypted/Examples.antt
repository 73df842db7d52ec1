-- ===== src/Encrypted/Examples.antt =====
-- The theorems on encrypted files at a small file, under a toy cipher that authenticates nonces.
use gooru.Prelude.{
  ℕ, ◌+◌, ◌-◌, ◌≤◌, ◌≡◌, ◌≢◌, refl, ap, ◌∙◌, sym, List, [], ◌∷◌, ◌++◌, length, length-append,
  Option, none, some, Bool, true, false, ltb, eqb, not, ◌&&◌, arith, All, Bool-cases, if◌then◌else◌,
  inl, inr,
}
use gooru.Prelude.Int.{pos, negsuc}
use gooru.Prelude.Compare.{ltb-true, false-ltb}
use gooru.Prelude.Outcome.{ok, err, ◌>>=◌}
use gooru.Encrypted.Bytes.{
  Bytes, IsByte, take, drop, zeros, take-drop, take-prefix, drop-prefix, length-take, same_bytes,
  same_bytes_correct, same_bytes_self, length-zeros,
}
use gooru.Encrypted.Format.{
  Error, Aead, nonce, NewHeader, header_core, key_size, invalid_key, max_int64, chunk_count,
}
use gooru.Encrypted.Encrypt.{Source, encrypt}
use gooru.Encrypted.Open.{Container, File, open_file, is_encrypted_file}
use gooru.Encrypted.Layout.{container_bytes}
use gooru.Encrypted.Read.{seek_end, seek_current, cached_chunk, decrypt_chunk}
use gooru.Encrypted.Cache.{Serves, cached_chunk-decrypt_chunk}
use gooru.Encrypted.Requests.{
  Request, ask_read, ask_read_at, ask_seek, IsRequest, replies, plain_replies,
}
use gooru.Encrypted.Memory.{replies-plain_replies}
use gooru.Encrypted.Chunks.{container, container-Represents}
use gooru.Encrypted.Opening.{opened_file, read_header-container}
use gooru.Encrypted.RoundTrip.{container_size, encrypt-open-replies, open_file-container}
use gooru.Encrypted.Writing.{declared, encrypt-declared}
use gooru.Encrypted.Stream.{Disk, stream_chunks, write_header, final_header, encrypt_stream}
use gooru.Encrypted.Finalizing.{encrypt_stream-encrypt}
use gooru.Encrypted.Nonces.{sealed_file, encrypt_stream-nonce}
use gooru.Encrypted.Inspecting.{open_file-is_encrypted_file}
use gooru.Encrypted.Tampering.{read_header-container_bytes}

-- 16 bytes that the nonce determines
toy_tag : Bytes → Bytes
toy_tag n = take 16 (drop 8 n ++ zeros 16)

length-toy_tag : (n : Bytes) → length (toy_tag n) ≡ 16
unfolding toy_tag
length-toy_tag n =
    length-take 16 (drop 8 n ++ zeros 16)
      (omega (arith, length-append (drop 8 n) (zeros 16), length-zeros 16))

toy_open : Bytes → Bytes → Option Bytes
toy_open n sealed =
    let size : ℕ = length sealed - 16 in
    if ltb (length sealed) 16
    then none
    else if same_bytes (drop size sealed) (toy_tag n)
    then some (take size sealed)
    else none

toy_open-seal : (n plain : Bytes) → toy_open n (plain ++ toy_tag n) ≡ some plain
unfolding toy_open
toy_open-seal n plain =
    let size : length (plain ++ toy_tag n) ≡ length plain + 16 =
      length-append plain (toy_tag n) ∙ ap (λ k. length plain + k) (length-toy_tag n) in
    let long : ltb (length (plain ++ toy_tag n)) 16 ≡ false = false-ltb _ _ (omega (arith, size)) in
    let left : length (plain ++ toy_tag n) - 16 ≡ length plain = omega (arith, size) in
    rw
      (
        long,
        left,
        drop-prefix (length plain) plain (toy_tag n) refl,
        same_bytes_self (toy_tag n),
        take-prefix (length plain) plain (toy_tag n) refl,
      )
      refl

some-equal : (a b : Bytes) → some a ≡ some b → a ≡ b
some-equal a b h = ap (λ o. elim o [ none ↦ a | some x ↦ x ]) h

seal-toy_open :
    (n sealed plain : Bytes) → toy_open n sealed ≡ some plain → sealed ≡ plain ++ toy_tag n
unfolding toy_open
seal-toy_open n sealed plain h =
    let size : ℕ = length sealed - 16 in
    elim (Bool-cases (ltb (length sealed) 16)) [
      | inl short ↦ none-some (rw short at h)
      | inr long ↦ elim (Bool-cases (same_bytes (drop size sealed) (toy_tag n))) [
        | inr other ↦ none-some (rw (long, other) at h)
        | inl same ↦
            sym (take-drop size sealed)
            ∙ ap (λ b. take size sealed ++ b) (same_bytes_correct _ _ same)
            ∙ ap (λ b. b ++ toy_tag n) (some-equal _ plain (rw (long, same) at h))
      ]
    ]
  where
    none-some : {x y : Bytes} → none ≡ some plain → x ≡ y
    none-some e = cc

abbrev toy : Bytes → Aead
toy key = record {
  seal = λ n plain aad. plain ++ toy_tag n;
  open_sealed = λ n sealed aad. toy_open n sealed;
  open_sealed-seal = λ n plain aad. toy_open-seal n plain;
  seal-open_sealed = λ n sealed aad plain h. seal-toy_open n sealed plain h;
  length-seal = λ n plain aad.
      length-append plain (toy_tag n) ∙ ap (λ k. length plain + k) (length-toy_tag n);
}

abbrev key : Bytes
key = zeros 32

abbrev aead : Aead
aead = toy key

abbrev prefix : Bytes
prefix = 7 ∷ zeros 15

abbrev other_prefix : Bytes
other_prefix = 9 ∷ zeros 15

abbrev plain : Bytes
plain = 10 ∷ 20 ∷ 30 ∷ []

abbrev source : Source
source = record { rest = plain; is_broken = false }

-- past the end, from the start, back from the end, and around the offset
abbrev requests : List Request
requests =
    ask_read 2
    ∷ ask_read 5
    ∷ ask_seek (negsuc 0) seek_end
    ∷ ask_read 1
    ∷ ask_read_at 2 (pos 1)
    ∷ ask_seek (negsuc 9) seek_current
    ∷ []

requests-IsRequest : All IsRequest requests
requests-IsRequest = (tt, (tt, (omega arith, (tt, (tt, (omega arith, tt))))))

small : container_size (length plain) ≤ max_int64
unfolding chunk_count
small = omega arith

encrypt-open-replies_example :
    (encrypt toy (prefix ∷ []) source (pos 3) key >>= λ written.
    open_file toy (some (record { bytes = written; is_dir = false })) key >>= λ f.
    ok (replies requests f))
    ≡ ok (plain_replies plain requests 0)
encrypt-open-replies_example =
    encrypt-open-replies toy prefix [] source key requests refl refl refl small requests-IsRequest

abbrev opened : File
opened = opened_file aead prefix plain

abbrev held : Container
held = container aead prefix plain

-- a cache whose first slot holds the file's chunk
abbrev read_once : File
read_once = record {
  container = held;
  offset = 2;
  cache = (true, 0, plain) ∷ (false, 0, []) ∷ [];
  cache_next = 1;
}

read_once-Serves : Serves held 2 read_once
read_once-Serves = record {
  same = refl;
  at = refl;
  genuine = (
    (λ e. (container-Represents aead prefix plain refl).decrypts 0 (omega arith)),
    ((λ e. cc), tt),
  );
}

replies-plain_replies_example : replies requests read_once ≡ plain_replies plain requests 2
replies-plain_replies_example =
    replies-plain_replies held plain requests read_once 2
      (container-Represents aead prefix plain refl) (omega arith) requests-IsRequest
      read_once-Serves (omega arith)

cached_chunk-decrypt_chunk_example :
    Serves held 2 (cached_chunk read_once 1).file
    × (cached_chunk read_once 1).plain ≡ decrypt_chunk held 1
cached_chunk-decrypt_chunk_example = cached_chunk-decrypt_chunk held 2 read_once 1 read_once-Serves

encrypt-declared_example :
    encrypt toy (prefix ∷ []) (record { rest = plain; is_broken = true }) (pos 4) key ≡ (
      if not (eqb 32 key_size)
      then err invalid_key
      else declared aead prefix (record { rest = plain; is_broken = true }) 4)
encrypt-declared_example =
    encrypt-declared toy prefix [] (record { rest = plain; is_broken = true }) 4 key

-- the provisional prefix comes up once more
abbrev chosen : NewHeader
chosen = record { core = header_core 3 other_prefix; prefix = other_prefix; random = [] }

chosen-final_header : final_header prefix 3 (prefix ∷ other_prefix ∷ []) ≡ ok chosen
unfolding final_header
chosen-final_header = refl

encrypt_stream-encrypt_example :
    (encrypt_stream toy
        (prefix ∷ prefix ∷ other_prefix ∷ [])
        (some (record { bytes = []; at = 0 }))
        (some source)
        key
      >>= λ s. ok s.disk.bytes)
    ≡ encrypt toy (other_prefix ∷ []) source (pos 3) key
encrypt_stream-encrypt_example =
    encrypt_stream-encrypt toy prefix (prefix ∷ other_prefix ∷ []) chosen source key refl refl refl
      chosen-final_header refl (omega arith)

abbrev empty : Disk
empty = record { bytes = []; at = 0 }

encrypt_stream-nonce_example :
    ((stream_chunks 4 aead
          (header_core 0 prefix)
          prefix
          0
          source
          (record { disk = write_header aead (header_core 0 prefix) prefix empty; size = 0 })
        >>= λ s. ok s.disk.bytes)
      ≡ ok (sealed_file aead prefix 0 plain))
    × ((encrypt_stream toy (prefix ∷ prefix ∷ other_prefix ∷ []) (some empty) (some source) key
          >>= λ s. ok s.disk.bytes)
        ≡ ok (sealed_file aead other_prefix 3 plain))
    × (nonce prefix 0 ≢ nonce other_prefix 0)
encrypt_stream-nonce_example =
    encrypt_stream-nonce toy prefix (prefix ∷ other_prefix ∷ []) chosen plain key 0 0 refl refl refl
      chosen-final_header (omega arith) (omega arith) (omega arith)

abbrev written : Bytes
written = container_bytes aead prefix plain

open_file-is_encrypted_file_example :
    is_encrypted_file (some (record { rest = written; is_broken = false })) ≡ ok true
open_file-is_encrypted_file_example =
    open_file-is_encrypted_file toy (record { bytes = written; is_dir = false }) key opened
      (open_file-container toy prefix plain key refl refl small)

abbrev all_bytes : Bytes → Bool
all_bytes [] = true
all_bytes (b ∷ bs) = ltb b 256 && all_bytes bs

all_bytes-IsByte : (bs : Bytes) → all_bytes bs ≡ true → All IsByte bs
all_bytes-IsByte [] h = tt
all_bytes-IsByte (b ∷ bs) h = elim (Bool-cases (ltb b 256)) [
  | inl small ↦ (ltb-true _ _ small, all_bytes-IsByte bs (rw small at h))
  | inr large ↦ absurd (false≢true (rw large at h))
]
  where
    false≢true : false ≢ true
    false≢true e = cc

written-IsByte : all_bytes written ≡ true
unfolding container_bytes header_core toy_tag nonce gooru.Encrypted.Encrypt.header_tag
    gooru.Encrypted.Layout.sealed gooru.Encrypted.Format.chunk_count
written-IsByte = refl

read_header-container_bytes_example : written ≡ container_bytes aead prefix plain
read_header-container_bytes_example =
    read_header-container_bytes aead written plain opened (all_bytes-IsByte written written-IsByte)
      (read_header-container aead prefix plain refl small)
      (container-Represents aead prefix plain refl)
