-- ===== src/Encrypted/RoundTrip.antt =====
-- Encrypt, then Open, then any sequence of requests.
use gooru.Prelude.{
  ℕ, ◌+◌, ◌*◌, ◌≤◌, ◌≡◌, refl, List, ◌∷◌, length, some, true, false, eqb, All, arith,
}
use gooru.Prelude.Int.{pos}
use gooru.Prelude.Outcome.{ok, ◌>>=◌}
use gooru.Encrypted.Bytes.{Bytes}
use gooru.Encrypted.Format.{Aead, key_size, header_size, overhead, max_int64, chunk_count, new_aead}
use gooru.Encrypted.Encrypt.{Source, encrypt}
use gooru.Encrypted.Layout.{container_bytes}
use gooru.Encrypted.Open.{File, open_file}
use gooru.Encrypted.Cache.{empty-IsGenuine}
use gooru.Encrypted.Chunks.{container, container-Represents}
use gooru.Encrypted.Opening.{opened_file, read_header-container}
use gooru.Encrypted.Writing.{encrypt-declared}
use gooru.Encrypted.Requests.{Request, replies, plain_replies, IsRequest}
use gooru.Encrypted.Memory.{replies-plain_replies}

-- the length of the container of `n` bytes
abbrev pub container_size : ℕ → ℕ
container_size n = header_size + n + chunk_count n * overhead

pub open_file-container :
    (new_x : Bytes → Aead) (prefix plain key : Bytes)
    → length key ≡ key_size
    → length prefix ≡ 16
    → container_size (length plain) ≤ max_int64
    → open_file new_x
        (some (record { bytes = container_bytes (new_x key) prefix plain; is_dir = false }))
        key
      ≡ ok (opened_file (new_x key) prefix plain)
unfolding open_file new_aead
open_file-container new_x prefix plain key hk hp fits =
    let right : eqb (length key) key_size ≡ true = ground arith in
    rw (right, read_header-container (new_x key) prefix plain hp fits) refl

-- Under a key of 32 bytes and a nonce prefix of 16, the file that Encrypt writes for a source
-- whose size is the declared one, if an int64 holds the file's size, can be opened again, and
-- then answers every sequence of Read, ReadAt and Seek requests, with int64 offsets, as a reader
-- of the source's bytes in memory does.
pub encrypt-open-replies :
    (new_x : Bytes → Aead) (prefix : Bytes) (random : List Bytes) (src : Source) (key : Bytes)
    (qs : List Request)
    → length key ≡ key_size
    → length prefix ≡ 16
    → src.is_broken ≡ false
    → container_size (length src.rest) ≤ max_int64
    → All IsRequest qs
    → (encrypt new_x (prefix ∷ random) src (pos (length src.rest)) key >>= λ written.
        open_file new_x (some (record { bytes = written; is_dir = false })) key >>= λ f.
        ok (replies qs f))
      ≡ ok (plain_replies src.rest qs 0)
encrypt-open-replies new_x prefix random src key qs hk hp unbroken fits hq =
    let aead : Aead = new_x key in
    let plain : Bytes = src.rest in
    let right : eqb (length key) key_size ≡ true = ground arith in
    let same : eqb (length plain) (length plain) ≡ true = ground arith in
    let f : File = opened_file aead prefix plain in
    let small : length plain ≤ max_int64 = omega arith in
    let answers =
      replies-plain_replies (container aead prefix plain) plain qs f 0
        (container-Represents aead prefix plain hp) small hq
        (record { same = refl; at = refl; genuine = empty-IsGenuine (container aead prefix plain) })
        (omega arith) in
    rw
      (
        encrypt-declared new_x prefix random src (length plain) key,
        right,
        same,
        unbroken,
        open_file-container new_x prefix plain key hk hp fits,
        answers,
      )
      refl
