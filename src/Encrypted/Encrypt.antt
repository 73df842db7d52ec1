-- ===== src/Encrypted/Encrypt.antt =====
-- Encrypt: the chunk loop over a source, and the declared size.
use gooru.Prelude.{
  ℕ, zero, suc, ◌-◌, List, [], ◌++◌, length, Bool, true, false, eqb, leb, ltb, not, if◌then◌else◌,
}
use gooru.Prelude.Int.{ℤ, pos, negsuc}
use gooru.Prelude.Outcome.{Outcome, ok, err, ◌>>=◌}
use gooru.Encrypted.Bytes.{Bytes, take, drop}
use gooru.Encrypted.Format.{
  Error, plaintext_size, invalid_format, read_failed, endless_loop, Aead, chunk_size, overhead,
  max_uint64, new_aead, nonce, chunk_aad, new_header_core,
}

-- An io.Reader: the bytes it will return, and whether it then fails with an error of its own
-- instead of io.EOF.
pub record Source : Type 0 where
  pub rest : Bytes
  pub is_broken : Bool

-- how io.ReadFull ended
pub data ReadEnd : Type 0 where
  filled at_eof unexpected_eof broken : ReadEnd

pub record ReadFull : Type 0 where
  pub bytes : Bytes
  pub end : ReadEnd
  pub source : Source

-- `io.ReadFull(src, buf)` for a buffer of `n` bytes
unfoldable pub read_full : ℕ → Source → ReadFull
read_full n s =
    if leb n (length s.rest)
    then record {
      bytes = take n s.rest;
      end = filled;
      source = record { rest = drop n s.rest; is_broken = s.is_broken };
    }
    else record {
      bytes = s.rest;
      end =
          if s.is_broken then broken else if eqb (length s.rest) 0 then at_eof else unexpected_eof;
      source = record { rest = []; is_broken = s.is_broken };
    }

abbrev pub is_filled : ReadEnd → Bool
is_filled filled = true
is_filled _ = false

abbrev pub is_broken_end : ReadEnd → Bool
is_broken_end broken = true
is_broken_end _ = false

-- what the loop wrote, and the source after it
pub record Written : Type 0 where
  pub output : Bytes
  pub source : Source

-- The loop `for remaining > 0`; the first argument bounds its iterations.
unfoldable pub encrypt_chunks : ℕ → Aead → Bytes → Bytes → ℕ → ℕ → Source → Outcome Error Written
encrypt_chunks zero aead core prefix remaining index src =
    if ltb 0 remaining then err endless_loop else ok (record { output = []; source = src })
encrypt_chunks (suc bound) aead core prefix remaining index src =
    let want : ℕ = if ltb remaining chunk_size then remaining else chunk_size in
    let chunk : ReadFull = read_full want src in
    let sealed : Bytes = aead.seal (nonce prefix index) chunk.bytes (chunk_aad core index) in
    let rest = encrypt_chunks bound aead core prefix (remaining - want) (suc index) chunk.source in
    if not (ltb 0 remaining)
    then ok (record { output = []; source = src })
    else if not (is_filled chunk.end)
    then err plaintext_size
    else rest >>= λ w. ok (record { output = sealed ++ w.output; source = w.source })

-- the read of one extra byte behind the last chunk
unfoldable pub check_end : Source → Outcome Error (Unit {0})
check_end src =
    let extra : ReadFull = read_full 1 src in
    if ltb 0 (length extra.bytes)
    then err plaintext_size
    else if is_broken_end extra.end
    then err read_failed
    else ok tt

unfoldable pub header_tag : Aead → Bytes → Bytes → Bytes
header_tag aead core prefix = aead.seal (nonce prefix max_uint64) [] core

-- `Encrypt`; the result is what it wrote to a destination that takes every byte.
unfoldable pub encrypt : (Bytes → Aead) → List Bytes → Source → ℤ → Bytes → Outcome Error Bytes
encrypt new_x random src (negsuc n) key = err plaintext_size
encrypt new_x random src (pos size) key = new_aead new_x key >>= λ aead.
    new_header_core size random >>= λ h.
    if not (eqb (length (header_tag aead h.core h.prefix)) overhead)
    then err invalid_format
    else encrypt_chunks size aead h.core h.prefix size 0 src >>= λ w.
        check_end w.source >>= λ _. ok (h.core ++ header_tag aead h.core h.prefix ++ w.output)
