-- ===== src/Encrypted/Stream.antt =====
-- EncryptStream: chunks under a provisional prefix, sealed again once the size is known.
use gooru.Prelude.{
  ℕ, zero, suc, ◌+◌, ◌-◌, ◌*◌, List, [], ◌∷◌, ◌++◌, length, Option, none, some, eqb, ltb, not, ◌&&◌,
  if◌then◌else◌,
}
use gooru.Prelude.Outcome.{Outcome, ok, err, ◌>>=◌}
use gooru.Encrypted.Bytes.{Bytes, take, drop, zeros, same_bytes}
use gooru.Encrypted.Format.{
  Error, invalid_format, plaintext_size, read_failed, random_failed, endless_loop, Aead, chunk_size,
  overhead, header_size, max_int64, new_aead, nonce, chunk_aad, chunk_count, header_core,
  new_header_core, NewHeader,
}
use gooru.Encrypted.Encrypt.{
  Source, ReadFull, read_full, ReadEnd, filled, at_eof, unexpected_eof, broken, header_tag,
}
use gooru.Encrypted.Open.{or_authentication}

-- A seekable file open for reading and writing, of a system on which each call succeeds.
pub record Disk : Type 0 where
  pub bytes : Bytes
  pub at : ℕ

unfoldable pub write : Bytes → Disk → Disk
write new d = record {
  bytes =
      take d.at d.bytes ++ zeros (d.at - length d.bytes) ++ new ++ drop (d.at + length new) d.bytes;
  at = d.at + length new;
}

-- `Seek(n, io.SeekStart)`
abbrev pub seek_start : ℕ → Disk → Disk
seek_start n d = record { bytes = d.bytes; at = n }

-- `io.ReadFull` of `n` bytes of the file, and the file behind them
unfoldable pub reread : ℕ → Disk → Outcome Error (Bytes × Disk)
reread n d =
    let found : Bytes = take n (drop d.at d.bytes) in
    if ltb (length found) n
    then err invalid_format
    else ok (found, record { bytes = d.bytes; at = d.at + n })

pub record Streamed : Type 0 where
  pub disk : Disk
  pub size : ℕ

-- what follows a chunk, by how its read ended
unfoldable pub after_chunk : ReadEnd → Streamed → Outcome Error Streamed → Outcome Error Streamed
after_chunk filled done rest = rest
after_chunk at_eof done rest = ok done
after_chunk unexpected_eof done rest = ok done
after_chunk broken done rest = err read_failed

-- The loop over the source; the first argument bounds its iterations.
unfoldable pub stream_chunks :
    ℕ → Aead → Bytes → Bytes → ℕ → Source → Streamed → Outcome Error Streamed
stream_chunks zero aead core prefix index src done = err endless_loop
stream_chunks (suc bound) aead core prefix index src done =
    let chunk : ReadFull = read_full chunk_size src in
    let n : ℕ = length chunk.bytes in
    let sealed : Bytes = aead.seal (nonce prefix index) chunk.bytes (chunk_aad core index) in
    let next : Streamed =
      if ltb 0 n then record { disk = write sealed done.disk; size = done.size + n } else done in
    let next_index : ℕ = if ltb 0 n then suc index else index in
    let rest = stream_chunks bound aead core prefix next_index chunk.source next in
    if ltb 0 n && ltb (max_int64 - n) done.size
    then err plaintext_size
    else after_chunk chunk.end next rest

-- The final core: `newHeaderCore`, and then new prefixes until one is not the provisional one.
unfoldable pub final_header : Bytes → ℕ → List Bytes → Outcome Error NewHeader
final_header provisional size [] = err random_failed
final_header provisional size (prefix ∷ random) =
    if same_bytes prefix provisional
    then final_header provisional size random
    else ok (record { core = header_core size prefix; prefix = prefix; random = random })

-- one chunk of `finalizeStream`
unfoldable pub reseal_chunk : Aead → NewHeader → NewHeader → ℕ → ℕ → Disk → Outcome Error Disk
reseal_chunk aead old new size index disk =
    let remaining : ℕ = size - index * chunk_size in
    let plain_length : ℕ = if ltb remaining chunk_size then remaining else chunk_size in
    let cipher_offset : ℕ = header_size + index * (chunk_size + overhead) in
    reread (plain_length + overhead) (seek_start cipher_offset disk) >>= λ sealed.
    or_authentication
      (aead.open_sealed (nonce old.prefix index) sealed.0 (chunk_aad old.core index))
    >>= λ plain.
        let final_sealed : Bytes =
          aead.seal (nonce new.prefix index) plain (chunk_aad new.core index) in
        if not (eqb (length final_sealed) (length sealed.0))
        then err invalid_format
        else ok (write final_sealed (seek_start cipher_offset sealed.1))

-- `count` chunks from `index` on
unfoldable pub reseal_chunks : Aead → NewHeader → NewHeader → ℕ → ℕ → ℕ → Disk → Outcome Error Disk
reseal_chunks aead old new size zero index disk = ok disk
reseal_chunks aead old new size (suc count) index disk =
    reseal_chunk aead old new size index disk >>= λ next.
    reseal_chunks aead old new size count (suc index) next

-- the header at the start of the file
abbrev pub write_header : Aead → Bytes → Bytes → Disk → Disk
write_header aead core prefix disk =
    write (header_tag aead core prefix) (write core (seek_start 0 disk))

unfoldable pub finalize_stream : Aead → List Bytes → NewHeader → Streamed → Outcome Error Streamed
finalize_stream aead random old done = final_header old.prefix done.size random >>= λ new.
    reseal_chunks aead old new done.size (chunk_count done.size) 0 done.disk >>= λ disk.
    ok (record {
      disk =
          seek_start (header_size + done.size + chunk_count done.size * overhead)
            (write_header aead new.core new.prefix disk);
      size = done.size;
    })

-- `EncryptStream`; a nil stream is `none`.
unfoldable pub encrypt_stream :
    (Bytes → Aead) → List Bytes → Option Disk → Option Source → Bytes → Outcome Error Streamed
encrypt_stream new_x random none src key = err invalid_format
encrypt_stream new_x random (some dst) none key = err invalid_format
encrypt_stream new_x random (some dst) (some src) key = new_aead new_x key >>= λ aead.
    new_header_core 0 random >>= λ old.
    stream_chunks (suc (length src.rest)) aead old.core old.prefix 0 src
      (record { disk = write_header aead old.core old.prefix dst; size = 0 })
    >>= λ done. finalize_stream aead old.random old done
