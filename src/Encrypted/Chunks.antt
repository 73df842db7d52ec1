-- ===== src/Encrypted/Chunks.antt =====
-- The chunks of the container of a plaintext, as decryptChunk reads them.
use gooru.Prelude.{
  ℕ, suc, ◌+◌, ◌-◌, ◌*◌, ◌<◌, ◌≡◌, refl, ap, ◌∙◌, sym, ◌++◌, length, length-append, false, ltb,
  arith, Bool-cases, inl, inr,
}
use gooru.Encrypted.Bytes.{
  Bytes, take, drop, length-take, length-drop, take-all, drop-drop, take-prefix, drop-prefix,
}
use gooru.Encrypted.Format.{Aead, chunk_size, overhead, header_size, header_core, nonce, chunk_aad}
use gooru.Encrypted.Encrypt.{header_tag}
use gooru.Encrypted.Open.{Container, or_authentication}
use gooru.Encrypted.Read.{decrypt_chunk, chunk_plain_length}
use gooru.Encrypted.Reading.{Represents}
use gooru.Encrypted.Layout.{
  container_bytes, sealed_text, sealed_text-step, drop-sealed_text, length-header_core,
  length-header_tag,
}

module _ (aead : Aead) (prefix plain : Bytes) where
  abbrev core : Bytes
  core = header_core (length plain) prefix

  abbrev pub container : Container
  container = record {
    file = container_bytes aead prefix plain;
    aead = aead;
    core = core;
    prefix = prefix;
    size = length plain;
  }

  abbrev chunk : ℕ → Bytes
  chunk index = take chunk_size (drop (index * chunk_size) plain)

  abbrev sealed_chunk : ℕ → Bytes
  sealed_chunk index = aead.seal (nonce prefix index) (chunk index) (chunk_aad core index)

  drop-header :
      length prefix ≡ 16
      → drop header_size (container_bytes aead prefix plain) ≡ sealed_text aead core prefix 0 plain
  unfolding container_bytes
  drop-header h =
      let tag : Bytes = header_tag aead core prefix in
      let size : length (core ++ tag) ≡ header_size = omega (
        arith,
        length-append core tag,
        length-header_core (length plain) prefix h,
        length-header_tag aead core prefix,
      ) in
      drop-prefix header_size (core ++ tag) (sealed_text aead core prefix 0 plain) size

  length-chunk :
      (index : ℕ)
      → index * chunk_size < length plain
      → length (chunk index) ≡ chunk_plain_length (length plain) index
  unfolding chunk_plain_length
  length-chunk index h =
      let tail : Bytes = drop (index * chunk_size) plain in
      let size : length tail ≡ length plain - index * chunk_size =
        length-drop (index * chunk_size) plain in
      elim (Bool-cases (ltb chunk_size (length plain - index * chunk_size))) [
        | inl e ↦ rw e (length-take chunk_size tail (ground (arith, size)))
        | inr e ↦ rw e (ap length (take-all chunk_size tail (ground (arith, size))) ∙ size)
      ]

  -- what `decryptChunk` reads is the sealed chunk
  chunk-ciphertext :
      (index : ℕ)
      → length prefix ≡ 16
      → index * chunk_size < length plain
      → take
          (chunk_plain_length (length plain) index + overhead)
          (drop (header_size + index * (chunk_size + overhead)) (container_bytes aead prefix plain))
        ≡ sealed_chunk index
  chunk-ciphertext index hp h =
      let here : length (sealed_chunk index) ≡ chunk_plain_length (length plain) index + overhead =
        aead.length-seal _ (chunk index) _ ∙ ap (λ n. n + overhead) (length-chunk index h) in
      let tail : Bytes = drop (index * chunk_size) plain in
      let same : 0 + index ≡ index = omega arith in
      let size : chunk_plain_length (length plain) index + overhead ≡ length (sealed_chunk index) =
        sym here in
      let behind : drop (header_size + index * (chunk_size + overhead))
            (container_bytes aead prefix plain)
          ≡ sealed_chunk index ++ sealed_text aead core prefix (suc index) (drop chunk_size tail) =
        sym (drop-drop header_size (index * (chunk_size + overhead)) _)
        ∙ ap (λ b. drop (index * (chunk_size + overhead)) b) (drop-header hp)
        ∙ drop-sealed_text aead core prefix index 0 plain h
        ∙ ap (λ i. sealed_text aead core prefix i tail) same
        ∙ sealed_text-step aead core prefix index tail
            (omega (arith, length-drop (index * chunk_size) plain)) in
      ap (λ b. take (chunk_plain_length (length plain) index + overhead) b) behind
      ∙ take-prefix _ (sealed_chunk index) _ here

  pub container-Represents : length prefix ≡ 16 → Represents container plain
  unfolding decrypt_chunk or_authentication
  container-Represents hp = record {
    sized = refl;
    decrypts = λ index h.
        let buffer = chunk-ciphertext index hp h in
        let long_enough : ltb (length (sealed_chunk index))
              (chunk_plain_length (length plain) index + overhead)
            ≡ false =
          ground (
            arith,
            aead.length-seal (nonce prefix index) (chunk index) (chunk_aad core index),
            length-chunk index h,
          ) in
        rw
          (
            buffer,
            long_enough,
            aead.open_sealed-seal (nonce prefix index) (chunk index) (chunk_aad core index),
          )
          refl;
  }
