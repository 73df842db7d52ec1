-- ===== src/Encrypted/Opening.antt =====
-- Open on what Encrypt wrote.
use gooru.Prelude.{
  ℕ, suc, ◌+◌, ◌*◌, ◌≤◌, ◌≡◌, refl, ap, ◌∙◌, sym, [], ◌++◌, length, length-append, true, false, ltb,
  leb, eqb, arith, ◌%◌,
}
use gooru.Prelude.Int.{pos}
use gooru.Prelude.Outcome.{ok}
use gooru.Encrypted.Bytes.{
  Bytes, take, drop, take-all, take-prefix, drop-prefix, take-drop-take, uint, put_uint,
  uint-put_uint,
}
use gooru.Encrypted.Format.{
  Aead, overhead, header_size, header_core, chunk_count, max_int64, to_int64, nonce, max_uint64,
}
use gooru.Encrypted.Encrypt.{header_tag}
use gooru.Encrypted.Open.{
  File, empty_cache, is_plain_header, core_prefix, core_size, checked_size, authenticated,
  or_authentication, read_header,
}
use gooru.Encrypted.Layout.{
  sealed_text, container_bytes, length-header_core, length-header_tag, length-sealed,
}
use gooru.Encrypted.Chunks.{container}

header_core-plain : (size : ℕ) (prefix : Bytes) → is_plain_header (header_core size prefix) ≡ true
unfolding header_core
header_core-plain size prefix = refl

header_core-prefix :
    (size : ℕ) (prefix : Bytes)
    → length prefix ≡ 16
    → core_prefix (header_core size prefix) ≡ prefix
unfolding header_core
header_core-prefix size prefix h = take-all 16 prefix (omega (arith, h))

header_core-size :
    (size : ℕ) (prefix : Bytes) → size ≤ max_int64 → core_size (header_core size prefix) ≡ pos size
unfolding header_core
header_core-size size prefix h =
    let back : uint (put_uint 8 size) ≡ size = uint-put_uint 8 size (omega arith) in
    let small : leb size max_int64 ≡ true = ground arith in ap to_int64 back ∙ rw small refl

checked_size-whole :
    (size : ℕ)
    → header_size + size + chunk_count size * overhead ≤ max_int64
    → checked_size (pos size) (header_size + size + chunk_count size * overhead) ≡ ok size
unfolding checked_size
checked_size-whole size h =
    let tags : ℕ = chunk_count size * overhead in
    let whole : ℕ = header_size + size + tags in
    let not_wrapped : tags % suc max_uint64 ≡ tags = omega arith in
    let positive : leb tags max_int64 ≡ true = ground arith in
    let first : ltb whole size ≡ false = ground arith in
    let second : ltb tags 0 ≡ false = ground arith in
    let third : ltb max_int64 (size + header_size + tags) ≡ false = ground arith in
    let same : eqb whole whole ≡ true = ground arith in
    rw (first, not_wrapped, positive, second, third, same) refl

module _ (aead : Aead) (prefix plain : Bytes) where
  abbrev core : Bytes
  core = header_core (length plain) prefix

  abbrev pub opened_file : File
  opened_file = record {
    container = container aead prefix plain;
    offset = 0;
    cache = empty_cache;
    cache_next = 0;
  }

  length-container_bytes :
      length prefix ≡ 16
      → length (container_bytes aead prefix plain)
        ≡ header_size + length plain + chunk_count (length plain) * overhead
  unfolding container_bytes
  length-container_bytes h =
      let tag : Bytes = header_tag aead core prefix in
      let text : Bytes = sealed_text aead core prefix 0 plain in
      omega (
        arith,
        length-append (core ++ tag) text,
        length-append core tag,
        length-header_core (length plain) prefix h,
        length-header_tag aead core prefix,
        length-sealed aead core prefix (chunk_count (length plain)) 0 plain refl,
      )

  header-parts :
      length prefix ≡ 16
      → take 40 (container_bytes aead prefix plain) ≡ core
        × drop 40 (take header_size (container_bytes aead prefix plain))
          ≡ header_tag aead core prefix
  unfolding container_bytes
  header-parts h =
      let tag : Bytes = header_tag aead core prefix in
      let text : Bytes = sealed_text aead core prefix 0 plain in
      let first : length core ≡ 40 = length-header_core (length plain) prefix h in
      let size : length (core ++ tag) ≡ header_size =
        omega (arith, length-append core tag, first, length-header_tag aead core prefix) in
      let head : take header_size (core ++ tag ++ text) ≡ core ++ tag =
        take-prefix header_size (core ++ tag) text size in
      (
        sym (take-drop-take 40 0 header_size (core ++ tag ++ text) (omega arith))
            ∙ ap (λ b. take 40 b) head
            ∙ take-prefix 40 core tag first,
        ap (λ b. drop 40 b) head ∙ drop-prefix 40 core tag first,
      )

  authenticated-container :
      length prefix ≡ 16 → authenticated aead core (header_tag aead core prefix) ≡ ok []
  unfolding authenticated header_tag or_authentication
  authenticated-container h =
      rw
        (
          header_core-prefix (length plain) prefix h,
          aead.open_sealed-seal (nonce prefix max_uint64) [] core,
        )
        refl

  pub read_header-container :
      length prefix ≡ 16
      → header_size + length plain + chunk_count (length plain) * overhead ≤ max_int64
      → read_header aead (container_bytes aead prefix plain) ≡ ok opened_file
  unfolding read_header
  read_header-container h fits =
      let parts = header-parts h in
      let size = length-container_bytes h in
      let long_enough : ltb (length (container_bytes aead prefix plain)) header_size ≡ false =
        ground (arith, size) in
      let checked : checked_size (pos (length plain)) (length (container_bytes aead prefix plain))
          ≡ ok (length plain) =
        ap (λ n. checked_size (pos (length plain)) n) size
        ∙ checked_size-whole (length plain) (omega (arith, size, fits)) in
      rw
        (
          long_enough,
          parts.0,
          parts.1,
          header_core-plain (length plain) prefix,
          authenticated-container h,
          header_core-size (length plain) prefix (omega (arith, size, fits)),
          checked,
          header_core-prefix (length plain) prefix h,
        )
        refl
