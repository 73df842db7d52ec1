-- ===== src/Encrypted/Finalizing.antt =====
-- The second pass of EncryptStream, with its header, and EncryptStream against Encrypt.
use mathlib.Core.Path.{subst}
use mathlib.Core.List.{append_assoc}
use gooru.Prelude.{
  ℕ, suc, ◌+◌, ◌≤◌, ◌≡◌, refl, ap, ◌∙◌, sym, List, [], ◌∷◌, ◌++◌, length, length-append, some, true,
  false, eqb, arith, Bool-cases, inl, inr,
}
use gooru.Prelude.Int.{pos}
use gooru.Prelude.Compare.{true-eqb}
use gooru.Prelude.Outcome.{ok, ◌>>=◌, ok-injective}
use gooru.Encrypted.Bytes.{Bytes, same_bytes}
use gooru.Encrypted.Format.{
  Aead, key_size, header_core, max_int64, NewHeader, chunk_count, new_aead, new_header_core,
}
use gooru.Encrypted.Encrypt.{Source, header_tag, encrypt}
use gooru.Encrypted.Layout.{sealed_text, container_bytes, length-header_core, length-header_tag}
use gooru.Encrypted.Writing.{encrypt-declared}
use gooru.Encrypted.Stream.{
  Disk, write, write_header, final_header, finalize_stream, encrypt_stream,
}
use gooru.Encrypted.Streaming.{write-over, write-end, stream_chunks-sealed_text}
use gooru.Encrypted.Resealing.{reseal_chunks-sealed_text}

-- the core and the prefix of a final header
pub final_header-core :
    (provisional : Bytes) (size : ℕ) (random : List Bytes) (h : NewHeader)
    → final_header provisional size random ≡ ok h
    → h.core ≡ header_core size h.prefix × same_bytes h.prefix provisional ≡ false
unfolding final_header
final_header-core provisional size [] h e = cc
final_header-core provisional size (prefix ∷ random) h e =
    elim (Bool-cases (same_bytes prefix provisional)) [
      | inl again ↦ final_header-core provisional size random h (rw again at e)
      | inr fresh ↦
          subst (λ k. k.core ≡ header_core size k.prefix × same_bytes k.prefix provisional ≡ false)
            (ok-injective _ h (rw fresh at e)) (refl, fresh)
    ]

module _ (aead : Aead) where
  pub header-fresh :
      (core prefix : Bytes)
      → write_header aead core prefix (record { bytes = []; at = 0 }) ≡ record {
        bytes = core ++ header_tag aead core prefix;
        at = length (core ++ header_tag aead core prefix);
      }
  header-fresh core prefix =
      ap (λ d. write (header_tag aead core prefix) d) (write-end [] core)
      ∙ write-end core (header_tag aead core prefix)

  -- a header over another one
  header-over :
      (core prefix core' tag' text : Bytes) (at : ℕ)
      → length core' ≡ length core
      → length tag' ≡ 16
      → (write_header aead core prefix (record { bytes = core' ++ tag' ++ text; at = at })).bytes
        ≡ core ++ header_tag aead core prefix ++ text
  header-over core prefix core' tag' text at hc ht =
      let tag : Bytes = header_tag aead core prefix in
      let moved : 0 + length core ≡ length core = omega arith in
      ap (λ b. (write tag (write core (record { bytes = b; at = 0 }))).bytes)
        (append_assoc core' tag' text)
      ∙ ap (λ d. (write tag d).bytes) (write-over [] core' (tag' ++ text) core hc)
      ∙ ap (λ n. (write tag (record { bytes = core ++ (tag' ++ text); at = n })).bytes) moved
      ∙ ap (λ (d : Disk). d.bytes)
          (write-over core tag' text tag (omega (arith, ht, length-header_tag aead core prefix)))
      ∙ sym (append_assoc core tag text)

  finalize_stream-container_bytes :
      (random : List Bytes) (old new : NewHeader) (plain : Bytes) (at : ℕ)
      → final_header old.prefix (length plain) random ≡ ok new
      → length old.core ≡ 40
      → length new.prefix ≡ 16
      → (finalize_stream aead random old (record {
        disk = record {
          bytes =
              old.core
              ++ header_tag aead old.core old.prefix
              ++ sealed_text aead old.core old.prefix 0 plain;
          at = at;
        };
        size = length plain;
      })
          >>= λ s. ok s.disk.bytes)
        ≡ ok (container_bytes aead new.prefix plain)
  unfolding finalize_stream container_bytes
  finalize_stream-container_bytes random old new plain at hn hc hp =
      let tag : Bytes = header_tag aead old.core old.prefix in
      let core : new.core ≡ header_core (length plain) new.prefix =
        (final_header-core old.prefix (length plain) random new hn).0 in
      let pass =
        reseal_chunks-sealed_text aead old new (length plain) (chunk_count (length plain)) 0 at
          (old.core ++ tag) plain refl
          (record {
            left = omega arith;
            placed = λ more.
                omega (
                  arith,
                  length-append old.core tag,
                  hc,
                  length-header_tag aead old.core old.prefix,
                );
          }) in
      let size : length old.core ≡ length new.core =
        hc ∙ sym (ap length core ∙ length-header_core (length plain) new.prefix hp) in
      let headed =
        header-over new.core new.prefix old.core tag (sealed_text aead new.core new.prefix 0 plain)
          pass.0 size (length-header_tag aead old.core old.prefix) in
      rw (hn, pass.1)
        (ap ok headed
          ∙ ap
              (λ k. ok (k ++ header_tag aead k new.prefix ++ sealed_text aead k new.prefix 0 plain))
              core)

-- For a key of 32 bytes and nonce prefixes of 16, and a source that does not fail and whose size
-- an int64 holds, EncryptStream into an empty file writes what Encrypt, told the size in advance,
-- writes under the final prefix, which is the first random one that is not the provisional one.
pub encrypt_stream-encrypt :
    (new_x : Bytes → Aead) (provisional : Bytes) (random : List Bytes) (new : NewHeader)
    (src : Source) (key : Bytes)
    → length key ≡ key_size
    → length provisional ≡ 16
    → length new.prefix ≡ 16
    → final_header provisional (length src.rest) random ≡ ok new
    → src.is_broken ≡ false
    → length src.rest ≤ max_int64
    → (encrypt_stream new_x
          (provisional ∷ random)
          (some (record { bytes = []; at = 0 }))
          (some src)
          key
        >>= λ s. ok s.disk.bytes)
      ≡ encrypt new_x (new.prefix ∷ new.random) src (pos (length src.rest)) key
unfolding encrypt_stream new_aead new_header_core
encrypt_stream-encrypt new_x provisional random new src key hk hp hn fresh unbroken fits =
    let aead : Aead = new_x key in
    let core : Bytes = header_core 0 provisional in
    let old : NewHeader = record { core = core; prefix = provisional; random = random } in
    let right : eqb (length key) key_size ≡ true = true-eqb _ _ hk in
    let same : eqb (length src.rest) (length src.rest) ≡ true = true-eqb _ _ refl in
    let start : 0 + length src.rest ≡ length src.rest = omega arith in
    let passed =
      stream_chunks-sealed_text aead core provisional (suc (length src.rest)) 0 src.rest
        (core ++ header_tag aead core provisional) 0 (omega arith) (omega (arith, fits)) in
    let ended =
      finalize_stream-container_bytes aead random old new src.rest
        (length (
          core ++ header_tag aead core provisional ++ sealed_text aead core provisional 0 src.rest))
        fresh (length-header_core 0 provisional hp) hn in
    rw
      (
        encrypt-declared new_x new.prefix new.random src (length src.rest) key,
        right,
        same,
        unbroken,
        header-fresh aead core provisional,
        passed,
        start,
      )
      ended
