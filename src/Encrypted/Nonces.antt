-- ===== src/Encrypted/Nonces.antt =====
-- Nonces: within a file, and between the passes of EncryptStream.
use mathlib.Core.List.{append_assoc}
use gooru.Prelude.{
  ℕ, suc, ◌≤◌, ◌≡◌, ◌≢◌, refl, ap, ◌∙◌, sym, List, [], ◌∷◌, ◌++◌, length, some, true, false, eqb,
  arith,
}
use gooru.Prelude.Outcome.{ok, ◌>>=◌}
use gooru.Prelude.Compare.{true-eqb}
use gooru.Encrypted.Bytes.{
  Bytes, take, drop, same_bytes, same_bytes_self, take-prefix, drop-prefix, put_uint, uint,
  uint-put_uint,
}
use gooru.Encrypted.Format.{Aead, key_size, header_core, max_int64, max_uint64, nonce, NewHeader}
use gooru.Encrypted.Encrypt.{Source, header_tag}
use gooru.Encrypted.Layout.{sealed_text, container_bytes}
use gooru.Encrypted.Writing.{encrypt-declared}
use gooru.Encrypted.Streaming.{stream_chunks-sealed_text}
use gooru.Encrypted.Stream.{Disk, write_header, stream_chunks, final_header, encrypt_stream}
use gooru.Encrypted.Finalizing.{final_header-core, header-fresh, encrypt_stream-encrypt}

-- Nonces of prefixes of 16 bytes and of uint64 numbers differ if the prefixes or the numbers do.
pub nonce-injective :
    (p q : Bytes) (i j : ℕ)
    → length p ≡ 16
    → length q ≡ 16
    → i ≤ max_uint64
    → j ≤ max_uint64
    → nonce p i ≡ nonce q j
    → p ≡ q × i ≡ j
unfolding nonce
nonce-injective p q i j hp hq hi hj same = (
  sym (take-prefix 16 p (put_uint 8 i) hp)
      ∙ ap (λ b. take 16 b) same
      ∙ take-prefix 16 q (put_uint 8 j) hq,
  sym (uint-put_uint 8 i (omega arith))
      ∙ ap uint (
          sym (drop-prefix 16 p (put_uint 8 i) hp)
          ∙ ap (λ b. drop 16 b) same
          ∙ drop-prefix 16 q (put_uint 8 j) hq)
      ∙ uint-put_uint 8 j (omega arith),
)

-- no nonce of the first prefix is one of the second
final_header-nonce :
    (provisional : Bytes) (size : ℕ) (random : List Bytes) (new : NewHeader) (i j : ℕ)
    → length provisional ≡ 16
    → length new.prefix ≡ 16
    → final_header provisional size random ≡ ok new
    → i ≤ max_uint64
    → j ≤ max_uint64
    → nonce provisional i ≢ nonce new.prefix j
final_header-nonce provisional size random new i j hp hn fresh hi hj same =
    let prefixes : provisional ≡ new.prefix = (nonce-injective _ _ i j hp hn hi hj same).0 in
    let different : same_bytes new.prefix provisional ≡ false =
      (final_header-core provisional size random new fresh).1 in
    true≢false
      (sym (same_bytes_self provisional) ∙ ap (λ p. same_bytes p provisional) prefixes ∙ different)
  where
    true≢false : true ≢ false
    true≢false e = cc

-- header and chunks of `plain` under a prefix, with the size that the header states
abbrev pub sealed_file : Aead → Bytes → ℕ → Bytes → Bytes
sealed_file aead prefix size plain =
    let core : Bytes = header_core size prefix in
    core ++ header_tag aead core prefix ++ sealed_text aead core prefix 0 plain

-- For a key of 32 bytes, nonce prefixes of 16, and a source that does not fail and whose size an
-- int64 holds: the first pass of EncryptStream into an empty file writes the header and the chunks
-- sealed under the provisional prefix, with a size of 0; the second pass leaves the header and the
-- chunks sealed under the final prefix, with the size; and no nonce of the one prefix, of a chunk or
-- of the header, is a nonce of the other.
pub encrypt_stream-nonce :
    (new_x : Bytes → Aead) (provisional : Bytes) (random : List Bytes) (new : NewHeader)
    (plain key : Bytes) (i j : ℕ)
    → length key ≡ key_size
    → length provisional ≡ 16
    → length new.prefix ≡ 16
    → final_header provisional (length plain) random ≡ ok new
    → length plain ≤ max_int64
    → i ≤ max_uint64
    → j ≤ max_uint64
    → (let aead = new_x key in
        let core = header_core 0 provisional in
        let empty : Disk = record { bytes = []; at = 0 } in
        let src : Source = record { rest = plain; is_broken = false } in
        ((stream_chunks
              (suc (length plain))
              aead
              core
              provisional
              0
              src
              (record { disk = write_header aead core provisional empty; size = 0 })
            >>= λ s. ok s.disk.bytes)
          ≡ ok (sealed_file aead provisional 0 plain))
        × ((encrypt_stream new_x (provisional ∷ random) (some empty) (some src) key >>= λ s.
              ok s.disk.bytes)
            ≡ ok (sealed_file aead new.prefix (length plain) plain))
        × (nonce provisional i ≢ nonce new.prefix j))
unfolding container_bytes
encrypt_stream-nonce new_x provisional random new plain key i j hk hp hn fresh fits hi hj =
    let aead : Aead = new_x key in
    let core : Bytes = header_core 0 provisional in
    let right : eqb (length key) key_size ≡ true = true-eqb _ _ hk in
    let same : eqb (length plain) (length plain) ≡ true = true-eqb _ _ refl in
    (
      rw
          (
            header-fresh aead core provisional,
            stream_chunks-sealed_text aead core provisional (suc (length plain)) 0 plain
                (core ++ header_tag aead core provisional) 0 (omega arith) (omega (arith, fits)),
            append_assoc core (header_tag aead core provisional)
                (sealed_text aead core provisional 0 plain),
          )
          refl,
      encrypt_stream-encrypt new_x provisional random new
            (record { rest = plain; is_broken = false }) key hk hp hn fresh refl fits
          ∙ encrypt-declared new_x new.prefix new.random
              (record { rest = plain; is_broken = false }) (length plain) key
          ∙ rw (right, same) refl,
      final_header-nonce provisional (length plain) random new i j hp hn fresh hi hj,
    )
