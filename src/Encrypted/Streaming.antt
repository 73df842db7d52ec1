-- ===== src/Encrypted/Streaming.antt =====
-- The first pass of EncryptStream: the source's sealed text, behind what the file holds.
use mathlib.Core.List.{append_assoc, append-nil}
use gooru.Prelude.{
  ℕ, zero, suc, ◌+◌, ◌-◌, ◌≤◌, ◌<◌, ◌≡◌, refl, ap, ◌∙◌, sym, [], ◌++◌, length, length-append, true,
  false, ltb, leb, eqb, arith, Bool-cases, inl, inr,
}
use gooru.Prelude.Compare.{leb-true, leb-false, eqb-true, eqb-false, true-ltb, false-ltb}
use gooru.Prelude.Outcome.{ok}
use gooru.Encrypted.Bytes.{
  Bytes, take, drop, length-take, length-drop, drop-drop, take-all, drop-all, take-prefix,
  drop-prefix,
}
use gooru.Encrypted.Format.{Aead, chunk_size, max_int64, nonce, chunk_aad}
use gooru.Encrypted.Encrypt.{read_full}
use gooru.Encrypted.Layout.{sealed_text, sealed_text-nil, sealed_text-step}
use gooru.Encrypted.Stream.{write, Streamed, after_chunk, stream_chunks}

-- a write over bytes that are there
pub write-over :
    (before over after new : Bytes)
    → length over ≡ length new
    → write new (record { bytes = before ++ (over ++ after); at = length before })
      ≡ record { bytes = before ++ (new ++ after); at = length before + length new }
unfolding write
write-over before over after new h =
    let bytes : Bytes = before ++ (over ++ after) in
    let none_missing : length before - length bytes ≡ 0 =
      omega (arith, length-append before (over ++ after)) in
    let left : take (length before) bytes ≡ before =
      take-prefix (length before) before (over ++ after) refl in
    let right : drop (length before + length new) bytes ≡ after =
      sym (drop-drop (length before) (length new) bytes)
      ∙ ap (λ b. drop (length new) b) (drop-prefix (length before) before (over ++ after) refl)
      ∙ drop-prefix (length new) over after h in
    rw (none_missing, left, right, append-nil before, append_assoc before new after) refl

-- a write at the end of the file
pub write-end :
    (bytes new : Bytes)
    → write new (record { bytes = bytes; at = length bytes })
      ≡ record { bytes = bytes ++ new; at = length (bytes ++ new) }
unfolding write
write-end bytes new =
    let none_missing : length bytes - length bytes ≡ 0 = omega arith in
    let left : take (length bytes) bytes ≡ bytes = take-all (length bytes) bytes (omega arith) in
    let right : drop (length bytes + length new) bytes ≡ [] =
      drop-all (length bytes + length new) bytes (omega arith) in
    rw
      (
        none_missing,
        left,
        right,
        append-nil bytes,
        append-nil (bytes ++ new),
        length-append bytes new,
      )
      refl

abbrev pub at_end : Bytes → ℕ → Streamed
at_end bytes size = record { disk = record { bytes = bytes; at = length bytes }; size = size }

module _ (aead : Aead) (core prefix : Bytes) where
  -- The loop ends, whatever the source's length, and appends the text it seals.
  pub stream_chunks-sealed_text :
      (bound index : ℕ) (xs bytes : Bytes) (size : ℕ)
      → length xs < bound
      → size + length xs ≤ max_int64
      → stream_chunks bound aead core prefix index
          (record { rest = xs; is_broken = false })
          (at_end bytes size)
        ≡ ok (at_end (bytes ++ sealed_text aead core prefix index xs) (size + length xs))
  unfolding stream_chunks read_full after_chunk
  stream_chunks-sealed_text zero index xs bytes size bounded fits = absurd (omega (arith, bounded))
  stream_chunks-sealed_text (suc bound) index xs bytes size bounded fits =
      elim (Bool-cases (leb chunk_size (length xs))) [
        | inl full ↦
            let large : chunk_size ≤ length xs = leb-true _ _ full in
            let size_first : length (take chunk_size xs) ≡ chunk_size =
              length-take chunk_size xs large in
            let room : ltb (max_int64 - chunk_size) size ≡ false =
              false-ltb _ _ (omega (arith, large, fits)) in
            let first : Bytes =
              aead.seal (nonce prefix index) (take chunk_size xs) (chunk_aad core index) in
            let later : Bytes = drop chunk_size xs in
            let left : length later ≡ length xs - chunk_size = length-drop chunk_size xs in
            let total : size + chunk_size + length later ≡ size + length xs =
              omega (arith, left, large) in
            let ih =
              stream_chunks-sealed_text bound (suc index) later (bytes ++ first) (size + chunk_size)
                (omega (arith, left, large, bounded)) (omega (arith, total, fits)) in
            rw
              (
                full,
                size_first,
                room,
                write-end bytes first,
                ih,
                total,
                sealed_text-step aead core prefix index xs (omega (arith, large)),
                append_assoc bytes first (sealed_text aead core prefix (suc index) later),
              )
              refl
        | inr short ↦
            let small : length xs < chunk_size = leb-false _ _ short in
            elim (Bool-cases (eqb (length xs) 0)) [
              | inl empty ↦
                  let none_left : length xs ≡ 0 = eqb-true _ _ empty in
                  let same : size + 0 ≡ size = omega arith in
                  let nothing : xs ≡ [] = sym (take-all 0 xs (omega (arith, none_left))) in
                  rw (nothing, sealed_text-nil aead core prefix index, append-nil bytes, same) refl
              | inr partial ↦
                  let some_left : 0 < length xs = omega (arith, eqb-false _ _ partial) in
                  let room : ltb (max_int64 - length xs) size ≡ false =
                    false-ltb _ _ (omega (arith, fits)) in
                  let some_read : ltb 0 (length xs) ≡ true = true-ltb _ _ some_left in
                  let first : Bytes = aead.seal (nonce prefix index) xs (chunk_aad core index) in
                  rw
                    (
                      short,
                      some_read,
                      room,
                      write-end bytes first,
                      partial,
                      sealed_text-step aead core prefix index xs some_left,
                      take-all chunk_size xs (omega (arith, small)),
                      drop-all chunk_size xs (omega (arith, small)),
                      sealed_text-nil aead core prefix (suc index),
                      append-nil first,
                    )
                    refl
            ]
      ]
