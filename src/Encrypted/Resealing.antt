-- ===== src/Encrypted/Resealing.antt =====
-- The second pass of EncryptStream: every chunk in place, under the final prefix.
use mathlib.Core.List.{append_assoc}
use gooru.Prelude.{
  ℕ, zero, suc, ◌+◌, ◌-◌, ◌*◌, ◌<◌, ◌≡◌, refl, ap, ◌∙◌, sym, [], ◌++◌, length, length-append, true,
  false, ltb, eqb, arith, Bool-cases, if◌then◌else◌, inl, inr,
}
use gooru.Prelude.Compare.{ltb-true, ltb-false, false-ltb, true-eqb}
use gooru.Prelude.Outcome.{ok}
use gooru.Encrypted.Bytes.{
  Bytes, take, drop, length-take, length-drop, take-all, take-prefix, drop-prefix,
}
use gooru.Encrypted.Format.{
  Aead, chunk_size, overhead, header_size, chunk_count, nonce, chunk_aad, NewHeader,
}
use gooru.Encrypted.Open.{or_authentication}
use gooru.Encrypted.Layout.{
  sealed_text, sealed_text-nil, sealed_text-step, chunk_count-step, chunk_count-pos,
  chunk_count-none,
}
use gooru.Encrypted.Stream.{reread, reseal_chunk, reseal_chunks}
use gooru.Encrypted.Streaming.{write-over}

-- a read of bytes that are there
reread-there :
    (n : ℕ) (before over after : Bytes)
    → length over ≡ n
    → reread n (record { bytes = before ++ (over ++ after); at = length before })
      ≡ ok (over, record { bytes = before ++ (over ++ after); at = length before + n })
unfolding reread
reread-there n before over after h =
    let there : take n (drop (length before) (before ++ (over ++ after))) ≡ over =
      ap (λ b. take n b) (drop-prefix (length before) before (over ++ after) refl)
      ∙ take-prefix n over after h in
    let whole : ltb (length over) n ≡ false = false-ltb _ _ (omega (arith, h)) in
    rw (there, whole) refl

module _ (aead : Aead) (old new : NewHeader) (size : ℕ) where
  abbrev old_chunk : ℕ → Bytes → Bytes
  old_chunk index tail =
      aead.seal (nonce old.prefix index) (take chunk_size tail) (chunk_aad old.core index)

  abbrev new_chunk : ℕ → Bytes → Bytes
  new_chunk index tail =
      aead.seal (nonce new.prefix index) (take chunk_size tail) (chunk_aad new.core index)

  -- `tail` is what the chunks from `index` on hold
  pub record IsAt (index : ℕ) (before tail : Bytes) : Type 0 where
    pub left : size - index * chunk_size ≡ length tail
    pub placed : 0 < length tail → length before ≡ header_size + index * (chunk_size + overhead)

  plain_length :
      (tail : Bytes)
      → length (take chunk_size tail)
        ≡ (if ltb (length tail) chunk_size then length tail else chunk_size)
  plain_length tail = elim (Bool-cases (ltb (length tail) chunk_size)) [
    | inl e ↦ rw e (ap length (take-all chunk_size tail (omega (arith, ltb-true _ _ e))))
    | inr e ↦ rw e (length-take chunk_size tail (ltb-false _ _ e))
  ]

  reseal_chunk-chunk :
      (index at : ℕ) (before tail after : Bytes)
      → IsAt index before tail
      → 0 < length tail
      → reseal_chunk aead old new size index
          (record { bytes = before ++ (old_chunk index tail ++ after); at = at })
        ≡ ok (record {
          bytes = before ++ (new_chunk index tail ++ after);
          at = length before + length (new_chunk index tail);
        })
  unfolding reseal_chunk or_authentication
  reseal_chunk-chunk index at before tail after is_at some_left =
      let place = sym (is_at.placed some_left) in
      let old_size =
        aead.length-seal (nonce old.prefix index) (take chunk_size tail)
          (chunk_aad old.core index) in
      let new_size =
        aead.length-seal (nonce new.prefix index) (take chunk_size tail)
          (chunk_aad new.core index) in
      let sealed_size : length (old_chunk index tail)
          ≡ (if ltb (length tail) chunk_size then length tail else chunk_size) + overhead =
        old_size ∙ ap (λ n. n + overhead) (plain_length tail) in
      let same : eqb (length (new_chunk index tail)) (length (old_chunk index tail)) ≡ true =
        true-eqb _ _ (omega (arith, old_size, new_size)) in
      rw
        (
          is_at.left,
          place,
          reread-there _ before (old_chunk index tail) after sealed_size,
          aead.open_sealed-seal (nonce old.prefix index) (take chunk_size tail)
              (chunk_aad old.core index),
          same,
          write-over before (old_chunk index tail) after (new_chunk index tail)
              (omega (arith, old_size, new_size)),
        )
        refl

  -- Chunks that were sealed under the old prefix are sealed under the new one.
  pub reseal_chunks-sealed_text :
      (count index at : ℕ) (before tail : Bytes)
      → count ≡ chunk_count (length tail)
      → IsAt index before tail
      → (at' : ℕ) × (reseal_chunks aead old new size count index
            (record { bytes = before ++ sealed_text aead old.core old.prefix index tail; at = at })
          ≡ ok (record {
            bytes = before ++ sealed_text aead new.core new.prefix index tail;
            at = at';
          }))
  unfolding reseal_chunks
  reseal_chunks-sealed_text zero index at before tail all is_at =
      let nothing : tail ≡ [] =
        sym (take-all 0 tail (omega (arith, chunk_count-none (length tail) all))) in
      rw
        (
          nothing,
          sealed_text-nil aead old.core old.prefix index,
          sealed_text-nil aead new.core new.prefix index,
        )
        (at, refl)
  reseal_chunks-sealed_text (suc count) index at before tail all is_at =
      let some_left : 0 < length tail = chunk_count-pos (length tail) (omega (arith, all)) in
      let later : Bytes = drop chunk_size tail in
      let first = new_chunk index tail in
      let fewer : count ≡ chunk_count (length later) = omega (
        arith,
        all,
        chunk_count-step (length tail) some_left,
        ap chunk_count (length-drop chunk_size tail),
      ) in
      let next : IsAt (suc index) (before ++ first) later = record {
        left = omega (arith, is_at.left, length-drop chunk_size tail);
        placed = λ more. omega (
          arith,
          is_at.placed some_left,
          length-append before first,
          length-drop chunk_size tail,
          aead.length-seal (nonce new.prefix index) (take chunk_size tail)
              (chunk_aad new.core index),
          length-take chunk_size tail (omega (arith, more, length-drop chunk_size tail)),
        );
      } in
      let rest =
        reseal_chunks-sealed_text count (suc index) (length before + length first) (before ++ first)
          later fewer next in
      (
        rest.0,
        rw
            (
              sealed_text-step aead old.core old.prefix index tail some_left,
              sealed_text-step aead new.core new.prefix index tail some_left,
              reseal_chunk-chunk index at before tail
                  (sealed_text aead old.core old.prefix (suc index) later) is_at some_left,
              sym (
                  append_assoc before first
                    (sealed_text aead old.core old.prefix (suc index) later)),
              sym (
                  append_assoc before first
                    (sealed_text aead new.core new.prefix (suc index) later)),
            )
            rest.1,
      )
