-- ===== src/Encrypted/Authentic.antt =====
-- A file that opens, and of which every chunk decrypts, against the container of the plaintext.
use gooru.Prelude.{
  ℕ, zero, suc, ◌+◌, ◌-◌, ◌*◌, ◌≤◌, ◌<◌, ◌≡◌, refl, ap, ◌∙◌, sym, [], ◌++◌, length, some, ltb,
  arith, Bool-cases, Option-cases, inl, inr,
}
use gooru.Prelude.Compare.{ltb-true, ltb-false}
use gooru.Prelude.Outcome.{Outcome, ok, err, ok-injective}
use gooru.Encrypted.Bytes.{Bytes, take, drop, take-drop, drop-drop, length-drop, take-all, drop-all}
use gooru.Encrypted.Format.{
  Error, Aead, chunk_size, overhead, header_size, chunk_count, nonce, chunk_aad,
}
use gooru.Encrypted.Open.{Container, or_authentication}
use gooru.Encrypted.Read.{decrypt_chunk, chunk_plain_length}
use gooru.Encrypted.Reading.{Represents}
use gooru.Encrypted.Layout.{
  sealed_text, sealed_text-nil, sealed_text-step, chunk_count-step, chunk_count-pos,
  chunk_count-none, chunk_count-zero,
}

err≢ok : {e : Error} {b : Bytes} → ◌≡◌ {A = Outcome Error Bytes} (err e) (ok b) → ⊥
err≢ok e = cc

-- what opens is what was sealed
pub opened-sealed :
    (aead : Aead) (nonce sealed aad plain : Bytes)
    → or_authentication (aead.open_sealed nonce sealed aad) ≡ ok plain
    → sealed ≡ aead.seal nonce plain aad
unfolding or_authentication
opened-sealed aead nonce sealed aad plain e =
    elim (Option-cases (aead.open_sealed nonce sealed aad)) [
      | inl none_opened ↦ absurd (err≢ok (rw none_opened at e))
      | inr (opened, h) ↦
          let same : opened ≡ plain = ok-injective opened plain (rw h at e) in
          aead.seal-open_sealed nonce sealed aad plain (h ∙ ap some same)
    ]

module _ (c : Container) where
  -- what decrypts to `plain` is the sealed `plain`
  decrypt_chunk-sealed :
      (index : ℕ) (plain : Bytes)
      → decrypt_chunk c index ≡ ok plain
      → take
          (chunk_plain_length c.size index + overhead)
          (drop (header_size + index * (chunk_size + overhead)) c.file)
        ≡ c.aead.seal (nonce c.prefix index) plain (chunk_aad c.core index)
  unfolding decrypt_chunk
  decrypt_chunk-sealed index plain e =
      let n : ℕ = chunk_plain_length c.size index + overhead in
      let sealed : Bytes = take n (drop (header_size + index * (chunk_size + overhead)) c.file) in
      elim (Bool-cases (ltb (length sealed) n)) [
        | inl short ↦ absurd (err≢ok (rw short at e))
        | inr whole ↦
            opened-sealed c.aead (nonce c.prefix index) sealed (chunk_aad c.core index) plain
              (rw whole at e)
      ]

  -- behind a chunk stands the next one, or nothing
  drop-chunk :
      (index : ℕ) (xs : Bytes)
      → (c.size - index * chunk_size ≤ chunk_size
          → length xs ≡ (c.size - index * chunk_size) + overhead)
      → drop (chunk_plain_length c.size index + overhead) xs ≡ drop (chunk_size + overhead) xs
  unfolding chunk_plain_length
  drop-chunk index xs last = elim (Bool-cases (ltb chunk_size (c.size - index * chunk_size))) [
    | inl e ↦ rw e refl
    | inr e ↦
        let small : c.size - index * chunk_size ≤ chunk_size = ltb-false _ _ e in
        let size = last small in
        rw e (
          drop-all ((c.size - index * chunk_size) + overhead) xs (omega (arith, size))
          ∙ sym (drop-all (chunk_size + overhead) xs (omega (arith, size, small))))
  ]

  pub text-sealed :
      (plain : Bytes) (count index : ℕ)
      → Represents c plain
      → count ≡ chunk_count (length (drop (index * chunk_size) plain))
      → length (drop (header_size + index * (chunk_size + overhead)) c.file)
        ≡ length (drop (index * chunk_size) plain) + count * overhead
      → drop (header_size + index * (chunk_size + overhead)) c.file
        ≡ sealed_text c.aead c.core c.prefix index (drop (index * chunk_size) plain)
  text-sealed plain zero index rep all size =
      let none_left = chunk_count-none (length (drop (index * chunk_size) plain)) all in
      let no_text : drop (index * chunk_size) plain ≡ [] =
        sym (take-all 0 _ (omega (arith, none_left))) in
      let no_file : drop (header_size + index * (chunk_size + overhead)) c.file ≡ [] =
        sym (take-all 0 _ (omega (arith, none_left, size))) in
      no_file
      ∙ sym (
          ap (λ b. sealed_text c.aead c.core c.prefix index b) no_text
          ∙ sealed_text-nil c.aead c.core c.prefix index)
  text-sealed plain (suc count) index rep all size =
      let off : ℕ = header_size + index * (chunk_size + overhead) in
      let tail : Bytes = drop (index * chunk_size) plain in
      let n : ℕ = chunk_plain_length c.size index + overhead in
      let some_left : 0 < length tail = chunk_count-pos (length tail) (omega (arith, all)) in
      let step = chunk_count-step (length tail) some_left in
      let left = length-drop (index * chunk_size) plain in
      let next_off : off + (chunk_size + overhead)
          ≡ header_size + suc index * (chunk_size + overhead) =
        omega arith in
      let next_start : index * chunk_size + chunk_size ≡ suc index * chunk_size = omega arith in
      let moved : drop chunk_size tail ≡ drop (suc index * chunk_size) plain =
        drop-drop (index * chunk_size) chunk_size plain ∙ ap (λ k. drop k plain) next_start in
      let left_later : length tail - chunk_size ≡ length (drop (suc index * chunk_size) plain) =
        omega (arith, left, length-drop (suc index * chunk_size) plain) in
      let file_left = length-drop off c.file in
      let file_later = length-drop (header_size + suc index * (chunk_size + overhead)) c.file in
      let few : length tail ≤ chunk_size → count ≡ 0 = λ h.
        omega (arith, all, step, chunk_count-zero (length tail - chunk_size) (omega (arith, h))) in
      let size_later : length (drop (header_size + suc index * (chunk_size + overhead)) c.file)
          ≡ length (drop (suc index * chunk_size) plain) + count * overhead =
        elim (Bool-cases (ltb chunk_size (length tail))) [
          | inl e ↦ omega (arith, size, left_later, file_left, file_later, ltb-true _ _ e)
          | inr e ↦ omega (arith, size, left_later, file_left, file_later, few (ltb-false _ _ e))
        ] in
      let next : drop (chunk_size + overhead) (drop off c.file)
          ≡ sealed_text c.aead c.core c.prefix (suc index) (drop chunk_size tail) =
        drop-drop off (chunk_size + overhead) c.file
        ∙ ap (λ k. drop k c.file) next_off
        ∙ text-sealed plain count (suc index) rep
            (omega (arith, all, step, ap chunk_count left_later)) size_later
        ∙ ap (λ b. sealed_text c.aead c.core c.prefix (suc index) b) (sym moved) in
      let first : take n (drop off c.file)
          ≡ c.aead.seal (nonce c.prefix index) (take chunk_size tail) (chunk_aad c.core index) =
        decrypt_chunk-sealed index (take chunk_size tail)
          (rep.decrypts index (omega (arith, some_left, left))) in
      sym (take-drop n (drop off c.file))
      ∙ ap (λ b. b ++ drop n (drop off c.file)) first
      ∙ ap
          (λ b.
            c.aead.seal (nonce c.prefix index) (take chunk_size tail) (chunk_aad c.core index) ++ b)
          (drop-chunk index (drop off c.file)
              (λ h. omega (arith, size, left, rep.sized, few (omega (arith, h, left, rep.sized))))
            ∙ next)
      ∙ sym (sealed_text-step c.aead c.core c.prefix index tail some_left)
