-- ===== src/Encrypted/Layout.antt =====
-- The bytes of a container, described without a loop over a stream.
use gooru.Prelude.{
  ℕ, zero, suc, ◌+◌, ◌-◌, ◌*◌, ◌<◌, ◌≡◌, refl, ap, ◌∙◌, sym, [], ◌++◌, length, length-append, ltb,
  arith, Bool-cases, inl, inr,
}
use gooru.Encrypted.Bytes.{
  Bytes, take, drop, length-take, length-drop, drop-prefix, take-drop, drop-drop,
}
use gooru.Encrypted.Format.{Aead, chunk_size, overhead, header_core, chunk_count, nonce, chunk_aad}
use gooru.Encrypted.Encrypt.{header_tag}

-- `n` chunks of `plain`, sealed one after the other from number `index` on
unfoldable pub sealed : Aead → Bytes → Bytes → ℕ → ℕ → Bytes → Bytes
sealed aead core prefix zero index plain = []
sealed aead core prefix (suc n) index plain =
    aead.seal (nonce prefix index) (take chunk_size plain) (chunk_aad core index)
    ++ sealed aead core prefix n (suc index) (drop chunk_size plain)

abbrev pub sealed_text : Aead → Bytes → Bytes → ℕ → Bytes → Bytes
sealed_text aead core prefix index plain =
    sealed aead core prefix (chunk_count (length plain)) index plain

-- the file that holds `plain` under a nonce prefix
unfoldable pub container_bytes : Aead → Bytes → Bytes → Bytes
container_bytes aead prefix plain =
    let core : Bytes = header_core (length plain) prefix in
    core ++ header_tag aead core prefix ++ sealed_text aead core prefix 0 plain

pub chunk_count-step : (n : ℕ) → 0 < n → chunk_count n ≡ suc (chunk_count (n - chunk_size))
unfolding chunk_count
chunk_count-step n h = ground arith

pub chunk_count-zero : (n : ℕ) → n ≡ 0 → chunk_count n ≡ 0
unfolding chunk_count
chunk_count-zero n h = rw h refl

pub chunk_count-none : (n : ℕ) → 0 ≡ chunk_count n → n ≡ 0
chunk_count-none n h = elim (Bool-cases (ltb 0 n)) [
  | inl e ↦ omega (arith, h, chunk_count-step n (ground arith))
  | inr e ↦ ground arith
]

pub chunk_count-pos : (n : ℕ) → 0 < chunk_count n → 0 < n
unfolding chunk_count
chunk_count-pos n h = ground arith

pub length-header_core :
    (size : ℕ) (prefix : Bytes) → length prefix ≡ 16 → length (header_core size prefix) ≡ 40
unfolding header_core
length-header_core size prefix h = rw h refl

pub length-header_tag :
    (aead : Aead) (core prefix : Bytes) → length (header_tag aead core prefix) ≡ 16
unfolding header_tag
length-header_tag aead core prefix = aead.length-seal _ [] core

module _ (aead : Aead) (core prefix : Bytes) where
  pub sealed_text-nil : (index : ℕ) → sealed_text aead core prefix index [] ≡ []
  unfolding sealed chunk_count
  sealed_text-nil index = refl

  pub sealed_text-step :
      (index : ℕ) (plain : Bytes)
      → 0 < length plain
      → sealed_text aead core prefix index plain
        ≡ aead.seal (nonce prefix index) (take chunk_size plain) (chunk_aad core index)
          ++ sealed_text aead core prefix (suc index) (drop chunk_size plain)
  unfolding sealed
  sealed_text-step index plain h =
      let count : chunk_count (length plain) ≡ suc (chunk_count (length (drop chunk_size plain))) =
        chunk_count-step (length plain) h
        ∙ ap (λ n. suc (chunk_count n)) (sym (length-drop chunk_size plain)) in
      ap (λ n. sealed aead core prefix n index plain) count

  -- behind `k` chunks the text goes on with chunk `k`
  pub drop-sealed_text :
      (k index : ℕ) (plain : Bytes)
      → k * chunk_size < length plain
      → drop (k * (chunk_size + overhead)) (sealed_text aead core prefix index plain)
        ≡ sealed_text aead core prefix (index + k) (drop (k * chunk_size) plain)
  drop-sealed_text zero index plain h = let same : index + 0 ≡ index = omega arith in rw same refl
  drop-sealed_text (suc k) index plain h =
      let first : Bytes =
        aead.seal (nonce prefix index) (take chunk_size plain) (chunk_aad core index) in
      let later : Bytes = drop chunk_size plain in
      let size : length first ≡ chunk_size + overhead =
        aead.length-seal _ (take chunk_size plain) _
        ∙ ap (λ n. n + overhead) (length-take chunk_size plain (omega arith)) in
      let split : suc k * (chunk_size + overhead)
          ≡ (chunk_size + overhead) + k * (chunk_size + overhead) =
        omega arith in
      let moved : chunk_size + k * chunk_size ≡ suc k * chunk_size = omega arith in
      let next : suc index + k ≡ index + suc k = omega arith in
      ap (λ b. drop (suc k * (chunk_size + overhead)) b)
        (sealed_text-step index plain (omega arith))
      ∙ ap (λ n. drop n (first ++ sealed_text aead core prefix (suc index) later)) split
      ∙ sym (drop-drop (chunk_size + overhead) (k * (chunk_size + overhead)) _)
      ∙ ap (λ b. drop (k * (chunk_size + overhead)) b) (drop-prefix _ first _ size)
      ∙ drop-sealed_text k (suc index) later (omega (arith, length-drop chunk_size plain))
      ∙ ap (λ i. sealed_text aead core prefix i (drop (k * chunk_size) later)) next
      ∙ ap (λ b. sealed_text aead core prefix (index + suc k) b)
          (drop-drop chunk_size (k * chunk_size) plain ∙ ap (λ n. drop n plain) moved)

  pub length-sealed :
      (n index : ℕ) (plain : Bytes)
      → n ≡ chunk_count (length plain)
      → length (sealed aead core prefix n index plain) ≡ length plain + n * overhead
  unfolding sealed
  length-sealed zero index plain h = omega (arith, chunk_count-none (length plain) h)
  length-sealed (suc n) index plain h =
      let some_plain : 0 < length plain = chunk_count-pos (length plain) (omega (arith, h)) in
      let count : n ≡ chunk_count (length (drop chunk_size plain)) = omega (
        arith,
        h,
        chunk_count-step (length plain) some_plain,
        ap chunk_count (length-drop chunk_size plain),
      ) in
      let rest = length-sealed n (suc index) (drop chunk_size plain) count in
      let size =
        aead.length-seal (nonce prefix index) (take chunk_size plain) (chunk_aad core index) in
      let parts : length (take chunk_size plain) + length (drop chunk_size plain) ≡ length plain =
        sym (length-append (take chunk_size plain) (drop chunk_size plain))
        ∙ ap length (take-drop chunk_size plain) in
      omega (
        arith,
        rest,
        size,
        parts,
        length-append
            (aead.seal (nonce prefix index) (take chunk_size plain) (chunk_aad core index))
            (sealed aead core prefix n (suc index) (drop chunk_size plain)),
      )
