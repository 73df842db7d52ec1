-- ===== src/Encrypted/Writing.antt =====
-- What Encrypt writes for a source, on every branch of its size checks.
use gooru.Prelude.{
  ℕ, zero, suc, ◌+◌, ◌-◌, ◌≤◌, ◌<◌, ◌≡◌, refl, ◌∙◌, List, [], ◌∷◌, ◌++◌, length, Bool, true, false,
  ltb, leb, eqb, not, arith, Bool-cases, if◌then◌else◌, inl, inr,
}
use gooru.Prelude.Int.{pos}
use gooru.Prelude.Outcome.{Outcome, ok, err, ◌>>=◌}
use gooru.Encrypted.Bytes.{
  Bytes, take, drop, take-bound, length-take, length-drop, take-all, drop-all, drop-drop, drop-take,
  take-drop-take,
}
use gooru.Encrypted.Format.{
  Error, plaintext_size, read_failed, invalid_key, Aead, chunk_size, overhead, key_size,
  header_core, nonce, chunk_aad, new_aead, new_header_core,
}
use gooru.Encrypted.Encrypt.{
  Source, Written, read_full, is_filled, encrypt_chunks, check_end, header_tag, encrypt,
}
use gooru.Encrypted.Layout.{
  sealed_text, sealed_text-nil, sealed_text-step, container_bytes, length-header_tag,
}

abbrev wanted : ℕ → ℕ
wanted remaining = if ltb remaining chunk_size then remaining else chunk_size

wanted-take :
    (remaining : ℕ) (xs : Bytes) → take chunk_size (take remaining xs) ≡ take (wanted remaining) xs
wanted-take remaining xs = elim (Bool-cases (ltb remaining chunk_size)) [
  | inl e ↦ rw e (take-all chunk_size (take remaining xs) (ground (arith, take-bound remaining xs)))
  | inr e ↦ rw e (take-drop-take chunk_size 0 remaining xs (ground arith))
]

wanted-drop :
    (remaining : ℕ) (xs : Bytes)
    → drop chunk_size (take remaining xs)
      ≡ take (remaining - wanted remaining) (drop (wanted remaining) xs)
wanted-drop remaining xs = elim (Bool-cases (ltb remaining chunk_size)) [
  | inl e ↦
      let nothing : remaining - remaining ≡ 0 = omega arith in
      rw (e, nothing)
        (drop-all chunk_size (take remaining xs) (ground (arith, take-bound remaining xs)))
  | inr e ↦ rw e (drop-take chunk_size remaining xs)
]

read_full-short :
    (n : ℕ) (src : Source) → length src.rest < n → is_filled (read_full n src).end ≡ false
unfolding read_full
read_full-short n src h = ground arith

module _ (aead : Aead) (core prefix : Bytes) where
  abbrev loop : ℕ → ℕ → ℕ → Source → Outcome Error Written
  loop bound remaining index src = encrypt_chunks bound aead core prefix remaining index src

  -- an iteration that finds its chunk
  loop-step :
      (bound remaining index : ℕ) (src : Source)
      → 0 < remaining
      → remaining ≤ length src.rest
      → loop (suc bound) remaining index src ≡ (
          loop bound
            (remaining - wanted remaining)
            (suc index)
            (record { rest = drop (wanted remaining) src.rest; is_broken = src.is_broken })
          >>= λ w. ok (record {
            output =
                aead.seal
                  (nonce prefix index)
                  (take (wanted remaining) src.rest)
                  (chunk_aad core index)
                ++ w.output;
            source = w.source;
          }))
  unfolding encrypt_chunks read_full
  loop-step bound remaining index src positive enough =
      let some_left : ltb 0 remaining ≡ true = ground arith in
      let whole : leb (wanted remaining) (length src.rest) ≡ true = ground arith in
      rw (some_left, whole) refl

  -- The loop writes the sealed text of the bytes that are declared.
  encrypt_chunks-sealed_text :
      (bound remaining index : ℕ) (src : Source)
      → remaining ≤ length src.rest
      → remaining ≤ bound
      → loop bound remaining index src
        ≡ ok (record {
          output = sealed_text aead core prefix index (take remaining src.rest);
          source = record { rest = drop remaining src.rest; is_broken = src.is_broken };
        })
  unfolding encrypt_chunks
  encrypt_chunks-sealed_text zero remaining index src enough bounded =
      let none_left : remaining ≡ 0 = omega arith in
      rw (none_left, sealed_text-nil aead core prefix index) refl
  encrypt_chunks-sealed_text (suc bound) remaining index src enough bounded =
      elim (Bool-cases (ltb 0 remaining)) [
        | inr e ↦
            let none_left : remaining ≡ 0 = ground arith in
            rw (none_left, sealed_text-nil aead core prefix index) refl
        | inl e ↦
            let want : ℕ = wanted remaining in
            let some_left : 0 < remaining = ground arith in
            let later : Source = record { rest = drop want src.rest; is_broken = src.is_broken } in
            let size = length-take remaining src.rest enough in
            let left : want + (remaining - want) ≡ remaining = ground arith in
            let ih =
              encrypt_chunks-sealed_text bound (remaining - want) (suc index) later
                (ground (arith, length-drop want src.rest)) (ground arith) in
            loop-step bound remaining index src some_left enough
            ∙ rw
                (
                  ih,
                  sealed_text-step aead core prefix index (take remaining src.rest)
                      (omega (arith, size)),
                  wanted-take remaining src.rest,
                  wanted-drop remaining src.rest,
                  drop-drop want (remaining - want) src.rest,
                  left,
                )
                refl
      ]

  -- and fails on a source that has fewer
  encrypt_chunks-short :
      (bound remaining index : ℕ) (src : Source)
      → length src.rest < remaining
      → remaining ≤ bound
      → loop bound remaining index src ≡ err plaintext_size
  unfolding encrypt_chunks read_full
  encrypt_chunks-short zero remaining index src short bounded = ground arith
  encrypt_chunks-short (suc bound) remaining index src short bounded =
      let some_left : ltb 0 remaining ≡ true = ground arith in
      let want : ℕ = wanted remaining in
      elim (Bool-cases (ltb (length src.rest) want)) [
        | inl e ↦ rw (some_left, read_full-short want src (ground arith)) refl
        | inr e ↦
            let later : Source = record { rest = drop want src.rest; is_broken = src.is_broken } in
            let ih =
              encrypt_chunks-short bound (remaining - want) (suc index) later
                (ground (arith, length-drop want src.rest)) (ground arith) in
            let whole : leb want (length src.rest) ≡ true = ground arith in
            rw (some_left, whole, ih) refl
      ]

check_end-result :
    (xs : Bytes) (is_broken : Bool)
    → check_end (record { rest = xs; is_broken = is_broken }) ≡ (
        if ltb 0 (length xs)
        then err plaintext_size
        else if is_broken
        then err read_failed
        else ok tt)
unfolding check_end read_full
check_end-result [] true = refl
check_end-result [] false = refl
check_end-result (x ∷ xs) is_broken =
    let whole : leb 1 (suc (length xs)) ≡ true = ground arith in
    let more : ltb 0 (suc (length xs)) ≡ true = ground arith in rw (whole, more) refl

-- what the declared size and the source ask for
abbrev pub declared : Aead → Bytes → Source → ℕ → Outcome Error Bytes
declared aead prefix src size =
    if not (eqb (length src.rest) size)
    then err plaintext_size
    else if src.is_broken
    then err read_failed
    else ok (container_bytes aead prefix src.rest)

-- Encrypt on every branch: a key of another length is refused, a source of another size than the
-- declared one is ErrPlaintextSize, a source that fails behind its last byte fails, and any other
-- gives the container of the source's bytes.
pub encrypt-declared :
    (new_x : Bytes → Aead) (prefix : Bytes) (random : List Bytes) (src : Source) (size : ℕ)
    (key : Bytes)
    → encrypt new_x (prefix ∷ random) src (pos size) key ≡ (
        if not (eqb (length key) key_size)
        then err invalid_key
        else declared (new_x key) prefix src size)
unfolding encrypt new_aead new_header_core container_bytes
encrypt-declared new_x prefix random src size key = elim (Bool-cases (eqb (length key) key_size)) [
  | inr e ↦ rw e refl
  | inl e ↦
      let aead : Aead = new_x key in
      let core : Bytes = header_core size prefix in
      let tag : eqb (length (header_tag aead core prefix)) overhead ≡ true =
        ground (arith, length-header_tag aead core prefix) in
      elim (Bool-cases (ltb (length src.rest) size)) [
        | inl short ↦
            let other : eqb (length src.rest) size ≡ false = ground arith in
            rw
              (
                e,
                tag,
                other,
                encrypt_chunks-short aead core prefix size size 0 src (ground arith) (omega arith),
              )
              refl
        | inr enough ↦
            rw
              (
                e,
                tag,
                encrypt_chunks-sealed_text aead core prefix size size 0 src (ground arith)
                    (omega arith),
                check_end-result (drop size src.rest) src.is_broken,
              )
              (elim (Bool-cases (ltb 0 (length (drop size src.rest)))) [
                | inl more ↦
                    let other : eqb (length src.rest) size ≡ false =
                      ground (arith, length-drop size src.rest) in
                    rw (more, other) refl
                | inr no_more ↦
                    let exact : size ≡ length src.rest =
                      ground (arith, length-drop size src.rest) in
                    let same : eqb (length src.rest) size ≡ true = ground arith in
                    rw (no_more, same, take-all size src.rest (omega arith), exact)
                      (elim (Bool-cases src.is_broken) [ inl b ↦ rw b refl | inr b ↦ rw b refl ])
              ])
      ]
]
