-- ===== src/Encrypted/Tampering.antt =====
-- The bytes that open as a plaintext.
use mathlib.Core.Path.{subst}
use gooru.Prelude.{
  ℕ, suc, ◌+◌, ◌*◌, ◌%◌, ◌≤◌, ◌≡◌, refl, ap, ◌∙◌, sym, [], ◌∷◌, ◌++◌, length, Bool, true, false,
  not, eqb, ltb, leb, ◌&&◌, ◌||◌, All, arith, Bool-cases, inl, inr,
}
use gooru.Prelude.Int.{ℤ, pos, negsuc, ltb_ℤ}
use gooru.Prelude.Compare.{ltb-false, eqb-true}
use gooru.Prelude.Outcome.{ok, ok-injective, bind-inverse, guard-inverse}
use gooru.Encrypted.Bytes.{
  Bytes, IsByte, take, drop, zeros, take-drop, take-all, take-drop-take, drop-drop, length-take,
  length-drop, same_bytes, same_bytes_correct, uint, put_uint, put_uint-uint, All-take, All-drop,
}
use gooru.Encrypted.Format.{
  invalid_format, Aead, magic, version, header_size, overhead, header_core, chunk_count, to_int64,
  max_uint64, nonce, max_int64,
}
use gooru.Encrypted.Encrypt.{header_tag}
use gooru.Encrypted.Authentic.{opened-sealed, text-sealed}
use gooru.Encrypted.Layout.{sealed_text, container_bytes}
use gooru.Encrypted.Reading.{Represents}
use gooru.Encrypted.Open.{
  Container, File, is_plain_header, core_prefix, core_size, checked_size, authenticated,
  read_header,
}

and_parts : (a b c : Bool) → (a && b && c) ≡ true → a ≡ true × b ≡ true × c ≡ true
and_parts true true true h = (refl, refl, refl)
and_parts true true false h = cc
and_parts true false c h = cc
and_parts false b c h = cc

to_int64-pos : (n size : ℕ) → to_int64 n ≡ pos size → n ≡ size
to_int64-pos n size h = elim (Bool-cases (leb n max_int64)) [
  | inl e ↦ from_pos (rw e at h)
  | inr e ↦ absurd (negsuc≢pos (rw e at h))
]
  where
    magnitude : ℤ → ℕ
    magnitude (pos k) = k
    magnitude (negsuc k) = k

    from_pos : {a b : ℕ} → pos a ≡ pos b → a ≡ b
    from_pos e = ap magnitude e

    negsuc≢pos : {a b : ℕ} → negsuc a ≡ pos b → ⊥
    negsuc≢pos e = cc

split_at : (k n : ℕ) (xs : Bytes) → take n (drop k xs) ++ drop (k + n) xs ≡ drop k xs
split_at k n xs =
    ap (λ b. take n (drop k xs) ++ b) (sym (drop-drop k n xs)) ∙ take-drop n (drop k xs)

-- a core that passes the checks is the one of its size and prefix
core-header_core :
    (core : Bytes) (size : ℕ)
    → length core ≡ 40
    → All IsByte core
    → is_plain_header core ≡ true
    → core_size core ≡ pos size
    → core ≡ header_core size (core_prefix core)
unfolding header_core
core-header_core core size hl hb checks hs =
    let parts =
      and_parts (same_bytes (take 8 core) magic) (same_bytes (take 1 (drop 8 core)) (version ∷ []))
        (same_bytes (take 7 (drop 9 core)) (zeros 7)) checks in
    let field : Bytes = take 8 (drop 16 core) in
    let width : length field ≡ 8 =
      length-take 8 (drop 16 core) (omega (arith, hl, length-drop 16 core)) in
    let number : put_uint 8 size ≡ field =
      ap (λ n. put_uint 8 n) (sym (to_int64-pos (uint field) size hs))
      ∙ subst (λ w. put_uint w (uint field) ≡ field) width
          (put_uint-uint field (All-take IsByte 8 (drop 16 core) (All-drop IsByte 16 core hb))) in
    let prefix : core_prefix core ≡ drop 24 core =
      take-all 16 (drop 24 core) (omega (arith, hl, length-drop 24 core)) in
    let name : Bytes = take 8 core in
    let number_tail : Bytes = drop 24 core in
    sym (take-drop 8 core)
    ∙ ap (λ b. name ++ b) (sym (split_at 8 1 core))
    ∙ ap (λ b. name ++ (take 1 (drop 8 core) ++ b)) (sym (split_at 9 7 core))
    ∙ ap (λ b. name ++ (take 1 (drop 8 core) ++ (take 7 (drop 9 core) ++ b)))
        (sym (split_at 16 8 core))
    ∙ ap (λ b. b ++ (take 1 (drop 8 core) ++ (take 7 (drop 9 core) ++ (field ++ number_tail))))
        (same_bytes_correct name magic parts.0)
    ∙ ap (λ b. magic ++ (b ++ (take 7 (drop 9 core) ++ (field ++ number_tail))))
        (same_bytes_correct (take 1 (drop 8 core)) (version ∷ []) parts.1)
    ∙ ap (λ b. magic ++ ((version ∷ []) ++ (b ++ (field ++ number_tail))))
        (same_bytes_correct (take 7 (drop 9 core)) (zeros 7) parts.2)
    ∙ ap (λ b. magic ++ ((version ∷ []) ++ (zeros 7 ++ (b ++ number_tail)))) (sym number)
    ∙ ap (λ b. magic ++ ((version ∷ []) ++ (zeros 7 ++ (put_uint 8 size ++ b)))) (sym prefix)

not-false : (b : Bool) → not b ≡ false → b ≡ true
not-false true h = refl
not-false false h = cc

checked_size-inverse :
    (declared : ℤ) (file_size size : ℕ)
    → checked_size declared file_size ≡ ok size
    → declared ≡ pos size × file_size ≡ header_size + size + chunk_count size * overhead
unfolding checked_size
checked_size-inverse (negsuc n) file_size size h = cc
checked_size-inverse (pos n) file_size size h =
    let tags : ℕ = chunk_count n * overhead in
    let fits : Bool = eqb file_size (header_size + n + tags) in
    let first = guard-inverse (ltb file_size n) invalid_format _ size h in
    let second =
      guard-inverse
        (ltb_ℤ (to_int64 (tags % suc max_uint64)) (pos 0) || ltb max_int64 (n + header_size + tags))
        invalid_format _ size first.1 in
    let third = guard-inverse (not fits) invalid_format (ok n) size second.1 in
    let same : n ≡ size = ok-injective n size third.1 in
    let whole : file_size ≡ header_size + n + tags = eqb-true _ _ (not-false fits third.0) in
    (ap pos same, whole ∙ ap (λ k. header_size + k + chunk_count k * overhead) same)

-- what a header that is read establishes
record IsRead (aead : Aead) (bytes : Bytes) (c : Container) : Type 0 where
  file : c.file ≡ bytes
  cipher : c.aead ≡ aead
  header : c.core ≡ take 40 bytes
  prefix : c.prefix ≡ core_prefix (take 40 bytes)
  plain_header : is_plain_header (take 40 bytes) ≡ true
  long : header_size ≤ length bytes
  tagged : drop 40 (take header_size bytes) ≡ header_tag aead (take 40 bytes) c.prefix
  sized : length bytes ≡ header_size + c.size + chunk_count c.size * overhead
  declares : core_size (take 40 bytes) ≡ pos c.size

authenticated-tag :
    (aead : Aead) (core tag : Bytes)
    → (plain : Bytes) → authenticated aead core tag ≡ ok plain
    → length tag ≡ 16
    → tag ≡ header_tag aead core (core_prefix core)
unfolding authenticated header_tag
authenticated-tag aead core tag plain e size =
    let sealed = opened-sealed aead (nonce (core_prefix core) max_uint64) tag core plain e in
    let nothing : plain ≡ [] = sym (
      take-all 0 plain (
        omega (
          arith,
          size,
          ap length sealed,
          aead.length-seal (nonce (core_prefix core) max_uint64) plain core,
        ))) in
    sealed ∙ ap (λ b. aead.seal (nonce (core_prefix core) max_uint64) b core) nothing

read_header-IsRead :
    (aead : Aead) (bytes : Bytes) (f : File)
    → read_header aead bytes ≡ ok f
    → IsRead aead bytes f.container
unfolding read_header
read_header-IsRead aead bytes f h =
    let core : Bytes = take 40 bytes in
    let tag : Bytes = drop 40 (take header_size bytes) in
    let first = guard-inverse (ltb (length bytes) header_size) invalid_format _ f h in
    let second = guard-inverse (not (is_plain_header core)) invalid_format _ f first.1 in
    let opened = bind-inverse (authenticated aead core tag) _ f second.1 in
    let sized = bind-inverse (checked_size (core_size core) (length bytes)) _ f opened.2 in
    let numbers = checked_size-inverse (core_size core) (length bytes) sized.0 sized.1 in
    let long : header_size ≤ length bytes = ltb-false _ _ first.0 in
    let tag_size : length tag ≡ 16 =
      length-drop 40 (take header_size bytes) ∙ omega (arith, length-take header_size bytes long) in
    subst (λ (k : File). IsRead aead bytes k.container) (ok-injective _ f sized.2)
      (record {
        file = refl;
        cipher = refl;
        header = refl;
        prefix = refl;
        plain_header = not-false (is_plain_header core) second.0;
        long = long;
        tagged = authenticated-tag aead core tag opened.0 opened.1 tag_size;
        sized = numbers.1;
        declares = numbers.0;
      })

-- Of bytes below 256, only those that Encrypt writes are opened as a file whose chunks decrypt to
-- a plaintext: the file is the container of that plaintext, under the key and the file's prefix.
pub read_header-container_bytes :
    (aead : Aead) (bytes plain : Bytes) (f : File)
    → All IsByte bytes
    → read_header aead bytes ≡ ok f
    → Represents f.container plain
    → bytes ≡ container_bytes aead f.container.prefix plain
unfolding container_bytes
read_header-container_bytes aead bytes plain f small h rep =
    let c : Container = f.container in
    let r = read_header-IsRead aead bytes f h in
    let core : Bytes = take 40 bytes in
    let core_size : length core ≡ 40 = length-take 40 bytes (omega (arith, r.long)) in
    let canonical : core ≡ header_core (length plain) c.prefix =
      core-header_core core c.size core_size (All-take IsByte 40 bytes small) r.plain_header
        r.declares
      ∙ ap (λ p. header_core c.size p) (sym r.prefix)
      ∙ ap (λ n. header_core n c.prefix) rep.sized in
    let file_size : length (drop header_size c.file)
        ≡ length plain + chunk_count (length plain) * overhead =
      omega (
        arith,
        length-drop header_size c.file,
        ap length r.file,
        r.sized,
        rep.sized,
        ap chunk_count rep.sized,
      ) in
    let text : drop header_size bytes ≡ sealed_text aead core c.prefix 0 plain =
      ap (λ b. drop header_size b) (sym r.file)
      ∙ text-sealed c plain (chunk_count (length plain)) 0 rep refl file_size
      ∙ ap (λ a. sealed_text a c.core c.prefix 0 plain) r.cipher
      ∙ ap (λ k. sealed_text aead k c.prefix 0 plain) r.header in
    let head : core ++ header_tag aead core c.prefix ≡ take header_size bytes =
      ap (λ b. core ++ b) (sym r.tagged)
      ∙ ap (λ b. b ++ drop 40 (take header_size bytes))
          (sym (take-drop-take 40 0 header_size bytes (omega arith)))
      ∙ take-drop 40 (take header_size bytes) in
    let parts : bytes
        ≡ core ++ header_tag aead core c.prefix ++ sealed_text aead core c.prefix 0 plain =
      sym (take-drop header_size bytes)
      ∙ ap (λ b. take header_size bytes ++ b) text
      ∙ ap (λ b. b ++ sealed_text aead core c.prefix 0 plain) (sym head) in
    parts
    ∙ ap (λ k. k ++ header_tag aead k c.prefix ++ sealed_text aead k c.prefix 0 plain) canonical
