-- ===== src/Encrypted/Reading.antt =====
-- Reads of a file that represents a plaintext, against reads of the plaintext itself.
use gooru.Prelude.{
  ℕ, zero, suc, ◌+◌, ◌-◌, ◌*◌, ◌/◌, ◌≤◌, ◌<◌, ◌≡◌, refl, ap, ◌∙◌, sym, [], ◌++◌, length, Option,
  none, some, true, false, ltb, leb, eqb, arith, Bool-cases, if◌then◌else◌, inl, inr,
}
use mathlib.Core.Path.{subst}
use gooru.Prelude.Int.{pos}
use gooru.Prelude.Outcome.{ok}
use gooru.Encrypted.Bytes.{
  Bytes, take, drop, length-take, length-drop, take-drop-take, take-sum, drop-drop, drop-all,
  take-all, take-nil,
}
use gooru.Encrypted.Format.{Error, chunk_size, end_of_file}
use gooru.Encrypted.Open.{Container, File}
use gooru.Encrypted.Read.{
  decrypt_chunk, cached_chunk, copied, on_chunk, after_part, read_chunks, read_at, or_end_of_file,
  Reading,
}
use gooru.Encrypted.Cache.{Serves, cached_chunk-decrypt_chunk}

-- every chunk of the container decrypts to its part of `plain`
pub record Represents (c : Container) (plain : Bytes) : Type 0 where
  pub sized : c.size ≡ length plain
  pub decrypts :
      (index : ℕ)
      → index * chunk_size < length plain
      → decrypt_chunk c index ≡ ok (take chunk_size (drop (index * chunk_size) plain))

-- the chunk at `position` of `plain`
abbrev chunk_at : ℕ → Bytes → Bytes
chunk_at position plain = take chunk_size (drop ((position / chunk_size) * chunk_size) plain)

-- how much of it an iteration copies
abbrev part_size : ℕ → ℕ → ℕ
part_size position left =
    let rest : ℕ = chunk_size - (position - (position / chunk_size) * chunk_size) in
    if ltb left rest then left else rest

length-chunk_at :
    (position : ℕ) (plain : Bytes)
    → length (chunk_at position plain) ≡ (
        if ltb chunk_size (length plain - (position / chunk_size) * chunk_size)
        then chunk_size
        else length plain - (position / chunk_size) * chunk_size)
length-chunk_at position plain =
    let start : ℕ = (position / chunk_size) * chunk_size in
    let tail : Bytes = drop start plain in
    let measured : length tail ≡ length plain - start = length-drop start plain in
    elim (Bool-cases (ltb chunk_size (length plain - start))) [
      | inl e ↦ rw e (length-take chunk_size tail (ground (arith, measured)))
      | inr e ↦ rw e (ap length (take-all chunk_size tail (ground (arith, measured))) ∙ measured)
    ]

part_size-bounds :
    (position left : ℕ)
    → part_size position left ≤ left
      × part_size position left + (position - (position / chunk_size) * chunk_size) ≤ chunk_size
      × (0 < left → 0 < part_size position left)
part_size-bounds position left = ground arith

copied_size :
    (plain : Bytes) (position left : ℕ)
    → position + left ≤ length plain
    → (if ltb left
          (length (chunk_at position plain) - (position - (position / chunk_size) * chunk_size))
        then left
        else length (chunk_at position plain) - (position - (position / chunk_size) * chunk_size))
      ≡ part_size position left
copied_size plain position left h = rw (length-chunk_at position plain) (ground arith)

copied-plain :
    (plain : Bytes) (position left : ℕ)
    → position + left ≤ length plain
    → copied position left (chunk_at position plain)
      ≡ take (part_size position left) (drop position plain)
copied-plain plain position left h =
    let start : ℕ = (position / chunk_size) * chunk_size in
    let within : ℕ = position - start in
    let m : ℕ = part_size position left in
    let whole : start + within ≡ position = omega arith in
    ap (λ n. take n (drop within (chunk_at position plain))) (copied_size plain position left h)
    ∙ take-drop-take m within chunk_size (drop start plain) ((part_size-bounds position left).1)
    ∙ ap (λ r. take m r) (drop-drop start within plain ∙ ap (λ n. drop n plain) whole)

-- what reading `n` bytes at `position` gives
pub record Reads (c : Container) (plain : Bytes) (offset position n : ℕ) (r : Reading)
    : Type 0 where
  pub bytes : r.bytes ≡ take n (drop position plain)
  pub failure : r.failure ≡ none
  pub file : Serves c offset r.file

module _ (c : Container) (plain : Bytes) (offset : ℕ) where
  Reads-nothing :
      (f : File) (position left : ℕ)
      → Serves c offset f
      → ltb 0 left ≡ false
      → Reads c plain offset position left (record { file = f; bytes = []; failure = none })
  Reads-nothing f position left h e =
      let nothing : left ≡ 0 = ground arith in
      record { bytes = rw nothing refl; failure = refl; file = h }

  -- an iteration: a part of `m` bytes, then the bytes behind it
  Reads-after :
      (position m left : ℕ) (part : Bytes) (r : Reading)
      → part ≡ take m (drop position plain)
      → m ≤ left
      → position + left ≤ length plain
      → (length part ≡ m → Reads c plain offset (position + length part) (left - length part) r)
      → Reads c plain offset position left (after_part part r)
  Reads-after position m left part r split small fits k =
      let room : m ≤ length (drop position plain) = omega (arith, length-drop position plain) in
      let size : length part ≡ m = ap length split ∙ length-take m (drop position plain) room in
      let rest : Reads c plain offset (position + length part) (left - length part) r = k size in
      let whole : m + (left - m) ≡ left = omega arith in
      record {
        bytes =
            ap (λ b. b ++ r.bytes) split
            ∙ ap (λ b. take m (drop position plain) ++ b)
                (rest.bytes
                  ∙ ap (λ n. take (left - n) (drop (position + n) plain)) size
                  ∙ ap (λ b. take (left - m) b) (sym (drop-drop position m plain)))
            ∙ sym (take-sum m (left - m) (drop position plain))
            ∙ ap (λ n. take n (drop position plain)) whole;
        failure = rest.failure;
        file = rest.file;
      }

  pub read_chunks-Reads :
      (bound : ℕ) (f : File) (position left : ℕ)
      → Represents c plain
      → Serves c offset f
      → position + left ≤ length plain
      → left ≤ bound
      → Reads c plain offset position left (read_chunks bound f position left)
  unfolding read_chunks on_chunk
  read_chunks-Reads zero f position left rep h fits bounded =
      let nothing : ltb 0 left ≡ false = ground arith in
      rw nothing (Reads-nothing f position left h nothing)
  read_chunks-Reads (suc bound) f position left rep h fits bounded =
      let index : ℕ = position / chunk_size in
      elim (Bool-cases (ltb 0 left)) [
        | inr nothing ↦ rw nothing (Reads-nothing f position left h nothing)
        | inl some_left ↦
            let cached = cached_chunk-decrypt_chunk c offset f index h in
            let chunk : (cached_chunk f index).plain ≡ ok (chunk_at position plain) =
              cached.1 ∙ rep.decrypts index (ground arith) in
            let bounds = part_size-bounds position left in
            rw (some_left, chunk)
              (Reads-after position (part_size position left) left _ _
                (copied-plain plain position left fits) bounds.0 fits
                (λ size.
                  read_chunks-Reads bound (cached_chunk f index).file _ _ rep cached.0
                    (omega (arith, bounds.0))
                    (omega (arith, size, bounded, bounds.2 (ground arith)))))
      ]

-- what a read of `n` bytes at `off` answers: the bytes there, and io.EOF if they are fewer
abbrev pub plain_read : Bytes → ℕ → ℕ → Bytes × Option Error
plain_read plain n off =
    let part : Bytes = take n (drop off plain) in
    (part, if ltb (length part) n then some end_of_file else none)

pub record Answers (c : Container) (plain : Bytes) (offset off n : ℕ) (r : Reading) : Type 0 where
  pub bytes : r.bytes ≡ (plain_read plain n off).0
  pub failure : r.failure ≡ (plain_read plain n off).1
  pub file : Serves c offset r.file

take-limit : (n : ℕ) (xs : Bytes) → take (if ltb (length xs) n then length xs else n) xs ≡ take n xs
take-limit n xs = elim (Bool-cases (ltb (length xs) n)) [
  | inl e ↦ rw e (take-all (length xs) xs (omega arith) ∙ sym (take-all n xs (ground arith)))
  | inr e ↦ rw e refl
]

module _ (c : Container) (plain : Bytes) (offset : ℕ) (f : File) (h : Serves c offset f) where
  Answers-nothing :
      (off n : ℕ)
      → eqb n 0 ≡ true
      → Answers c plain offset off n (record { file = f; bytes = []; failure = none })
  Answers-nothing off n e =
      let nothing : n ≡ 0 = ground arith in
      subst (λ k. Answers c plain offset off k (record { file = f; bytes = []; failure = none }))
        (sym nothing) (record { bytes = refl; failure = refl; file = h })

  Answers-end :
      (off n : ℕ)
      → length plain ≤ off
      → 0 < n
      → Answers c plain offset off n (record { file = f; bytes = []; failure = some end_of_file })
  Answers-end off n behind asked =
      let gone : take n (drop off plain) ≡ [] =
        ap (λ b. take n b) (drop-all off plain behind) ∙ take-nil n in
      let fewer : ltb 0 n ≡ true = ground arith in
      record { bytes = sym gone; failure = rw (gone, fewer) refl; file = h }

Answers-part :
    (c : Container) (plain : Bytes) (offset off n : ℕ) (r : Reading)
    → Reads c plain offset off (if ltb (length plain - off) n then length plain - off else n) r
    → Answers c plain offset off n (or_end_of_file n r)
Answers-part c plain offset off n r reads =
    let bytes : r.bytes ≡ take n (drop off plain) =
      reads.bytes
      ∙ ap (λ l. take (if ltb l n then l else n) (drop off plain)) (sym (length-drop off plain))
      ∙ take-limit n (drop off plain) in
    record {
      bytes = bytes;
      failure =
          rw reads.failure (ap (λ b. if ltb (length b) n then some end_of_file else none) bytes);
      file = reads.file;
    }

-- `readAt` through the cache answers what the plaintext answers, for every buffer and offset.
pub read_at-Answers :
    (c : Container) (plain : Bytes) (offset : ℕ) (f : File) (n off : ℕ)
    → Represents c plain
    → Serves c offset f
    → Answers c plain offset off n (read_at f n (pos off))
unfolding read_at
read_at-Answers c plain offset f n off rep h =
    let size : f.container.size ≡ length plain = ap (λ k. k.size) h.same ∙ rep.sized in
    elim (Bool-cases (eqb n 0)) [
      | inl e ↦ rw e (Answers-nothing c plain offset f h off n e)
      | inr some_asked ↦ elim (Bool-cases (leb f.container.size off)) [
        | inl behind ↦
            rw (some_asked, behind)
              (Answers-end c plain offset f h off n (ground (arith, size)) (ground arith))
        | inr inside ↦
            let available : ℕ = f.container.size - off in
            let limit : ℕ = if ltb available n then available else n in
            let fits : off + limit ≤ length plain = ground (arith, size) in
            let within =
              read_chunks-Reads c plain offset limit f off limit rep h fits (omega arith) in
            rw (some_asked, inside)
              (Answers-part c plain offset off n (read_chunks limit f off limit) (
                subst
                  (λ s.
                    Reads c plain offset off (if ltb (s - off) n then s - off else n)
                      (read_chunks limit f off limit))
                  size within))
      ]
    ]
