-- ===== src/Encrypted/Memory.antt =====
-- An open file and the plaintext in memory under the same requests.
use mathlib.Core.Path.{subst}
use gooru.Prelude.{
  ℕ, suc, ◌+◌, ◌%◌, ◌≤◌, ◌≡◌, refl, ap, ◌∙◌, sym, List, [], ◌∷◌, length, Option, none, some, true,
  false, ltb, leb, arith, All, Bool-cases, inl, inr,
}
use gooru.Prelude.Int.{ℤ, pos, negsuc}
use gooru.Encrypted.Bytes.{Bytes, drop, length-take_le, length-drop}
use gooru.Encrypted.Format.{
  negative_offset, negative_position, invalid_whence, max_int64, max_uint64,
}
use gooru.Encrypted.Open.{Container, File}
use gooru.Encrypted.Read.{
  Reading, Whence, seek_start, seek_current, seek_end, other_whence, read, read_at, seek, seek_to,
  at_offset, add_int64,
}
use gooru.Encrypted.Cache.{Serves}
use gooru.Encrypted.Reading.{Represents, Answers, read_at-Answers, plain_read}
use gooru.Encrypted.Requests.{
  Request, ask_read, ask_read_at, ask_seek, Reply, handle, replies, target, plain_handle,
  plain_replies, IsRequest, IsOffset, moved, seek_reply,
}

-- The same reply, and files and positions of which the same holds.
record Matches (c : Container) (impl : Reply × File) (model : Reply × ℕ) : Type 0 where
  reply : impl.0 ≡ model.0
  file : Serves c model.1 impl.1
  in_range : model.1 ≤ max_int64

abbrev as_position : ℤ → Option ℕ
as_position (pos n) = some n
as_position (negsuc n) = none

add_int64-target :
    (a : ℕ) (offset : ℤ)
    → a ≤ max_int64
    → IsOffset offset
    → IsOffset (add_int64 a offset) × as_position (add_int64 a offset) ≡ target a offset
add_int64-target a (pos b) ha hb =
    let whole : (a + b) % suc max_uint64 ≡ a + b = omega arith in
    rw whole (elim (Bool-cases (leb (a + b) max_int64)) [
      | inl e ↦ rw e (ground arith, refl)
      | inr e ↦ rw e (ground arith, refl)
    ])
add_int64-target a (negsuc b) ha hb = elim (Bool-cases (ltb b a)) [
  | inl e ↦ rw e (omega (arith, ha), refl)
  | inr e ↦ rw e (omega (arith, hb), refl)
]

offset-target : (offset : ℤ) → IsOffset offset → as_position offset ≡ target 0 offset
offset-target (pos n) h =
    let small : leb n max_int64 ≡ true = ground arith in
    let same : 0 + n ≡ n = omega arith in rw (same, small) refl
offset-target (negsuc n) h = let small : ltb n 0 ≡ false = ground arith in rw small refl

module _ (c : Container) (plain : Bytes) where
  at-Serves : (old new : ℕ) (f : File) → Serves c old f → Serves c new (at_offset new f)
  at-Serves old new f h = record { same = h.same; at = refl; genuine = h.genuine }

  seek_to-Matches :
      (f : File) (at : ℕ) (next : ℤ) (goal : Option ℕ)
      → Serves c at f
      → at ≤ max_int64
      → IsOffset next
      → as_position next ≡ goal
      → Matches c (seek_reply (seek_to f next), (seek_to f next).file) (moved at goal)
  unfolding seek_to
  seek_to-Matches f at (pos n) goal h ha hn e =
      subst (λ g. Matches c (seek_reply (seek_to f (pos n)), (seek_to f (pos n)).file) (moved at g))
        e (record { reply = refl; file = at-Serves at n f h; in_range = hn })
  seek_to-Matches f at (negsuc n) goal h ha hn e =
      subst
        (λ g.
          Matches c (seek_reply (seek_to f (negsuc n)), (seek_to f (negsuc n)).file) (moved at g))
        e
        (record {
          reply = ap (λ p. record { bytes = []; at = p; failure = some negative_position }) h.at;
          file = h;
          in_range = ha;
        })

  seek-Matches :
      (f : File) (at : ℕ) (offset : ℤ) (whence : Whence)
      → c.size ≡ length plain
      → length plain ≤ max_int64
      → Serves c at f
      → at ≤ max_int64
      → IsOffset offset
      → Matches c
          (handle (ask_seek offset whence) f)
          (plain_handle plain (ask_seek offset whence) at)
  unfolding handle plain_handle seek
  seek-Matches f at offset seek_start size bound h ha ho =
      seek_to-Matches f at offset _ h ha ho (offset-target offset ho)
  seek-Matches f at offset seek_current size bound h ha ho =
      let start : f.offset ≤ max_int64 = omega (arith, ha, h.at) in
      let t = add_int64-target f.offset offset start ho in
      seek_to-Matches f at _ _ h ha t.0 (t.1 ∙ ap (λ a. target a offset) h.at)
  seek-Matches f at offset seek_end size bound h ha ho =
      let same : f.container.size ≡ length plain = ap (λ k. k.size) h.same ∙ size in
      let end : f.container.size ≤ max_int64 = omega (arith, bound, same) in
      let t = add_int64-target f.container.size offset end ho in
      seek_to-Matches f at _ _ h ha t.0 (t.1 ∙ ap (λ a. target a offset) same)
  seek-Matches f at offset other_whence size bound h ha ho = record {
    reply = ap (λ p. record { bytes = []; at = p; failure = some invalid_whence }) h.at;
    file = h;
    in_range = ha;
  }

  plain_read-bound :
      (n at : ℕ)
      → length plain ≤ max_int64
      → at ≤ max_int64
      → at + length (plain_read plain n at).0 ≤ max_int64
  plain_read-bound n at bound h =
      omega (arith, length-take_le n (drop at plain), length-drop at plain, bound, h)

  -- the move of the offset behind what a read returned
  after-Matches :
      (n at : ℕ) (r : Reading)
      → length plain ≤ max_int64
      → at ≤ max_int64
      → Answers c plain at at n r
      → Matches c
          (
            record { bytes = r.bytes; at = r.file.offset + length r.bytes; failure = r.failure },
            at_offset (r.file.offset + length r.bytes) r.file,
          )
          (plain_handle plain (ask_read n) at)
  unfolding plain_handle
  after-Matches n at r bound ha answers =
      let moved_to : r.file.offset + length r.bytes ≡ at + length (plain_read plain n at).0 =
        ap (λ o. o + length r.bytes) answers.file.at ∙ ap (λ b. at + length b) answers.bytes in
      record {
        reply = rw (moved_to, answers.bytes, answers.failure) refl;
        file = record { same = answers.file.same; at = moved_to; genuine = answers.file.genuine };
        in_range = plain_read-bound n at bound ha;
      }

  handle-Matches :
      (q : Request) (f : File) (at : ℕ)
      → Represents c plain
      → length plain ≤ max_int64
      → IsRequest q
      → Serves c at f
      → at ≤ max_int64
      → Matches c (handle q f) (plain_handle plain q at)
  unfolding handle plain_handle read read_at
  handle-Matches (ask_read n) f at rep bound hq h ha =
      let answers : Answers c plain at at n (read_at f n (pos f.offset)) =
        subst (λ o. Answers c plain at at n (read_at f n (pos o))) (sym h.at)
          (read_at-Answers c plain at f n at rep h) in
      after-Matches n at (read_at f n (pos f.offset)) bound ha answers
  handle-Matches (ask_read_at n (negsuc off)) f at rep bound hq h ha = record {
    reply = ap (λ p. record { bytes = []; at = p; failure = some negative_offset }) h.at;
    file = h;
    in_range = ha;
  }
  handle-Matches (ask_read_at n (pos off)) f at rep bound hq h ha =
      let answers = read_at-Answers c plain at f n off rep h in
      record {
        reply = rw (answers.bytes, answers.failure, answers.file.at) refl;
        file = answers.file;
        in_range = ha;
      }
  handle-Matches (ask_seek offset whence) f at rep bound hq h ha =
      seek-Matches f at offset whence rep.sized bound h ha hq

  -- An open file, whatever its cache holds, answers every sequence of Read, ReadAt and Seek
  -- requests as the reader in memory does, for a container that represents `plain`, as a file
  -- system can hold it, and Seek offsets that are int64 values.
  pub replies-plain_replies :
      (qs : List Request) (f : File) (at : ℕ)
      → Represents c plain
      → length plain ≤ max_int64
      → All IsRequest qs
      → Serves c at f
      → at ≤ max_int64
      → replies qs f ≡ plain_replies plain qs at
  unfolding replies plain_replies
  replies-plain_replies [] f at rep bound hq h ha = refl
  replies-plain_replies (q ∷ qs) f at rep bound hq h ha =
      let step = handle-Matches q f at rep bound hq.0 h ha in
      let rest =
        replies-plain_replies qs (handle q f).1 (plain_handle plain q at).1 rep bound hq.1 step.file
          step.in_range in
      rw (step.reply, rest) refl
