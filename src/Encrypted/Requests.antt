-- ===== src/Encrypted/Requests.antt =====
-- Any sequence of Read, ReadAt and Seek on an open file, and the reader of the plaintext in
-- memory that it must be indistinguishable from.
use gooru.Prelude.{
  ℕ, suc, ◌+◌, ◌-◌, ◌≤◌, List, [], ◌∷◌, length, Option, none, some, ltb, leb, if◌then◌else◌,
}
use gooru.Prelude.Int.{ℤ, pos, negsuc}
use gooru.Encrypted.Bytes.{Bytes}
use gooru.Encrypted.Format.{Error, negative_offset, negative_position, invalid_whence, max_int64}
use gooru.Encrypted.Open.{File}
use gooru.Encrypted.Read.{
  Reading, Seeking, Whence, seek_start, seek_current, seek_end, other_whence, read, read_at, seek,
}
use gooru.Encrypted.Reading.{plain_read}

pub data Request : Type 0 where
  ask_read : ℕ → Request
  ask_read_at : ℕ → ℤ → Request
  ask_seek : ℤ → Whence → Request

pub record Reply : Type 0 where
  pub bytes : Bytes
  pub at : ℕ
  pub failure : Option Error

abbrev pub reply_of : Reading → Reply
reply_of r = record { bytes = r.bytes; at = r.file.offset; failure = r.failure }

abbrev pub seek_reply : Seeking → Reply
seek_reply s = record { bytes = []; at = s.at; failure = s.failure }

unfoldable pub handle : Request → File → Reply × File
handle (ask_read n) f = (reply_of (read f n), (read f n).file)
handle (ask_read_at n off) f = (reply_of (read_at f n off), (read_at f n off).file)
handle (ask_seek offset whence) f = (seek_reply (seek f offset whence), (seek f offset whence).file)

unfoldable pub replies : List Request → File → List Reply
replies [] f = []
replies (q ∷ qs) f = (handle q f).0 ∷ replies qs (handle q f).1

-- The position `offset` away from `base`, if an int64 that is not negative can hold it.
abbrev pub target : ℕ → ℤ → Option ℕ
target base (pos n) = if leb (base + n) max_int64 then some (base + n) else none
target base (negsuc n) = if ltb n base then some (base - suc n) else none

abbrev pub moved : ℕ → Option ℕ → Reply × ℕ
moved at none = (record { bytes = []; at = at; failure = some negative_position }, at)
moved at (some next) = (record { bytes = []; at = next; failure = none }, next)

-- The reader in memory: a plaintext, and a position in it.
unfoldable pub plain_handle : Bytes → Request → ℕ → Reply × ℕ
plain_handle plain (ask_read n) at =
    let part = plain_read plain n at in
    let next : ℕ = at + length part.0 in
    (record { bytes = part.0; at = next; failure = part.1 }, next)
plain_handle plain (ask_read_at n (negsuc off)) at =
    (record { bytes = []; at = at; failure = some negative_offset }, at)
plain_handle plain (ask_read_at n (pos off)) at =
    let part = plain_read plain n off in (record { bytes = part.0; at = at; failure = part.1 }, at)
plain_handle plain (ask_seek offset seek_start) at = moved at (target 0 offset)
plain_handle plain (ask_seek offset seek_current) at = moved at (target at offset)
plain_handle plain (ask_seek offset seek_end) at = moved at (target (length plain) offset)
plain_handle plain (ask_seek offset other_whence) at =
    (record { bytes = []; at = at; failure = some invalid_whence }, at)

unfoldable pub plain_replies : Bytes → List Request → ℕ → List Reply
plain_replies plain [] at = []
plain_replies plain (q ∷ qs) at =
    (plain_handle plain q at).0 ∷ plain_replies plain qs (plain_handle plain q at).1

-- the arguments of Seek are int64 values
abbrev pub IsOffset : ℤ → Type 0
IsOffset (pos n) = n ≤ max_int64
IsOffset (negsuc n) = n ≤ max_int64

abbrev pub IsRequest : Request → Type 0
IsRequest (ask_read n) = Unit
IsRequest (ask_read_at n off) = Unit
IsRequest (ask_seek offset whence) = IsOffset offset
