-- ===== src/Encrypted/Inspecting.antt =====
-- Open and IsEncryptedFile on the same file.
use gooru.Prelude.{
  ◌≤◌, ◌≡◌, refl, ◌∙◌, sym, [], ◌∷◌, length, some, Bool, true, false, ◌&&◌, leb, ltb, eqb, arith,
  Bool-cases, inl, inr,
}
use gooru.Prelude.Compare.{ltb-false, true-leb}
use gooru.Prelude.Outcome.{Outcome, ok, err}
use gooru.Encrypted.Bytes.{Bytes, take, drop, same_bytes, take-drop-take, drop-take}
use gooru.Encrypted.Format.{
  Error, Aead, header_size, header_core_size, key_size, magic, version, new_aead,
}
use gooru.Encrypted.Encrypt.{read_full}
use gooru.Encrypted.Open.{Opened, File, is_plain_header, read_header, open_file, is_encrypted_file}

err≢ok : {e : Error} {f : File} → ◌≡◌ {A = Outcome Error File} (err e) (ok f) → ⊥
err≢ok e = cc

-- what a header that is read says of the bytes
pub read_header-accepts :
    (aead : Aead) (bytes : Bytes) (f : File)
    → read_header aead bytes ≡ ok f
    → ltb (length bytes) header_size ≡ false × is_plain_header (take header_core_size bytes) ≡ true
unfolding read_header
read_header-accepts aead bytes f e = elim (Bool-cases (ltb (length bytes) header_size)) [
  | inl short ↦ absurd (err≢ok (rw short at e))
  | inr long ↦ elim (Bool-cases (is_plain_header (take header_core_size bytes))) [
    | inl plain ↦ (long, plain)
    | inr other ↦ absurd (err≢ok (rw (long, other) at e))
  ]
]

both_first : (a b c : Bool) → (a && b && c) ≡ true → a ≡ true × b ≡ true
both_first true true c h = (refl, refl)
both_first true false c h = cc
both_first false b c h = cc

recognised :
    (bytes : Bytes)
    → header_size ≤ length bytes
    → is_plain_header (take header_core_size bytes) ≡ true
    → is_encrypted_file (some (record { rest = bytes; is_broken = false })) ≡ ok true
unfolding is_encrypted_file read_full
recognised bytes long plain =
    let enough : leb 9 (length bytes) ≡ true = true-leb _ _ (omega (arith, long)) in
    let checks =
      both_first (same_bytes (take 8 (take 40 bytes)) magic)
        (same_bytes (take 1 (drop 8 (take 40 bytes))) (version ∷ [])) _ plain in
    let name : take 8 (take 9 bytes) ≡ take 8 (take 40 bytes) =
      take-drop-take 8 0 9 bytes (omega arith) ∙ sym (take-drop-take 8 0 40 bytes (omega arith)) in
    let number : drop 8 (take 9 bytes) ≡ take 1 (drop 8 (take 40 bytes)) =
      drop-take 8 9 bytes ∙ sym (take-drop-take 1 8 40 bytes (omega arith)) in
    rw (enough, name, number, checks.0, checks.1) refl

-- Whatever path Open accepts, under any key, IsEncryptedFile answers true for it.
pub open_file-is_encrypted_file :
    (new_x : Bytes → Aead) (opened : Opened) (key : Bytes) (f : File)
    → open_file new_x (some opened) key ≡ ok f
    → is_encrypted_file (some (record { rest = opened.bytes; is_broken = false })) ≡ ok true
unfolding open_file new_aead
open_file-is_encrypted_file new_x opened key f e = elim (Bool-cases (eqb (length key) key_size)) [
  | inr wrong ↦ absurd (err≢ok (rw wrong at e))
  | inl right ↦ elim (Bool-cases opened.is_dir) [
    | inl dir ↦ absurd (err≢ok (rw (right, dir) at e))
    | inr file ↦
        let accepted = read_header-accepts (new_x key) opened.bytes f (rw (right, file) at e) in
        recognised opened.bytes (ltb-false _ _ accepted.0) accepted.1
  ]
]
