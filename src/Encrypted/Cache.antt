-- ===== src/Encrypted/Cache.antt =====
-- The decrypted-chunk cache against the chunks of the file.
use gooru.Prelude.{
  ℕ, zero, suc, ◌≡◌, refl, ap, sym, List, [], ◌∷◌, Option, none, some, true, ◌&&◌, eqb, All, arith,
  Bool-cases, inl, inr,
}
use mathlib.Core.Path.{subst}
use gooru.Prelude.Outcome.{Outcome, ok, err}
use gooru.Encrypted.Bytes.{Bytes}
use gooru.Encrypted.Format.{Error}
use gooru.Encrypted.Open.{Container, File, CacheEntry, empty_cache}
use gooru.Encrypted.Read.{
  decrypt_chunk, cached_plain, set_entry, invalidate, cache_miss, cache_search, cached_chunk,
}

-- a valid entry holds what the file's chunk decrypts to
abbrev pub IsGenuine : Container → CacheEntry → Type 0
IsGenuine c e = e.0 ≡ true → decrypt_chunk c e.1 ≡ ok e.2

-- A file open on the container `c`, whatever was read before.
pub record Serves (c : Container) (offset : ℕ) (f : File) : Type 0 where
  pub same : f.container ≡ c
  pub at : f.offset ≡ offset
  pub genuine : All (IsGenuine c) f.cache

pub empty-IsGenuine : (c : Container) → All (IsGenuine c) empty_cache
empty-IsGenuine c = ((λ e. cc), ((λ e. cc), ((λ e. cc), ((λ e. cc), tt))))

found-IsGenuine :
    (c : Container) (entries : List CacheEntry) (index : ℕ) (plain : Bytes)
    → All (IsGenuine c) entries
    → cached_plain entries index ≡ some plain
    → decrypt_chunk c index ≡ ok plain
unfolding cached_plain
found-IsGenuine c [] index plain h e = cc
found-IsGenuine c ((valid, at, held) ∷ entries) index plain h e =
    elim (Bool-cases (valid && eqb at index)) [
      | inl hit ↦
          let same : at ≡ index = ground arith in
          let found : held ≡ plain = ground arith in
          let held_here : decrypt_chunk c at ≡ ok held = h.0 (ground arith) in
          subst (λ p. decrypt_chunk c index ≡ ok p) found
            (subst (λ i. decrypt_chunk c i ≡ ok held) same held_here)
      | inr miss ↦ found-IsGenuine c entries index plain h.1 (rw miss at e)
    ]

set_entry-IsGenuine :
    (c : Container) (slot : ℕ) (e : CacheEntry) (entries : List CacheEntry)
    → IsGenuine c e
    → All (IsGenuine c) entries
    → All (IsGenuine c) (set_entry slot e entries)
unfolding set_entry
set_entry-IsGenuine c slot e [] he h = tt
set_entry-IsGenuine c zero e (x ∷ xs) he h = (he, h.1)
set_entry-IsGenuine c (suc slot) e (x ∷ xs) he h = (h.0, set_entry-IsGenuine c slot e xs he h.1)

invalidate-IsGenuine :
    (c : Container) (slot : ℕ) (entries : List CacheEntry)
    → All (IsGenuine c) entries
    → All (IsGenuine c) (invalidate slot entries)
unfolding invalidate
invalidate-IsGenuine c slot [] h = tt
invalidate-IsGenuine c zero ((valid, index, plain) ∷ xs) h = ((λ e. cc), h.1)
invalidate-IsGenuine c (suc slot) (x ∷ xs) h = (h.0, invalidate-IsGenuine c slot xs h.1)

cache_miss-Serves :
    (c : Container) (offset : ℕ) (f : File) (index : ℕ) (result : Outcome Error Bytes)
    → decrypt_chunk c index ≡ result
    → Serves c offset f
    → Serves c offset (cache_miss f index result).file × (cache_miss f index result).plain ≡ result
unfolding cache_miss
cache_miss-Serves c offset f index (err e) r h = (
  record {
    same = h.same;
    at = h.at;
    genuine = invalidate-IsGenuine c f.cache_next f.cache h.genuine;
  },
  refl,
)
cache_miss-Serves c offset f index (ok plain) r h = (
  record {
    same = h.same;
    at = h.at;
    genuine = set_entry-IsGenuine c f.cache_next (true, index, plain) f.cache (λ t. r) h.genuine;
  },
  refl,
)

cache_search-Serves :
    (c : Container) (offset : ℕ) (f : File) (index : ℕ) (held : Option Bytes)
    → cached_plain f.cache index ≡ held
    → Serves c offset f
    → Serves c offset (cache_search f index held).file
      × (cache_search f index held).plain ≡ decrypt_chunk c index
unfolding cache_search
cache_search-Serves c offset f index (some plain) hit h =
    (h, sym (found-IsGenuine c f.cache index plain h.genuine hit))
cache_search-Serves c offset f index none miss h =
    let same : decrypt_chunk f.container index ≡ decrypt_chunk c index =
      ap (λ k. decrypt_chunk k index) h.same in
    subst
      (λ r.
        Serves c offset (cache_miss f index r).file
        × (cache_miss f index r).plain ≡ decrypt_chunk c index)
      (sym same) (cache_miss-Serves c offset f index (decrypt_chunk c index) refl h)

-- A read through the cache, hit or miss, returns what decrypting the chunk returns, an error
-- included, and leaves a file of which the same holds.
pub cached_chunk-decrypt_chunk :
    (c : Container) (offset : ℕ) (f : File) (index : ℕ)
    → Serves c offset f
    → Serves c offset (cached_chunk f index).file
      × (cached_chunk f index).plain ≡ decrypt_chunk c index
unfolding cached_chunk
cached_chunk-decrypt_chunk c offset f index h =
    cache_search-Serves c offset f index (cached_plain f.cache index) refl h
