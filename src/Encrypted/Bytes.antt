-- ===== src/Encrypted/Bytes.antt =====
-- Byte slices and encoding/binary.LittleEndian.
use mathlib.Core.Path.{subst}
use gooru.Prelude.{
  ℕ, zero, suc, ◌+◌, ◌-◌, ◌*◌, ◌/◌, ◌%◌, ◌≤◌, ◌<◌, ◌≡◌, refl, ap, sym, ◌∙◌, List, [], ◌∷◌, ◌++◌,
  length, arith, All, Bool, true, false, ◌&&◌, eqb,
}

abbrev pub Bytes : Type 0
Bytes = List ℕ

abbrev pub take : ℕ → Bytes → Bytes
take zero xs = []
take (suc n) [] = []
take (suc n) (x ∷ xs) = x ∷ take n xs

abbrev pub drop : ℕ → Bytes → Bytes
drop zero xs = xs
drop (suc n) [] = []
drop (suc n) (x ∷ xs) = drop n xs

-- a slice that `make` returns
abbrev pub zeros : ℕ → Bytes
zeros zero = []
zeros (suc n) = 0 ∷ zeros n

-- `bytes.Equal`
abbrev pub same_bytes : Bytes → Bytes → Bool
same_bytes [] [] = true
same_bytes [] (y ∷ ys) = false
same_bytes (x ∷ xs) [] = false
same_bytes (x ∷ xs) (y ∷ ys) = eqb x y && same_bytes xs ys

abbrev pub put_uint : ℕ → ℕ → Bytes
put_uint zero n = []
put_uint (suc w) n = (n % 256) ∷ put_uint w (n / 256)

abbrev pub uint : Bytes → ℕ
uint [] = 0
uint (b ∷ bs) = b + 256 * uint bs

abbrev pub IsByte : ℕ → Type 0
IsByte b = b < 256

-- the numbers below 256 ^ w
abbrev pub capacity : ℕ → ℕ
capacity zero = 1
capacity (suc w) = 256 * capacity w

pub length-put_uint : (w n : ℕ) → length (put_uint w n) ≡ w
length-put_uint zero n = refl
length-put_uint (suc w) n = omega (arith, length-put_uint w (n / 256))

pub uint-put_uint : (w n : ℕ) → n < capacity w → uint (put_uint w n) ≡ n
uint-put_uint zero n h = omega arith
uint-put_uint (suc w) n h = omega (arith, uint-put_uint w (n / 256) (omega arith))

pub put_uint-uint : (bs : Bytes) → All IsByte bs → put_uint (length bs) (uint bs) ≡ bs
put_uint-uint [] h = refl
put_uint-uint (b ∷ bs) h =
    let low : (b + 256 * uint bs) % 256 ≡ b = omega (arith, h.0) in
    let high : (b + 256 * uint bs) / 256 ≡ uint bs = omega (arith, h.0) in
    rw (low, high, put_uint-uint bs h.1) refl

pub uint-capacity : (bs : Bytes) → All IsByte bs → uint bs < capacity (length bs)
uint-capacity [] h = omega arith
uint-capacity (b ∷ bs) h = omega (arith, h.0, uint-capacity bs h.1)

pub length-zeros : (n : ℕ) → length (zeros n) ≡ n
length-zeros zero = refl
length-zeros (suc n) = ap suc (length-zeros n)

pub length-take : (n : ℕ) (xs : Bytes) → n ≤ length xs → length (take n xs) ≡ n
length-take zero xs h = refl
length-take (suc n) [] h = omega arith
length-take (suc n) (x ∷ xs) h = omega (arith, length-take n xs (omega arith))

pub length-drop : (n : ℕ) (xs : Bytes) → length (drop n xs) ≡ length xs - n
length-drop zero xs = omega arith
length-drop (suc n) [] = omega arith
length-drop (suc n) (x ∷ xs) = omega (arith, length-drop n xs)

pub take-all : (n : ℕ) (xs : Bytes) → length xs ≤ n → take n xs ≡ xs
take-all zero [] h = refl
take-all zero (x ∷ xs) h = ground arith
take-all (suc n) [] h = refl
take-all (suc n) (x ∷ xs) h = ap (λ r. x ∷ r) (take-all n xs (omega arith))

pub length-take_le : (n : ℕ) (xs : Bytes) → length (take n xs) ≤ length xs
length-take_le zero xs = omega arith
length-take_le (suc n) [] = omega arith
length-take_le (suc n) (x ∷ xs) = omega (arith, length-take_le n xs)

pub take-bound : (n : ℕ) (xs : Bytes) → length (take n xs) ≤ n
take-bound zero xs = omega arith
take-bound (suc n) [] = omega arith
take-bound (suc n) (x ∷ xs) = omega (arith, take-bound n xs)

pub drop-all : (n : ℕ) (xs : Bytes) → length xs ≤ n → drop n xs ≡ []
drop-all zero [] h = refl
drop-all zero (x ∷ xs) h = ground arith
drop-all (suc n) [] h = refl
drop-all (suc n) (x ∷ xs) h = drop-all n xs (omega arith)

pub take-drop : (n : ℕ) (xs : Bytes) → take n xs ++ drop n xs ≡ xs
take-drop zero xs = refl
take-drop (suc n) [] = refl
take-drop (suc n) (x ∷ xs) = ap (λ r. x ∷ r) (take-drop n xs)

take-append : (xs ys : Bytes) → take (length xs) (xs ++ ys) ≡ xs
take-append [] ys = refl
take-append (x ∷ xs) ys = ap (λ r. x ∷ r) (take-append xs ys)

drop-append : (xs ys : Bytes) → drop (length xs) (xs ++ ys) ≡ ys
drop-append [] ys = refl
drop-append (x ∷ xs) ys = drop-append xs ys

pub take-nil : (n : ℕ) → take n [] ≡ []
take-nil zero = refl
take-nil (suc n) = refl

drop-nil : (n : ℕ) → drop n [] ≡ []
drop-nil zero = refl
drop-nil (suc n) = refl

pub take-prefix : (n : ℕ) (xs ys : Bytes) → length xs ≡ n → take n (xs ++ ys) ≡ xs
take-prefix n xs ys h = subst (λ m. take m (xs ++ ys) ≡ xs) h (take-append xs ys)

pub drop-prefix : (n : ℕ) (xs ys : Bytes) → length xs ≡ n → drop n (xs ++ ys) ≡ ys
drop-prefix n xs ys h = subst (λ m. drop m (xs ++ ys) ≡ ys) h (drop-append xs ys)

pub drop-drop : (m n : ℕ) (xs : Bytes) → drop n (drop m xs) ≡ drop (m + n) xs
drop-drop zero n xs = let e : 0 + n ≡ n = omega arith in rw e refl
drop-drop (suc m) n [] = drop-nil n ∙ sym (drop-nil (suc m + n))
drop-drop (suc m) n (x ∷ xs) =
    let e : suc m + n ≡ suc (m + n) = omega arith in rw e (drop-drop m n xs)

pub take-sum : (m n : ℕ) (xs : Bytes) → take (m + n) xs ≡ take m xs ++ take n (drop m xs)
take-sum zero n xs = let e : 0 + n ≡ n = omega arith in rw e refl
take-sum (suc m) n [] = take-nil (suc m + n) ∙ sym (take-nil n)
take-sum (suc m) n (x ∷ xs) =
    let e : suc m + n ≡ suc (m + n) = omega arith in rw e (ap (λ r. x ∷ r) (take-sum m n xs))

pub same_bytes_correct : (xs ys : Bytes) → same_bytes xs ys ≡ true → xs ≡ ys
same_bytes_correct [] [] h = refl
same_bytes_correct [] (y ∷ ys) h = cc
same_bytes_correct (x ∷ xs) [] h = cc
same_bytes_correct (x ∷ xs) (y ∷ ys) h =
    let tail : xs ≡ ys = same_bytes_correct xs ys (ground arith) in
    let head : x ≡ y = ground arith in rw (tail, head) refl

pub same_bytes_self : (xs : Bytes) → same_bytes xs xs ≡ true
same_bytes_self [] = refl
same_bytes_self (x ∷ xs) = ground (arith, same_bytes_self xs)

pub take-drop-take :
    (m w n : ℕ) (xs : Bytes) → m + w ≤ n → take m (drop w (take n xs)) ≡ take m (drop w xs)
take-drop-take zero w n xs h = refl
take-drop-take (suc m) w zero xs h = ground arith
take-drop-take (suc m) w (suc n) [] h = refl
take-drop-take (suc m) zero (suc n) (x ∷ xs) h =
    ap (λ r. x ∷ r) (take-drop-take m zero n xs (omega arith))
take-drop-take (suc m) (suc w) (suc n) (x ∷ xs) h = take-drop-take (suc m) w n xs (omega arith)

pub drop-take : (m n : ℕ) (xs : Bytes) → drop m (take n xs) ≡ take (n - m) (drop m xs)
drop-take zero n xs = let e : n - 0 ≡ n = omega arith in rw e refl
drop-take (suc m) zero xs = let e : 0 - suc m ≡ 0 = omega arith in rw e refl
drop-take (suc m) (suc n) [] = sym (take-nil (suc n - suc m))
drop-take (suc m) (suc n) (x ∷ xs) =
    let e : suc n - suc m ≡ n - m = omega arith in rw e (drop-take m n xs)

pub All-take : (P : ℕ → Type 0) (n : ℕ) (xs : Bytes) → All P xs → All P (take n xs)
All-take P zero xs h = tt
All-take P (suc n) [] h = tt
All-take P (suc n) (x ∷ xs) h = (h.0, All-take P n xs h.1)

pub All-drop : (P : ℕ → Type 0) (n : ℕ) (xs : Bytes) → All P xs → All P (drop n xs)
All-drop P zero xs h = h
All-drop P (suc n) [] h = tt
All-drop P (suc n) (x ∷ xs) h = All-drop P n xs h.1
