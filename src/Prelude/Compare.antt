-- ===== src/Prelude/Compare.antt =====
-- The Boolean tests on numbers against the relations.
use Prim.Native.Nat.{ℕ, ◌≤◌, ◌<◌}
use mathlib.Core.Path.{◌≡◌}
use mathlib.Core.Logic.{◌≢◌}
use mathlib.Core.Bool.{true, false}
use native.Mathlib.Omega.{arith}
use gooru.Prelude.Tests.{ltb, leb, eqb}

module _ (m n : ℕ) where
  pub leb-true : leb m n ≡ true → m ≤ n
  leb-true h = ground arith

  pub leb-false : leb m n ≡ false → n < m
  leb-false h = ground arith

  pub ltb-true : ltb m n ≡ true → m < n
  ltb-true h = ground arith

  pub ltb-false : ltb m n ≡ false → n ≤ m
  ltb-false h = ground arith

  pub eqb-true : eqb m n ≡ true → m ≡ n
  eqb-true h = ground arith

  pub eqb-false : eqb m n ≡ false → m ≢ n
  eqb-false h = ground arith

  pub true-leb : m ≤ n → leb m n ≡ true
  true-leb h = ground arith

  pub false-leb : n < m → leb m n ≡ false
  false-leb h = ground arith

  pub true-ltb : m < n → ltb m n ≡ true
  true-ltb h = ground arith

  pub false-ltb : n ≤ m → ltb m n ≡ false
  false-ltb h = ground arith

  pub true-eqb : m ≡ n → eqb m n ≡ true
  true-eqb h = ground arith
