-- ===== src/Common/Floats.antt =====
-- The operations of `f64` that the program uses. No law is assumed of them.
use Prim.Native.Nat.{ℕ, Ordering}
use Prim.Native.String.{String}
use mathlib.Core.Bool.{Bool}
use mathlib.Core.Option.{Option}

pub record F64 (F : Type 0) : Type 0 where
  -- `n as f64`, and the literal of n / 10 ^ k.
  pub of_nat : ℕ → F
  pub decimal : ℕ → ℕ → F
  -- `as u64`: no fraction, 0 below 0, 2^64 - 1 where the value is larger.
  pub to_nat : F → ℕ
  pub negate : F → F
  pub neg_infinity : F
  pub add : F → F → F
  pub sub : F → F → F
  pub mul : F → F → F
  pub div : F → F → F
  pub fmin : F → F → F
  pub fmax : F → F → F
  pub lt : F → F → Bool
  pub eq : F → F → Bool
  pub partial_cmp : F → F → Option Ordering
  -- `format!("{:.2}")`.
  pub fixed2 : F → String
