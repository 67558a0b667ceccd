-- ===== src/Prelude/Value.antt =====
-- The Python objects that the program takes from JSON and hands on. A finite float is an integer
-- number of units of 2 ^ -1074, of which every binary64 value is a multiple.
use Prim.Native.Nat.{ℕ}
use Prim.Native.String.{String}
use mathlib.Core.Bool.{Bool}

-- `negsuc n` is -(n + 1).
pub data ℤ : Type 0 where
  pos : ℕ → ℤ
  negsuc : ℕ → ℤ

pub data Float : Type 0 where
  finite : ℤ → Float
  infinite : Bool → Float
  nan : Float

mutual
  -- The keys of a dict with their values, in the order of insertion.
  pub data Fields : Type 0 where
    end : Fields
    field : String → Value → Fields → Fields

  -- The elements of a list.
  pub data Items : Type 0 where
    nil : Items
    cons : Value → Items → Items

  pub data Value : Type 0 where
    null : Value
    obj : Fields → Value
    arr : Items → Value
    str : String → Value
    float : Float → Value
    int : ℤ → Value
    bool : Bool → Value
