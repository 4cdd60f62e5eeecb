-- ===== src/Json.antt =====
-- The values of user attributes: `serde_json::Value`. A number is kept in the form that serde
-- gives it, an integer in the range of `i64` or `u64` or else a float, whose bits are not looked at.
use rustytree.Prelude.{ℕ, Text, Bool}

mutual
  pub data Json : Type 0 where
    null : Json
    boolean : Bool → Json
    number : Number → Json
    text : Text → Json
    array : Items → Json
    object : Fields → Json

  pub data Number : Type 0 where
    -- A non-negative integer below 2 ^ 64, and a negative one, `negative n` being `-(n + 1)`.
    positive : ℕ → Number
    negative : ℕ → Number
    -- The bits of an `f64`.
    float : ℕ → Number

  pub data Items : Type 0 where
    nil : Items
    cons : Json → Items → Items

  pub data Fields : Type 0 where
    end : Fields
    field : Text → Json → Fields → Fields
