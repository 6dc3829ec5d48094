-- ===== src/Base/Value.antt =====
-- The values of Python that the contracts meet, and the JSON documents that are stored.
-- A JSON text (`json.dumps`, `json.loads`) stands for the value that it encodes.
use hermes_agentic_variation.Base.{Bool, String}
use hermes_agentic_variation.Base.Float.{Number}

mutual
  pub data Value : Type 0 where
    null : Value
    bool : Bool → Value
    num : Number → Value
    str : String → Value
    tuple : Values → Value
    list : Values → Value
    dict : Entries → Value
    object : Value  -- any object of another type

  pub data Values : Type 0 where
    nil : Values
    cons : Value → Values → Values

  -- The items of a mapping, in its order. A key of another type than `str` is not looked at.
  pub data Entries : Type 0 where
    end : Entries
    entry : String → Value → Entries → Entries
    odd_key : Value → Entries → Entries
