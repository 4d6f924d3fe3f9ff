-- ===== src/Json.antt =====
-- JSON values: the merge patches and the request bodies that the program builds as JSON text.
use fluxgate_operator.Prelude.{Bool, String, ℤ}

mutual
  pub data Json : Type 0 where
    null : Json
    bool : Bool → Json
    num : ℤ → Json
    str : String → Json
    arr : Items → Json
    obj : Fields → Json

  pub data Items : Type 0 where
    nil : Items
    item : Json → Items → Items

  pub data Fields : Type 0 where
    end : Fields
    field : String → Json → Fields → Fields

-- An object with one field.
abbrev pub single : String → Json → Json
single key value = obj (field key value end)
