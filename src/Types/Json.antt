-- ===== src/Types/Json.antt =====
-- Values of JSON, for the metadata of documents and chunks. A number is kept as its text.
use ai_dial_generic_rag_back.Prelude.{Bool, String, Option, none, some, str_eq, if◌then◌else◌}

mutual
  pub data Json : Type 0 where
    null : Json
    bool : Bool → Json
    number : String → Json
    string : String → Json
    array : Items → Json
    object : Fields → Json

  pub data Items : Type 0 where
    nil : Items
    cons : Json → Items → Items

  pub data Fields : Type 0 where
    end : Fields
    field : String → Json → Fields → Fields

-- `fields.get(name)`
unfoldable pub lookup : String → Fields → Option Json
lookup name end = none
lookup name (field n v fs) = if str_eq n name then some v else lookup name fs
