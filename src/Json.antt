-- ===== src/Json.antt =====
-- The values that encoding/json decodes into `any`. An object is the list of its entries, without
-- repeated keys, in the order in which a loop over the map meets them.
use ai4se_coding_agent_harne.Prelude.{String, Bool}

mutual
  pub data Json : Type 0 where
    null : Json
    boolean : Bool → Json
    num : String → Json
    str : String → Json
    arr : Items → Json
    obj : Fields → Json

  pub data Items : Type 0 where
    nil : Items
    cons : Json → Items → Items

  pub data Fields : Type 0 where
    end : Fields
    entry : String → Json → Fields → Fields
