-- ===== src/Model.antt =====
-- internal/model/message.go: one received syslog event. A `time.Time` is the number of nanoseconds
-- since Go's zero time, which is 0; a pointer that may be nil is an `Option`.
use logthing.Prelude.{ℕ, String, Bool, Option}
use logthing.Prelude.Int.{ℤ}

-- Decoded JSON, as in `map[string]any`.
mutual
  pub data Json : Type 0 where
    null : Json
    bool : Bool → Json
    number : String → Json
    text : String → Json
    array : Items → Json
    object : Fields → Json

  pub data Items : Type 0 where
    nil : Items
    cons : Json → Items → Items

  pub data Fields : Type 0 where
    end : Fields
    field : String → Json → Fields → Fields

pub record Message : Type 0 where
  pub id : String
  pub received_at : ℕ
  pub timestamp : Option ℕ
  pub transport : String
  pub source : String
  pub priority : Option ℤ
  pub facility : Option ℤ
  pub severity : Option ℤ
  pub hostname : String
  pub app_name : String
  pub proc_id : String
  pub msg_id : String
  pub tag : String
  pub message : String
  pub structured_data : Option Fields
  pub raw : Option Fields
