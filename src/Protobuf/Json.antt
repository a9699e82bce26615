-- ===== src/Protobuf/Json.antt =====
-- The JSON values that payloads are shown as (`serde_json::Value`): those that a protobuf payload
-- is decoded to. A map keeps its keys in the order of their insertion.
use offset_explorer_oxide.Common.{ℕ, if◌then◌else◌}
use offset_explorer_oxide.Common.Utf8.{Text, same_text}

mutual
  pub data Value : Type 0 where
    number : ℕ → Value
    string : Text → Value
    array : Values → Value
    object : Fields → Value

  pub data Values : Type 0 where
    nil : Values
    cons : Value → Values → Values

  pub data Fields : Type 0 where
    end : Fields
    field : Text → Value → Fields → Fields

-- `Vec::push`
unfoldable pub push : Values → Value → Values
push nil v = cons v nil
push (cons w vs) v = cons w (push vs v)

-- A field that is there already becomes an array, a field that is one grows.
unfoldable pub append_value : Value → Value → Value
unfolding push
append_value (array existing) v = array (push existing v)
append_value (number n) v = array (cons (number n) (cons v nil))
append_value (string t) v = array (cons (string t) (cons v nil))
append_value (object fs) v = array (cons (object fs) (cons v nil))

unfoldable pub push_value : Fields → Text → Value → Fields
unfolding append_value
push_value end key v = field key v end
push_value (field k w fs) key v =
    let later = push_value fs key v in
    if same_text k key then field k (append_value w v) fs else field k w later
