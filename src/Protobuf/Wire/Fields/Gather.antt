-- ===== src/Protobuf/Wire/Fields/Gather.antt =====
-- What a map holds after fields were written to it one after another.
use offset_explorer_oxide.Common.{
  Bool, true, false, Option, none, some, List, [], ◌∷◌, ◌++◌, inl, inr, ◌≡◌, refl, sym, ap, ◌∙◌,
  arith, if◌then◌else◌, Bool-cases, All, All-append,
}
use mathlib.Core.List.{append_assoc, append-nil}
use offset_explorer_oxide.Common.Utf8.{Text, same_text, same_text_agrees}
use offset_explorer_oxide.Protobuf.Json.{
  Value, number, string, array, object, Values, nil, cons, Fields, end, field, push, append_value,
  push_value,
}

-- `Map::get`
abbrev pub get_field : Fields → Text → Option Value
get_field end k = none
get_field (field j w fs) k = if same_text j k then some w else get_field fs k

abbrev pub push_all : Fields → List (Text × Value) → Fields
push_all fs [] = fs
push_all fs ((k, v) ∷ rest) = push_all (push_value fs k v) rest

-- The values written under a key, in their order.
abbrev pub values_of : Text → List (Text × Value) → List Value
values_of k [] = []
values_of k ((j, v) ∷ rest) = if same_text j k then v ∷ values_of k rest else values_of k rest

abbrev pub in_array : List Value → Values
in_array [] = nil
in_array (v ∷ vs) = cons v (in_array vs)

-- No value, the one value itself, or an array of them all.
abbrev pub together : List Value → Option Value
together [] = none
together (v ∷ []) = some v
together (v ∷ w ∷ vs) = some (array (in_array (v ∷ w ∷ vs)))

abbrev pub is_array : Value → Bool
is_array (number n) = false
is_array (string t) = false
is_array (array vs) = true
is_array (object fs) = false

push-in_array : (vs : List Value) (v : Value) → push (in_array vs) v ≡ in_array (vs ++ v ∷ [])
unfolding push
push-in_array [] v = refl
push-in_array (w ∷ vs) v = ap (cons w) (push-in_array vs v)

-- Values that are not arrays start one.
append_first : (w v : Value) → is_array w ≡ false → append_value w v ≡ array (cons w (cons v nil))
unfolding append_value
append_first (number n) v h = refl
append_first (string t) v h = refl
append_first (array vs) v h = ground (arith, h)
append_first (object fs) v h = refl

append_next : (vs : Values) (v : Value) → append_value (array vs) v ≡ array (push vs v)
unfolding append_value
append_next vs v = refl

abbrev appended : Option Value → Value → Value
appended none v = v
appended (some w) v = append_value w v

get_field-push_value :
    (fs : Fields) (k j : Text) (v : Value)
    → get_field (push_value fs k v) j
      ≡ (if same_text k j then some (appended (get_field fs k) v) else get_field fs j)
unfolding push_value
get_field-push_value end k j v = refl
get_field-push_value (field i w fs) k j v = ground (
  arith,
  get_field-push_value fs k j v,
  same_text_agrees i k,
  same_text_agrees i j,
  same_text_agrees k j,
)

appended-together :
    (vs : List Value) (v : Value)
    → All (λ w. is_array w ≡ false) vs
    → some (appended (together vs) v) ≡ together (vs ++ v ∷ [])
appended-together [] v plain = refl
appended-together (w ∷ []) v plain = ap some (append_first w v plain.0)
appended-together (w ∷ u ∷ vs) v plain =
    ap some (append_next (in_array (w ∷ u ∷ vs)) v ∙ ap array (push-in_array (w ∷ u ∷ vs) v))

-- Whatever is under a key, further values for it go behind.
get_field-push_all :
    (fs : Fields) (k : Text) (vs : List Value) (kvs : List (Text × Value))
    → get_field fs k ≡ together vs
    → All (λ w. is_array w ≡ false) vs
    → All (λ kv. is_array kv.1 ≡ false) kvs
    → get_field (push_all fs kvs) k ≡ together (vs ++ values_of k kvs)
get_field-push_all fs k vs [] h plain all_plain = h ∙ sym (ap together (append-nil vs))
get_field-push_all fs k vs ((j, v) ∷ kvs) h plain (flat, all_plain) =
    elim (Bool-cases (same_text j k)) [
      | inl e ↦
          let same = (same_text_agrees j k).0 e in
          let now : get_field (push_value fs j v) k ≡ together (vs ++ v ∷ []) =
            get_field-push_value fs j k v ∙ rw e (rw (same, h) (appended-together vs v plain)) in
          let more = All-append (λ w. is_array w ≡ false) vs (v ∷ []) plain (flat, tt) in
          get_field-push_all (push_value fs j v) k (vs ++ v ∷ []) kvs now more all_plain
          ∙ rw e (ap together (append_assoc vs (v ∷ []) (values_of k kvs)))
      | inr e ↦
          let now : get_field (push_value fs j v) k ≡ together vs =
            get_field-push_value fs j k v ∙ rw e h in
          get_field-push_all (push_value fs j v) k vs kvs now plain all_plain ∙ rw e refl
    ]

-- Values that are no arrays, written one after another to an empty map: under each key stand
-- the values that were written to it, in their order.
pub get_field-push_all_lem :
    (kvs : List (Text × Value)) (k : Text)
    → All (λ kv. is_array kv.1 ≡ false) kvs
    → get_field (push_all end kvs) k ≡ together (values_of k kvs)
get_field-push_all_lem kvs k plain = get_field-push_all end k [] kvs refl tt plain
