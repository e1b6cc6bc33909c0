-- ===== src/Value.antt =====
-- The Python values that `json.loads` makes and `json.dumps` takes, with the tests that the
-- integration's parsers apply to them: custom_components/panel_assistant/install_jobs.py.
use ha_paneld_home_assistant.Prelude.{
  ℕ, Bool, true, false, ◌&&◌, not, Option, none, some, List, [], ◌∷◌, ◌==◌, if◌then◌else◌, all,
  Text, text_eq, mem_text, ℤ, pos, negsuc,
}

-- A tuple and a list are both `arr`. Of a float only the integer that it equals is kept, if it
-- equals one: the source asks a float nothing else. A `dict` keeps its order of insertion.
mutual
  pub data Value : Type 0 where
    null : Value
    bool : Bool → Value
    int : ℤ → Value
    float : Option ℤ → Value
    str : Text → Value
    arr : Items → Value
    obj : Fields → Value

  pub data Items : Type 0 where
    nil : Items
    cons : Value → Items → Items

  pub data Fields : Type 0 where
    end : Fields
    field : Text → Value → Fields → Fields

unfoldable pub item : Text → Fields → Option Value
unfolding text_eq
item key end = none
item key (field k v rest) = if text_eq k key then some v else item key rest

keys : Fields → List Text
keys end = []
keys (field k v rest) = k ∷ keys rest

-- `value.keys() == {…}`.
unfoldable pub keys_are : List Text → Fields → Bool
unfolding keys all mem_text
keys_are names fields =
    all (λ k. mem_text k names) (keys fields) && all (λ k. mem_text k (keys fields)) names

-- The pairs hook: a key that stands twice in one object is refused, at any depth.
unfoldable mutual
  unfolding keys mem_text

  pub no_duplicates : Value → Bool
  no_duplicates (arr xs) = no_duplicate_items xs
  no_duplicates (obj fs) = no_duplicate_fields fs
  no_duplicates _ = true

  pub no_duplicate_items : Items → Bool
  no_duplicate_items nil = true
  no_duplicate_items (cons v xs) = no_duplicates v && no_duplicate_items xs

  pub no_duplicate_fields : Fields → Bool
  no_duplicate_fields end = true
  no_duplicate_fields (field k v rest) =
      no_duplicates v && (not (mem_text k (keys rest)) && no_duplicate_fields rest)

-- `value == text` at a `str`.
unfoldable pub is_text : Text → Value → Bool
is_text t (str s) = text_eq s t
is_text t _ = false

int_is : ℕ → ℤ → Bool
int_is n (pos m) = m == n
int_is n (negsuc m) = false

-- `value == n` at an `int`: Python's `True` equals 1, and a float may equal an integer.
unfoldable pub equals_nat : ℕ → Value → Bool
unfolding int_is
equals_nat n (int z) = int_is n z
equals_nat n (float (some z)) = int_is n z
equals_nat n (bool true) = n == 1
equals_nat n (bool false) = n == 0
equals_nat n _ = false

-- `tuple(value) == texts`.
unfoldable pub items_are : List Text → Items → Bool
unfolding is_text
items_are [] nil = true
items_are (t ∷ ts) (cons v vs) = is_text t v && items_are ts vs
items_are _ _ = false

unfoldable pub texts : List Text → Items
texts [] = nil
texts (t ∷ ts) = cons (str t) (texts ts)

option_int_eq : Option ℤ → Option ℤ → Bool
option_int_eq none none = true
option_int_eq (some (pos m)) (some (pos n)) = m == n
option_int_eq (some (negsuc m)) (some (negsuc n)) = m == n
option_int_eq _ _ = false

-- `==` on documents that hold no float and compare no `bool` with a number. Two objects of one
-- serializer list their keys in one order.
unfoldable mutual
  unfolding option_int_eq text_eq

  pub value_eq : Value → Value → Bool
  value_eq null null = true
  value_eq (bool a) (bool b) = if a then b else not b
  value_eq (int a) (int b) = option_int_eq (some a) (some b)
  value_eq (float a) (float b) = option_int_eq a b
  value_eq (str s) (str t) = text_eq s t
  value_eq (arr xs) (arr ys) = items_eq xs ys
  value_eq (obj fs) (obj gs) = fields_eq fs gs
  value_eq _ _ = false

  pub items_eq : Items → Items → Bool
  items_eq nil nil = true
  items_eq (cons v vs) (cons w ws) = value_eq v w && items_eq vs ws
  items_eq _ _ = false

  pub fields_eq : Fields → Fields → Bool
  fields_eq end end = true
  fields_eq (field k v fs) (field j w gs) = text_eq k j && (value_eq v w && fields_eq fs gs)
  fields_eq _ _ = false
