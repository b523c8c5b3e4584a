-- ===== src/Json/Sample.antt =====
-- A small model of JSON values, which shows that the interface can be met and which the tests use.
use headless_siem.Prelude.{
  ℕ, Text, codes, decimal, Bool, Option, none, some, List, [], ◌∷◌, ◌≡◌, refl, ◌==◌, nat_eq,
  list_eq, arith, if◌then◌else◌,
}
use headless_siem.Json.{Json, View, null, boolean, number, string, array, object, entry}

mutual
  pub data Value : Type 0 where
    nothing : Value
    truth : Bool → Value
    num : ℕ → Value
    obj : Fields → Value
    str : Text → Value
    arr : Elements → Value

  pub data Elements : Type 0 where
    no_element : Elements
    element : Value → Elements → Elements

  pub data Fields : Type 0 where
    end : Fields
    field : Text → Value → Fields → Fields

abbrev pub sample_view : Value → View
sample_view nothing = null
sample_view (truth b) = boolean b
sample_view (num n) = number (decimal n)
sample_view (str s) = string s
sample_view (arr xs) = array
sample_view (obj fs) = object

abbrev pub find_field : Text → Fields → Option Value
find_field k end = none
find_field k (field j v fs) = if j == k then some v else find_field k fs

abbrev pub sample_get : Value → Text → Option Value
sample_get (obj fs) k = find_field k fs
sample_get _ k = none

-- A rough text, enough to compare values in tests.
abbrev pub sample_text : Value → Text
sample_text (num n) = decimal n
sample_text (str s) = s
sample_text _ = codes "{}"

abbrev pub items_of : List Value → Elements
items_of [] = no_element
items_of (v ∷ vs) = element v (items_of vs)

abbrev pub fields_of : List (Text × Value) → Fields
fields_of [] = end
fields_of ((k, v) ∷ fs) = field k v (fields_of fs)

pub find_field-fields_of :
    (fs : List (Text × Value)) (k : Text) → find_field k (fields_of fs) ≡ entry k fs
unfolding entry
find_field-fields_of [] k = refl
find_field-fields_of ((j, v) ∷ fs) k = ground (arith, find_field-fields_of fs k)

instance abbrev pub sample_json : Json Value
sample_json = record {
  view = sample_view;
  get_key = sample_get;
  to_text = sample_text;
  of_bool = truth;
  of_nat = num;
  of_text = str;
  of_list = λ vs. arr (items_of vs);
  of_fields = λ fs. obj (fields_of fs);
  view-of_text = λ s. refl;
  get_key-of_fields = λ fs k distinct. find_field-fields_of fs k;
}
