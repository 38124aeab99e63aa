-- ===== src/Examples/Values.antt =====
-- A small JSON library, which the runs are made with.
use insight_io.Base.{
  ℕ, ◌≡◌, refl, Bool, true, false, Option, none, some, List, [], ◌∷◌, if◌then◌else◌, Text, text_eq,
}
use insight_io.Json.{JsonApi}
use insight_io.Json.Laws.{JsonLaws, find_member, is_there}

mutual
  pub data Value : Type 0 where
    nothing : Value
    word : Text → Value
    count : ℕ → Value
    flag : Bool → Value
    fields : Members → Value
    items : Members → Value

  -- The members of an object, the latest first, or the elements of an array.
  pub data Members : Type 0 where
    no_more : Members
    member : Text → Value → Members → Members

abbrev members_of : List (Text × Value) → Members
members_of [] = no_more
members_of ((k, v) ∷ ms) = member k v (members_of ms)

abbrev elements_of : List Value → Members
elements_of [] = no_more
elements_of (v ∷ vs) = member [] v (elements_of vs)

abbrev values_in : Members → List Value
values_in no_more = []
values_in (member k v ms) = v ∷ values_in ms

abbrev member_at : Members → Text → Option Value
member_at no_more key = none
member_at (member k v ms) key =
    let rest = member_at ms key in if text_eq k key then some v else rest

abbrev at : Value → Text → Option Value
at (fields ms) key = member_at ms key
at v key = none

abbrev is_object : Value → Bool
is_object (fields ms) = true
is_object v = false

abbrev assign : Value → Text → Value → Value
assign (fields ms) k v = fields (member k v ms)
assign j k v = j

abbrev word_or : Option Value → Text → Text
word_or (some (word t)) d = t
word_or o d = d

abbrev count_or : Option Value → ℕ → ℕ
count_or (some (count n)) d = n
count_or o d = d

abbrev pub values : JsonApi
values = record {
  Json = Value;
  null = nothing;
  text = word;
  number = count;
  boolean = flag;
  object = λ ms. fields (members_of ms);
  array = λ vs. items (elements_of vs);
  is_object = is_object;
  is_array = λ v. elim v as (λ _. Bool) [ items ms ↦ true | _ ↦ false ];
  is_empty = λ v. elim v as (λ _. Bool) [
    | nothing ↦ true
    | fields no_more ↦ true
    | items no_more ↦ true
    | _ ↦ false
  ];
  is_string = λ v. elim v as (λ _. Bool) [ word t ↦ true | _ ↦ false ];
  string_of = λ v. word_or (some v) [];
  elements = λ v. elim v as (λ _. List Value) [ items ms ↦ values_in ms | _ ↦ [] ];
  contains = λ v k. is_there (at v k);
  at = at;
  assign = assign;
  value_text = λ v k d. word_or (at v k) d;
  value_number = λ v k d. count_or (at v k) d;
  dump = λ v. word_or (some v) [];
  parse = λ t. some (word t);
}

member_at-members_of :
    (ms : List (Text × Value)) (k : Text) → member_at (members_of ms) k ≡ find_member k ms
unfolding find_member
member_at-members_of [] k = refl
member_at-members_of ((j, v) ∷ ms) k = rw (member_at-members_of ms k) refl

at_assign :
    (j : Value) (k : Text) (v : Value) (l : Text)
    → is_object j ≡ true
    → at (assign j k v) l ≡ (if text_eq k l then some v else at j l)
at_assign (fields ms) k v l h = refl
at_assign nothing k v l h = absurd cc
at_assign (word t) k v l h = absurd cc
at_assign (count n) k v l h = absurd cc
at_assign (flag n) k v l h = absurd cc
at_assign (items ms) k v l h = absurd cc

assign_is :
    (j : Value) (k : Text) (v : Value) → is_object j ≡ true → is_object (assign j k v) ≡ true
assign_is (fields ms) k v h = refl
assign_is nothing k v h = absurd cc
assign_is (word t) k v h = absurd cc
assign_is (count n) k v h = absurd cc
assign_is (flag n) k v h = absurd cc
assign_is (items ms) k v h = absurd cc

pub values-JsonLaws : JsonLaws values
values-JsonLaws = record {
  object_is = λ ms. refl;
  assign_is = assign_is;
  at_object = member_at-members_of;
  at_assign = at_assign;
  contains_at = λ j k h. refl;
  value_text_at = λ j k t d e. rw e refl;
  value_number_at = λ j k n d e. rw e refl;
}
