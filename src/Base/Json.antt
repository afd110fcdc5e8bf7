-- ===== src/Base/Json.antt =====
-- A JSON document as Python reads it, over the numbers `A`. The fields of an object are listed in
-- the order of their names, so that two objects are equal as `dict`s when they are equal as lists.
use Prim.Native.String.{String}
use mathlib.Core.Path.{◌≡◌}
use mathlib.Core.Logic.{◌↔◌}
use mathlib.Core.Bool.{Bool, true, false, ◌&&◌}
use mathlib.Core.Option.{Option, none, some}
use mathlib.Core.List.{List, [], ◌∷◌}
use native.Mathlib.Omega.{arith}
use text.Mathlib.TextEquality.{eq_iff}
use paper_to_pipeline.Base.Tests.{if◌then◌else◌}
use paper_to_pipeline.Base.Equality.{Eq, ◌==◌, string_eq, bool_eq, bool_beq, bool_beq_iff}

mutual
  pub data Json (A : Type 0) : Type 0 where
    null : Json A
    bool : Bool → Json A
    num : A → Json A
    str : String → Json A
    arr : Items A → Json A
    obj : Fields A → Json A

  pub data Items (A : Type 0) : Type 0 where
    nil : Items A
    item : Json A → Items A → Items A

  pub data Fields (A : Type 0) : Type 0 where
    end : Fields A
    field : String → Json A → Fields A → Fields A

module _ {A : Type 0} where
  abbrev pub items : Items A → List (Json A)
  items nil = []
  items (item x xs) = x ∷ items xs

  -- `d.get(k)` on the fields of an object
  abbrev pub get_field : String → Fields A → Option (Json A)
  get_field k end = none
  get_field k (field j v fs) = if j == k then some v else get_field k fs

  abbrev pub names : Fields A → List String
  names end = []
  names (field j v fs) = j ∷ names fs

  -- Equality of a compound from that of its parts, whatever computes the tests.
  item_iff :
      (p q : Bool) (a b : Json A) (as' bs : Items A)
      → (p ≡ true) ↔ (a ≡ b)
      → (q ≡ true) ↔ (as' ≡ bs)
      → ((p && q) ≡ true) ↔ (item a as' ≡ item b bs)
  item_iff p q a b as' bs h k = ground arith

  field_iff :
      (j k : String) (p q : Bool) (a b : Json A) (as' bs : Fields A)
      → (p ≡ true) ↔ (a ≡ b)
      → (q ≡ true) ↔ (as' ≡ bs)
      → (((j == k) && p && q) ≡ true) ↔ (field j a as' ≡ field k b bs)
  field_iff j k p q a b as' bs h i = ground (arith, eq_iff j k)

module _ {A : Type 0} ⦃e : Eq A⦄ where
  unfoldable mutual
    pub json_beq : Json A → Json A → Bool
    json_beq null null = true
    json_beq (bool a) (bool b) = bool_beq a b
    json_beq (num a) (num b) = e.beq a b
    json_beq (str a) (str b) = a == b
    json_beq (arr a) (arr b) = items_beq a b
    json_beq (obj a) (obj b) = fields_beq a b
    json_beq _ _ = false

    pub items_beq : Items A → Items A → Bool
    items_beq nil nil = true
    items_beq (item a as') (item b bs) = json_beq a b && items_beq as' bs
    items_beq _ _ = false

    pub fields_beq : Fields A → Fields A → Bool
    fields_beq end end = true
    fields_beq (field j a as') (field k b bs) = (j == k) && json_beq a b && fields_beq as' bs
    fields_beq _ _ = false

  mutual
    unfolding json_beq items_beq fields_beq

    json_beq_iff : (a b : Json A) → (json_beq a b ≡ true) ↔ (a ≡ b)
    json_beq_iff null null = ground arith
    json_beq_iff (bool a) (bool b) = ground (arith, bool_beq_iff a b)
    json_beq_iff (num a) (num b) = ground (arith, e.decides a b)
    json_beq_iff (str a) (str b) = ground (arith, eq_iff a b)
    json_beq_iff (arr a) (arr b) = ground (arith, items_beq_iff a b)
    json_beq_iff (obj a) (obj b) = ground (arith, fields_beq_iff a b)
    json_beq_iff _ _ = ground arith

    items_beq_iff : (a b : Items A) → (items_beq a b ≡ true) ↔ (a ≡ b)
    items_beq_iff nil nil = ground arith
    items_beq_iff (item a as') (item b bs) =
        item_iff _ _ a b as' bs (json_beq_iff a b) (items_beq_iff as' bs)
    items_beq_iff _ _ = ground arith

    fields_beq_iff : (a b : Fields A) → (fields_beq a b ≡ true) ↔ (a ≡ b)
    fields_beq_iff end end = ground arith
    fields_beq_iff (field j a as') (field k b bs) =
        field_iff j k _ _ a b as' bs (json_beq_iff a b) (fields_beq_iff as' bs)
    fields_beq_iff _ _ = ground arith

  pub json_beq_lem : (a b : Json A) → (json_beq a b ≡ true) ↔ (a ≡ b)
  json_beq_lem a b = json_beq_iff a b

instance abbrev pub json_eq : {A : Type 0} ⦃e : Eq A⦄ → Eq (Json A)
json_eq = record { beq = json_beq; decides = json_beq_lem }
