-- ===== src/Constraints/Knobs/Alternate.antt =====
-- A second value for a knob is a legal one (loop/constraints.py, `alternate_value`, `range_error`).
use paper_to_pipeline.Base.{
  ℕ, ltb, ◌≡◌, refl, ◌↔◌, inl, inr, String, true, false, not, ◌&&◌, Option, none, some, List, [],
  ◌∷◌, length, contains_iff, In, arith, ◌==◌, string_eq, Bool-cases, &&_iff, not_iff,
}
use paper_to_pipeline.Base.Json.{Json, null, bool, num, str, arr, obj}
use paper_to_pipeline.Base.Numbers.{Arith}
use paper_to_pipeline.Constraints.Ranges.{Python, Range, choices, interval, parse_range}
use paper_to_pipeline.Constraints.Knobs.{
  Knob, as_int, flag_error, index_error, choice_error, parsed_error, range_error, rounded, is_none,
  first_legal, second_choice, parsed_alternate, alternate_value,
}

-- What Python gives for counts as `int`s, and for `str` of a text.
pub record CountLaws (A : Type 0) (n : Arith A) (python : Python A) : Type 0 where
  pub count_is_int : (k : ℕ) → python.is_int (n.from_count k) ≡ true
  pub count_lt : (j k : ℕ) → ltb j k ≡ true → n.lt (n.from_count j) (n.from_count k) ≡ true
  pub text_of_text : (s : String) → python.text_of (str s) ≡ s

none_iff : {B : Type 0} (o : Option B) → (is_none o ≡ true) ↔ (o ≡ none)
none_iff none = ground arith
none_iff (some b) = ground arith

module _ {A : Type 0} ⦃n : Arith A⦄ (python : Python A) where
  -- The value is legal, and is another number than `d`.
  record IsSecond (knob : Knob A) (d : A) (v : Json A) : Type 0 where
    pub value : A
    pub is_num : v ≡ num value
    pub differs : n.eq value d ≡ false
    pub legal : range_error python knob v ≡ none

  first_legal-IsSecond :
      (knob : Knob A) (d : A) (cs : List A) (v : Json A)
      → first_legal python knob d cs ≡ some v
      → IsSecond knob d v
  unfolding first_legal
  first_legal-IsSecond knob d [] v h = cc
  first_legal-IsSecond knob d (c ∷ cs) v h =
      let value = rounded python d c in
      let problem = range_error python knob (num value) in
      elim (Bool-cases (not (n.eq value d) && is_none problem)) [
        | inl e ↦
            let parts = (&&_iff (not (n.eq value d)) (is_none problem)).0 e in
            let found : some (num value) ≡ some v = rw e at h in
            let is_num : v ≡ num value = cc in
            record {
              value = value;
              is_num = is_num;
              differs = (not_iff (n.eq value d)).0 parts.0;
              legal = rw is_num ((none_iff problem).0 parts.1);
            }
        | inr e ↦ first_legal-IsSecond knob d cs v (rw e at h)
      ]

  -- The second of several choices is a choice.
  second_choice-In :
      (cs : List String) (v : Json A)
      → second_choice cs ≡ some v
      → (s : String) × (v ≡ str s) × In s cs
  second_choice-In [] v h = cc
  second_choice-In (a ∷ []) v h = cc
  second_choice-In (a ∷ c ∷ cs) v h = (c, cc, inr (inl refl))

  index_legal :
      (laws : CountLaws A n python) (count : ℕ)
      → ltb count 2 ≡ false
      → index_error (num (n.from_count 1)) count (as_int python (num (n.from_count 1))) ≡ none
  unfolding index_error as_int
  index_legal laws count h = ground (
    arith,
    laws.count_is_int 1,
    laws.count_lt 0 1 refl,
    laws.count_lt 1 count (ground (arith, h)),
  )

  member_legal :
      (laws : CountLaws A n python) (s : String) (cs : List String)
      → In s cs
      → choice_error python false (str s) cs ≡ none
  unfolding choice_error
  member_legal laws s cs m = ground (arith, laws.text_of_text s, (contains_iff cs s).1 m)

  choice_legal :
      (laws : CountLaws A n python) (knob : Knob A) (cs : List String) (d v : Json A)
      → parsed_alternate python knob (some (choices cs)) d ≡ some v
      → parsed_error python knob (some (choices cs)) v ≡ none
  unfolding parsed_alternate parsed_error choice_error
  choice_legal laws knob cs d v h = elim (Bool-cases (ltb (length cs) 2)) [
    | inl few ↦ let e : none ≡ some v = rw few at h in cc
    | inr many ↦ elim (Bool-cases (knob.type == "enum")) [
      | inl e ↦
          let is_one : some (num (n.from_count 1)) ≡ some v = rw (many, e) at h in
          let same : v ≡ num (n.from_count 1) = cc in
          rw (e, same) (index_legal laws (length cs) many)
      | inr e ↦
          let (s, same, m) = second_choice-In cs v (rw (many, e) at h) in
          rw (e, same) (member_legal laws s cs m)
    ]
  ]

  parsed_legal :
      (laws : CountLaws A n python) (knob : Knob A) (r : Option (Range A)) (d v : Json A)
      → (knob.type == "bool") ≡ false
      → parse_range python knob.range ≡ r
      → parsed_alternate python knob r d ≡ some v
      → range_error python knob v ≡ none
  unfolding parsed_alternate range_error
  parsed_legal laws knob none d v off e h = cc
  parsed_legal laws knob (some (choices cs)) d v off e h =
      rw (off, e) (choice_legal laws knob cs d v h)
  parsed_legal laws knob (some (interval lo hi mods)) (num x) v off e h =
      (first_legal-IsSecond knob x _ v h).legal
  parsed_legal laws knob (some (interval lo hi mods)) null v off e h = cc
  parsed_legal laws knob (some (interval lo hi mods)) (bool b) v off e h = cc
  parsed_legal laws knob (some (interval lo hi mods)) (str s) v off e h = cc
  parsed_legal laws knob (some (interval lo hi mods)) (arr xs) v off e h = cc
  parsed_legal laws knob (some (interval lo hi mods)) (obj d) v off e h = cc

  -- A second value that is found for a knob is a legal value of it, whatever its type and range, if
  -- counts are `int`s in their order and `str` of a text is the text.
  pub alternate_value_legal :
      (laws : CountLaws A n python) (knob : Knob A) (v : Json A)
      → alternate_value python knob ≡ some v
      → range_error python knob v ≡ none
  unfolding alternate_value range_error flag_error
  alternate_value_legal laws knob v h = elim (Bool-cases (knob.type == "bool")) [
    | inl e ↦ ground (arith, e, h)
    | inr e ↦
        parsed_legal laws knob (parse_range python knob.range) knob.default v e refl (rw e at h)
  ]
