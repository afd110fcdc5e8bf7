-- ===== src/Replan/Design/Same.antt =====
-- When two port plans have the same design (loop/replan.py, `design_changes`), by the fields that
-- are compared.
use paper_to_pipeline.Base.{
  ◌≡◌, ◌↔◌, String, Bool, true, List, [], ◌++◌, Eq, ◌==◌, list_eq, option_eq, append-eq-nil, arith,
  ==_iff,
}
use paper_to_pipeline.Base.Json.{Json, Fields, json_beq, json_beq_lem, json_eq}
use paper_to_pipeline.Revision.Documents.{value, list_at, dict_at}
use paper_to_pipeline.Replan.Design.{changed, enable, structure_choice, design_changes}
use paper_to_pipeline.Replan.Design.Sites.{
  SameEntries, SameHook, SameKnob, SameHostKnob, three, hooks_iff, knobs_iff, host_knobs_iff,
}
use paper_to_pipeline.Replan.Design.Statuses.{last_status, status_iff}

changed_iff : (name : String) (same : Bool) → (changed name same ≡ []) ↔ (same ≡ true)
changed_iff name same = ground arith

module _ {A : Type 0} ⦃e : Eq A⦄ where
  pub record SameDesign (old new : Fields A) : Type 0 where
    pub choice : value "choice" (dict_at "structure" old) ≡ value "choice" (dict_at "structure" new)
    pub hooks : SameEntries SameHook "hook_points" old new
    pub resolved :
        (pointer : Json A)
        → last_status pointer (list_at "interface_resolutions" old)
          ≡ last_status pointer (list_at "interface_resolutions" new)
    pub switch_name :
        value "name" (dict_at "feature_enable" old) ≡ value "name" (dict_at "feature_enable" new)
    pub switch_macro :
        value "macro" (dict_at "feature_enable" old) ≡ value "macro" (dict_at "feature_enable" new)
    pub switch_binding :
        value "binding" (dict_at "feature_enable" old)
        ≡ value "binding" (dict_at "feature_enable" new)
    pub knobs : SameEntries SameKnob "knobs" old new
    pub host_knobs : SameEntries SameHostKnob "host_knobs" old new

  switch_iff :
      (old new : Fields A)
      → (let a = dict_at "feature_enable" old in
          let b = dict_at "feature_enable" new in
          ((enable old == enable new) ≡ true) ↔ (
            (value "name" a ≡ value "name" b)
            × (value "macro" a ≡ value "macro" b)
            × (value "binding" a ≡ value "binding" b)))
  unfolding enable
  switch_iff old new =
      let tuple = three _ _ _ _ _ _ in
      (λ h. tuple.0 ((==_iff _ _).0 h), λ h. (==_iff _ _).1 (tuple.1 h))

  choice_iff :
      (old new : Fields A)
      → (json_beq (structure_choice old) (structure_choice new) ≡ true)
        ↔ (value "choice" (dict_at "structure" old) ≡ value "choice" (dict_at "structure" new))
  unfolding structure_choice
  choice_iff old new = json_beq_lem _ _

  -- Nothing is reported exactly when the two plans have the same structure choice; the same file,
  -- symbol and action of the hook points; for every spec pointer the same status of its last
  -- interface resolution; the same name, macro and binding of the enable switch; the same macro and
  -- binding of the knobs; and the same macro, file and host symbol of the host knobs. The order and
  -- repetition of entries, and all other text, may differ.
  pub design_changes-SameDesign :
      (old new : Fields A) → (design_changes old new ≡ []) ↔ SameDesign old new
  unfolding design_changes
  design_changes-SameDesign old new = (
    λ h.
        let a = (append-eq-nil _ _).0 h in
        let b = (append-eq-nil _ _).0 a.1 in
        let c = (append-eq-nil _ _).0 b.1 in
        let d = (append-eq-nil _ _).0 c.1 in
        let f = (append-eq-nil _ _).0 d.1 in
        let switch = (switch_iff old new).0 ((changed_iff _ _).0 d.0) in
        record {
          choice = (choice_iff old new).0 ((changed_iff _ _).0 a.0);
          hooks = (hooks_iff old new).0 ((changed_iff _ _).0 b.0);
          resolved = (status_iff old new).0 ((changed_iff _ _).0 c.0);
          switch_name = switch.0;
          switch_macro = switch.1;
          switch_binding = switch.2;
          knobs = (knobs_iff old new).0 ((changed_iff _ _).0 f.0);
          host_knobs = (host_knobs_iff old new).0 ((changed_iff _ _).0 f.1);
        },
    λ h.
        all_empty ((changed_iff _ _).1 ((choice_iff old new).1 h.choice))
          ((changed_iff _ _).1 ((hooks_iff old new).1 h.hooks))
          ((changed_iff _ _).1 ((status_iff old new).1 h.resolved))
          ((changed_iff _ _).1
            ((switch_iff old new).1 (h.switch_name, h.switch_macro, h.switch_binding)))
          ((changed_iff _ _).1 ((knobs_iff old new).1 h.knobs))
          ((changed_iff _ _).1 ((host_knobs_iff old new).1 h.host_knobs)),
  )
    where
      all_empty :
          {a b c d f g : List String}
          → a ≡ []
          → b ≡ []
          → c ≡ []
          → d ≡ []
          → f ≡ []
          → g ≡ []
          → a ++ (b ++ (c ++ (d ++ (f ++ g)))) ≡ []
      all_empty a b c d f g = rw (a, b, c, d, f, g)
