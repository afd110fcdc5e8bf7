-- ===== src/Revision/Store/Escalations.antt =====
-- Escalations are answered and never lost (loop/plan_revision.py, `clear_escalations`).
use paper_to_pipeline.Base.{
  ◌≡◌, refl, ◌≢◌, inl, inr, String, Option, none, some, List, [], ◌∷◌, map, keep, length, eqb,
  arith, string_eq, ==_false, Bool-cases,
}
use paper_to_pipeline.Revision.Store.{
  Escalation, is_open, entries_of, open_escalations, mark_entries, clear_escalations,
}

length-nil : {A : Type 0} (xs : List A) → length xs ≡ 0 → xs ≡ []
length-nil [] h = refl
length-nil (x ∷ xs) h = absurd (omega (arith, h))

module _ {B : Type 0} where
  abbrev pub bodies : List (Escalation B) → List B
  bodies entries = map (λ e. e.body) entries

  mark_lem :
      (stamp : String) (entries : List (Escalation B))
      → stamp ≢ ""
      → ((mark_entries stamp entries).0 ≡ length (keep is_open entries))
        × (keep is_open (mark_entries stamp entries).1 ≡ [])
        × (bodies (mark_entries stamp entries).1 ≡ bodies entries)
  unfolding mark_entries
  mark_lem stamp [] h = (refl, refl, refl)
  mark_lem stamp (e ∷ entries) h =
      let (counted, closed, kept) = mark_lem stamp entries h in
      let stamped = ==_false stamp "" h in
      elim (Bool-cases (is_open e)) [
        | inl o ↦ rw (o, stamped) (omega (arith, counted), closed, rw kept refl)
        | inr o ↦ rw (o, o) (counted, closed, rw kept refl)
      ]

  -- With a stamp that is not empty: clearing reports how many escalations were open, leaves none
  -- open, and keeps what every one of them said.
  pub clear_escalations-answered :
      (stamp : String) (file : Option (List (Escalation B)))
      → stamp ≢ ""
      → ((clear_escalations stamp file).0 ≡ length (open_escalations file))
        × (open_escalations (clear_escalations stamp file).1 ≡ [])
        × (bodies (entries_of (clear_escalations stamp file).1) ≡ bodies (entries_of file))
  unfolding clear_escalations open_escalations
  clear_escalations-answered stamp none h = (refl, refl, refl)
  clear_escalations-answered stamp (some entries) h =
      let (counted, closed, kept) = mark_lem stamp entries h in
      elim (Bool-cases (eqb (mark_entries stamp entries).0 0)) [
        | inl e ↦
            let none_open = length-nil (keep is_open entries) (ground (arith, counted, e)) in
            rw e (counted, none_open, refl)
        | inr e ↦ rw e (counted, closed, kept)
      ]
