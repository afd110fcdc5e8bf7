-- ===== src/Planning/Calls.antt =====
-- Calls that may raise an `Exception` (the `try` of loop/adopt_a_paper_loop.py, `integrate`), and
-- optional values: how each goes on, and what holds of it.
use paper_to_pipeline.Base.{◌≡◌, refl, String, Option, none, some}

-- What a call gives that may raise.
pub data Called (X : Type 0) : Type 0 where
  raised : (error : String) → Called X
  returned : X → Called X

-- A call's two ways on, and an optional value's.
abbrev pub on_call : {X S R : Type 0} → Called X × S → (String → S → R) → (X → S → R) → R
on_call (raised error, s) failed go_on = failed error s
on_call (returned x, s) failed go_on = go_on x s

abbrev pub on_some : {X R : Type 0} → Option X → R → (X → R) → R
on_some none otherwise go_on = otherwise
on_some (some x) otherwise go_on = go_on x

pub on_call_ind :
    {X S R : Type 0} (P : R → Type 0) (x : Called X) (s : S) (f : String → S → R) (g : X → S → R)
    → ((error : String) → x ≡ raised error → P (f error s))
    → ((v : X) → x ≡ returned v → P (g v s))
    → P (on_call (x, s) f g)
on_call_ind P (raised error) s f g failed goes = failed error refl
on_call_ind P (returned v) s f g failed goes = goes v refl

pub on_some_ind :
    {X R : Type 0} (P : R → Type 0) (o : Option X) (r : R) (g : X → R)
    → (o ≡ none → P r)
    → ((v : X) → o ≡ some v → P (g v))
    → P (on_some o r g)
on_some_ind P none r g absent present = absent refl
on_some_ind P (some v) r g absent present = present v refl
