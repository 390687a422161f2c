-- ===== src/Config/Validator/Laws.antt =====
-- What each test of the validator means, for the sections' theorems.
use fluffy_dollop.Base.{
  ◌≡◌, refl, ◌↔◌, inl, inr, Bool, true, false, not, ◌&&◌, some, List, [], ◌∷◌, arith, Option-cases,
  All, In,
}
use fluffy_dollop.Base.Int.{ℤ, pos, ◌≤ℤ◌}
use fluffy_dollop.Base.Text.{Text, is_empty, eq_text_iff}
use fluffy_dollop.Go.Strconv.{parse_int}
use fluffy_dollop.Config.Issue.{Issue, collect}
use fluffy_dollop.Config.Validator.{contains, bad_port}

abbrev pub Passes : Bool × Issue → Type 0
Passes t = t.0 ≡ false

pub collect-Passes : (ts : List (Bool × Issue)) → collect ts ≡ [] → All Passes ts
unfolding collect
collect-Passes [] h = tt
collect-Passes ((true, issue) ∷ ts) h = cc
collect-Passes ((false, issue) ∷ ts) h = (refl, collect-Passes ts h)

pub collect_of_Passes : (ts : List (Bool × Issue)) → All Passes ts → collect ts ≡ []
unfolding collect
collect_of_Passes [] h = refl
collect_of_Passes ((true, issue) ∷ ts) (h, _) = cc
collect_of_Passes ((false, issue) ∷ ts) (_, h) = collect_of_Passes ts h

pub contains_iff : (words : List Text) (item : Text) → (contains words item ≡ true) ↔ In item words
unfolding contains
contains_iff [] item = (λ h. cc, λ h. elim h [ ])
contains_iff (w ∷ words) item = ground (arith, contains_iff words item, eq_text_iff w item)

-- A decimal number from 1 to 65535.
abbrev pub IsPort : Text → Type 0
IsPort port = (n : ℤ) × (parse_int port ≡ some n) × (pos 1 ≤ℤ n) × (n ≤ℤ pos 65535)

pub bad_port-IsPort :
    (port : Text)
    → is_empty port ≡ false
    → (not (is_empty port) && bad_port port) ≡ false
    → IsPort port
unfolding bad_port
bad_port-IsPort port h k = elim (Option-cases (parse_int port)) [
  | inl bad ↦ ground arith
  | inr (n, e) ↦ (n, e, ground arith, ground arith)
]

pub is_empty_of_IsPort : (port : Text) → IsPort port → is_empty port ≡ false
unfolding parse_int
is_empty_of_IsPort [] (n, e, lo, hi) = cc
is_empty_of_IsPort (c ∷ s) h = refl

pub bad_port_of_IsPort : (port : Text) → IsPort port → bad_port port ≡ false
unfolding bad_port
bad_port_of_IsPort port (n, e, lo, hi) = ground arith
