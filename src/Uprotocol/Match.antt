-- ===== src/Uprotocol/Match.antt =====
-- threadx-app/cross/app/src/uprotocol_v1.rs: a `match` on a text, and what it finds.
use Prim.Native.String.{String}
use text.Mathlib.Text.{◌==◌}
use text.Mathlib.TextEquality.{eq_iff}
use threadx_rust.Base.{
  ◌&&◌, Bool, true, Option, none, some, List, [], ◌∷◌, if◌then◌else◌, ◌≡◌, arith,
}

-- The first arm of that text.
unfoldable pub match_name : {A : Type 0} → String → List (String × A) → Option A
match_name value [] = none
match_name value ((n, a) ∷ arms) = if value == n then some a else match_name value arms

-- Every arm gives a value of that name.
unfoldable pub arms_agree : {A : Type 0} → (A → String) → List (String × A) → Bool
arms_agree name [] = true
arms_agree name ((n, a) ∷ arms) = name a == n && arms_agree name arms

pub name-match_name :
    {A : Type 0} (name : A → String) (value : String) (arms : List (String × A)) {a : A}
    → arms_agree name arms ≡ true
    → match_name value arms ≡ some a
    → name a ≡ value
unfolding match_name arms_agree
name-match_name name value [] h p = absurd (cc)
name-match_name name value ((n, b) ∷ arms) {a} h p =
    ground (arith, eq_iff value n, eq_iff (name b) n, name-match_name name value arms {a = a})
