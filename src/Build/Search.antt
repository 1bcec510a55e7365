-- ===== src/Build/Search.antt =====
-- threadx-sys/build.rs, netx-sys/build.rs: the search list in what the compiler writes.
use threadx_rust.Base.{
  inr, inl, Bool-cases, true, false, List, [], ◌∷◌, map, ◌≡◌, refl, if◌then◌else◌,
}
use threadx_rust.Build.Strings.{Text, trim}
use threadx_rust.Build.{starts_search, ends_search, scan_search, compiler_include_dirs}

-- The lines before the first one that ends the list and does not start one.
abbrev pub until_end : List Text → List Text
until_end [] = []
until_end (l ∷ ls) =
    let rest = until_end ls in
    if starts_search l then l ∷ rest else if ends_search l then [] else l ∷ rest

-- The lines from the first one that starts a list on.
abbrev pub from_start : List Text → List Text
from_start [] = []
from_start (l ∷ ls) = let rest = from_start ls in if starts_search l then l ∷ ls else rest

-- The lines that do not start a list.
abbrev pub between_starts : List Text → List Text
between_starts [] = []
between_starts (l ∷ ls) = let rest = between_starts ls in if starts_search l then rest else l ∷ rest

scan_inside : (ls : List Text) → scan_search true ls ≡ map trim (between_starts (until_end ls))
unfolding scan_search
scan_inside [] = refl
scan_inside (l ∷ ls) = elim (Bool-cases (starts_search l)) [
  | inl st ↦ rw (st, scan_inside ls) (rw st refl)
  | inr no_start ↦ elim (Bool-cases (ends_search l)) [
    | inl en ↦ rw (no_start, en) refl
    | inr no_end ↦ rw (no_start, no_end, scan_inside ls) (rw no_start refl)
  ]
]

scan_outside :
    (ls : List Text) → scan_search false ls ≡ map trim (between_starts (from_start (until_end ls)))
unfolding scan_search
scan_outside [] = refl
scan_outside (l ∷ ls) = elim (Bool-cases (starts_search l)) [
  | inl st ↦ rw (st, scan_inside ls) (rw st (rw st refl))
  | inr no_start ↦ elim (Bool-cases (ends_search l)) [
    | inl en ↦ rw (no_start, en) refl
    | inr no_end ↦ rw (no_start, no_end, scan_outside ls) (rw no_start refl)
  ]
]

-- The loop over the compiler's output, with its flag, its `continue` and its `break`, collects
-- what one reads off the text: of the lines from the first that starts a search list to the first
-- that ends it, all those that do not start a list, trimmed.
pub compiler_include_dirs_lem :
    (output : List Text)
    → compiler_include_dirs output ≡ map trim (between_starts (from_start (until_end output)))
unfolding compiler_include_dirs
compiler_include_dirs_lem output = scan_outside output
