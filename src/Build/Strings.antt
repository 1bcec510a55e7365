-- ===== src/Build/Strings.antt =====
-- threadx-sys/build.rs, netx-sys/build.rs: the functions on texts of the standard library that the
-- build scripts use. A text is the list of its code points.
use Prim.Native.Char.{code}
use Prim.Native.String.{String}
use threadx_rust.Base.{
  ◌++◌, ℕ, Bool, true, false, ◌&&◌, ◌||◌, List, [], ◌∷◌, ltb, ◌==◌, leb, if◌then◌else◌,
}

abbrev pub Text : Type 0
Text = List ℕ

abbrev pub codes : String → Text
codes String.[] = []
codes (String.◌∷◌ c s) = code c ∷ codes s

-- The order of `String`, by its bytes in UTF-8, is that of the code points.
abbrev pub text_lt : Text → Text → Bool
text_lt s [] = false
text_lt [] (d ∷ t) = true
text_lt (c ∷ s) (d ∷ t) = ltb c d || (c == d && text_lt s t)

abbrev pub same : Text → Text → Bool
same [] [] = true
same [] (d ∷ t) = false
same (c ∷ s) [] = false
same (c ∷ s) (d ∷ t) = c == d && same s t

abbrev pub starts_with : (prefix s : Text) → Bool
starts_with [] s = true
starts_with (p ∷ ps) [] = false
starts_with (p ∷ ps) (c ∷ s) = p == c && starts_with ps s

-- `str::contains`
abbrev pub contains : (needle s : Text) → Bool
contains needle [] = starts_with needle []
contains needle (c ∷ s) = starts_with needle (c ∷ s) || contains needle s

abbrev pub extend_first : ℕ → List Text → List Text
extend_first c [] = (c ∷ []) ∷ []
extend_first c (p ∷ ps) = (c ∷ p) ∷ ps

-- `split(" ")`: there is one part more than there are spaces.
abbrev pub split_spaces : Text → List Text
split_spaces [] = [] ∷ []
split_spaces (c ∷ s) =
    let parts = split_spaces s in if c == 32 then [] ∷ parts else extend_first c parts

-- `str::lines`: a line may end in a carriage return and a newline, and the last one in neither.
abbrev pub text_lines : Text → List Text
text_lines [] = []
text_lines (c ∷ s) =
    let rest = text_lines s in
    if c == 10
    then [] ∷ rest
    else if c == 13 && starts_with (10 ∷ []) s
    then rest
    else extend_first c rest

-- `PathBuf::join` with a relative path.
abbrev pub join : Text → String → Text
join dir name = separated (ends_open dir)
  where
    ends_open : Text → Bool
    ends_open [] = true
    ends_open (c ∷ []) = c == 47
    ends_open (c ∷ d ∷ s) = ends_open (d ∷ s)

    separated : Bool → Text
    separated true = dir ++ codes name
    separated false = dir ++ 47 ∷ codes name

-- `trim_start_matches` with a text of two characters, which it removes as often as it can.
abbrev pub trim_start_matches : (a b : ℕ) → Text → Text
trim_start_matches a b [] = []
trim_start_matches a b (c ∷ []) = c ∷ []
trim_start_matches a b (c ∷ d ∷ s) =
    let rest = trim_start_matches a b s in if c == a && d == b then rest else c ∷ d ∷ s

-- `char::is_whitespace`
abbrev pub is_whitespace : ℕ → Bool
is_whitespace c =
    (leb 9 c && leb c 13)
    || c == 0x20
    || c == 0x85
    || c == 0xa0
    || c == 0x1680
    || (leb 0x2000 c && leb c 0x200a)
    || c == 0x2028
    || c == 0x2029
    || c == 0x202f
    || c == 0x205f
    || c == 0x3000

abbrev pub trim_start : Text → Text
trim_start [] = []
trim_start (c ∷ s) = let rest = trim_start s in if is_whitespace c then rest else c ∷ s

abbrev pub trim_end : Text → Text
trim_end [] = []
trim_end (c ∷ s) = ended c (trim_end s)
  where
    ended : ℕ → Text → Text
    ended c [] = if is_whitespace c then [] else c ∷ []
    ended c (d ∷ t) = c ∷ d ∷ t

abbrev pub trim : Text → Text
trim s = trim_end (trim_start s)

abbrev pub insert_sorted : Text → List Text → List Text
insert_sorted x [] = x ∷ []
insert_sorted x (y ∷ ys) =
    let rest = insert_sorted x ys in if text_lt y x then y ∷ rest else x ∷ y ∷ ys

-- `Vec::sort`
abbrev pub sort : List Text → List Text
sort [] = []
sort (x ∷ xs) = insert_sorted x (sort xs)

abbrev pub dedup_behind : Text → List Text → List Text
dedup_behind x [] = []
dedup_behind x (y ∷ ys) = if same x y then dedup_behind x ys else y ∷ dedup_behind y ys

-- `Vec::dedup`
abbrev pub dedup : List Text → List Text
dedup [] = []
dedup (x ∷ xs) = x ∷ dedup_behind x xs
