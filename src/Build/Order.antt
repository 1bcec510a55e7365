-- ===== src/Build/Order.antt =====
-- threadx-sys/build.rs, netx-sys/build.rs: the order of the recorded commands does not matter.
use mathlib.Core.Path.{subst}
use threadx_rust.Build.TextOrder.{same-eq, same_refl}
use threadx_rust.Base.{
  ℕ, ◌≡◌, ◌∙◌, sym, Bool, true, false, ◌&&◌, ◌||◌, List, [], ◌∷◌, ◌++◌, Option, none, some, arith,
  refl, Bool-cases, inl, inr,
}
use threadx_rust.Build.Strings.{Text, same, starts_with, split_spaces, trim_start_matches}
use threadx_rust.Build.Sorted.{
  has-dedup-sort, dedup-sort-increasing, increasing, has, dedup-sort-ext,
}
use threadx_rust.Build.{
  first_part, keep_compiler, Commands, no_commands, read_part, read_parts, read_line, read_lines,
  read_commands, command_args,
}

-- A part of a line that is the flag `-I` or `-D`, by its letter, with the value `x`.
abbrev pub gives : (letter : ℕ) (x part : Text) → Bool
gives letter x part =
    starts_with (45 ∷ letter ∷ []) part && same x (trim_start_matches 45 letter part)

abbrev pub part_gives : (letter : ℕ) (x : Text) → List Text → Bool
part_gives letter x [] = false
part_gives letter x (p ∷ ps) = gives letter x p || part_gives letter x ps

abbrev pub line_gives : (letter : ℕ) (x : Text) → List (Option Text) → Bool
line_gives letter x [] = false
line_gives letter x (none ∷ lines) = line_gives letter x lines
line_gives letter x (some line ∷ lines) =
    part_gives letter x (split_spaces line) || line_gives letter x lines

has-append : (x : Text) (l m : List Text) → has x (l ++ m) ≡ (has x l || has x m)
has-append x [] m = refl
has-append x (y ∷ l) m = ground (arith, has-append x l m)

one_letter :
    (cmd : Text) → starts_with (45 ∷ 73 ∷ []) cmd ≡ true → starts_with (45 ∷ 68 ∷ []) cmd ≡ false
one_letter [] h = refl
one_letter (c ∷ []) h = ground arith
one_letter (c ∷ d ∷ s) h = ground arith

read_part-flags :
    (s : Commands) (x cmd : Text)
    → (has x (read_part s cmd).include_dirs ≡ (has x s.include_dirs || gives 73 x cmd))
      × (has x (read_part s cmd).defines ≡ (has x s.defines || gives 68 x cmd))
unfolding read_part
read_part-flags s x cmd = elim (Bool-cases (starts_with (45 ∷ 73 ∷ []) cmd)) [
  | inl i ↦ rw (i, one_letter cmd i) (has-append x s.include_dirs _ ∙ ground arith, ground arith)
  | inr i ↦ elim (Bool-cases (starts_with (45 ∷ 68 ∷ []) cmd)) [
    | inl d ↦ rw (i, d) (ground arith, has-append x s.defines _ ∙ ground arith)
    | inr d ↦ rw (i, d) (ground arith, ground arith)
  ]
]

read_parts-flags :
    (s : Commands) (x : Text) (ps : List Text)
    → (has x (read_parts s ps).include_dirs ≡ (has x s.include_dirs || part_gives 73 x ps))
      × (has x (read_parts s ps).defines ≡ (has x s.defines || part_gives 68 x ps))
unfolding read_parts
read_parts-flags s x [] = ground arith
read_parts-flags s x (p ∷ ps) =
    ground (arith, read_parts-flags (read_part s p) x ps, read_part-flags s x p)

read_lines-flags :
    (s : Commands) (x : Text) (lines : List (Option Text))
    → (has x (read_lines s lines).include_dirs ≡ (has x s.include_dirs || line_gives 73 x lines))
      × (has x (read_lines s lines).defines ≡ (has x s.defines || line_gives 68 x lines))
unfolding read_lines read_line
read_lines-flags s x [] = ground arith
read_lines-flags s x (none ∷ lines) = read_lines-flags s x lines
read_lines-flags s x (some line ∷ lines) =
    let parts = split_spaces line in
    let opened = record s { compiler = keep_compiler s.compiler (first_part parts) } in
    ground
      (arith, read_lines-flags (read_parts opened parts) x lines, read_parts-flags opened x parts)

-- For the include directories and for the defines alike: what the build script hands on is
-- strictly increasing, so without a repetition, and its members are exactly the values of the
-- flags `-I`, or `-D`, among the parts of the lines that could be read.
pub read_commands_lem :
    (lines : List (Option Text)) (x : Text)
    → let s = read_commands lines in
      (increasing s.include_dirs ≡ true)
      × (increasing s.defines ≡ true)
      × (has x s.include_dirs ≡ line_gives 73 x lines)
      × (has x s.defines ≡ line_gives 68 x lines)
unfolding read_commands no_commands
read_commands_lem lines x =
    let s = read_lines no_commands lines in
    let (dirs, defs) = read_lines-flags no_commands x lines in
    (
      dedup-sort-increasing s.include_dirs,
      dedup-sort-increasing s.defines,
      has-dedup-sort x s.include_dirs ∙ dirs,
      has-dedup-sort x s.defines ∙ defs,
    )

abbrev pub recorded : Text → List (Option Text) → Bool
recorded l [] = false
recorded l (none ∷ lines) = recorded l lines
recorded l (some line ∷ lines) = same l line || recorded l lines

giving_line :
    (letter : ℕ) (x : Text) (lines : List (Option Text))
    → line_gives letter x lines ≡ true
    → (l : Text) × (recorded l lines ≡ true) × (part_gives letter x (split_spaces l) ≡ true)
giving_line letter x [] h = absurd (ground arith)
giving_line letter x (none ∷ lines) h = giving_line letter x lines h
giving_line letter x (some line ∷ lines) h =
    elim (Bool-cases (part_gives letter x (split_spaces line))) [
      | inl e ↦ (line, ground (arith, same_refl line), e)
      | inr e ↦
          let (l, r, g) = giving_line letter x lines (ground arith) in (l, ground (arith, r), g)
    ]

gives-recorded :
    (letter : ℕ) (x l : Text) (lines : List (Option Text))
    → recorded l lines ≡ true
    → part_gives letter x (split_spaces l) ≡ true
    → line_gives letter x lines ≡ true
gives-recorded letter x l [] h g = absurd (ground arith)
gives-recorded letter x l (none ∷ lines) h g = gives-recorded letter x l lines h g
gives-recorded letter x l (some line ∷ lines) h g = elim (Bool-cases (same l line)) [
  | inl e ↦
      ground (arith, subst (λ t. part_gives letter x (split_spaces t) ≡ true) (same-eq l line e) g)
  | inr e ↦ ground (arith, gives-recorded letter x l lines)
]

module _ (lines lines' : List (Option Text))
    (alike : (l : Text) → recorded l lines ≡ recorded l lines') where
  gives-alike : (letter : ℕ) (x : Text) → line_gives letter x lines ≡ line_gives letter x lines'
  gives-alike letter x = elim (Bool-cases (line_gives letter x lines)) [
    | inl h ↦
        let (l, r, g) = giving_line letter x lines h in
        h ∙ sym (gives-recorded letter x l lines' (sym (alike l) ∙ r) g)
    | inr h ↦ elim (Bool-cases (line_gives letter x lines')) [
      | inr h' ↦ h ∙ sym h'
      | inl h' ↦
          let (l, r, g) = giving_line letter x lines' h' in
          absurd (ground (arith, gives-recorded letter x l lines (alike l ∙ r) g))
    ]
  ]

  -- Two files of recorded commands with the same readable lines, in whatever order and however
  -- often each, give clang the same include directories and the same defines, in the same order.
  pub command_args_order : command_args (read_commands lines) ≡ command_args (read_commands lines')
  unfolding command_args read_commands no_commands
  command_args_order =
      let s = read_lines no_commands lines in
      let t = read_lines no_commands lines' in
      let dirs = dedup-sort-ext s.include_dirs t.include_dirs (λ x.
        (read_lines-flags no_commands x lines).0
        ∙ gives-alike 73 x
        ∙ sym (read_lines-flags no_commands x lines').0) in
      let defs = dedup-sort-ext s.defines t.defines (λ x.
        (read_lines-flags no_commands x lines).1
        ∙ gives-alike 68 x
        ∙ sym (read_lines-flags no_commands x lines').1) in
      rw (dirs, defs) refl
