-- ===== src/Build/Tests.antt =====
-- threadx-sys/build.rs, netx-sys/build.rs: a recorded build, and an unsupported target.
use Prim.Native.String.{String}
use threadx_rust.Uprotocol.Match.{match_name}
use mathlib.Core.Path.{subst}
use threadx_rust.Base.{
  ℕ, true, Option, none, some, List, [], ◌∷◌, map, ◌≡◌, refl, arith, panic, ◌+◌,
}
use threadx_rust.Build.Strings.{Text, codes, trim}
use threadx_rust.Build.{
  no_commands, read_part, read_parts, read_line, scan_search, read_lines, read_commands,
  command_args, compiler_include_dirs, threadx_toolchain, netx_toolchain,
}
use threadx_rust.Build.Order.{command_args_order, recorded}
use threadx_rust.Build.Search.{compiler_include_dirs_lem, until_end, from_start, between_starts}
use threadx_rust.Build.Script.{BuildApi, threadx_main, netx_main}
use threadx_rust.Build.Stops.{BeforeBuild, unsupported_target_stops}

abbrev line_a : Text
line_a = codes "arm-gcc -Iinc -DTX_TIMER -Iports -c tx_a.c"

abbrev line_b : Text
line_b = codes "arm-gcc -Icommon -DTX_TIMER -c tx_b.c"

abbrev lines : List (Option Text)
lines = some line_a ∷ none ∷ some line_b ∷ []

-- What clang is given: each directory and define once, in order.
recorded_args :
    command_args (read_commands lines)
    ≡ codes "-Icommon" ∷ codes "-Iinc" ∷ codes "-Iports" ∷ codes "-DTX_TIMER" ∷ []
unfolding command_args read_commands read_lines read_line read_parts read_part no_commands
recorded_args = refl

abbrev swapped : List (Option Text)
swapped = some line_b ∷ some line_a ∷ some line_b ∷ []

alike : (l : Text) → recorded l lines ≡ recorded l swapped
alike l = ground arith

command_args_order_example :
    command_args (read_commands lines) ≡ command_args (read_commands swapped)
command_args_order_example = command_args_order lines swapped alike

abbrev output : List Text
output =
    codes "ignoring nonexistent directory"
    ∷ codes "#include \"...\" search starts here:"
    ∷ codes "#include <...> search starts here:"
    ∷ codes " /usr/lib/gcc/include"
    ∷ codes " /usr/include"
    ∷ codes "End of search list."
    ∷ codes " after"
    ∷ []

found_dirs : compiler_include_dirs output ≡ codes "/usr/lib/gcc/include" ∷ codes "/usr/include" ∷ []
unfolding compiler_include_dirs scan_search
found_dirs = refl

compiler_include_dirs_lem_example :
    compiler_include_dirs output ≡ map trim (between_starts (from_start (until_end output)))
compiler_include_dirs_lem_example = compiler_include_dirs_lem output

-- The state counts the builds.
abbrev api : BuildApi ℕ
api = record {
  env_var = λ n k. (some "riscv32imac-unknown-none-elf", k);
  println = λ t k. (tt, k);
  canonicalize = λ t k. (some t, k);
  remove_file = λ t k. (true, k);
  create_new = λ t k. (true, k);
  write_all = λ t u k. (true, k);
  flush = λ t k. (true, k);
  cmake_build = λ c k. (none, k + 1);
  open_lines = λ t k. (none, k);
  create_truncated = λ t k. (true, k);
  run_compiler = λ t u k. (none, k + 1);
  generate = λ c k. (none, k + 1);
  write_to_file = λ t u k. (true, k);
  open_append = λ t k. (true, k);
  append_line = λ t u k. (true, k);
  copy = λ t u k. (true, k);
}

nothing_built : BeforeBuild api (λ k. k ≡ 0)
nothing_built = record {
  env_var = λ n k p. p;
  println = λ t k p. p;
  canonicalize = λ t k p. p;
  remove_file = λ t k p. p;
  create_new = λ t k p. p;
  write_all = λ t u k p. p;
  flush = λ t k p. p;
}

unsupported :
    (target : String) (k : ℕ)
    → (api.env_var "TARGET" k).0 ≡ some target
    → (threadx_toolchain target ≡ none) × (netx_toolchain target ≡ none)
unfolding threadx_toolchain netx_toolchain match_name
unsupported target k e =
    let p : "riscv32imac-unknown-none-elf" ≡ target = cc in
    subst (λ t. (threadx_toolchain t ≡ none) × (netx_toolchain t ≡ none)) p (refl, refl)

unsupported_target_stops_example :
    ((threadx_main api 0).0 ≡ panic)
    × ((threadx_main api 0).1 ≡ 0)
    × ((netx_main api 0).0 ≡ panic)
    × ((netx_main api 0).1 ≡ 0)
unsupported_target_stops_example = unsupported_target_stops nothing_built unsupported 0 refl
