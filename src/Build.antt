-- ===== src/Build.antt =====
-- threadx-sys/build.rs, netx-sys/build.rs: what the build scripts read from the build and hand on
-- to bindgen.
pub mod Strings
pub mod TextOrder
pub mod Sorted
pub mod Order
pub mod Search
pub mod Script
pub mod Keeping
pub mod Stops
mod Tests
use Prim.Native.String.{String}
use threadx_rust.Uprotocol.Match.{match_name}
use threadx_rust.Base.{
  ℕ, Bool, true, false, ◌&&◌, ◌||◌, not, Option, none, some, List, [], ◌∷◌, ◌++◌, map,
  if◌then◌else◌,
}
use threadx_rust.Build.Strings.{
  Text, codes, starts_with, contains, split_spaces, trim_start_matches, trim, sort, dedup,
}

-- The toolchain file of a target; `none` is the panic on an unsupported one.
abbrev pub threadx_toolchain_arms : List (String × String)
threadx_toolchain_arms =
    ("thumbv6m-none-eabi", "cmake/cortex_m0.cmake")
    ∷ ("thumbv7m-none-eabi", "cmake/cortex_m3.cmake")
    ∷ ("thumbv7em-none-eabi", "cmake/cortex_m4.cmake")
    ∷ ("thumbv7em-none-eabihf", "cmake/cortex_m4.cmake")
    ∷ ("thumbv8m.base-none-eabi", "cmake/cortex_m23.cmake")
    ∷ ("x86_64-unknown-linux-gnu", "cmake/linux/gnu/CMakeLists.txt")
    ∷ []

unfoldable pub threadx_toolchain : String → Option String
threadx_toolchain target = match_name target threadx_toolchain_arms

abbrev pub netx_toolchain_arms : List (String × String)
netx_toolchain_arms =
    ("thumbv6m-none-eabi", "cmake/cortex_m0.cmake")
    ∷ ("thumbv7m-none-eabi", "cmake/cortex_m3.cmake")
    ∷ ("thumbv7em-none-eabi", "cmake/arm-gcc-cortex-m4.cmake")
    ∷ ("thumbv7em-none-eabihf", "cmake/arm-gcc-cortex-m4.cmake")
    ∷ ("thumbv8m.base-none-eabi", "cmake/cortex_m23.cmake")
    ∷ ("x86_64-unknown-linux-gnu", "cmake/linux/gnu/CMakeLists.txt")
    ∷ []

unfoldable pub netx_toolchain : String → Option String
netx_toolchain target = match_name target netx_toolchain_arms

-- The variables of the loop over the recorded commands.
pub record Commands : Type 0 where
  pub compiler : Option Text
  pub include_dirs : List Text
  pub defines : List Text

unfoldable pub no_commands : Commands
no_commands = record { compiler = none; include_dirs = []; defines = [] }

-- `line.split(" ").take(1).next().unwrap()`: a split has a first part.
abbrev pub first_part : List Text → Text
first_part [] = []
first_part (p ∷ ps) = p

unfoldable pub read_part : Commands → Text → Commands
read_part s cmd =
    if starts_with (codes "-I") cmd
    then record s { include_dirs = s.include_dirs ++ trim_start_matches 45 73 cmd ∷ [] }
    else if starts_with (codes "-D") cmd
    then record s { defines = s.defines ++ trim_start_matches 45 68 cmd ∷ [] }
    else s

unfoldable pub read_parts : Commands → List Text → Commands
read_parts s [] = s
read_parts s (cmd ∷ cmds) = read_parts (read_part s cmd) cmds

abbrev pub keep_compiler : Option Text → Text → Option Text
keep_compiler none first = some first
keep_compiler (some c) first = some c

-- A line of the file, `none` if it cannot be read.
unfoldable pub read_line : Commands → Option Text → Commands
read_line s none = s
read_line s (some line) =
    let parts = split_spaces line in
    read_parts (record s { compiler = keep_compiler s.compiler (first_part parts) }) parts

unfoldable pub read_lines : Commands → List (Option Text) → Commands
read_lines s [] = s
read_lines s (line ∷ lines) = read_lines (read_line s line) lines

-- The loop, and the two sorts and dedups.
unfoldable pub read_commands : List (Option Text) → Commands
read_commands lines =
    let s = read_lines no_commands lines in
    record s { include_dirs = dedup (sort s.include_dirs); defines = dedup (sort s.defines) }

abbrev pub include_arg : Text → Text
include_arg dir = codes "-I" ++ dir

abbrev pub define_arg : Text → Text
define_arg define = codes "-D" ++ define

-- The arguments for clang, from the recorded commands.
unfoldable pub command_args : Commands → List Text
command_args s = map include_arg s.include_dirs ++ map define_arg s.defines

abbrev pub starts_search : Text → Bool
starts_search line = contains (codes "search starts here:") line

abbrev pub ends_search : Text → Bool
ends_search line = contains (codes "End of search list.") line

-- The loop over the lines that the compiler writes, with `inside_include_dirs`.
unfoldable pub scan_search : (inside : Bool) → List Text → List Text
scan_search inside [] = []
scan_search inside (line ∷ lines) =
    let rest = scan_search inside lines in
    let opened = scan_search true lines in
    if starts_search line
    then opened
    else if ends_search line
    then []
    else if inside
    then trim line ∷ rest
    else rest

unfoldable pub compiler_include_dirs : List Text → List Text
compiler_include_dirs output = scan_search false output

-- All arguments for clang, of threadx-sys and of netx-sys, which adds the headers of ThreadX.
unfoldable pub threadx_args : (commands : List (Option Text)) (output : List Text) → List Text
threadx_args commands output =
    command_args (read_commands commands) ++ map include_arg (compiler_include_dirs output)

unfoldable pub netx_args :
    (commands : List (Option Text)) (output : List Text) (threadx_inc : Text) → List Text
netx_args commands output threadx_inc = threadx_args commands output ++ include_arg threadx_inc ∷ []

-- `Callbacks::int_macro` on the macros so far; a value is given as it is printed.
unfoldable pub int_macro : List (Text × Text) → (name value : Text) → List (Text × Text)
int_macro int_macros name value =
    if starts_with (codes "TX_") name then int_macros ++ (name, value) ∷ [] else int_macros

unfoldable pub int_macros : List (Text × Text) → List (Text × Text) → List (Text × Text)
int_macros found [] = found
int_macros found ((name, value) ∷ rest) = int_macros (int_macro found name value) rest

-- The line of a constant, without its end.
unfoldable pub const_line : Text × Text → Text
const_line (name, value) = codes "pub const " ++ name ++ codes " : UINT = " ++ value ++ codes ";"
