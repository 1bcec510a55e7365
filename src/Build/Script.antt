-- ===== src/Build/Script.antt =====
-- threadx-sys/build.rs, netx-sys/build.rs: `main`. The messages that only report what was found
-- are left out.
use Prim.Native.String.{String}
use threadx_rust.Base.{
  Bool, Option, none, some, List, [], ◌∷◌, ◌++◌, Prog, Never, pure, panics, unwrap_option, ◌>>=◌,
  ◌>>◌, if◌then◌else◌,
}
use threadx_rust.Build.Strings.{Text, codes, join, text_lines}
use threadx_rust.Build.{
  netx_toolchain, netx_args, threadx_toolchain, Commands, read_commands, threadx_args, int_macros,
  const_line,
}

-- A call that always returns.
abbrev pub Io : Type 0 → Type 0 → Type 0
Io K A = K → A × K

-- The configuration of cmake.
pub record CmakeConfig : Type 0 where
  pub source : Text
  pub toolchain : String
  pub generator : String
  pub build_target : String
  pub launcher : Text
  pub user_file : Option (String × Text)

pub record BindgenConfig : Type 0 where
  pub header : Text
  pub allowlist : String
  pub clang_args : List Text

-- The environment, the files, cmake, the compiler and bindgen. `generate` also gives the integer
-- macros that bindgen reports, in order. A failed build, like a failed call, is `none` or `false`.
pub record BuildApi (K : Type 0) : Type 0 where
  pub env_var : String → Io K (Option String)
  pub println : Text → Io K (Unit {0})
  pub canonicalize : Text → Io K (Option Text)
  pub remove_file : Text → Io K Bool
  pub create_new : Text → Io K Bool
  pub write_all : Text → Text → Io K Bool
  pub flush : Text → Io K Bool
  pub cmake_build : CmakeConfig → Io K (Option Text)
  pub open_lines : Text → Io K (Option (List (Option Text)))
  pub create_truncated : Text → Io K Bool
  pub run_compiler : Text → List Text → Io K (Option (Option Text))
  pub generate : BindgenConfig → Io K (Option (Text × List (Text × Text)))
  pub write_to_file : (path content : Text) → Io K Bool
  pub open_append : Text → Io K Bool
  pub append_line : (path line : Text) → Io K Bool
  pub copy : (from to : Text) → Io K Bool

abbrev pub io : {K A : Type 0} → Io K A → Prog K Never A
io f k = let (a, k') = f k in (pure a k')

-- `expect` and `unwrap` of what a call gives.
abbrev pub expect : {K A : Type 0} → Io K (Option A) → Prog K Never A
expect f = io f >>= unwrap_option

abbrev pub expect_true : {K : Type 0} → Io K Bool → Prog K Never (Unit {0})
expect_true f = io f >>= λ b. if b then pure tt else panics

module _ {K : Type 0} (api : BuildApi K) where
  abbrev pub say : Text → Prog K Never (Unit {0})
  say t = io (api.println t)

  abbrev pub launcher_script : Text → Text
  launcher_script commands =
      codes "\n    #!/bin/sh\n    #echo \"Wrapper $@\"\n    set -e\n    echo \"$@\" >> "
      ++ commands
      ++ codes "\n    exec $@\n    "

  -- The wrapper script, which appends the commands of the compiler to a file.
  unfoldable pub write_wrapper : (out_dir : Text) → Prog K Never Text
  write_wrapper out_dir = do
    let path = join out_dir "compiler_wrapper.sh"
    io (api.remove_file path)
    expect_true (api.create_new path)
    expect_true (api.write_all path (launcher_script (join out_dir "build_commands.txt")))
    expect_true (api.flush path)
    pure path

  abbrev pub supported : String → Option String → Prog K Never String
  supported target none = do
    say (codes "cargo:error=Unsupported cortex M target: " ++ codes target)
    panics
  supported target (some file) = pure file

  -- The include directories of the compiler itself are in what it writes.
  unfoldable pub compiler_output : (out_dir : Text) → Commands → Prog K Never (List Text)
  compiler_output out_dir commands = do
    expect_true (api.create_truncated (join out_dir "empty.c"))
    compiler ← unwrap_option commands.compiler
    stderr ← expect (
        api.run_compiler compiler
          (codes "-xc" ∷ codes "-E" ∷ codes "-v" ∷ join out_dir "empty.c" ∷ []))
    output ← unwrap_option stderr
    pure (text_lines output)

  unfoldable pub append_constants : Text → List (Text × Text) → Prog K Never (Unit {0})
  append_constants path [] = pure tt
  append_constants path (macro ∷ macros) = do
    expect_true (api.append_line path (const_line macro))
    append_constants path macros

  -- From the configuration of bindgen to the end.
  unfoldable pub write_bindings : (out_dir : Text) → BindgenConfig → Prog K Never (Unit {0})
  unfolding append_constants int_macros
  write_bindings out_dir config = do
    let path = join out_dir "generated.rs"
    (bindings, macros) ← expect (api.generate config)
    expect_true (api.write_to_file path bindings)
    expect_true (api.open_append path)
    expect_true (
        api.append_line path
          (codes "// Constants extracted from TX_API.H and TX_PORT.H with overridden values"))
    append_constants path (int_macros [] macros)
    expect_true (api.copy path (codes "src/generated.rs"))

  -- The user file of ThreadX, if one is given.
  abbrev pub tx_user_file : Option String → Prog K Never (Option (String × Text))
  tx_user_file none = do
    say (codes "cargo:info=No TX_USER_FILE specified, using defaults")
    pure none
  tx_user_file (some file) = do
    path ← expect (api.canonicalize (codes file))
    say (codes "cargo:info=Using TX_USER_FILE: " ++ path)
    say (codes "cargo:rerun-if-changed=" ++ path)
    pure (some ("TX_USER_FILE", path))

  -- `main` from the configuration of cmake on.
  unfoldable pub compile_threadx :
      (out_dir src_path : Text) (user_file : Option (String × Text)) (wrapper : Text)
      (toolchain : String)
      → Prog K Never (Unit {0})
  unfolding compiler_output write_bindings read_commands threadx_args
  compile_threadx out_dir src_path user_file wrapper toolchain = do
    built ← expect (
        api.cmake_build (record {
          source = src_path;
          toolchain = toolchain;
          generator = "Ninja";
          build_target = "threadx";
          launcher = wrapper;
          user_file = user_file;
        }))
    let dst = join built "build"
    say (codes "cargo:info=threadx build completed and output at " ++ dst)
    say (codes "cargo:rustc-link-search=native=" ++ dst)
    say (codes "cargo:rustc-link-lib=static=threadx")
    commands ← expect (api.open_lines (join out_dir "build_commands.txt"))
    header ← expect (api.canonicalize (join src_path "common/inc/tx_api.h"))
    output ← compiler_output out_dir (read_commands commands)
    write_bindings out_dir
        (record { header = header; allowlist = "_tx.*"; clang_args = threadx_args commands output })

  -- `main` once the target is known.
  unfoldable pub build_threadx :
      (out_dir src_path : Text) (user_file : Option (String × Text)) (target : String)
      → Prog K Never (Unit {0})
  unfolding write_wrapper compile_threadx
  build_threadx out_dir src_path user_file target = do
    wrapper ← write_wrapper out_dir
    toolchain ← supported target (threadx_toolchain target)
    compile_threadx out_dir src_path user_file wrapper toolchain

  unfoldable pub threadx_main : Prog K Never (Unit {0})
  unfolding build_threadx
  threadx_main = do
    out_dir ← expect (api.env_var "OUT_DIR")
    let out_dir = codes out_dir
    user ← io (api.env_var "TX_USER_FILE")
    manifest ← expect (api.env_var "CARGO_MANIFEST_DIR")
    let src_path = join (codes manifest) "../netx-sys/shared/threadx"
    user_file ← tx_user_file user
    target ← expect (api.env_var "TARGET")
    build_threadx out_dir src_path user_file target

  -- The user file of NetX, or the one of this crate.
  abbrev pub nx_user_file :
      (cfg_path : Text) → Option String → Prog K Never (Option (String × Text))
  nx_user_file cfg_path none = do
    say (codes "cargo:info=No NX_USER_FILE specified, using defaults")
    path ← expect (api.canonicalize (join cfg_path "nx_user.h"))
    pure (some ("NX_USER_FILE", path))
  nx_user_file cfg_path (some file) = do
    path ← expect (api.canonicalize (codes file))
    say (codes "cargo:info=Using NX_USER_FILE: " ++ path)
    say (codes "cargo:rerun-if-changed=" ++ path)
    pure (some ("NX_USER_FILE", path))

  unfoldable pub compile_netx :
      (out_dir src_path wiced_src : Text) (user_file : Option (String × Text)) (wrapper : Text)
      (toolchain : String)
      → Prog K Never (Unit {0})
  unfolding compiler_output write_bindings read_commands netx_args
  compile_netx out_dir src_path wiced_src user_file wrapper toolchain = do
    built ← expect (
        api.cmake_build (record {
          source = src_path;
          toolchain = toolchain;
          generator = "Ninja";
          build_target = "netxduo";
          launcher = wrapper;
          user_file = user_file;
        }))
    let dst = join built "build/netxduo"
    say (codes "cargo:info=netx build completed and output at " ++ dst)
    say (codes "cargo:rustc-link-search=native=" ++ dst)
    say (codes "cargo:rustc-link-lib=static=netxduo")
    say (codes "cargo:rustc-link-search=" ++ wiced_src)
    say (codes "cargo:rustc-link-lib=static=wiced_sdk_bin")
    commands ← expect (api.open_lines (join out_dir "build_commands.txt"))
    output ← compiler_output out_dir (read_commands commands)
    write_bindings out_dir (record {
      header = join wiced_src "wiced_sdk.h";
      allowlist = "(_nx|wwd|wiced).*";
      clang_args = netx_args commands output (join src_path "threadx/common/inc");
    })

  unfoldable pub build_netx :
      (out_dir src_path wiced_src : Text) (user_file : Option (String × Text)) (target : String)
      → Prog K Never (Unit {0})
  unfolding write_wrapper compile_netx
  build_netx out_dir src_path wiced_src user_file target = do
    wrapper ← write_wrapper out_dir
    toolchain ← supported target (netx_toolchain target)
    compile_netx out_dir src_path wiced_src user_file wrapper toolchain

  unfoldable pub netx_main : Prog K Never (Unit {0})
  unfolding build_netx
  netx_main = do
    manifest ← expect (api.env_var "CARGO_MANIFEST_DIR")
    let manifest = codes manifest
    let wiced_src = join manifest "../wiced-sys/src"
    out_dir ← expect (api.env_var "OUT_DIR")
    let out_dir = codes out_dir
    user ← io (api.env_var "NX_USER_FILE")
    let src_path = join manifest "shared"
    user_file ← nx_user_file (join manifest "cfg") user
    target ← expect (api.env_var "TARGET")
    build_netx out_dir src_path wiced_src user_file target
