-- ===== src/Build/Stops.antt =====
-- threadx-sys/build.rs, netx-sys/build.rs: when the build scripts stop early.
use threadx_rust.Build.Keeping.{expect_true-Keeps, expect-Keeps, io-Keeps}
use threadx_rust.Base.{
  bind-Stops, next-Stops, then-Keeps, pure-Keeps, next-Keeps, then-Stops, Stops, Keeps,
}
use threadx_rust.Build.{netx_toolchain, codes, threadx_toolchain}
use Prim.Native.String.{String}
use threadx_rust.Base.{ap, Option, none, some, ◌≡◌, Prog, Never, panic, unwrap_option, ◌>>=◌, refl}
use threadx_rust.Build.Strings.{join, Text}
use threadx_rust.Build.Script.{
  compile_netx, compile_threadx, build_netx, build_threadx, nx_user_file, launcher_script,
  supported, tx_user_file, write_wrapper, expect, say, BuildApi, threadx_main, netx_main,
}

-- `Stops P m`: from a state with `P`, `m` panics, and `P` holds when it does. `Keeps P m`: `m`
-- keeps `P`, whether it panics or not.
-- A fact about the state that the calls before the build of ThreadX leave alone.
pub record BeforeBuild {K : Type 0} (api : BuildApi K) (P : K → Type 0) : Type 0 where
  pub env_var : (n : String) (k : K) → P k → P (api.env_var n k).1
  pub println : (t : Text) (k : K) → P k → P (api.println t k).1
  pub canonicalize : (t : Text) (k : K) → P k → P (api.canonicalize t k).1
  pub remove_file : (t : Text) (k : K) → P k → P (api.remove_file t k).1
  pub create_new : (t : Text) (k : K) → P k → P (api.create_new t k).1
  pub write_all : (t u : Text) (k : K) → P k → P (api.write_all t u k).1
  pub flush : (t : Text) (k : K) → P k → P (api.flush t k).1

module _ {K : Type 0} {api : BuildApi K} {P : K → Type 0} (c : BeforeBuild api P) where
  env-Keeps : (n : String) → Keeps P (expect (api.env_var n))
  env-Keeps n = expect-Keeps (api.env_var n) (c.env_var n)

  path-Keeps : (t : Text) → Keeps P (expect (api.canonicalize t))
  path-Keeps t = expect-Keeps (api.canonicalize t) (c.canonicalize t)

  say-Keeps : (t : Text) → Keeps P (say api t)
  say-Keeps t = io-Keeps (api.println t) (c.println t)

  write_wrapper-Keeps : (out_dir : Text) → Keeps P (write_wrapper api out_dir)
  unfolding write_wrapper
  write_wrapper-Keeps out_dir =
      let path = join out_dir "compiler_wrapper.sh" in
      let script = launcher_script api (join out_dir "build_commands.txt") in
      next-Keeps (io-Keeps (api.remove_file path) (c.remove_file path)) (
        next-Keeps (expect_true-Keeps (api.create_new path) (c.create_new path)) (
          next-Keeps (expect_true-Keeps (api.write_all path script) (c.write_all path script))
            (next-Keeps (expect_true-Keeps (api.flush path) (c.flush path)) (pure-Keeps path))))

  tx_user_file-Keeps : (user : Option String) → Keeps P (tx_user_file api user)
  tx_user_file-Keeps none = next-Keeps (say-Keeps _) (pure-Keeps none)
  tx_user_file-Keeps (some file) = then-Keeps (path-Keeps (codes file)) (λ path.
      next-Keeps (say-Keeps _)
        (next-Keeps (say-Keeps _) (pure-Keeps (some ("TX_USER_FILE", path)))))

  nx_user_file-Keeps :
      (cfg_path : Text) (user : Option String) → Keeps P (nx_user_file api cfg_path user)
  nx_user_file-Keeps cfg_path none =
      next-Keeps (say-Keeps _)
        (then-Keeps (path-Keeps _) (λ path. pure-Keeps (some ("NX_USER_FILE", path))))
  nx_user_file-Keeps cfg_path (some file) = then-Keeps (path-Keeps (codes file)) (λ path.
      next-Keeps (say-Keeps _)
        (next-Keeps (say-Keeps _) (pure-Keeps (some ("NX_USER_FILE", path)))))

  supported-Stops :
      (target : String) (o : Option String) → o ≡ none → Stops P (supported api target o)
  supported-Stops target none h = next-Stops (say-Keeps _) (record { stops = λ k p. (refl, p) })
  supported-Stops target (some x) h = absurd (cc)

  -- What follows reads a target for which `toolchain` has no file.
  module _ (toolchain : String → Option String)
      (unsupported : (target : String) (k : K)
        → (api.env_var "TARGET" k).0 ≡ some target
        → toolchain target ≡ none) where
    target-Stops :
        {B : Type 0} {f : String → Prog K Never B}
        → ((target : String) → toolchain target ≡ none → Stops P (f target))
        → Stops P (expect (api.env_var "TARGET") >>= f)
    target-Stops {B} {f} h = record {
      stops = λ k p. read k (api.env_var "TARGET" k) refl (c.env_var "TARGET" k p);
    }
      where
        read :
            (k : K) (r : Option String × K)
            → api.env_var "TARGET" k ≡ r
            → P r.1
            → let m = (unwrap_option r.0 >>= f) r.1 in (m.0 ≡ panic) × P m.1
        read k (none, k') e p = (refl, p)
        read k (some t, k') e p = (h t (unsupported t k (ap (λ x. x.0) e))).stops k' p

  build_threadx-Stops :
      (out_dir src_path : Text) (user_file : Option (String × Text)) (target : String)
      → threadx_toolchain target ≡ none
      → Stops P (build_threadx api out_dir src_path user_file target)
  unfolding build_threadx
  build_threadx-Stops out_dir src_path user_file target h =
      then-Stops (write_wrapper-Keeps out_dir) (λ wrapper.
        bind-Stops (compile_threadx api out_dir src_path user_file wrapper)
          (supported-Stops target (threadx_toolchain target) h))

  build_netx-Stops :
      (out_dir src_path wiced_src : Text) (user_file : Option (String × Text)) (target : String)
      → netx_toolchain target ≡ none
      → Stops P (build_netx api out_dir src_path wiced_src user_file target)
  unfolding build_netx
  build_netx-Stops out_dir src_path wiced_src user_file target h =
      then-Stops (write_wrapper-Keeps out_dir) (λ wrapper.
        bind-Stops (compile_netx api out_dir src_path wiced_src user_file wrapper)
          (supported-Stops target (netx_toolchain target) h))

  threadx_main-Stops :
      ((target : String) (k : K)
        → (api.env_var "TARGET" k).0 ≡ some target
        → threadx_toolchain target ≡ none)
      → Stops P (threadx_main api)
  unfolding threadx_main
  threadx_main-Stops h = then-Stops (env-Keeps "OUT_DIR") (λ out_dir.
      then-Stops (io-Keeps (api.env_var "TX_USER_FILE") (c.env_var "TX_USER_FILE")) (λ user.
        then-Stops (env-Keeps "CARGO_MANIFEST_DIR") (λ manifest.
          then-Stops (tx_user_file-Keeps user) (λ user_file. target-Stops threadx_toolchain h (
            build_threadx-Stops (codes out_dir) (join (codes manifest) "../netx-sys/shared/threadx")
              user_file)))))

  netx_main-Stops :
      ((target : String) (k : K)
        → (api.env_var "TARGET" k).0 ≡ some target
        → netx_toolchain target ≡ none)
      → Stops P (netx_main api)
  unfolding netx_main
  netx_main-Stops h = then-Stops (env-Keeps "CARGO_MANIFEST_DIR") (λ manifest.
      then-Stops (env-Keeps "OUT_DIR") (λ out_dir.
        then-Stops (io-Keeps (api.env_var "NX_USER_FILE") (c.env_var "NX_USER_FILE")) (λ user.
          then-Stops (nx_user_file-Keeps (join (codes manifest) "cfg") user) (λ user_file.
            target-Stops netx_toolchain h (
              build_netx-Stops (codes out_dir) (join (codes manifest) "shared")
                (join (codes manifest) "../wiced-sys/src") user_file)))))

  -- If no target that is ever set has a toolchain file, then both build scripts panic, and
  -- every fact about the state that their calls before the build of the C code leave alone still
  -- holds; cmake, the compiler and bindgen are not among these calls.
  pub unsupported_target_stops :
      ((target : String) (k : K)
        → (api.env_var "TARGET" k).0 ≡ some target
        → (threadx_toolchain target ≡ none) × (netx_toolchain target ≡ none))
      → (k : K) → P k
      → ((threadx_main api k).0 ≡ panic)
        × P (threadx_main api k).1
        × ((netx_main api k).0 ≡ panic)
        × P (netx_main api k).1
  unsupported_target_stops h k p =
      let (t, t') = (threadx_main-Stops (λ target k e. (h target k e).0)).stops k p in
      let (n, n') = (netx_main-Stops (λ target k e. (h target k e).1)).stops k p in (t, t', n, n')
