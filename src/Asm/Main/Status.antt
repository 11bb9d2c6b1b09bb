-- ===== src/Asm/Main/Status.antt =====
-- The status of the assembler.
use kagu_os.Prelude.{ℕ, ◌≡◌, refl, ◌⊎◌, inl, inr, Bool, true, false, List, [], ◌∷◌, if◌then◌else◌}
use kagu_os.Std.Text.{Bytes}
use kagu_os.Std.Files.{Files}
use kagu_os.Asm.State.{new}
use kagu_os.Asm.Lines.Built.{new-IsBuilt}
use kagu_os.Asm.Compile.{compile}
use kagu_os.Asm.Compile.Success.{IsAssembled, compile_success}
use kagu_os.Asm.Main.{
  Request, Exit, help, unknown_option, no_sources, assemble, parse_arguments, serve, main,
}

-- The program has printed the usage, or it has assembled its sources.
abbrev pub IsServed : Files → Request → Exit → Type 0
IsServed fs request e =
    (request ≡ help) × (e.files ≡ fs)
    ⊎ ((user_space : Bool) × (debug_info : Bool) × (paths : List Bytes) × (request
          ≡ assemble user_space debug_info paths)
        × IsAssembled fs paths (new user_space debug_info)
            (compile fs paths (new user_space debug_info))
        × (e.files ≡ (compile fs paths (new user_space debug_info)).files))

success : (b : Bool) → ◌≡◌ {A = ℕ} (if b then 0 else 1) 0 → b ≡ true
success true h = refl
success false h = cc

serve_status :
    (fs : Files) (prog : Bytes) (request : Request)
    → (serve fs prog request).status ≡ 0
    → IsServed fs request (serve fs prog request)
unfolding serve
serve_status fs prog help h = inl (refl, refl)
serve_status fs prog (unknown_option arg) h = cc
serve_status fs prog no_sources h = cc
serve_status fs prog (assemble u d paths) h = inr (
  u,
  d,
  paths,
  refl,
  compile_success fs paths (new u d) (new-IsBuilt u d)
      (success (compile fs paths (new u d)).succeeded h),
  refl,
)

-- The program ends with status 0 only where it was asked for the usage, and then changes no file, or
-- where the assembler has succeeded on the sources that the arguments name.
pub main_status :
    (fs : Files) (prog : Bytes) (args : List Bytes)
    → (main fs prog args).status ≡ 0
    → IsServed fs (parse_arguments false true [] args) (main fs prog args)
unfolding main
main_status fs prog [] h = cc
main_status fs prog (arg ∷ args) h =
    serve_status fs prog (parse_arguments false true [] (arg ∷ args)) h
