-- ===== src/DeepFreeze/Endpoint.antt =====
-- handleDeepFreeze of agent/deepfreeze.go. How a run of DFC.exe ends is an argument.
use librawatch.Common.{
  ℕ, zero, suc, ◌+◌, ◌/◌, ◌%◌, ◌==◌, ltb, Text, codes, text_eq, trim_space, Bool, true, false,
  if◌then◌else◌, List, [], ◌∷◌, ◌++◌,
}

-- The exit code and the output, or the error when the program could not be run.
pub data DfcRun : Type 0 where
  exits : ℕ → Text → DfcRun
  not_run : Text → DfcRun

-- What queryIsFrozen returns; `failed` is that the error is not nil.
pub record FrozenQuery : Type 0 where
  pub frozen : Bool
  pub output : Text
  pub failed : Bool

pub record DeepFreezeResult : Type 0 where
  pub status : Text
  pub output : Text

abbrev pub dfc_path : Text
dfc_path = codes "C:\\Windows\\SysWOW64\\DFC.exe"

unfoldable pub print_digits : ℕ → ℕ → Text → Text
print_digits zero n digits = digits
print_digits (suc k) n digits =
    let more = (48 + (n % 10)) ∷ digits in
    let rest = print_digits k (n / 10) more in if ltb n 10 then more else rest

-- %d, of an exit code: a number of 32 bits has ten digits at most.
unfoldable pub print_code : ℕ → Text
unfolding print_digits
print_code n = print_digits 10 n []

unfoldable pub unexpected_code : ℕ → Text → Text
unfolding print_code text_eq
unexpected_code code output =
    if text_eq output []
    then codes "DFC.exe exited with unexpected code " ++ print_code code
    else output ++ (codes " (exit: " ++ (print_code code ++ codes ")"))

unfoldable pub read_frozen : DfcRun → FrozenQuery
unfolding unexpected_code trim_space
read_frozen (not_run error) = record { frozen = false; output = error; failed = true }
read_frozen (exits code out) =
    if code == 0
    then record { frozen = false; output = trim_space out; failed = false }
    else if code == 1
    then record { frozen = true; output = trim_space out; failed = false }
    else record { frozen = false; output = unexpected_code code (trim_space out); failed = true }

abbrev pub frozen_or_thawed : Bool → Text
frozen_or_thawed frozen = if frozen then codes "FROZEN" else codes "THAWED"

-- The combined output of a program that did not start is empty.
unfoldable pub command_output : DfcRun → Text
unfolding trim_space
command_output (not_run error) = []
command_output (exits code out) = trim_space out

unfoldable pub verification_text : Text → FrozenQuery → Text
unfolding text_eq
verification_text output q =
    (if text_eq output [] then [] else output ++ 10 ∷ [])
    ++ ((if q.failed
          then codes "Verifikasi ISFROZEN gagal: " ++ q.output
          else codes "Verifikasi status: " ++ frozen_or_thawed q.frozen)
        ++ codes "\n(PC akan restart segera untuk menerapkan perubahan)")

abbrev pub error_result : Text → DeepFreezeResult
error_result output = record { status = codes "error"; output = output }

unfoldable pub query_result : FrozenQuery → DeepFreezeResult
query_result q =
    if q.failed
    then error_result q.output
    else record { status = codes "ok"; output = frozen_or_thawed q.frozen }

module _ {W : Type 0} (dfc : List Text → W → DfcRun × W) where
  unfoldable pub query_is_frozen : W → FrozenQuery × W
  unfolding read_frozen
  query_is_frozen w =
      let (end, w') = dfc (codes "get" ∷ codes "/ISFROZEN" ∷ []) w in (read_frozen end, w')

  unfoldable pub run_df_cmd : Text → Text → W → DeepFreezeResult × W
  unfolding query_is_frozen command_output verification_text
  run_df_cmd password flag w =
      let (end, w1) = dfc (password ∷ flag ∷ []) w in
      let (q, w2) = query_is_frozen w1 in
      (record { status = codes "ok"; output = verification_text (command_output end) q }, w2)

  unfoldable pub with_password : Text → Text → Text → W → DeepFreezeResult × W
  unfolding run_df_cmd text_eq
  with_password action password flag w =
      if text_eq password []
      then (error_result (codes "Password Deep Freeze harus diisi untuk " ++ action), w)
      else run_df_cmd password flag w

  -- `installed` is that DFC.exe is there.
  unfoldable pub handle_deep_freeze : Bool → Text → Text → W → DeepFreezeResult × W
  unfolding with_password query_result query_is_frozen text_eq
  handle_deep_freeze false action password w =
      (error_result (codes "DFC.exe tidak ditemukan di " ++ dfc_path), w)
  handle_deep_freeze true action password w =
      if text_eq action (codes "thaw")
      then with_password action password (codes "/BOOTTHAWED") w
      else if text_eq action (codes "freeze")
      then with_password action password (codes "/BOOTFROZEN") w
      else if text_eq action (codes "query_df")
      then (let (q, w') = query_is_frozen w in (query_result q, w'))
      else (error_result (codes "action tidak dikenal: " ++ action), w)
