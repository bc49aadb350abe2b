-- ===== src/Tests/Shared.antt =====
-- The theorems on the shared module at concrete texts.
use librawatch.Common.{
  Text, codes, text_eq, any, false, ◌==◌, not, ◌&&◌, ◌≡◌, refl, if◌then◌else◌, none, some, [], ◌∷◌,
}
use librawatch.Common.Int.{negsuc}
use librawatch.Shared.Version.{compare_versions}
use librawatch.Shared.CommandLine.{
  is_absolute_exe_path, is_blocklisted, parse_quiet_uninstall_command,
}
use librawatch.Shared.Quoting.{
  IsPlain, quoted, command_line, parse_quiet_uninstall_command-command_line,
}

compare_test : compare_versions (codes "1.2") (codes "v1.10") ≡ some (negsuc 0)
unfolding compare_versions
compare_test = refl

abbrev uninstaller : Text
uninstaller = codes "C:\\A b\\u.exe"

parse_example : parse_quiet_uninstall_command (command_line (uninstaller ∷ codes "/S" ∷ [])) ≡ (
    if is_absolute_exe_path uninstaller && not (is_blocklisted uninstaller)
    then some (uninstaller, codes "/S" ∷ [])
    else none)
parse_example =
    parse_quiet_uninstall_command-command_line uninstaller (codes "/S" ∷ []) (plain, (flag, tt))
      no_nul
  where
    plain : IsPlain uninstaller
    plain = (
      refl,
      (refl, (refl, (refl, (refl, (refl, (refl, (refl, (refl, (refl, (refl, (refl, tt))))))))))),
    )

    flag : IsPlain (codes "/S")
    flag = (refl, (refl, tt))

    no_nul : any (λ c. c == 0) (command_line (uninstaller ∷ codes "/S" ∷ [])) ≡ false
    no_nul = unfold any command_line quoted in refl

parse_test :
    parse_quiet_uninstall_command (codes "\"C:\\A\\un.exe\" /S")
    ≡ some (codes "C:\\A\\un.exe", codes "/S" ∷ [])
unfolding parse_quiet_uninstall_command is_absolute_exe_path is_blocklisted text_eq
parse_test = refl
