-- ===== src/Cmd/Check.antt =====
-- cmd/server/main.go, runCheck: the programs that promotion needs. The output of a program that runs,
-- or the text of the error of one that does not, is given; strings.TrimSpace is a parameter.
use nnel.Base.{Bool, true, false, ◌&&◌, List, [], ◌∷◌, ◌++◌, Text, text, Result, ok, err}

module _ (trim_space : Text → Text) where
  abbrev pub check_line : Text → Result Text Text → Text
  check_line program (err problem) =
      text "✗ " ++ (program ++ (text ": not found (" ++ (problem ++ text ")")))
  check_line program (ok out) = text "✓ " ++ (program ++ (b' ' ∷ trim_space out))

  abbrev pub is_found : Result Text Text → Bool
  is_found (err problem) = false
  is_found (ok out) = true

  abbrev pub check_end : Bool → List Text
  check_end true = text "  Ready for promote." ∷ []
  check_end false =
      text "\nInstall missing deps:"
      ∷ text "  Docker:   apt install docker.io"
      ∷ text "  Nixpacks: curl -sSL https://nixpacks.com/install.sh | bash"
      ∷ []

  -- The lines that are printed.
  unfoldable pub run_check : Result Text Text → Result Text Text → List Text
  run_check docker nixpacks =
      check_line (text "Docker") docker
      ∷ check_line (text "Nixpacks") nixpacks
      ∷ check_end (is_found docker && is_found nixpacks)
