-- ===== src/Cmd/Install/Service.antt =====
-- How the service that runInstall writes is started: systemd's reading of a service file, as far as its
-- command needs it, and the client's reading of the flag -c.
use nnel.Base.{
  ◌≡◌, refl, ◌∙◌, ap, false, Option, none, some, List, [], ◌∷◌, ◌++◌, Text, text, text_eq, ◌==◌,
  has_prefix, drop, split, split-append, split-plain, split-join, contains, contains-append, All,
  if◌then◌else◌, arith,
}
use nnel.Cmd.Connect.{ClientFlags}
use nnel.Cmd.Install.{service_lines, service_text}

-- The command line: the words behind ExecStart= in the first line that has it. Words with quotes,
-- escapes or specifiers are not read here.
abbrev pub command_of : List Text → List Text
command_of [] = []
command_of (line ∷ lines) =
    let rest = command_of lines in
    if has_prefix line (text "ExecStart=") then split b' ' (drop 10 line) else rest

abbrev pub service_command : Text → List Text
service_command service = command_of (split 10 service)

-- The client's flags, with a file and nothing else.
abbrev pub with_config : Text → ClientFlags
with_config file = record {
  config = file;
  name = [];
  server = [];
  auth_token = [];
  tunnels = [];
  dir = [];
}

-- The flags of a command line that gives a file by -c.
abbrev pub started_flags : List Text → Option ClientFlags
started_flags (binary ∷ flag ∷ file ∷ []) =
    if flag == text "-c" then some (with_config file) else none
started_flags _ = none

-- A word that systemd takes as it stands.
abbrev pub Plain : Text → Type 0
Plain word =
    All (λ c. contains c word ≡ false) (b' ' ∷ 10 ∷ b'"' ∷ b'\'' ∷ b'\\' ∷ b'%' ∷ b'$' ∷ [])

split_command :
    (binary file : Text)
    → contains b' ' binary ≡ false
    → contains b' ' file ≡ false
    → split b' ' (binary ++ (text " -c " ++ file)) ≡ binary ∷ text "-c" ∷ file ∷ []
split_command binary file hb hf =
    split-append b' ' binary (text "-c " ++ file)
    ∙ rw (split-plain b' ' binary hb, split-append b' ' (text "-c") file, split-plain b' ' file hf)
        refl

one_line :
    (binary file : Text)
    → contains 10 binary ≡ false
    → contains 10 file ≡ false
    → contains 10 (text "ExecStart=" ++ (binary ++ (text " -c " ++ file))) ≡ false
one_line binary file hb hf = ground (
  arith,
  contains-append 10 (text "ExecStart=") (binary ++ (text " -c " ++ file)),
  contains-append 10 binary (text " -c " ++ file),
  contains-append 10 (text " -c ") file,
)

plain_lines :
    (binary file : Text)
    → contains 10 binary ≡ false
    → contains 10 file ≡ false
    → All (λ line. contains 10 line ≡ false) (text "[Unit]" ∷ service_lines binary file)
plain_lines binary file hb hf = (
  refl,
  (
    refl,
    (
      refl,
      (
        refl,
        (
          refl,
          (
            refl,
            (
              refl,
              (one_line binary file hb hf, (refl, (refl, (refl, (refl, (refl, (refl, tt))))))),
            ),
          ),
        ),
      ),
    ),
  ),
)

-- The service starts the client with the file.
pub started_flags-service_text :
    (binary file : Text)
    → Plain binary
    → Plain file
    → started_flags (service_command (service_text binary file)) ≡ some (with_config file)
started_flags-service_text binary file plain plain' =
    ap (λ lines. started_flags (command_of lines))
      (split-join 10 (text "[Unit]") (service_lines binary file)
        (plain_lines binary file plain.1.0 plain'.1.0))
    ∙ ap started_flags (split_command binary file plain.0 plain'.0)
