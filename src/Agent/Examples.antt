-- ===== src/Agent/Examples.antt =====
-- An Install of an archive of a directory and a file, over an older version of the package.
use Prim.Native.String.{◌++◌}
use gofordevopsclass.Prelude.{true, false, [], ◌∷◌, some, ◌≡◌, refl}
use gofordevopsclass.Agent.{
  InstallReq, Machine, Agent, install, install_request, get_install_req, validate, unpack_in,
  write_files, write_file, move_and_start, migrate, start_program,
}
use gofordevopsclass.Agent.Installs.{Installed, is_ok, install-Installed}

abbrev quotes : InstallReq
quotes = record { name = "qotd"; pkg = 1 ∷ []; binary = "qotd"; args = [] }

abbrev machine : Machine
machine = record {
  temp_dir = λ n. some "/tmp/sa_install_qotd_1";
  unmarshal = λ b. some quotes;
  unzip = λ b. some (
      (record { name = "data"; is_dir = true; mode = 493; opens = false })
      ∷ (record { name = "qotd"; is_dir = false; mode = 493; opens = true })
      ∷ []);
  join = λ a b. a ++ ("/" ++ b);
  dir_of = λ p. p;
  joined_args = λ s. "";
  append = λ s t. s ++ t;
  succeeds = λ a. true;
  stat = λ p. true;
}

abbrev agent : Agent
agent = record { home_path = "/home/agent"; qotd_addr = "" }

goes_well : is_ok (install machine 10 agent (some (1 ∷ []))) ≡ true
unfolding install install_request get_install_req validate unpack_in write_files write_file
    move_and_start migrate start_program
goes_well = refl

install-Installed_example : Installed machine 10 agent (some (1 ∷ []))
install-Installed_example = install-Installed machine 10 agent (some (1 ∷ [])) goes_well
