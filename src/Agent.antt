-- ===== src/Agent.antt =====
-- The system agent of automation_the_hard_way/agent: Install of service/service.go, with Validate
-- of msgs/msgs.go. The file system, the archive and the processes are not in the repository: what
-- they answer is the argument Machine, and what the agent asks of them is a list of actions.
pub mod Installs
mod Examples
use gofordevopsclass.Prelude.{
  ℕ, zero, suc, String, Bool, true, false, not, ◌==◌, string_eq, if◌then◌else◌, List, [], ◌∷◌, ◌++◌,
  Option, none, some,
}
use gofordevopsclass.Prelude.Text.{is_empty}

-- InstallReq; a package is its bytes.
pub record InstallReq : Type 0 where
  pub name : String
  pub pkg : List ℕ
  pub binary : String
  pub args : List String

pub data InstallError : Type 0 where
  unreadable undecodable no_name no_binary no_package : InstallError
  no_temp_dir bad_archive file_failed : InstallError
  mkdir_failed rename_failed start_failed : InstallError

abbrev pub is_nil : List ℕ → Bool
is_nil [] = true
is_nil (x ∷ xs) = false

-- Validate
unfoldable pub validate : InstallReq → Option InstallError
validate r =
    if is_empty r.name
    then some no_name
    else if is_empty r.binary
    then some no_binary
    else if is_nil r.pkg
    then some no_package
    else none

-- A zip.File: its name, whether it is a directory, its mode, and whether it can be opened.
pub record ZipFile : Type 0 where
  pub name : String
  pub is_dir : Bool
  pub mode : ℕ
  pub opens : Bool

-- What the agent asks of the machine: to make a directory in the place for temporary ones, to make
-- a directory, to open a file for writing, to fill it from an archive's file, to make a directory
-- with its parents, to remove one with all that is in it, to rename, and to start a command.
pub data Action : Type 0 where
  made_temp : String → Action
  made_dir opened : String → ℕ → Action
  copied : String → String → Action
  made_all removed_all : String → Action
  renamed : String → String → Action
  started : String → Action

-- The answers of the machine and of the packages: the directory that MkdirTemp makes, the decoding of
-- a body and of an archive, the paths, which actions succeed, and which paths are there.
pub record Machine : Type 0 where
  pub temp_dir : String → Option String
  pub unmarshal : List ℕ → Option InstallReq
  pub unzip : List ℕ → Option (List ZipFile)
  pub join : String → String → String
  pub dir_of : String → String
  pub joined_args : List String → String
  pub append : String → String → String
  pub succeeds : Action → Bool
  pub stat : String → Bool

pub record Agent : Type 0 where
  pub home_path : String
  pub qotd_addr : String

-- What a step asked for, and its error.
abbrev pub Done : Type 0
Done = Option InstallError × List Action

-- A step, and the next one if it had no error.
abbrev pub then_do : Done → Done → Done
then_do (some e, as1) d = (some e, as1)
then_do (none, as1) (e, as2) = (e, as1 ++ as2)

-- The bytes that a LimitedReader lets through.
abbrev pub limited : ℕ → List ℕ → List ℕ
limited zero bs = []
limited (suc n) [] = []
limited (suc n) (b ∷ bs) = b ∷ limited n bs

pub data Requested : Type 0 where
  request : InstallReq → Requested
  no_request : InstallError → Requested

abbrev pub validated : InstallReq → Option InstallError → Requested
validated r none = request r
validated r (some e) = no_request e

module _ (m : Machine) where
  -- The action, with an error if it does not succeed.
  abbrev pub act : InstallError → Action → Done
  act e a = (if m.succeeds a then none else some e, a ∷ [])

  -- getInstallReq: `body` is what the request holds, none if reading fails.
  unfoldable pub get_install_req : ℕ → Option (List ℕ) → Requested
  unfolding validate
  get_install_req limit none = no_request unreadable
  get_install_req limit (some body) = elim (m.unmarshal (limited limit body)) [
    | none ↦ no_request undecodable
    | some r ↦ validated r (validate r)
  ]

  -- writeFile
  unfoldable pub write_file : String → ZipFile → Done
  write_file dir z =
      let path = m.join dir z.name in
      if z.is_dir
      then act file_failed (made_dir path z.mode)
      else if z.opens
      then then_do (act file_failed (opened path z.mode)) (act file_failed (copied z.name path))
      else (some file_failed, [])

  -- The loop of unpack.
  unfoldable pub write_files : String → List ZipFile → Done
  unfolding write_file
  write_files dir [] = (none, [])
  write_files dir (z ∷ zs) = then_do (write_file dir z) (write_files dir zs)

  -- unpack in the directory that MkdirTemp made.
  unfoldable pub unpack_in : String → InstallReq → Done
  unfolding write_files
  unpack_in dir r = elim (m.unzip r.pkg) [
    | none ↦ (some bad_archive, made_temp dir ∷ [])
    | some fs ↦ then_do (none, made_temp dir ∷ []) (write_files dir fs)
  ]

  -- filepath.Join(a.homePath, pkgDir, req.Name)
  abbrev pub package_path : Agent → InstallReq → String
  package_path a r = m.join (m.join a.home_path "sa/packages/") r.name

  unfoldable pub migrate : Agent → InstallReq → String → Done
  migrate a r from =
      let to = package_path a r in
      let old = if m.stat to then (none, removed_all to ∷ []) else (none, []) in
      then_do (act mkdir_failed (made_all (m.dir_of to)))
        (then_do old (act rename_failed (renamed from to)))

  -- The address that startProgram leaves in the agent.
  abbrev pub with_addr : Agent → Agent
  with_addr a = if is_empty a.qotd_addr then record a { qotd_addr = ":17" } else a

  -- fmt.Sprintf("%s %s --addr %s &", ...)
  abbrev pub command : Agent → InstallReq → String
  command a r =
      let path = m.join (m.join (m.join a.home_path "sa/packages/") r.name) r.binary in
      m.append path (
        m.append " "
          (m.append (m.joined_args r.args) (m.append " --addr " (m.append a.qotd_addr " &"))))

  unfoldable pub start_program : Agent → InstallReq → Done
  start_program a r = act start_failed (started (command (with_addr a) r))

  -- From migrate on, for files that were unpacked in a directory.
  unfoldable pub move_and_start : Agent → InstallReq → String → Done
  unfolding migrate start_program
  move_and_start a r dir = then_do (migrate a r dir) (start_program a r)

  -- Install behind the request: the four steps, each of which answers 400 for its error.
  unfoldable pub install_request : Agent → InstallReq → Done
  unfolding unpack_in move_and_start
  install_request a r = elim (m.temp_dir r.name) [
    | none ↦ (some no_temp_dir, [])
    | some dir ↦ then_do (unpack_in dir r) (move_and_start a r dir)
  ]

  -- Install: an error is a 400 with its text, none a 200.
  unfoldable pub install : ℕ → Agent → Option (List ℕ) → Done
  unfolding get_install_req install_request
  install limit a body = elim (get_install_req limit body) [
    | no_request e ↦ (some e, [])
    | request r ↦ install_request a r
  ]
