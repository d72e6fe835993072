-- ===== src/Agent/Installs.antt =====
-- What an Install of the agent has asked of the machine.
use gofordevopsclass.Prelude.{
  ℕ, String, Bool, true, false, ◌&&◌, ◌||◌, if◌then◌else◌, List, [], ◌∷◌, ◌++◌, Option, none, some,
  Bool-cases, ◌≡◌, refl, sym, ◌∙◌, ap, inl, inr, arith,
}
use gofordevopsclass.Agent.{
  InstallReq, InstallError, ZipFile, Action, Machine, Agent, Done, then_do, act, write_file,
  write_files, unpack_in, package_path, migrate, with_addr, command, start_program, move_and_start,
  install_request, install, get_install_req, Requested, request, no_request, made_temp, made_dir,
  opened, copied, made_all, removed_all, renamed, started, file_failed,
}

-- The actions that write one file of an archive.
abbrev pub file_actions : Machine → String → ZipFile → List Action
file_actions m dir z =
    if z.is_dir
    then made_dir (m.join dir z.name) z.mode ∷ []
    else opened (m.join dir z.name) z.mode ∷ copied z.name (m.join dir z.name) ∷ []

abbrev pub files_actions : Machine → String → List ZipFile → List Action
files_actions m dir [] = []
files_actions m dir (z ∷ zs) = file_actions m dir z ++ files_actions m dir zs

-- Every action succeeds.
abbrev pub all_succeed : Machine → List Action → Bool
all_succeed m [] = true
all_succeed m (a ∷ as1) = m.succeeds a && all_succeed m as1

-- Every file that is no directory can be opened.
abbrev pub all_open : List ZipFile → Bool
all_open [] = true
all_open (z ∷ zs) = (z.is_dir || z.opens) && all_open zs

-- No error.
abbrev pub is_ok : Done → Bool
is_ok (none, as1) = true
is_ok (some e, as1) = false

then_do-is_ok : (d e : Done) → is_ok (then_do d e) ≡ (is_ok d && is_ok e)
then_do-is_ok (none, xs) (none, ys) = refl
then_do-is_ok (none, xs) (some e, ys) = refl
then_do-is_ok (some x, xs) d = refl

then_do-actions : (d e : Done) → is_ok d ≡ true → (then_do d e).1 ≡ d.1 ++ e.1
then_do-actions (none, xs) (e, ys) h = refl
then_do-actions (some x, xs) d h = absurd (cc (h))

module _ (m : Machine) where
  act-is_ok : (e : InstallError) (a : Action) → is_ok (act m e a) ≡ m.succeeds a
  act-is_ok e a = ground arith

  all_succeed-append :
      (xs ys : List Action) → all_succeed m (xs ++ ys) ≡ (all_succeed m xs && all_succeed m ys)
  all_succeed-append [] ys = refl
  all_succeed-append (x ∷ xs) ys = ground (arith, all_succeed-append xs ys)

  -- What a step does if it has no error, and when it has none.
  abbrev Steps : Done → Bool → List Action → Type 0
  Steps d b as1 = (is_ok d ≡ b) × (b ≡ true → d.1 ≡ as1)

  then_do-Steps :
      (d e : Done) (b c : Bool) (xs ys : List Action)
      → Steps d b xs
      → Steps e c ys
      → Steps (then_do d e) (b && c) (xs ++ ys)
  then_do-Steps d e b c xs ys h k = (
    ground (arith, then_do-is_ok d e, h.0, k.0),
    λ x.
        then_do-actions d e (ground (arith, h.0))
        ∙ (ap (λ z. z ++ e.1) (h.1 (ground arith)) ∙ ap (λ z. xs ++ z) (k.1 (ground arith))),
  )

  act-Steps : (e : InstallError) (a : Action) → Steps (act m e a) (m.succeeds a) (a ∷ [])
  act-Steps e a = (act-is_ok e a, λ h. refl)

  write_file-Steps :
      (dir : String) (z : ZipFile)
      → Steps
          (write_file m dir z)
          ((z.is_dir || z.opens) && all_succeed m (file_actions m dir z))
          (file_actions m dir z)
  unfolding write_file
  write_file-Steps dir z = elim (Bool-cases z.is_dir) [
    | inl x ↦ rw (x, write_file) (ground arith, λ h. refl)
    | inr x ↦ elim (Bool-cases z.opens) [
      | inl y ↦
          let two =
            then_do-Steps (act m file_failed (opened (m.join dir z.name) z.mode))
              (act m file_failed (copied z.name (m.join dir z.name))) _ _ _ _
              (act-Steps file_failed (opened (m.join dir z.name) z.mode))
              (act-Steps file_failed (copied z.name (m.join dir z.name))) in
          rw (x, y, write_file) (ground (arith, two.0), λ h. two.1 (ground arith))
      | inr y ↦ rw (x, y, write_file) (refl, λ h. absurd (cc (h)))
    ]
  ]

  write_files-Steps :
      (dir : String) (fs : List ZipFile)
      → Steps
          (write_files m dir fs)
          (all_open fs && all_succeed m (files_actions m dir fs))
          (files_actions m dir fs)
  unfolding write_files
  write_files-Steps dir [] = (refl, λ h. refl)
  write_files-Steps dir (z ∷ fs) =
      let both =
        then_do-Steps (write_file m dir z) (write_files m dir fs) _ _ _ _ (write_file-Steps dir z)
          (write_files-Steps dir fs) in
      (
        ground (arith, both.0, all_succeed-append (file_actions m dir z) (files_actions m dir fs)),
        λ h.
            both.1
              (ground (arith, all_succeed-append (file_actions m dir z) (files_actions m dir fs))),
      )

  -- Moving the files to their place and starting the program.
  abbrev pub move_actions : Agent → InstallReq → String → List Action
  move_actions a r dir =
      let to = package_path m a r in
      made_all (m.dir_of to)
      ∷ ((if m.stat to then removed_all to ∷ [] else [])
          ++ (renamed dir to ∷ started (command m (with_addr m a) r) ∷ []))

  abbrev pub move_succeeds : Agent → InstallReq → String → Bool
  move_succeeds a r dir =
      let to = package_path m a r in
      m.succeeds (made_all (m.dir_of to))
      && m.succeeds (renamed dir to)
      && m.succeeds (started (command m (with_addr m a) r))

  move_and_start-Steps :
      (a : Agent) (r : InstallReq) (dir : String)
      → Steps (move_and_start m a r dir) (move_succeeds a r dir) (move_actions a r dir)
  unfolding move_and_start migrate start_program
  move_and_start-Steps a r dir = elim (Bool-cases (m.stat (package_path m a r))) [
    | inl x ↦ (ground (arith, x), λ h. ground (arith, x, h))
    | inr x ↦ (ground (arith, x), λ h. ground (arith, x, h))
  ]

  request_done :
      (a : Agent) (r : InstallReq) (dir : String) (fs : List ZipFile)
      → m.temp_dir r.name ≡ some dir
      → m.unzip r.pkg ≡ some fs
      → Steps
          (install_request m a r)
          (all_open fs && all_succeed m (files_actions m dir fs) && move_succeeds a r dir)
          ((made_temp dir ∷ files_actions m dir fs) ++ move_actions a r dir)
  unfolding install_request unpack_in
  request_done a r dir fs t u =
      let unpacked =
        then_do-Steps (none, made_temp dir ∷ []) (write_files m dir fs) true _ (made_temp dir ∷ [])
          _ (refl, λ h. refl) (write_files-Steps dir fs) in
      let whole =
        then_do-Steps _ (move_and_start m a r dir) _ _ _ _ unpacked
          (move_and_start-Steps a r dir) in
      rw (t, install_request, u, unpack_in) (ground (arith, whole.0), λ h. whole.1 (ground arith))

  -- What an Install that was answered with 200 has done.
  pub record Installed (limit : ℕ) (a : Agent) (body : Option (List ℕ)) : Type 0 where
    pub req : InstallReq
    pub dir : String
    pub files : List ZipFile
    pub decoded : get_install_req m limit body ≡ request req
    pub in_dir : m.temp_dir req.name ≡ some dir
    pub unzipped : m.unzip req.pkg ≡ some files
    pub all_opened : all_open files ≡ true
    pub all_written : all_succeed m (files_actions m dir files) ≡ true
    pub moved : move_succeeds a req dir ≡ true
    pub actions :
        (install m limit a body).1
        ≡ (made_temp dir ∷ files_actions m dir files) ++ move_actions a req dir

  pub install-Installed :
      (limit : ℕ) (a : Agent) (body : Option (List ℕ))
      → is_ok (install m limit a body) ≡ true
      → Installed limit a body
  unfolding install install_request unpack_in
  install-Installed limit a body h = go (get_install_req m limit body) refl
    where
      no_req :
          (e : InstallError)
          → get_install_req m limit body ≡ no_request e
          → is_ok (install m limit a body) ≡ false
      no_req e x = rw (x, install) refl

      no_place :
          (r : InstallReq)
          → get_install_req m limit body ≡ request r
          → m.temp_dir r.name ≡ none
          → is_ok (install m limit a body) ≡ false
      no_place r x t = rw (x, install, install_request, t) refl

      no_archive :
          (r : InstallReq) (dir : String)
          → get_install_req m limit body ≡ request r
          → m.temp_dir r.name ≡ some dir
          → m.unzip r.pkg ≡ none
          → is_ok (install m limit a body) ≡ false
      no_archive r dir x t u = rw (x, install, install_request, t, unpack_in, u) refl

      unpacked :
          (r : InstallReq) (dir : String) (o : Option (List ZipFile))
          → get_install_req m limit body ≡ request r
          → m.temp_dir r.name ≡ some dir
          → m.unzip r.pkg ≡ o
          → Installed limit a body
      unpacked r dir none x t u = absurd (cc (no_archive r dir x t u, h))
      unpacked r dir (some fs) x t u =
          let steps = request_done a r dir fs t u in
          let same : install m limit a body ≡ install_request m a r = rw (x, install) refl in
          let good : (all_open fs
                && all_succeed m (files_actions m dir fs)
                && move_succeeds a r dir)
              ≡ true =
            sym steps.0 ∙ (ap is_ok (sym same) ∙ h) in
          record {
            req = r;
            dir = dir;
            files = fs;
            decoded = x;
            in_dir = t;
            unzipped = u;
            all_opened = ground (arith, good);
            all_written = ground (arith, good);
            moved = ground (arith, good);
            actions = ap (λ d. d.1) same ∙ steps.1 good;
          }

      placed :
          (r : InstallReq) (o : Option String)
          → get_install_req m limit body ≡ request r
          → m.temp_dir r.name ≡ o
          → Installed limit a body
      placed r none x t = absurd (cc (no_place r x t, h))
      placed r (some dir) x t = unpacked r dir (m.unzip r.pkg) x t refl

      go : (q : Requested) → get_install_req m limit body ≡ q → Installed limit a body
      go (no_request e) x = absurd (cc (no_req e x, h))
      go (request r) x = placed r (m.temp_dir r.name) x refl
