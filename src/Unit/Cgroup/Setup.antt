-- ===== src/Unit/Cgroup/Setup.antt =====
-- crates/rinit/src/cgroup.rs: setting up the cgroup of a unit, with the answers of the kernel acts a
-- parameter. Messages to the log are left out.
use rinit.Prelude.{
  ℕ, Bool, true, false, not, Option, none, some, List, [], ◌∷◌, ◌++◌, if◌then◌else◌, Text, Result,
  ok, err,
}
use rinit.Unit.Name.{UnitName}
use rinit.Unit.Cgroup.{CgroupLimits, is_empty, File, files, path_for, has_controller}

-- What a write of a limit came to; `absent` is ENOENT, another error keeps its number.
pub data Written : Type 0 where
  done absent : Written
  refused : ℕ → Written

-- The answers of the kernel on one cgroup: whether the directory is there or could be made, its
-- controllers, if they can be read, and what each write comes to.
pub record Kernel : Type 0 where
  pub creates : Bool
  pub controllers : Option Text
  pub write : Text → Text → Written

-- What setting up does, in order.
pub data Action : Type 0 where
  create_dir remove_dir : Action
  write_limit : Text → Text → Action

abbrev pub Run : Type 0 → Type 0
Run A = List Action × Result ℕ A

abbrev pub after_action : {A : Type 0} → Action → Run A → Run A
after_action a (acts, r) = (a ∷ acts, r)

-- The loop over the files, with the names of the files that were applied.
unfoldable pub write_files : Kernel → Text → List Text → List File → Run (List Text)
unfolding has_controller
write_files k available applied [] = ([], ok applied)
write_files k available applied ((controller, file, value) ∷ rest) =
    elim (has_controller available controller) [
      | false ↦ write_files k available applied rest
      | true ↦ elim (k.write file value) [
        | done ↦
            after_action (write_limit file value)
              (write_files k available (applied ++ file ∷ []) rest)
        | absent ↦ after_action (write_limit file value) (write_files k available applied rest)
        | refused errno ↦ (write_limit file value ∷ [], err errno)
      ]
    ]

-- The end of `setup`: a group with no limit in force is taken down again.
unfoldable pub placed : Text → Run (List Text) → Run (Option Text)
placed dir (acts, err errno) = (acts, err errno)
placed dir (acts, ok []) = (acts ++ remove_dir ∷ [], ok none)
placed dir (acts, ok (_ ∷ _)) = (acts, ok (some dir))

-- `setup` on the unit's directory; it answers the directory whose `cgroup.procs` the child joins.
unfoldable pub setup_at : Kernel → Text → CgroupLimits → Run (Option Text)
unfolding write_files placed
setup_at k dir limits =
    if is_empty limits
    then ([], ok none)
    else if not k.creates
    then (create_dir ∷ [], ok none)
    else after_action create_dir (elim k.controllers [
      | none ↦ ([], ok none)
      | some available ↦ placed dir (write_files k available [] (files limits))
    ])

-- The hierarchy's root, if there is one, and the way that paths are joined.
unfoldable pub setup :
    (Text → Text → Text) → Option Text → Kernel → UnitName → CgroupLimits → Run (Option Text)
unfolding setup_at
setup join none k unit limits = ([], ok none)
setup join (some root) k unit limits = setup_at k (join root (path_for unit)) limits
