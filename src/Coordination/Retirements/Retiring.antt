-- ===== src/Coordination/Retirements/Retiring.antt =====
-- src/coordination/control.ts: a reservation for retirement against the commands that use the task.
use passeur.Base.{
  ◌≢◌, ◌∙◌, ◌||◌, ◌==◌, suc, subst, str_eq, inr, inl, eq_of_str_eq, ap, Option-cases, Bool-cases,
  coordination_retirement_active, coordination_resource_changed, coordination_forbidden, ok, ◌≡◌,
  ◌∷◌, ℕ, true, throw_if-eq-ok, str_eq_refl, some, refl, opt_str_eq, if◌then◌else◌, false, contains,
  arith, any, [], String, Option, List, Bool,
}
use passeur.Coordination.Parents.Execute.{
  version_of, version_changed, task_of, selected_inputs, registers_retiring, is_worker_note,
  is_retiring, admit_command, ResourceVersion, Controller, ConsentGuard,
}
use passeur.Coordination.State.Commands.{Request, Platform, ControlState}
use passeur.Coordination.State.Records.{Selection}
use passeur.Coordination.Retirements.Retirement.{
  release_retirement, has_version, set_version, reserve_retirement, next_version, is_task_work,
  case_selects_task,
}
use passeur.Coordination.State.Access.{work_of}
use passeur.Coordination.Histories.History.{}

abbrev pub uses_task : ControlState → String → Selection → Bool
uses_task s task input = opt_str_eq (task_of (work_of s input.work_id)) (some task)

module _ (c : Controller) (s : ControlState) (task : String) where
  pub reserve_retirement-eq-ok :
      (c' : Controller)
      → reserve_retirement c s task ≡ ok c'
      → (any (case_selects_task s task) s.cases ≡ false)
        × (contains task c.retirements ≡ false)
        × (c' ≡ record c {
          resource_versions =
              if any (is_task_work task) s.works
              then next_version task c.resource_versions
              else c.resource_versions;
          retirements = task ∷ c.retirements;
        })
  unfolding reserve_retirement
  reserve_retirement-eq-ok c' h = ground arith

retiring_input :
    (c : Controller) (s : ControlState) (task : String) (inputs : List Selection)
    → contains task c.retirements ≡ true
    → any (uses_task s task) inputs ≡ true
    → any (λ (i : Selection). is_retiring c (task_of (work_of s i.work_id))) inputs ≡ true
retiring_input c s task [] held h = h
retiring_input c s task (i ∷ inputs) held h = elim (Option-cases (task_of (work_of s i.work_id))) [
  | inl e ↦ rw e (retiring_input c s task inputs held (ground (arith, e, h)))
  | inr (t, e) ↦ elim (Bool-cases (str_eq t task)) [
    | inl here ↦ let same : t ≡ task = eq_of_str_eq t task here in rw (e, same, held) refl
    | inr there ↦ ground (arith, e, there, h, retiring_input c s task inputs held)
  ]
]

admit_command-retiring :
    (p : Platform) (c : Controller) (guard : Option ConsentGuard) (versions : List ResourceVersion)
    (s : ControlState) (owner : String) (request : Request)
    → admit_command p c guard versions s owner request ≡ ok tt
    → (any (version_changed c) versions ≡ false)
      × (any
            (λ (i : Selection). is_retiring c (task_of (work_of s i.work_id)))
            (selected_inputs s request)
          ≡ false)
      × (registers_retiring c request ≡ false)
unfolding admit_command
admit_command-retiring p c guard versions s owner request h =
    let (_, k1) = throw_if-eq-ok (is_worker_note s request) coordination_forbidden _ h in
    let (versions', k2) =
      throw_if-eq-ok (any (version_changed c) versions) coordination_resource_changed _ k1 in
    let (inputs, k3) =
      throw_if-eq-ok
        (any (λ (i : Selection). is_retiring c (task_of (work_of s i.work_id)))
          (selected_inputs s request))
        coordination_retirement_active _ k2 in
    let (registers, _) =
      throw_if-eq-ok (registers_retiring c request) coordination_retirement_active _ k3 in
    (versions', inputs, registers)

version_of-set :
    (task : String) (version : ℕ) (entries : List (String × ℕ))
    → version_of task (set_version task version entries) ≡ version
version_of-set task version [] = rw (str_eq_refl task) refl
version_of-set task version (entry ∷ entries) = elim (Bool-cases (str_eq entry.0 task)) [
  | inl e ↦ rw (e, str_eq_refl task) refl
  | inr e ↦ rw (e, e) (version_of-set task version entries)
]

has_version-set :
    (task : String) (version : ℕ) (entries : List (String × ℕ))
    → has_version task (set_version task version entries) ≡ true
has_version-set task version [] = rw (str_eq_refl task) refl
has_version-set task version (entry ∷ entries) = elim (Bool-cases (str_eq entry.0 task)) [
  | inl e ↦ rw (e, str_eq_refl task) refl
  | inr e ↦ rw (e, e) (has_version-set task version entries)
]

-- The version that was read before the reservation.
abbrev pub read_before : Controller → String → ResourceVersion
read_before c task = record { task_id = task; version = version_of task c.resource_versions }

released_version :
    (c c' : Controller) (s : ControlState) (task : String)
    → any (is_task_work task) s.works ≡ true
    → reserve_retirement c s task ≡ ok c'
    → version_of task (release_retirement task c').resource_versions
      ≡ suc (suc (version_of task c.resource_versions))
unfolding release_retirement
released_version c c' s task enrolled h =
    let (_, _, made) = reserve_retirement-eq-ok c s task c' h in
    let entries : c'.resource_versions ≡ next_version task c.resource_versions =
      ground (arith, made, enrolled) in
    let v = version_of task c.resource_versions in
    rw (entries, has_version-set task (suc v) c.resource_versions)
      (version_of-set task _ (next_version task c.resource_versions)
        ∙ ap suc (version_of-set task (suc v) c.resource_versions))

-- The command enrols the task.
abbrev pub registers_task : String → Request → Bool
registers_task task (Request.register_task_work _ _ _ _ _ managed) = str_eq managed.task_id task
registers_task task _ = false

registers_refused :
    (c : Controller) (task : String) (request : Request)
    → contains task c.retirements ≡ true
    → registers_task task request ≡ true
    → registers_retiring c request ≢ false
registers_refused c task (Request.register_task_work _ _ _ _ _ managed) held h k =
    let same : managed.task_id ≡ task = eq_of_str_eq managed.task_id task h in
    let still : contains task c.retirements ≡ false =
      subst (λ x. contains x c.retirements ≡ false) same k in
    ground (arith, held, still)
registers_refused c task (Request.register_work _ _ _ _ _ _) held h k = cc
registers_refused c task (Request.on_work _ _ _) held h k = cc
registers_refused c task (Request.post_note _ _ _ _) held h k = cc
registers_refused c task (Request.on_note _ _) held h k = cc
registers_refused c task (Request.claim_target _ _) held h k = cc
registers_refused c task (Request.on_case _ _ _ _) held h k = cc

-- A reservation for retirement is given only while no active case selects the task. While it is held,
-- no command that selects a result of the task, or enrols it, is admitted, in whatever state.
pub reserve_retirement-excludes :
    (p : Platform) (c c' : Controller) (s t : ControlState) (task : String)
    (guard : Option ConsentGuard) (versions : List ResourceVersion) (owner : String)
    (request : Request)
    → reserve_retirement c s task ≡ ok c'
    → (any (uses_task t task) (selected_inputs t request) || registers_task task request) ≡ true
    → (any (case_selects_task s task) s.cases ≡ false)
      × (admit_command p c' guard versions t owner request ≢ ok tt)
reserve_retirement-excludes p c c' s t task guard versions owner request h uses =
    let (free, _, made) = reserve_retirement-eq-ok c s task c' h in
    let held : contains task c'.retirements ≡ true = rw made (rw (str_eq_refl task) refl) in
    (
      free,
      λ k.
          let (_, inputs, registers) =
            admit_command-retiring p c' guard versions t owner request k in
          elim (Bool-cases (any (uses_task t task) (selected_inputs t request))) [
            | inl e ↦
                let taken = retiring_input c' t task (selected_inputs t request) held e in
                absurd (ground (arith, taken, inputs))
            | inr e ↦ registers_refused c' task request held (ground (arith, uses, e)) registers
          ],
    )

-- Once a reservation for an enrolled task is released, no command is admitted with the version of
-- the task that was read before the reservation.
pub release_retirement-renews :
    (p : Platform) (c c' : Controller) (s t : ControlState) (task : String)
    (guard : Option ConsentGuard) (versions : List ResourceVersion) (owner : String)
    (request : Request)
    → reserve_retirement c s task ≡ ok c'
    → any (is_task_work task) s.works ≡ true
    → admit_command p
        (release_retirement task c')
        guard
        (read_before c task ∷ versions)
        t
        owner
        request
      ≢ ok tt
release_retirement-renews p c c' s t task guard versions owner request h enrolled k =
    let (fresh, _, _) =
      admit_command-retiring p (release_retirement task c') guard (read_before c task ∷ versions) t
        owner request k in
    let version = released_version c c' s task enrolled h in
    let same : (version_of task (release_retirement task c').resource_versions
          == version_of task c.resource_versions)
        ≡ true =
      ground (arith, fresh) in
    ground (arith, version, same)
