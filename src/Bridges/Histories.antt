-- ===== src/Bridges/Histories.antt =====
-- The Compose file over any history of calls of the bridge API.
use cozy_nm.Base.{
  ℕ, ◌+◌, Option, none, some, is_some, length-append, ◌≡◌, refl, sym, subst, ◌≤◌, String, true,
  arith, length, length-drop, List, [], ◌∷◌, ok, inl, inr, ◌-◌,
}
use cozy_nm.Bridges.Yaml.{mapping, Fields, lookup-put_self}
use cozy_nm.Bridges.State.{Lib, Files, World, Document, Host, WriteFault}
use cozy_nm.Bridges.Document.{load_document, validate_document}
use cozy_nm.Bridges.Compose.{max_backups, back_up}
use cozy_nm.Bridges.Manager.{service_action, apply_project, restart_project, with_services}
use cozy_nm.Bridges.Ports.{has_distinct_ports, validate_document-ok_iff}
use cozy_nm.Bridges.View.{project}
use cozy_nm.Bridges.ViewLaws.{project-Kept}
use cozy_nm.Bridges.Outcomes.{Installed, Interrupted}
use cozy_nm.Bridges.Edits.{Edit, edited, run_edit, run_edit-Ends, RoundTrips, load-with_services}
use cozy_nm.Bridges.Steady.{
  service_action-IsSteady, apply_project-IsSteady, restart_project-IsSteady,
}

pub data Call : Type 0 where
  edit : Edit → Call
  action : (name : String) → (verb : String) → Call
  apply : Call
  restart : Call

module _ {C : Type 0} (lib : Lib C) (host : Host) where
  -- the files after one call, its result apart
  abbrev pub serve : World C → World C → Call → Files C → Files C
  serve world after (edit e) files = (run_edit lib host world after e files).1
  serve world after (action name verb) files =
      (service_action lib host world after name verb files).1
  serve world after apply files = (apply_project lib host world after files).1
  serve world after restart files = (restart_project lib host world after files).1

  -- a history: each call with what the surroundings answer during it
  abbrev pub serve_all : List (World C × World C × Call) → Files C → Files C
  serve_all [] files = files
  serve_all ((world, after, call) ∷ calls) files = serve_all calls (serve world after call files)

module _ {C : Type 0} (lib : Lib C) where
  -- Wherever the Compose file can be read, it is a document whose services can be parsed and whose
  -- managed services take different ports; and there are at most 20 backups, and `extra` ones.
  abbrev pub IsOrderly : (extra : ℕ) → Files C → Type 0
  IsOrderly extra files =
      ((world : World C)
        → world.readable ≡ true
        → (d : Document) × (load_document lib world files.compose ≡ ok d)
          × (has_distinct_ports lib d.services ≡ true))
      × (length files.backups ≤ max_backups + extra)

  Steady-IsOrderly :
      (extra more : ℕ) (files t : Files C)
      → (t.compose ≡ files.compose) × (t.backups ≡ files.backups)
      → IsOrderly extra files
      → IsOrderly (more + extra) t
  Steady-IsOrderly extra more files t (c, b) (h, k) =
      (λ world r. rw c (h world r), rw b (omega (arith, k)))

  written-loads :
      (d : Document) (services : Fields) (t : Files C)
      → RoundTrips lib
      → has_distinct_ports lib services ≡ true
      → t.compose ≡ some (lib.safe_dump (mapping (with_services d services)))
      → (world : World C) → world.readable ≡ true
      → (d' : Document) × (load_document lib world t.compose ≡ ok d')
        × (has_distinct_ports lib d'.services ≡ true)
  written-loads d services t h p c world r = (
    record { fields = with_services d services; services = services },
    rw c (load-with_services lib world d services h r),
    p,
  )

  length-back_up :
      (copy : Option C) (backups : List C) → length (back_up copy backups) ≤ length backups + 1
  unfolding back_up
  length-back_up none backups = omega arith
  length-back_up (some copy) backups = omega (arith, length-append backups (copy ∷ []))

  Interrupted-IsOrderly :
      (extra : ℕ) (d : Document) (services : Fields) (files t : Files C)
      → RoundTrips lib
      → has_distinct_ports lib services ≡ true
      → Interrupted (lib.safe_dump (mapping (with_services d services))) files t
      → IsOrderly extra files
      → IsOrderly (1 + extra) t
  Interrupted-IsOrderly extra d services files t h p (a, inl (c, (copy, b))) (o, k) = (
    λ world r. rw c (o world r),
    rw b (omega (arith, k, length-append files.backups (copy ∷ []))),
  )
  Interrupted-IsOrderly extra d services files t h p (a, inr (c, (n, b, q))) (o, k) = (
    written-loads d services t h p c,
    rw b (
        omega (
          arith,
          k,
          length-back_up files.compose files.backups,
          length-drop n (back_up files.compose files.backups),
        )),
  )

  Installed-IsOrderly :
      (extra : ℕ) (d : Document) (services : Fields) (files t : Files C)
      → RoundTrips lib
      → has_distinct_ports lib services ≡ true
      → Installed (lib.safe_dump (mapping (with_services d services))) files t
      → IsOrderly extra t
  Installed-IsOrderly extra d services files t h p (c, a, b) = (
    written-loads d services t h p c,
    rw b (
        omega (
          arith,
          length-drop (length (back_up files.compose files.backups) - max_backups)
              (back_up files.compose files.backups),
        )),
  )

module _ {C : Type 0} where
  abbrev pub faults_in : Option (WriteFault C) → ℕ
  faults_in none = 0
  faults_in (some fault) = 1

  -- the number of calls in which the operating system fails at a write
  abbrev pub faults : List (World C × World C × Call) → ℕ
  faults [] = 0
  faults ((world, after, call) ∷ calls) = faults calls + faults_in world.write_fault

module _ {C : Type 0} (lib : Lib C) (host : Host) where
  distinct_ports :
      (d : Document) (services : Fields)
      → validate_document lib (with_services d services) ≡ ok tt
      → has_distinct_ports lib services ≡ true
  distinct_ports d services =
      (validate_document-ok_iff lib (with_services d services) services
        (lookup-put_self "services" (mapping services) d.fields)).0

  one_fault : (fault : Option (WriteFault C)) → is_some fault ≡ true → faults_in fault ≡ 1
  one_fault none h = absurd (cc)
  one_fault (some f) h = refl

  run_edit-IsOrderly :
      (extra : ℕ) (world after : World C) (e : Edit) (files : Files C)
      → RoundTrips lib
      → IsOrderly lib extra files
      → IsOrderly lib
          (faults_in world.write_fault + extra)
          (run_edit lib host world after e files).1
  run_edit-IsOrderly extra world after e files h o =
      elim (run_edit-Ends lib host world after e files) [
        | inr (x, inl (c, a, b)) ↦
            Steady-IsOrderly lib extra (faults_in world.write_fault) files
              (run_edit lib host world after e files).1 (c, b) o
        | inr (x, inr (d, l, a, v, f, i)) ↦ rw (one_fault world.write_fault f) (
            Interrupted-IsOrderly lib extra d (edited e d.services) files
              (run_edit lib host world after e files).1 h (distinct_ports d (edited e d.services) v)
              i o)
        | inl (d, l, a, v, (t, i, r)) ↦
            let (c, a', b) = project-Kept lib host after t in
            subst (λ q. IsOrderly lib (faults_in world.write_fault + extra) q.1) (sym r)
              (Steady-IsOrderly lib extra (faults_in world.write_fault) t
                (project lib host after t).1 (c, b)
                (Installed-IsOrderly lib extra d (edited e d.services) files t h
                  (distinct_ports d (edited e d.services) v) i))
      ]

  serve-IsOrderly :
      (extra : ℕ) (world after : World C) (call : Call) (files : Files C)
      → RoundTrips lib
      → IsOrderly lib extra files
      → IsOrderly lib (faults_in world.write_fault + extra) (serve lib host world after call files)
  serve-IsOrderly extra world after (edit e) files h o =
      run_edit-IsOrderly extra world after e files h o
  serve-IsOrderly extra world after (action name verb) files h o =
      Steady-IsOrderly lib extra (faults_in world.write_fault) files
        (serve lib host world after (action name verb) files)
        (service_action-IsSteady lib host world after name verb files) o
  serve-IsOrderly extra world after apply files h o =
      Steady-IsOrderly lib extra (faults_in world.write_fault) files
        (serve lib host world after apply files) (apply_project-IsSteady lib host world after files)
        o
  serve-IsOrderly extra world after restart files h o =
      Steady-IsOrderly lib extra (faults_in world.write_fault) files
        (serve lib host world after restart files)
        (restart_project-IsSteady lib host world after files) o

  -- With a YAML library that reads back what it wrote: if the files are orderly, so are they after
  -- any history of calls, whatever the surroundings answer in them, with one more backup at most
  -- for each call in which the operating system fails at a write.
  pub serve_all-IsOrderly :
      RoundTrips lib
      → (calls : List (World C × World C × Call)) (extra : ℕ) (files : Files C)
      → IsOrderly lib extra files
      → IsOrderly lib (faults calls + extra) (serve_all lib host calls files)
  serve_all-IsOrderly h [] extra files o = subst (λ n. IsOrderly lib n files) (omega arith) o
  serve_all-IsOrderly h ((world, after, call) ∷ calls) extra files o =
      subst
        (λ n. IsOrderly lib n (serve_all lib host calls (serve lib host world after call files)))
        (omega arith)
        (serve_all-IsOrderly h calls (faults_in world.write_fault + extra)
          (serve lib host world after call files)
          (serve-IsOrderly extra world after call files h o))
