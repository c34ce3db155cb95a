-- ===== src/Bridges/Applied.antt =====
-- A successful apply leaves no pending changes.
use cozy_nm.Base.{
  ◌≡◌, refl, ap, ◌∙◌, String, eq_refl, false, arith, Result, ok, err, Exec, continue, sym, lift,
  ◌>>=◌, ◌>>◌, Result-cases, inl, inr,
}
use cozy_nm.Bridges.State.{BridgeFault, Lib, Files, World, installed, BridgeOperationResult, Host}
use cozy_nm.Bridges.Document.{validate_document}
use cozy_nm.Bridges.Compose.{
  ensure_paths, locked, run_compose, compose_is_valid, refuse_invalid, mark_current_applied,
  current_hash, pending_apply,
}
use cozy_nm.Bridges.Manager.{load, apply_command, apply_body, operation, apply_project}
use cozy_nm.Bridges.View.{project}
use cozy_nm.Bridges.ViewLaws.{project-Kept}

module _ {C : Type 0} (lib : Lib C) where
  -- where the computation succeeds, nothing is pending
  abbrev pub IsSettling : {A : Type 0} → Exec (Files C) BridgeFault A → Type 0
  IsSettling {A} m =
      (files : Files C) (a : A) → (m files).0 ≡ ok a → pending_apply lib (m files).1 ≡ false

  continue-IsSettling :
      {A B : Type 0} (r : Result BridgeFault A) (f : A → Exec (Files C) BridgeFault B)
      → ((a : A) → IsSettling (f a))
      → IsSettling (lift r >>= f)
  continue-IsSettling (ok a) f h files b o = h a files b o
  continue-IsSettling (err e) f h files b o = absurd (ground arith)

  last-IsSettling :
      {A B : Type 0} (m : Exec (Files C) BridgeFault A) (f : A → Exec (Files C) BridgeFault B)
      → ((a : A) → IsSettling (f a))
      → IsSettling (m >>= f)
  last-IsSettling m f h files b o = continue-IsSettling (m files).0 f h (m files).1 b o

  -- what follows does not undo it, if it leaves the file and the noted hash
  kept-IsSettling :
      {A B : Type 0} (m : Exec (Files C) BridgeFault A) (f : A → Exec (Files C) BridgeFault B)
      → IsSettling m
      → ((a : A) (files : Files C) → pending_apply lib (f a files).1 ≡ pending_apply lib files)
      → IsSettling (m >>= f)
  kept-IsSettling m f h k files b o = elim (Result-cases (m files).0) [
    | inl (a, e) ↦
        ap (λ z. pending_apply lib (continue z f (m files).1).1) e ∙ k a (m files).1 ∙ h files a e
    | inr (x, e) ↦
        let z : err x ≡ ok b = ap (λ z. (continue z f (m files).1).0) (sym e) ∙ o in
        absurd (ground arith)
  ]

  mark_current_applied-IsSettling : (world : World C) → IsSettling (mark_current_applied lib world)
  unfolding mark_current_applied pending_apply current_hash
  mark_current_applied-IsSettling world =
      last-IsSettling (ensure_paths world) _ (λ u files a o. rw (eq_refl (current_hash lib files)))

module _ {C : Type 0} (lib : Lib C) (host : Host) (world after : World C) where
  apply_body-IsSettling : IsSettling lib (apply_body lib world)
  unfolding apply_body
  apply_body-IsSettling = last-IsSettling lib (load lib world) _ λ d.
      last-IsSettling lib (lift (validate_document lib d.fields)) _ λ u.
        last-IsSettling lib (compose_is_valid world installed) _ λ e.
          last-IsSettling lib (refuse_invalid e) _ λ u'.
            last-IsSettling lib (run_compose world (apply_command d.services)) _ λ r.
              kept-IsSettling lib (mark_current_applied lib world) _
                (mark_current_applied-IsSettling lib world) (λ u'' files. refl)

  continue-state :
      {A B : Type 0} (r : Result BridgeFault A) (g : A → Result BridgeFault B) (t : Files C)
      → (continue r (λ a s. (g a, s)) t).1 ≡ t
  continue-state (ok a) g t = refl
  continue-state (err e) g t = refl

  pending_apply-Kept :
      (t files : Files C)
      → t.compose ≡ files.compose
      → t.applied_hash ≡ files.applied_hash
      → pending_apply lib t ≡ pending_apply lib files
  unfolding pending_apply current_hash
  pending_apply-Kept t files c a = rw (c, a) refl

  operation-pending :
      (message : String) (r : String × String) (files : Files C)
      → pending_apply lib (operation lib host after message r files).1 ≡ pending_apply lib files
  unfolding operation
  operation-pending message r files =
      let (c, a, b) = project-Kept lib host after files in
      ap (pending_apply lib) (
        continue-state (project lib host after files).0
          (λ view. ok (record { message = message; stdout = r.0; stderr = r.1; project = view }))
          (project lib host after files).1)
      ∙ pending_apply-Kept (project lib host after files).1 files c a

  -- After a successful apply the project has no pending changes.
  pub apply-not_pending :
      (files : Files C) (r : BridgeOperationResult)
      → (apply_project lib host world after files).0 ≡ ok r
      → pending_apply lib (apply_project lib host world after files).1 ≡ false
  unfolding apply_project locked
  apply-not_pending files r o =
      kept-IsSettling lib (ensure_paths world >> apply_body lib world) _
        (last-IsSettling lib (ensure_paths world) _ (λ u. apply_body-IsSettling))
        (λ q t. operation-pending "Compose project applied." q t) files r o
