-- ===== src/Image/Import/Phases.antt =====
-- The import of an image as a machine of four phases, and what the controller of backing images does
-- to it.
use hci_controller_manager.Base.{
  Str, text, ℕ, ◌≡◌, ◌≢◌, refl, true, Option, none, some, List, [], ◌∷◌, ◌==◌, nat_eq, list_eq,
  if◌then◌else◌, arith, sym, ◌∙◌, ◌⊎◌, Bool-cases, ◌!=◌, inl, inr, ok, Outcome,
}
use hci_controller_manager.Api.{
  Condition, ConditionStatus, condition_true, condition_false, condition_unknown,
  condition_status_eq, VirtualMachineImage, BackingImage, BackingImageState, state_failed,
  state_ready, state_ready_for_transfer, other_state, DiskFileStatus, image_eq,
}
use hci_controller_manager.Env.{Env}
use hci_controller_manager.Pkg.Condition.{
  find_cond, is_true, is_unknown, get_status, status_text, read_cond,
}
use hci_controller_manager.Pkg.Condition.Laws.{status_text-injective}
use hci_controller_manager.Pkg.Condition.Change.{find_cond-change_cond}
use hci_controller_manager.Image.Controller.{stamps}
use hci_controller_manager.Image.Objects.{image_imported, image_initialized}
use hci_controller_manager.Image.Import.{
  tell_import, apply_disk_status, apply_disk_statuses, carry_over,
}
use hci_controller_manager.Image.Import.Laws.{write_import, write_import-type, tell_import_lem}

-- Where the import of an image stands.
pub data Phase : Type 0 where
  pending importing imported import_failed : Phase

unfoldable phase_of : Option Condition → Phase
phase_of none = pending
phase_of (some c) = elim c.status [
  | condition_true ↦ imported
  | condition_false ↦ import_failed
  | condition_unknown ↦ importing
]

unfoldable pub phase : VirtualMachineImage → Phase
unfolding phase_of
phase image =
    if is_true image_initialized image.status.conditions
    then phase_of (find_cond image_imported image.status.conditions)
    else pending

-- What the controller of backing images may do.
pub data ImportStep : Phase → Phase → Type 0 where
  advance : ImportStep importing importing
  succeed : ImportStep importing imported
  give_up : ImportStep importing import_failed

is_true-tell_import :
    (now : ℕ → Str) (status : ConditionStatus) (reason message : Str) (conditions : List Condition)
    → is_true image_initialized (tell_import now status reason message conditions)
      ≡ is_true image_initialized conditions
unfolding is_true get_status text
is_true-tell_import now status reason message conditions =
    rw
      (
        tell_import_lem now status reason message conditions,
        find_cond-change_cond (write_import now status reason message) image_initialized
            image_imported conditions (write_import-type now status reason message),
      )
      (ground arith)

phase-tell_import :
    (now : ℕ → Str) (status : ConditionStatus) (reason message : Str) (conditions : List Condition)
    → phase_of (find_cond image_imported (tell_import now status reason message conditions))
      ≡ elim status [
        | condition_true ↦ imported
        | condition_false ↦ import_failed
        | condition_unknown ↦ importing
      ]
unfolding phase_of text
phase-tell_import now status reason message conditions =
    rw
      (
        tell_import_lem now status reason message conditions,
        find_cond-change_cond (write_import now status reason message) image_imported image_imported
            conditions (write_import-type now status reason message),
      )
      (ground arith)

phase_of-unknown :
    (found : Option Condition)
    → (read_cond (λ c. status_text c.status) found == text "Unknown") ≡ true
    → phase_of found ≡ importing
unfolding phase_of text
phase_of-unknown none u = absurd (ground arith)
phase_of-unknown (some c) u =
    let e : c.status ≡ condition_unknown =
      status_text-injective c.status condition_unknown (ground arith) in
    rw e refl

pub phase-is_unknown :
    (image : VirtualMachineImage)
    → is_true image_initialized image.status.conditions ≡ true
    → is_unknown image_imported image.status.conditions ≡ true
    → phase image ≡ importing
unfolding phase is_unknown get_status
phase-is_unknown image t u =
    rw t (phase_of-unknown (find_cond image_imported image.status.conditions) u)

abbrev phase_at : ConditionStatus → Phase
phase_at condition_true = imported
phase_at condition_false = import_failed
phase_at condition_unknown = importing

phase_told :
    (now : ℕ → Str) (status : ConditionStatus) (reason message : Str)
    (image told : VirtualMachineImage)
    → is_true image_initialized image.status.conditions ≡ true
    → told.status.conditions ≡ tell_import now status reason message image.status.conditions
    → phase told ≡ phase_at status
unfolding phase
phase_told now status reason message image told t e =
    rw (e, is_true-tell_import now status reason message image.status.conditions, t)
      (phase-tell_import now status reason message image.status.conditions)

-- The phase after the state of one file has been carried over to an image that is importing.
abbrev pub phase_after : BackingImageState → Phase
phase_after state_failed = import_failed
phase_after state_ready = imported
phase_after state_ready_for_transfer = imported
phase_after (other_state name) = importing

phase-apply_at :
    (now : ℕ → Str) (size : ℕ) (disk : DiskFileStatus) (image : VirtualMachineImage)
    (state : BackingImageState)
    → disk.state ≡ state
    → is_true image_initialized image.status.conditions ≡ true
    → phase image ≡ importing
    → phase (apply_disk_status now size disk image) ≡ phase_after state
unfolding apply_disk_status
phase-apply_at now size disk image state_failed e t p =
    phase_told now condition_false (text "ImportFailed") disk.message image
      (apply_disk_status now size disk image) t (rw e refl)
phase-apply_at now size disk image state_ready e t p =
    phase_told now condition_true (text "Imported") disk.message image
      (apply_disk_status now size disk image) t (rw e refl)
phase-apply_at now size disk image state_ready_for_transfer e t p =
    phase_told now condition_true (text "Imported") disk.message image
      (apply_disk_status now size disk image) t (rw e refl)
phase-apply_at now size disk image (other_state name) e t p =
    elim (Bool-cases (disk.progress != image.status.progress)) [
      | inl c ↦
          phase_told now condition_unknown (text "Importing") disk.message image
            (apply_disk_status now size disk image) t (rw (e, c) refl)
      | inr c ↦ rw (e, c) p
    ]

ImportStep-phase_after : (state : BackingImageState) → ImportStep importing (phase_after state)
ImportStep-phase_after state_failed = give_up
ImportStep-phase_after state_ready = succeed
ImportStep-phase_after state_ready_for_transfer = succeed
ImportStep-phase_after (other_state name) = advance

ImportStep-apply_disk_status :
    (now : ℕ → Str) (size : ℕ) (disk : DiskFileStatus) (image : VirtualMachineImage)
    → is_true image_initialized image.status.conditions ≡ true
    → is_unknown image_imported image.status.conditions ≡ true
    → ImportStep (phase image) (phase (apply_disk_status now size disk image))
ImportStep-apply_disk_status now size disk image t u =
    let p = phase-is_unknown image t u in
    rw (p, phase-apply_at now size disk image disk.state refl t p)
      (ImportStep-phase_after disk.state)

progress_at :
    (now : ℕ → Str) (size : ℕ) (disk : DiskFileStatus) (image : VirtualMachineImage)
    (state : BackingImageState)
    → disk.state ≡ state
    → phase_after state ≡ importing
    → image.status.progress ≢ 100
    → (apply_disk_status now size disk image).status.progress ≢ 100
unfolding apply_disk_status
progress_at now size disk image state_failed e a n = absurd (cc)
progress_at now size disk image state_ready e a n = absurd (cc)
progress_at now size disk image state_ready_for_transfer e a n = absurd (cc)
progress_at now size disk image (other_state name) e a n = rw e (ground arith)

-- An image that is importing and does not show 100 percent does not show them either after a state
-- has been carried over, as long as it is importing.
apply_disk_status_shows_less :
    (now : ℕ → Str) (size : ℕ) (disk : DiskFileStatus) (image : VirtualMachineImage)
    → is_true image_initialized image.status.conditions ≡ true
    → is_unknown image_imported image.status.conditions ≡ true
    → image.status.progress ≢ 100
    → phase (apply_disk_status now size disk image) ≡ importing
    → (apply_disk_status now size disk image).status.progress ≢ 100
apply_disk_status_shows_less now size disk image t u n p =
    progress_at now size disk image disk.state refl
      (sym (phase-apply_at now size disk image disk.state refl t (phase-is_unknown image t u)) ∙ p)
      n

importing-is_unknown_at :
    (found : Option Condition)
    → phase_of found ≡ importing
    → (read_cond (λ c. status_text c.status) found == text "Unknown") ≡ true
unfolding phase_of text
importing-is_unknown_at none p = absurd (cc)
importing-is_unknown_at (some c) p = ground (arith)

-- An image that is importing passes the two tests of the code.
importing-is_unknown :
    (image : VirtualMachineImage)
    → phase image ≡ importing
    → (is_true image_initialized image.status.conditions ≡ true)
      × (is_unknown image_imported image.status.conditions ≡ true)
unfolding phase is_unknown get_status
importing-is_unknown image p =
    elim (Bool-cases (is_true image_initialized image.status.conditions)) [
      | inl t ↦ (
        t,
        importing-is_unknown_at (find_cond image_imported image.status.conditions) (rw t at p),
      )
      | inr t ↦ absurd (ground (arith, t, p))
    ]

module _ {W : Type 0} (h : Env W) where
  -- An image in another phase than importing is left alone.
  carry_over_rests :
      (backing_image : BackingImage) (image : VirtualMachineImage) (w : W)
      → phase image ≢ importing
      → carry_over h backing_image image w ≡ (ok tt, w)
  unfolding carry_over
  carry_over_rests backing_image image w other =
      elim (Bool-cases (is_true image_initialized image.status.conditions)) [
        | inr t ↦ rw t refl
        | inl t ↦ elim (Bool-cases (is_unknown image_imported image.status.conditions)) [
          | inr u ↦ rw (t, u) refl
          | inl u ↦ absurd (other (phase-is_unknown image t u))
        ]
      ]

  -- The write of the new image, or nothing where it is the old one
  abbrev pub PutsIfNew : VirtualMachineImage → VirtualMachineImage → Outcome Unit × W → W → Type 0
  PutsIfNew image image' result w =
      (image ≡ image') × (result ≡ (ok tt, w))
      ⊎ (image ≢ image') × (result ≡ h.images.update image' w)

  -- A backing image with one file leaves an image alone in every phase but importing. An image that is
  -- importing gets the state of the file: it comes to the phase that the file says, by a step of an
  -- import, and it is written if that is a change, and only then.
  pub carry_over-ImportStep :
      (backing_image : BackingImage) (image : VirtualMachineImage) (k : Str) (disk : DiskFileStatus)
      (w : W)
      → backing_image.disk_file_status_map ≡ (k, disk) ∷ []
      → (phase image ≢ importing → carry_over h backing_image image w ≡ (ok tt, w))
        × (phase image ≡ importing
            → let image' = apply_disk_status (stamps h w) backing_image.size disk image in
              PutsIfNew image image' (carry_over h backing_image image w) w
              × (phase image' ≡ phase_after disk.state)
              × ImportStep (phase image) (phase image'))
  unfolding carry_over apply_disk_statuses
  carry_over-ImportStep backing_image image k disk w one = (
    carry_over_rests backing_image image w,
    λ p.
        let to_update = apply_disk_status (stamps h w) backing_image.size disk image in
        let (t, u) = importing-is_unknown image p in
        (
          elim (image_eq.dec image to_update) [
            | yes same ↦ inl (same, rw (one, t, u) (ground (arith, same)))
            | no new ↦ inr (new, rw (one, t, u) (ground (arith, new)))
          ],
          phase-apply_at (stamps h w) backing_image.size disk image disk.state refl t p,
          ImportStep-apply_disk_status (stamps h w) backing_image.size disk image t u,
        ),
  )
