-- ===== src/Image/Started.antt =====
-- What an image is when the controller of images has done with it.
use hci_controller_manager.Base.{
  Str, text, ℕ, ◌≡◌, ◌≢◌, refl, Option, none, some, List, [], nat_eq, list_eq, arith, ap, sym, ◌∙◌,
  ◌⊎◌, inl, inr,
}
use hci_controller_manager.Api.{
  Condition, condition_true, condition_false, condition_unknown, condition_status_eq,
  VirtualMachineImage,
}
use hci_controller_manager.Pkg.Condition.{
  set_status, set_message, set_reason, is_true, is_unknown, get_status,
}
use hci_controller_manager.Pkg.Condition.Status.{
  get_status-set_status, get_status-set_reason, get_status-set_message,
}
use hci_controller_manager.Image.Objects.{
  image_initialized, image_imported, unreachable, initialized, applied, with_size, without_progress,
}
use hci_controller_manager.Image.Import.Phases.{pending, importing, phase, phase-is_unknown}

imported-ne-initialized : image_imported ≢ image_initialized
unfolding text
imported-ne-initialized e = cc

initialized-ne-imported : image_initialized ≢ image_imported
initialized-ne-imported e = imported-ne-initialized (sym e)

texts-ne-nil : (text "True" ≢ []) × (text "False" ≢ []) × (text "Unknown" ≢ [])
unfolding text
texts-ne-nil = (λ e. cc, λ e. cc, λ e. cc)

-- The statuses that `initialize` sets, on the list of conditions.
set_initialized :
    (now : ℕ → Str) (conditions : List Condition)
    → let cs = set_reason image_initialized (text "Initialized") (
        set_status image_initialized (now 1) condition_true (
          set_reason image_imported
            (text "Importing")
            (set_status image_imported (now 0) condition_unknown conditions))) in
      (get_status image_initialized cs ≡ text "True")
      × (get_status image_imported cs ≡ text "Unknown")
set_initialized now conditions =
    let a = set_status image_imported (now 0) condition_unknown conditions in
    let b = set_reason image_imported (text "Importing") a in
    let c = set_status image_initialized (now 1) condition_true b in
    let ic : get_status image_initialized c ≡ text "True" =
      get_status-set_status image_initialized image_initialized (now 1) condition_true b
      ∙ ground arith in
    let ia : get_status image_imported a ≡ text "Unknown" =
      get_status-set_status image_imported image_imported (now 0) condition_unknown conditions
      ∙ ground arith in
    (
      get_status-set_reason image_initialized image_initialized (text "Initialized") c
            (inr (λ e. texts-ne-nil.0 (sym ic ∙ e)))
          ∙ ic,
      get_status-set_reason image_imported image_initialized (text "Initialized") c
            (inl initialized-ne-imported)
          ∙ get_status-set_status image_imported image_initialized (now 1) condition_true b
          ∙ ground (
            arith,
            initialized-ne-imported,
            get_status-set_reason image_imported image_imported (text "Importing") a
                (inr (λ e. texts-ne-nil.2 (sym ia ∙ e))),
          ),
    )

set_unreachable :
    (now : ℕ → Str) (message : Str) (conditions : List Condition)
    → get_status image_initialized (
        set_message image_initialized
          (now 1)
          message
          (set_status image_initialized (now 0) condition_false conditions))
      ≡ text "False"
set_unreachable now message conditions =
    let a = set_status image_initialized (now 0) condition_false conditions in
    let ia : get_status image_initialized a ≡ text "False" =
      get_status-set_status image_initialized image_initialized (now 0) condition_false conditions
      ∙ ground arith in
    get_status-set_message image_initialized image_initialized (now 1) message a
      (inr (λ e. texts-ne-nil.1 (sym ia ∙ e)))
    ∙ ia

-- What a successful `initialize` ends with.
pub record IsStarted (given image : VirtualMachineImage) : Type 0 where
  pub same_spec : image.spec ≡ given.spec
  pub alive : image.object_meta.deletion_timestamp ≡ given.object_meta.deletion_timestamp
  pub applied : image.status.applied_url ≡ image.spec.url
  pub told : get_status image_initialized image.status.conditions ≢ []
  pub phased : (phase image ≡ importing) ⊎ (phase image ≡ pending)

phase_of_statuses :
    (image : VirtualMachineImage)
    → get_status image_initialized image.status.conditions ≡ text "True"
    → get_status image_imported image.status.conditions ≡ text "Unknown"
    → phase image ≡ importing
phase_of_statuses image t u =
    phase-is_unknown image (unfold is_true in ground arith) (unfold is_unknown in ground arith)

phase_of_refused :
    (image : VirtualMachineImage)
    → get_status image_initialized image.status.conditions ≡ text "False"
    → phase image ≡ pending
unfolding phase is_true text
phase_of_refused image f = ground (arith, f)

initialized-IsStarted :
    (now : ℕ → Str) (given image : VirtualMachineImage)
    → image.spec ≡ given.spec
    → image.object_meta ≡ given.object_meta
    → image.status.applied_url ≡ given.spec.url
    → IsStarted given (initialized now image)
unfolding initialized
initialized-IsStarted now given image spec meta url =
    let (t, u) = set_initialized now image.status.conditions in
    record {
      same_spec = spec;
      alive = ap (λ m. m.deletion_timestamp) meta;
      applied = url ∙ ap (λ s. s.url) (sym spec);
      told = λ e. texts-ne-nil.0 (sym t ∙ e);
      phased = inl (phase_of_statuses (initialized now image) t u);
    }

pub unreachable-IsStarted :
    (now : ℕ → Str) (message : Str) (image : VirtualMachineImage)
    → IsStarted image (unreachable now message image)
unfolding unreachable applied
unreachable-IsStarted now message image =
    let f = set_unreachable now message image.status.conditions in
    record {
      same_spec = refl;
      alive = refl;
      applied = refl;
      told = λ e. texts-ne-nil.1 (sym f ∙ e);
      phased = inr (phase_of_refused (unreachable now message image) f);
    }

pub with_size-IsStarted :
    (now : ℕ → Str) (size : Option ℕ) (image : VirtualMachineImage)
    → IsStarted image (initialized now (with_size size (applied image)))
unfolding applied
with_size-IsStarted now none image = initialized-IsStarted now image (applied image) refl refl refl
with_size-IsStarted now (some n) image =
    initialized-IsStarted now image (with_size (some n) (applied image)) (ground arith)
      (ground arith) (ground arith)

pub without_progress-IsStarted :
    (now : ℕ → Str) (image : VirtualMachineImage)
    → IsStarted image (initialized now (without_progress (applied image)))
unfolding applied
without_progress-IsStarted now image =
    initialized-IsStarted now image (without_progress (applied image)) refl refl refl
