-- ===== src/Image/Start.antt =====
-- The start of an import: what a successful `initialize` does.
use hci_controller_manager.Base.{
  ◌≡◌, ◌≢◌, refl, [], nat_eq, list_eq, arith, ap, sym, Outcome, ◌∙◌, ◌⊎◌, inl, inr, ok,
  Option-cases, Bool-cases, bind-ok, pure-ok, cases-ok, then_pure-ok,
}
use hci_controller_manager.Api.{
  condition_status_eq, VirtualMachineImage, download, upload, export_from_volume, SourceType,
  Response,
}
use hci_controller_manager.Env.{Env}
use hci_controller_manager.Pkg.Condition.{get_status}
use hci_controller_manager.Pkg.Strings.{contains_string}
use hci_controller_manager.Image.Controller.{
  with_finalizer, answer_image, probe_source, unless_there, create_backing_image,
  create_storage_class, initialize_image, on_image_change, stamps, ensure_finalizer,
}
use hci_controller_manager.Image.Objects.{
  image_initialized, image_finalizer_name, is_refused, applied,
}
use hci_controller_manager.Image.Import.Phases.{pending, importing, phase}
use hci_controller_manager.Image.Started.{
  IsStarted, unreachable-IsStarted, with_size-IsStarted, without_progress-IsStarted,
}

module _ {W : Type 0} (h : Env W) where
  -- What a call that writes a started image as its last step has done.
  abbrev pub EndsStarted : VirtualMachineImage → Outcome Unit × W → Type 0
  EndsStarted given result =
      (image : VirtualMachineImage) × (u : W) × (h.images.update image u ≡ result)
      × IsStarted given image

  answer_image-ok :
      (image : VirtualMachineImage) (resp : Response) (w w' : W)
      → answer_image h image resp w ≡ (ok tt, w')
      → EndsStarted image (ok tt, w')
  unfolding answer_image
  answer_image-ok image resp w w' run = elim (Bool-cases (is_refused resp)) [
    | inl r ↦ (_, w, rw r at run, unreachable-IsStarted (stamps h w) _ image)
    | inr r ↦ (_, w, rw r at run, with_size-IsStarted (stamps h w) resp.content_length image)
  ]

  probe_source-ok :
      (image : VirtualMachineImage) (type : SourceType) (w w' : W)
      → probe_source h image type w ≡ (ok tt, w')
      → EndsStarted image (ok tt, w')
  unfolding probe_source
  probe_source-ok image download w w' run = elim (cases-ok (h.head image.spec.url w) run) [
    | inl (resp, v, e, then_run) ↦ answer_image-ok image resp v w' then_run
    | inr (e, v, failed, else_run) ↦
        (_, v, else_run, unreachable-IsStarted (stamps h v) e.message image)
  ]
  probe_source-ok image upload w w' run = (_, w, run, without_progress-IsStarted (stamps h w) image)
  probe_source-ok image export_from_volume w w' run =
      (_, w, run, without_progress-IsStarted (stamps h w) image)

  -- The finalizer changes neither the specification nor the time of deletion.
  ensure_finalizer-ok :
      (given image : VirtualMachineImage) (w v : W)
      → ensure_finalizer h given w ≡ (ok image, v)
      → (image.spec ≡ given.spec)
        × (image.object_meta.deletion_timestamp ≡ given.object_meta.deletion_timestamp)
  unfolding ensure_finalizer
  ensure_finalizer-ok given image w v run =
      elim (Bool-cases (contains_string given.object_meta.finalizers image_finalizer_name)) [
        | inl c ↦
            let (e, same) = pure-ok {W = W} (rw c at run) in
            (ap (λ i. i.spec) (sym e), ap (λ i. i.object_meta.deletion_timestamp) (sym e))
        | inr c ↦
            let e =
              then_pure-ok (h.images.update (with_finalizer h given)) (with_finalizer h given) image
                w v (rw c at run) in
            (ap (λ i. i.spec) e, ap (λ i. i.object_meta.deletion_timestamp) e)
      ]

  initialize_image-ok :
      (given : VirtualMachineImage) (w w' : W)
      → initialize_image h given w ≡ (ok tt, w')
      → EndsStarted given (ok tt, w')
  unfolding initialize_image
  initialize_image-ok given w w' run =
      let (image, v, added, rest) = bind-ok (ensure_finalizer h given w) run in
      let (_, v1, _, rest1) = bind-ok (unless_there h (create_backing_image h image) v) rest in
      let (_, v2, _, rest2) = bind-ok (unless_there h (create_storage_class h image) v1) rest1 in
      let (image', u, wrote, started) = probe_source-ok image image.spec.source_type v2 w' rest2 in
      let (spec, alive) = ensure_finalizer-ok given image w v added in
      (
        image',
        u,
        wrote,
        record {
          same_spec = started.same_spec ∙ spec;
          alive = started.alive ∙ alive;
          applied = started.applied;
          told = started.told;
          phased = started.phased;
        },
      )

  on_image_change_rests :
      (image : VirtualMachineImage) (v : W)
      → get_status image_initialized image.status.conditions ≢ []
      → image.status.applied_url ≡ image.spec.url
      → on_image_change h image v ≡ (ok tt, v)
  unfolding on_image_change
  on_image_change_rests image v told applied =
      elim (Option-cases image.object_meta.deletion_timestamp) [
        | inl e ↦ rw e (ground arith)
        | inr (t, e) ↦ rw e refl
      ]

  -- A run of `initialize` that succeeds ends with the write of an image that waits for its import or
  -- is marked as not initialized, and of which no later onChange does anything: a source that cannot
  -- be reached is not asked again.
  pub initialize_image_settles :
      (given : VirtualMachineImage) (w w' : W)
      → initialize_image h given w ≡ (ok tt, w')
      → (image : VirtualMachineImage) × (u : W) × (h.images.update image u ≡ (ok tt, w'))
        × ((phase image ≡ importing) ⊎ (phase image ≡ pending))
        × ((v : W) → on_image_change h image v ≡ (ok tt, v))
  initialize_image_settles given w w' run =
      let (image, u, wrote, started) = initialize_image-ok given w w' run in
      (
        image,
        u,
        wrote,
        started.phased,
        λ v. on_image_change_rests image v started.told started.applied,
      )
