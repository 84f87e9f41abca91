-- ===== src/Image/Controller.antt =====
-- controllers/hci/virtualmachineimage_controller.go: the reconciler and its handlers. Every
-- `ctrl.Result` is empty.
use hci_controller_manager.Base.{
  Str, text, ℕ, none, some, [], ◌∷◌, ◌++◌, ◌==◌, ◌!=◌, nat_eq, list_eq, if◌then◌else◌, M, errorf,
  is_not_found, is_already_exists, pure, fail, attempt, catch, ◌>>=◌, ◌>>◌,
}
use hci_controller_manager.Base.Dict
use hci_controller_manager.Base.Dict.{Dict}
use hci_controller_manager.Api.{
  NamespacedName, VirtualMachineImage, SourceType, download, upload, export_from_volume, Response,
}
use hci_controller_manager.Env.{Env}
use hci_controller_manager.Pkg.Condition.{get_status}
use hci_controller_manager.Pkg.Names.{get_image_storage_class_name}
use hci_controller_manager.Pkg.Strings.{contains_string}
use hci_controller_manager.Image.Objects.{
  applied, class_of_image, decimal, get_image_storage_class_parameters, image_finalizer_name,
  image_initialized, initialized, is_refused, named_backing_image, named_class, new_backing_image,
  unreachable, with_size, without_progress,
}

module _ {W : Type 0} (h : Env W) where
  unfoldable pub source_parameters_of : VirtualMachineImage → M W (Dict Str)
  source_parameters_of image = elim image.spec.source_type [
    | download ↦ pure ((h.download_url_parameter, image.spec.url) ∷ [])
    | upload ↦ pure []
    | export_from_volume ↦
        catch
          (h.claims.get
            (record { namespace = image.spec.pvc_namespace; name = image.spec.pvc_name }))
          (λ e. fail (
            errorf (
              text "failed to get pvc "
              ++ image.spec.pvc_name
              ++ text "/"
              ++ image.object_meta.namespace
              ++ text ", error: "
              ++ e.message)))
        >>= λ pvc. pure (
            Dict.insert h.export_type_parameter h.export_type_raw
              ((h.volume_name_parameter, pvc.spec.volume_name) ∷ []))
  ]

  unfoldable pub create_backing_image : VirtualMachineImage → M W Unit
  create_backing_image image = do
    source_parameters ← source_parameters_of image
    h.backing_images.create (new_backing_image image source_parameters)

  unfoldable pub create_storage_class : VirtualMachineImage → M W Unit
  create_storage_class image = h.storage_classes.create (
      class_of_image (get_image_storage_class_name image.object_meta.name) h.longhorn_driver_name
        (get_image_storage_class_parameters image))

  abbrev pub unless_missing : M W Unit → M W Unit
  unless_missing call = catch call (λ e. if is_not_found e then pure tt else fail e)

  abbrev pub unless_there : M W Unit → M W Unit
  unless_there call = catch call (λ e. if is_already_exists e then pure tt else fail e)

  unfoldable pub delete_backing_image : VirtualMachineImage → M W Unit
  delete_backing_image image = unless_missing (h.backing_images.delete (named_backing_image image))

  unfoldable pub delete_storage_class : VirtualMachineImage → M W Unit
  delete_storage_class image =
      unless_missing (
        h.storage_classes.delete
          (named_class (get_image_storage_class_name image.object_meta.name)))

  unfoldable pub delete_backing_image_and_storage_class : VirtualMachineImage → M W Unit
  delete_backing_image_and_storage_class image = do
    unless_missing (delete_backing_image image)
    unless_missing (delete_storage_class image)

  abbrev pub stamps : W → ℕ → Str
  stamps w i = h.rfc3339 (h.clock w i)

  -- What `Head` answers, for an image whose source is a download.
  unfoldable pub answer_image : VirtualMachineImage → Response → M W Unit
  unfolding applied
  answer_image image resp w =
      if is_refused resp
      then h.images.update
          (unreachable (stamps w)
            (text "got " ++ decimal resp.status_code ++ text " status code from " ++ image.spec.url)
            image)
          w
      else h.images.update (initialized (stamps w) (with_size resp.content_length (applied image)))
          w

  -- The rest of `initialize`, by the type of the source.
  unfoldable pub probe_source : VirtualMachineImage → SourceType → M W Unit
  unfolding applied
  probe_source image download w =
      attempt (h.head image.spec.url) (answer_image image)
        (λ e w. h.images.update (unreachable (stamps w) e.message image) w) w
  probe_source image upload w =
      h.images.update (initialized (stamps w) (without_progress (applied image))) w
  probe_source image export_from_volume w =
      h.images.update (initialized (stamps w) (without_progress (applied image))) w

  abbrev pub with_finalizer : VirtualMachineImage → VirtualMachineImage
  with_finalizer image = record image {
    object_meta = record image.object_meta {
      finalizers = h.add_finalizer image.object_meta.finalizers image_finalizer_name;
    };
  }

  -- The image with the finalizer, which is written if it was missing.
  unfoldable pub ensure_finalizer : VirtualMachineImage → M W VirtualMachineImage
  ensure_finalizer image =
      if contains_string image.object_meta.finalizers image_finalizer_name
      then pure image
      else h.images.update (with_finalizer image) >> pure (with_finalizer image)

  unfoldable pub initialize_image : VirtualMachineImage → M W Unit
  initialize_image given = do
    image ← ensure_finalizer given
    unless_there (create_backing_image image)
    unless_there (create_storage_class image)
    probe_source image image.spec.source_type

  unfoldable pub on_image_change : VirtualMachineImage → M W Unit
  on_image_change image = elim image.object_meta.deletion_timestamp [
    | some t ↦ pure tt
    | none ↦
        if get_status image_initialized image.status.conditions == []
        then initialize_image image
        else if image.spec.url != image.status.applied_url
        then delete_backing_image_and_storage_class image >> initialize_image image
        else pure tt
  ]

  unfoldable pub on_image_remove : VirtualMachineImage → M W Unit
  on_image_remove image = do
    unless_missing (
        h.storage_classes.delete
          (named_class (get_image_storage_class_name image.object_meta.name)))
    unless_missing (h.backing_images.delete (named_backing_image image))
    h.images.update (record image {
      object_meta = record image.object_meta {
        finalizers = h.remove_finalizer image.object_meta.finalizers image_finalizer_name;
      };
    })

  unfoldable pub reconcile_image : NamespacedName → M W Unit
  reconcile_image key =
      attempt (h.images.get key)
        (λ image. elim image.object_meta.deletion_timestamp [
          | some t ↦ on_image_remove image
          | none ↦ on_image_change image
        ])
        (λ e. if is_not_found e then pure tt else fail e)
