-- ===== src/Tests/Image.antt =====
-- The import of an image in the small cluster.
use hci_controller_manager.Base.{text, ◌≡◌, refl, [], ◌∷◌, nat_eq, list_eq, ok, ◌⊎◌, ◌≢◌}
use hci_controller_manager.Api.{
  condition_true, VirtualMachineImage, download, BackingImage, DiskFileStatus, state_ready,
}
use hci_controller_manager.Pkg.Condition.{new_cond}
use hci_controller_manager.Pkg.Strings.{contains_string}
use hci_controller_manager.Image.Controller.{
  initialize_image, on_image_change, ensure_finalizer, create_backing_image, create_storage_class,
  probe_source, answer_image, source_parameters_of, stamps,
}
use hci_controller_manager.Image.Import.{carry_over, apply_disk_status}
use hci_controller_manager.Image.Import.Phases.{
  pending, importing, phase, phase_after, ImportStep, carry_over-ImportStep, PutsIfNew,
}
use hci_controller_manager.Image.Start.{initialize_image_settles}
use hci_controller_manager.Tests.World.{World, cluster, start_world, meta}

abbrev new_image : VirtualMachineImage
new_image = record {
  object_meta = meta (text "img");
  spec = record {
    source_type = download;
    pvc_name = [];
    pvc_namespace = [];
    url = text "http://host/img";
    checksum = [];
    storage_class_parameters = [];
  };
  status = record {
    applied_url = [];
    progress = 0;
    size = 0;
    storage_class_name = [];
    conditions = [];
  };
}

initialize_image_runs : initialize_image cluster new_image start_world ≡ (ok tt, start_world)
unfolding initialize_image ensure_finalizer create_backing_image create_storage_class probe_source
    answer_image source_parameters_of contains_string
initialize_image_runs = refl

initialize_image_settles_example :
    (image : VirtualMachineImage) × (u : World) × (cluster.images.update image u
      ≡ (ok tt, start_world))
    × ((phase image ≡ importing) ⊎ (phase image ≡ pending))
    × ((v : World) → on_image_change cluster image v ≡ (ok tt, v))
initialize_image_settles_example =
    initialize_image_settles cluster new_image start_world start_world initialize_image_runs

abbrev importing_image : VirtualMachineImage
importing_image = record new_image {
  status = record new_image.status {
    conditions =
        record (new_cond (text "Initialized")) { status = condition_true }
        ∷ new_cond (text "Imported")
        ∷ [];
  };
}

abbrev done : DiskFileStatus
done = record { state = state_ready; progress = 100; message = [] }

abbrev all_imported : BackingImage
all_imported = record {
  object_meta = meta (text "ns-img");
  source_type = download;
  source_parameters = [];
  checksum = [];
  disk_file_status_map = (text "disk", done) ∷ [];
  size = 7;
}

carry_over-ImportStep_example :
    (phase importing_image ≢ importing
      → carry_over cluster all_imported importing_image start_world ≡ (ok tt, start_world))
    × (phase importing_image ≡ importing
        → let image' = apply_disk_status (stamps cluster start_world) 7 done importing_image in
          PutsIfNew cluster importing_image image'
            (carry_over cluster all_imported importing_image start_world)
            start_world
          × (phase image' ≡ phase_after done.state)
          × ImportStep (phase importing_image) (phase image'))
carry_over-ImportStep_example =
    carry_over-ImportStep cluster all_imported importing_image (text "disk") done start_world refl
