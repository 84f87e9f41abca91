-- ===== src/Image/Objects.antt =====
-- The objects that the controller of images writes (controllers/hci/virtualmachineimage_controller.go),
-- and the parameters of a storage class in pkg/util/image.go.
use hci_controller_manager.Base.{
  Str, text, ℕ, zero, suc, ◌+◌, Bool, true, ◌||◌, Option, none, some, List, [], ◌∷◌, ◌++◌, nat_eq,
  list_eq, if◌then◌else◌, ltb, leb,
}
use Prim.Native.Nat.{◌/◌, ◌%◌}
use hci_controller_manager.Base.Dict
use hci_controller_manager.Base.Dict.{Dict}
use hci_controller_manager.Api.{
  ObjectMeta, Condition, condition_true, condition_false, condition_unknown, StorageClass,
  VirtualMachineImage, download, BackingImage, Response,
}
use hci_controller_manager.Pkg.Condition.{set_status, set_message, set_reason}
use hci_controller_manager.Pkg.Names.{get_backing_image_name, get_image_storage_class_name}
use hci_controller_manager.Pkg.Ref.{construct}
use hci_controller_manager.Backup.Objects.{empty_meta, annotation_image_id}
use hci_controller_manager.Backup.Machine.{longhorn_system_namespace_name}

abbrev pub image_finalizer_name : Str
image_finalizer_name = text "hci.wjyl.com/vm-image-controller"

abbrev pub image_initialized : Str
image_initialized = text "Initialized"

abbrev pub image_imported : Str
image_imported = text "Imported"

abbrev pub longhorn_option_backing_image_name : Str
longhorn_option_backing_image_name = text "backingImage"

-- `%d`; the fuel is more than the number of digits
abbrev pub digits : ℕ → ℕ → Str
digits zero n = []
digits (suc f) n =
    let front = digits f (n / 10) in
    if ltb n 10 then (48 + n) ∷ [] else front ++ ((48 + n % 10) ∷ [])

abbrev pub decimal : ℕ → Str
decimal n = digits (suc n) n

-- The loop over the parameters that the image asks for.
unfoldable pub put_parameters : Dict Str → Dict Str → Dict Str
put_parameters params [] = params
put_parameters params ((k, v) ∷ wanted) = put_parameters (Dict.insert k v params) wanted

unfoldable pub get_image_storage_class_parameters : VirtualMachineImage → Dict Str
unfolding put_parameters get_backing_image_name
get_image_storage_class_parameters image =
    put_parameters
      ((
        longhorn_option_backing_image_name,
        get_backing_image_name image.object_meta.namespace image.object_meta.name,
      )
        ∷ [])
      image.spec.storage_class_parameters

-- A change of the conditions of an image.
abbrev pub with_conditions :
    (List Condition → List Condition) → VirtualMachineImage → VirtualMachineImage
with_conditions change image = record image {
  status = record image.status { conditions = change image.status.conditions };
}

-- The copy that `initialize` updates, before the conditions are set.
unfoldable pub applied : VirtualMachineImage → VirtualMachineImage
unfolding get_image_storage_class_name
applied image = record image {
  status = record image.status {
    applied_url = image.spec.url;
    storage_class_name = get_image_storage_class_name image.object_meta.name;
  };
}

-- The image whose source cannot be reached, with a message.
unfoldable pub unreachable : (ℕ → Str) → Str → VirtualMachineImage → VirtualMachineImage
unfolding set_status set_message applied
unreachable now message image =
    with_conditions
      (λ conditions.
        set_message image_initialized (now 1) message
          (set_status image_initialized (now 0) condition_false conditions))
      (applied image)

-- The image whose import begins.
unfoldable pub initialized : (ℕ → Str) → VirtualMachineImage → VirtualMachineImage
unfolding set_status set_reason
initialized now = with_conditions (λ conditions. set_reason image_initialized (text "Initialized") (
    set_status image_initialized (now 1) condition_true (
      set_reason image_imported (text "Importing")
        (set_status image_imported (now 0) condition_unknown conditions))))

abbrev pub with_size : Option ℕ → VirtualMachineImage → VirtualMachineImage
with_size none image = image
with_size (some n) image =
    if ltb 0 n then record image { status = record image.status { size = n } } else image

abbrev pub without_progress : VirtualMachineImage → VirtualMachineImage
without_progress image = record image { status = record image.status { progress = 0 } }

-- Does `Head` answer with an error?
abbrev pub is_refused : Response → Bool
is_refused resp = ltb resp.status_code 200 || leb 400 resp.status_code

abbrev pub class_of_image : Str → Str → Dict Str → StorageClass
class_of_image name provisioner parameters = record {
  object_meta = record empty_meta { name = name };
  provisioner = provisioner;
  parameters = parameters;
  reclaim_policy = some (text "Delete");
  allow_volume_expansion = some true;
  volume_binding_mode = some (text "Immediate");
}

-- `&StorageClass{}` and `&BackingImage{}` with a name, as they are passed to `Delete`
abbrev pub named_class : Str → StorageClass
named_class name = record {
  object_meta = record empty_meta { name = name };
  provisioner = [];
  parameters = [];
  reclaim_policy = none;
  allow_volume_expansion = none;
  volume_binding_mode = none;
}

abbrev pub backing_image_meta : VirtualMachineImage → ObjectMeta
backing_image_meta image = record empty_meta {
  name = get_backing_image_name image.object_meta.namespace image.object_meta.name;
  namespace = longhorn_system_namespace_name;
}

abbrev pub named_backing_image : VirtualMachineImage → BackingImage
named_backing_image image = record {
  object_meta = backing_image_meta image;
  source_type = download;
  source_parameters = [];
  checksum = [];
  disk_file_status_map = [];
  size = 0;
}

-- The backing image that is created, with its source's parameters.
unfoldable pub new_backing_image : VirtualMachineImage → Dict Str → BackingImage
new_backing_image image source_parameters = record {
  object_meta = record (backing_image_meta image) {
    annotations =
        some (
          (annotation_image_id, construct image.object_meta.namespace image.object_meta.name) ∷ []);
  };
  source_type = image.spec.source_type;
  source_parameters = source_parameters;
  checksum = image.spec.checksum;
  disk_file_status_map = [];
  size = 0;
}
