-- ===== src/Api/Kubevirt.antt =====
-- The parts of KubeVirt's virtual machines that the controllers read or write.
use hci_controller_manager.Base.{Str, Bool, Option, List}
use hci_controller_manager.Api.Meta.{ObjectMeta}

-- `CloudInitNoCloudSource`: the names of the two secrets that it may refer to.
pub record CloudInitNoCloudSource : Type 0 where
  pub user_data_secret_ref : Option Str
  pub network_data_secret_ref : Option Str

-- The claim's name, if the volume is a claim.
pub record Volume : Type 0 where
  pub name : Str
  pub persistent_volume_claim : Option Str
  pub cloud_init_no_cloud : Option CloudInitNoCloudSource

-- `Source.Secret.SecretName` of a credential, where `Source.Secret` may be nil.
pub record CredentialSource : Type 0 where
  pub secret : Option Str

pub record AccessCredential : Type 0 where
  pub ssh_public_key : Option CredentialSource
  pub user_password : Option CredentialSource

pub record Interface : Type 0 where
  pub name : Str
  pub mac_address : Str

pub record VirtualMachineInstanceSpec : Type 0 where
  pub access_credentials : List AccessCredential
  pub volumes : List Volume
  pub interfaces : List Interface

pub record VirtualMachineInstanceTemplateSpec : Type 0 where
  pub object_meta : ObjectMeta
  pub spec : VirtualMachineInstanceSpec

pub data RunStrategy : Type 0 where
  always rerun_on_failure manual halted other_strategy : RunStrategy

pub record VirtualMachineSpec : Type 0 where
  pub run_strategy : Option RunStrategy
  pub template : Option VirtualMachineInstanceTemplateSpec

pub record VirtualMachine : Type 0 where
  pub object_meta : ObjectMeta
  pub spec : VirtualMachineSpec
  pub ready : Bool
  pub created : Bool
