-- ===== src/Lib.antt =====
-- A model of the backup and restore controllers of a hyper-converged infrastructure manager, and of the
-- packages that they use, with the theorems that make them correct.
--
-- The program is a set of Kubernetes controllers. Each one is called with the key of an object, reads the
-- object through the API client, changes other objects or the object's own status through the client, and
-- returns; whatever it leaves for later it finds in the status at its next call. A backup gathers its
-- machine's volumes, claims and secrets (`initBackup`), takes a volume snapshot of each claim
-- (`reconcileVolumeSnapshots`), turns ready when these are (`updateConditions`), and then puts a file of
-- metadata on the backup target (`uploadVMBackupMetadata`). A restore reads a ready backup, lists the
-- volumes to make (`initVolumesStatus`), creates claims from the snapshots (`reconcileVolumeRestores`),
-- creates or rewrites the machine and its secrets (`reconcileVM`, `reconcileSecretBackups`), and completes
-- when the machine is ready (`updateStatus`). The target itself is a setting: its reconciler tells Longhorn
-- of it, moves the credentials to a secret that backups read, and strips them from the setting. An image is
-- given a backing image of Longhorn and a storage class, and reports the progress of the backing image.
--
-- Parts of the model, and the code they translate:
--   Base              helpers: texts as lists of bytes, maps as association lists, the monad of calls, and
--                     rules for what calls keep (Base.Keeps)
--   Api               apis/hci/v1beta1 and the used fields of KubeVirt's, Longhorn's and Kubernetes' objects
--   Env               what is called and not implemented here, as a record of functions; an API server
--                     that answers (Env.Store), and calls that leave a property alone (Env.Calm)
--   Pkg.Strings       pkg/slice/contains.go, and what is used of Go's strings
--   Pkg.Names         pkg/name/name.go, pkg/util/image.go and the names of controllers/hci/util.go
--   Pkg.Ref           pkg/ref/api_id.go
--   Pkg.Proxy         pkg/util/proxy.go
--   Pkg.Finalizers    pkg/util/util.go
--   Pkg.Condition     pkg/condition/condition.go, on a list of conditions
--   Pkg.Owners        pkg/ref/annotation.go, with the JSON in Pkg.Owners.Annotation
--   Pkg.Settings      pkg/settings/settings.go: the registry of settings and its provider
--   Pkg.Settings.Registered  the settings it registers, GetInt and IsRelease
--   Backup.State      controllers/hci/util.go: the predicates on backups, and the list of conditions
--   Backup.Progress   controllers/hci/backup_status.go: updateConditions
--   Backup.Machine    controllers/hci/virtualmachinebackup_controller.go: what a backup reads off a machine
--   Backup.Objects    the same file: the objects that a backup creates, with pkg/util/volume.go
--   Backup.Initial    the same file: the statuses that a backup starts from and fails with
--   Backup.Stored     apis/hci/v1beta1/virtualmachinebackup_types.go: what is read back of a written backup
--   Backup.Source     controllers/hci/virtualmachinebackup_controller.go: getBackupSource, getVolumeBackups,
--                     getSecretBackups, getCSIDriverMap, mountLonghornVolumes
--   Backup.Snapshots  the same file: reconcileVolumeSnapshots, createVolumeSnapshot,
--                     createVolumeSnapshotContent, forceDeleteVolumeSnapshotAndContent
--   Backup.Target     the same file: upload and deletion of the metadata, with ConstructEndpoint of
--                     controllers/hci/backup_target.go and the loading of controllers/hci/backup_metadata.go
--   Backup.Secret     controllers/hci/backup_target.go: getBackupSecretData and the data it compares
--   Backup.Setting    the same file: the reconciler of the setting backup-target
--   Backup.Reconcile  controllers/hci/virtualmachinebackup_controller.go: Reconcile, OnBackupChange, OnBackupRemove, initBackup, setStatusError
--   Backup.Life       the writes of a backup, by its controller and by OnLHBackupChanged, as a step relation;
--                     its children show that the reconcilers refine it, and what outlasts such a life, in
--                     which each write is read back through the JSON of the object
--   Backup.Sync       controllers/hci/backup_metadata.go: the reconciler of the metadata files
--   Backup.Longhorn   controllers/hci/backup_status.go: OnLHBackupChanged, updateVolumeSnapshotChanged, and
--                     longhorn_controller.go and snapshot_controller.go, which call them
--   Restore.State     controllers/hci/util.go: the predicates on restores, and the sanitizing of a machine
--   Restore.Plan      controllers/hci/virtualmachinerestore_controller.go: which volumes a restore makes
--   Restore.Objects   the same file: the claim that a restore creates
--   Restore.NewVm     the same file: the machine that a restore creates or rewrites
--   Restore.Volumes   controllers/hci/virtualmachinerestore_controller.go: the volumes, claims and snapshots
--   Restore.Machine   the same file: the machine, its secrets, its start, and the deletion of old claims
--   Restore.Reconcile the same file: Reconcile, OnRestoreChange, OnRestoreRemove, and the writes of the status
--   Restore.Life      the writes of a restore as a step relation, with the refinement and the invariants
--   Image.Controller  controllers/hci/virtualmachineimage_controller.go: the reconciler and its handlers
--   Image.Objects     the objects it writes, and the parameters in pkg/util/image.go
--   Image.Import      controllers/hci/backingimage_controller.go, with the phases of an import
--   Image.Started     the objects that initialize writes last, and what they have in common
--   Image.Start       how a started image is left to the controller of backing images
--   Claims            controllers/hci/vm_controller.go and pvc_controller.go
--   Pkg.Indexer       pkg/indexer/indexer.go
--   Manager           main.go: the start of the manager, with its order and exit codes
--   KeyPair           controllers/hci/keypair_controller.go
--   Tests             a small cluster, runs in it, and the theorems at concrete inputs
-- The lemmas on a part stand in its child module Laws.
--
-- A call is a function from the world to an outcome and a new world. The outcome is a value, a Go error,
-- or a panic (a nil dereference, an index out of range). The world is a parameter, and so is every outside
-- call in Env: a theorem holds for every API server, cache and client that may interfere between two calls.
-- A hypothesis on an outside call says what that call returned at the place in question. A loop is
-- structural recursion over its list, so no fuel is needed. `range` over a map runs in the order of the
-- list, which the theorems leave open. A reading of the clock is numbered by its place in the call.
--
-- Not modelled: logging; the %+v of structs and the phase of a claim inside messages; the API group of a
-- data source; the time of `RequeueAfter`, which Reconcile discards; types of backups outside the two that
-- the CRD allows; filepath.Join on names with slashes; the wiring of watches. A nil slice and an empty one
-- are told apart only where the code tests for nil. Left out: the policy that resets machines and the other
-- types of pkg/settings that no controller reads. The options that main.go
-- gives to controller-runtime are left out, and the deep copies that are generated: a copy is the value.
pub mod Base
pub mod Api
pub mod Env
pub mod Pkg
pub mod Backup
pub mod Restore
pub mod Image
pub mod Claims
pub mod KeyPair
pub mod Manager
pub mod Tests
