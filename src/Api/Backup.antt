-- ===== src/Api/Backup.antt =====
-- frontend/src/app/services/backup.ts: the backups.
use Prim.Native.String
use k8s_platform.Common.{
  ℕ, String, ◌≡◌, Bool, true, false, ◌==◌, Option, none, some, List, [], ◌∷◌, ◌++◌, map, arith,
  nat_eq, if◌then◌else◌,
}
use k8s_platform.Text.{or_text}
use k8s_platform.Api
use k8s_platform.Api.{
  Request, Method, Tag, number, text, list_of, refetched, same_tag, same_tag_refl, any-append_last,
}

pub data StorageType : Type 0 where
  local nfs s3 : StorageType

pub data BackupStatus : Type 0 where
  pending running success failed cancelled : BackupStatus

pub data BackupMode : Type 0 where
  single namespace_batch : BackupMode

pub data RestoreMode : Type 0 where
  overwrite create_new : RestoreMode

pub record Backup : Type 0 where
  pub id : ℕ
  pub cluster_code : String
  pub namespace : Option String
  pub target_kind : Option String
  pub target_name : Option String
  pub backup_type : String
  pub storage_type : String
  pub storage_path : Option String
  pub status : BackupStatus
  pub size_bytes : Option ℕ
  pub operator : Option String
  pub operator_id : Option ℕ
  pub started_at : Option String
  pub completed_at : Option String
  pub error_message : Option String
  pub object_count : Option ℕ
  pub created_at : Option String
  pub updated_at : Option String

pub record ListBackupsParams : Type 0 where
  pub keyword : Option String
  pub cluster_code : Option String
  pub status : Option BackupStatus
  pub backup_type : Option String
  pub page : Option ℕ
  pub size : Option ℕ

pub record ListBackupsResponse : Type 0 where
  pub items : List Backup
  pub total : ℕ

pub record CreateBackupBody : Type 0 where
  pub mode : Option BackupMode
  pub namespace : Option String
  pub namespaces : Option (List String)
  pub target_kind : Option String
  pub target_name : Option String
  pub kind_filter : Option (List String)
  pub storage_type : Option StorageType

pub record RestoreBackupBody : Type 0 where
  pub target_cluster_code : Option String
  pub target_namespace : Option String
  pub mode : Option RestoreMode

pub data Query : Type 0 where
  list_backups : Option ListBackupsParams → Query
  get_backup : ℕ → Query

pub data Mutation : Type 0 where
  create_backup : (code : String) → CreateBackupBody → Mutation
  restore_backup : ℕ → Option RestoreBackupBody → Mutation
  delete_backup : ℕ → Mutation

pub data Body : Type 0 where
  create_body : CreateBackupBody → Body
  restore_body : RestoreBackupBody → Body

abbrev pub Answer : Query → Type 0
Answer (list_backups p) = ListBackupsResponse
Answer (get_backup id) = Backup

abbrev pub backup_tag : ℕ → Tag
backup_tag id = record { of_type = "Backup"; id = number id }

abbrev restore_bodies : Option RestoreBackupBody → Option Body
restore_bodies none = none
restore_bodies (some b) = some (restore_body b)

-- How a download ends: refused, or the address that is fetched and the name of the file.
pub data Download : Type 0 where
  refused : String → Download
  fetched : (url filename : String) → Download

-- `encode` is `encodeURIComponent`, and `show` the text of a number.
module _ (encode : String → String) (show : ℕ → String) where
  abbrev backup_url : ℕ → String → String
  backup_url id rest = String.◌++◌ "/backups/" (String.◌++◌ (show id) rest)

  unfoldable pub query_request : Query → Request ListBackupsParams Body
  query_request (list_backups params) = record {
    url = "/backups";
    method = Api.get_;
    params = params;
    body = none;
  }
  query_request (get_backup id) = record {
    url = backup_url id "";
    method = Api.get_;
    params = none;
    body = none;
  }

  unfoldable pub mutation_request : Mutation → Request ListBackupsParams Body
  mutation_request (create_backup code body) = record {
    url = String.◌++◌ "/clusters/" (String.◌++◌ (encode code) "/backups");
    method = Api.post;
    params = none;
    body = some (create_body body);
  }
  mutation_request (restore_backup id body) = record {
    url = backup_url id "/restore";
    method = Api.post;
    params = none;
    body = restore_bodies body;
  }
  mutation_request (delete_backup id) = record {
    url = backup_url id "";
    method = Api.delete;
    params = none;
    body = none;
  }

  unfoldable pub download_backup_by_id : Backup → Download
  download_backup_by_id r =
      let name_part = or_text r.target_name (or_text r.target_kind (show r.id)) in
      if r.backup_type == "namespace_batch"
      then refused "批量备份暂不支持下载"
      else fetched (backup_url r.id "/download") (
          String.◌++◌ "backup-" (
            String.◌++◌ r.cluster_code (
              String.◌++◌ "-"
                (String.◌++◌ name_part (String.◌++◌ "-" (String.◌++◌ (show r.id) ".yaml"))))))

  -- The request of the hook's trigger.
  unfoldable pub download_backup : ℕ → Option String → Download
  download_backup id filename =
      fetched (backup_url id "/download")
        (or_text filename (String.◌++◌ "backup-" (String.◌++◌ (show id) ".yaml")))

unfoldable pub provides : (q : Query) → Option (Answer q) → List Tag
provides (list_backups params) none = list_of "Backup" ∷ []
provides (list_backups params) (some result) =
    map (λ (b : Backup). backup_tag b.id) result.items ++ list_of "Backup" ∷ []
provides (get_backup id) result = backup_tag id ∷ []

unfoldable pub invalidates : Mutation → List Tag
invalidates (create_backup code body) = list_of "Backup" ∷ []
invalidates (restore_backup id body) = list_of "Backup" ∷ []
invalidates (delete_backup id) = backup_tag id ∷ list_of "Backup" ∷ []

-- A restore makes a new task, and leaves the backup as it is.
abbrev pub stale : Mutation → Query → Bool
stale m (list_backups _) = true
stale (delete_backup id) (get_backup of) = nat_eq id of
stale _ _ = false

-- Every mutation of backups refetches the lists, also where their last call failed; a removal
-- refetches the removed backup too.
pub backup_refetched :
    (m : Mutation) (q : Query) (result : Option (Answer q))
    → stale m q ≡ true
    → refetched (invalidates m) (provides q result) ≡ true
unfolding invalidates provides
backup_refetched m (get_backup of) result h = ground arith
backup_refetched m (list_backups p) none h = ground arith
backup_refetched m (list_backups p) (some result) h =
    let tags = map (λ (b : Backup). backup_tag b.id) result.items in
    let last =
      any-append_last (same_tag (list_of "Backup")) tags (list_of "Backup")
        (same_tag_refl (list_of "Backup")) in
    ground (arith, last)
