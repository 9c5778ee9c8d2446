-- ===== src/Ownership/Tests.antt =====
-- An actor's job with a retry, an enhancement and an asset, and the instances of the theorems.
use mathlib.Core.List.{Memᴰ}
use ai_multimodal_platform.Prelude.{
  ◌⊎◌, ℕ, ◌≡◌, refl, String, true, false, none, some, List, [], ◌∷◌, All,
}
use ai_multimodal_platform.Prelude.Result.{ok, err}
use ai_multimodal_platform.Job.{Job, pending, completed, t2i, i2v, Asset, image}
use ai_multimodal_platform.Pipeline.{Rows}
use ai_multimodal_platform.Ownership.{
  Actor, content_not_found, scope_forbidden, check_owner, jobs_statement, job, asset,
}
use ai_multimodal_platform.Ownership.Files.{file_asset}
use ai_multimodal_platform.Ownership.Validation.{check_jobs, check_refs, validate_read_jobs}
use ai_multimodal_platform.Ownership.Granted.{
  IsGranted, HasOwner, asset-IsGranted, file_asset-IsGranted, job-IsGranted,
}
use ai_multimodal_platform.Ownership.References.{IsValid, validate_read_jobs-IsValid}

abbrev row : Job
row = record {
  id = 7;
  owner_user_id = 1;
  mode = t2i;
  model = "imagen-4.0-fast-generate-001";
  state = completed;
  enhancement_id = some 30;
  parent_job_id = none;
  retry_of_job_id = none;
  source_asset_id = none;
  blocked = false;
  vertex_operation_name = none;
  attempts = 0;
  parameters = [];
  state_history = [];
  error = none;
  vertex_charged = false;
  created_at = 100;
  updated_at = 100;
}

abbrev child : Job
child = record row {
  id = 8;
  mode = i2v;
  state = pending;
  parent_job_id = some 7;
  source_asset_id = some 20;
}

abbrev path : String
path = "00000000-0000-0000-0000-000000000007/output.png"

abbrev str : ℕ → String
str n = "00000000-0000-0000-0000-000000000007"

abbrev picture : Asset
picture = record {
  id = 20;
  job_id = 7;
  kind = image;
  local_path = path;
  mime = "image/png";
  size_bytes = 10;
  duration_sec = none;
  created_at = 100;
}

abbrev rows : Rows
rows = record {
  jobs = row ∷ child ∷ [];
  assets = picture ∷ [];
  enhancements = (30, 1) ∷ [];
  events = [];
  credit = record {
    in_transaction = true;
    uuid4 = λ n. n;
    users = [];
    accounts = [];
    cycles = [];
    grants = [];
    operations = [];
    reservations = [];
    items = [];
    allocations = [];
    usage_records = [];
    ledger_events = [];
  };
}

abbrev owner : Actor
owner = record { id = 1; role = "user" }

abbrev stranger : Actor
stranger = record { id = 2; role = "user" }

abbrev master : Actor
master = record { id = 3; role = "master" }

-- A stranger gets no asset, and a master may read it but not use it.
stranger_asset : asset stranger 20 "read" rows ≡ err content_not_found
unfolding asset
stranger_asset = refl

master_use : asset master 20 "use" rows ≡ err content_not_found
unfolding asset
master_use = refl

stranger_scope : jobs_statement stranger "all" rows.jobs ≡ err scope_forbidden
unfolding jobs_statement
stranger_scope = refl

-- A path that leaves its directory names no asset.
escaping_path : file_asset str master "../output.png" rows ≡ err content_not_found
unfolding file_asset
escaping_path = refl

master_reads : asset master 20 "read" rows ≡ ok picture
unfolding asset check_owner
master_reads = refl

asset-IsGranted_example :
    (picture.id ≡ 20)
    × (Memᴰ picture rows.assets
        × ((who : ℕ) × HasOwner rows.jobs 7 who × IsGranted master "read" who))
asset-IsGranted_example = asset-IsGranted master 20 "read" rows master_reads

owner_file : file_asset str owner path rows ≡ ok picture
unfolding file_asset check_owner
owner_file = refl

file_asset-IsGranted_example :
    (picture.local_path ≡ path)
    × (Memᴰ picture rows.assets
        × ((who : ℕ) × HasOwner rows.jobs 7 who × IsGranted owner "read" who))
file_asset-IsGranted_example = file_asset-IsGranted str owner path rows owner_file

owner_changes : job owner 8 "mutate" rows.jobs ≡ ok child
unfolding job check_owner
owner_changes = refl

job-IsGranted_example :
    Memᴰ child rows.jobs
    × (child.id ≡ 8)
    × (IsGranted owner "mutate" child.owner_user_id
        × (◌≡◌ {A = String} "mutate" "read" ⊎ ◌≡◌ {A = String} "mutate" "mutate"))
job-IsGranted_example = job-IsGranted owner 8 "mutate" rows.jobs owner_changes

abbrev loaded : List (Job × List Asset)
loaded = (row, picture ∷ []) ∷ (child, []) ∷ []

owner_list : validate_read_jobs owner loaded rows ≡ ok tt
unfolding validate_read_jobs check_jobs check_refs check_owner
owner_list = refl

validate_read_jobs-IsValid_example : All (IsValid owner rows) loaded
validate_read_jobs-IsValid_example = validate_read_jobs-IsValid owner loaded rows owner_list
