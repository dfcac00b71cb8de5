-- ===== src/Tests/Fences.antt =====
-- The cursor table as one row with an ETag.
use Prim.Native.String.{◌++◌ as append}
use enterprise_multi_agent_s.Prelude.{
  String, ◌≡◌, refl, sym, ◌∙◌, ◌⊎◌, inl, inr, Option, none, some, ◌==◌, eq_iff, Bool-cases,
  if◌then◌else◌,
}
use enterprise_multi_agent_s.Python.Result.{ok, err, service_error}
use enterprise_multi_agent_s.Python.Exec.{Exec}
use enterprise_multi_agent_s.OnedriveSync.AzureTable.{
  Entity, TableClient, found_or_none, acquire, commit, row_key,
}
use enterprise_multi_agent_s.OnedriveSync.AzureTable.Fencing.{
  IsTable, Steps, IsFree, IsHeld, leased, committed, acquire-Steps, commit-Steps,
}
use enterprise_multi_agent_s.Tests.Samples.{sample_runtime}

abbrev Row : Type 0
Row = Option Entity

abbrev read : Row → Exec Row Entity
read none w = (err (service_error "ResourceNotFoundError" 404), w)
read (some e) w = (ok e, w)

abbrev created : Row → Entity → Exec Row (Unit {0})
created none e w = (ok tt, some (record e { etag = "v" }))
created (some old) e w = (err (service_error "ResourceExistsError" 409), w)

abbrev updated : Row → Entity → Exec Row (Unit {0})
updated none e w = (err (service_error "ResourceNotFoundError" 404), w)
updated (some old) e w =
    if old.etag == e.etag
    then (ok tt, some (record e { etag = append "v" old.etag }))
    else (err (service_error "ResourceModifiedError" 412), w)

abbrev table : TableClient Row
table = record {
  get_entity = λ key w. read w w;
  create_entity = λ key e w. created w e w;
  upsert_entity = λ key e w. (ok tt, some e);
  update_entity = λ key e w. updated w e w;
}

read_quiet : (o : Row) (w : Row) → w ≡ (read o w).1
read_quiet none w = refl
read_quiet (some e) w = refl

read-row : (w : Row) (o : Option Entity) → found_or_none (read w w).0 ≡ ok o → o ≡ (read w w).1
read-row none o h = cc
read-row (some e) o h = cc

updated_once :
    (w : Row) (e : Entity)
    → ((updated w e w).1 ≡ w)
      ⊎ ((old : Entity) × (w ≡ some old)
          × (old.etag ≡ e.etag)
          × ((etag : String) × ((updated w e w).1 ≡ some (record e { etag = etag }))))
updated_once none e = inl refl
updated_once (some old) e = elim (Bool-cases (old.etag == e.etag)) [
  | inl same ↦ inr (old, refl, (eq_iff old.etag e.etag).0 same, (append "v" old.etag, rw same refl))
  | inr other ↦ inl (rw other refl)
]

created_once :
    (w : Row) (e : Entity)
    → ((created w e w).1 ≡ w)
      ⊎ ((w ≡ none) × ((etag : String) × ((created w e w).1 ≡ some (record e { etag = etag }))))
created_once none e = inr (refl, ("v", refl))
created_once (some old) e = inl refl

table-IsTable : (key : String) → IsTable table key (λ w. w) (λ w w'. w ≡ w')
table-IsTable key = record {
  others_refl = λ a. refl;
  others_then = λ a b c p q. p ∙ q;
  others_etag = λ w w' e e' same here there tag. some-injective (sym there ∙ sym same ∙ here);
  read_others = λ w. read_quiet w w;
  read_answer = λ w o h. read-row w o h;
  update_once = λ e w. (w, refl, updated_once w e);
  create_once = λ e w. (w, refl, created_once w e);
}
  where
    some-injective : {a b : Entity} → ◌≡◌ {A = Option Entity} (some a) (some b) → a ≡ b
    some-injective h = cc

abbrev key : String
key = row_key sample_runtime table "d"

acquire-Steps_example :
    Steps sample_runtime "d"
      (table-IsTable key)
      (IsFree sample_runtime "d" (table-IsTable key) "a" 5)
      (leased sample_runtime "d" (table-IsTable key) "a" 720 5)
      none
      (acquire sample_runtime table "d" "a" 720 5 none).1
acquire-Steps_example = acquire-Steps sample_runtime "d" (table-IsTable key) "a" 720 5 none

abbrev held : Entity
held = record {
  drive_id = "d";
  delta_link = none;
  lease_owner = some "a";
  lease_until = some 9;
  committed_lease_owner = some "";
  etag = "v";
}

commit-Steps_example :
    Steps sample_runtime "d"
      (table-IsTable key)
      (IsHeld sample_runtime "d" (table-IsTable key) "a")
      (committed sample_runtime "d" (table-IsTable key) "x" "a" 7)
      (some held)
      (commit sample_runtime table "d" "x" "a" 7 (some held)).1
commit-Steps_example = commit-Steps sample_runtime "d" (table-IsTable key) "x" "a" 7 (some held)
