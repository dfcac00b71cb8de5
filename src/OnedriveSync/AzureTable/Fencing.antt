-- ===== src/OnedriveSync/AzureTable/Fencing.antt =====
-- The table store among other clients: every call is one step on the row, on a lease that allows it.
use enterprise_multi_agent_s.Prelude.{
  ℕ, String, ◌≡◌, refl, sym, ap, subst, ◌∙◌, ◌⊎◌, inl, inr, Bool, true, false, not, ◌&&◌, Option,
  none, some, ◌==◌, eq_iff, arith, if◌then◌else◌,
}
use enterprise_multi_agent_s.Python.Result.{ok}
use enterprise_multi_agent_s.Python.Exec.{
  Exec, after_bind, after_catch, after_if, pure, raise, ◌>>=◌, ◌>>◌,
}
use enterprise_multi_agent_s.Runtime.{Runtime}
use enterprise_multi_agent_s.OnedriveSync.{lease_until}
use enterprise_multi_agent_s.OnedriveSync.AzureTable.{
  Entity, TableClient, has_name, found_or_none, text, is_running, row_key, get_entity, unless,
  update, acquire_of, acquire, commit_of, commit,
}

-- What the store relies on, for the row of one drive: others may act before every call; a row with
-- the ETag of an earlier one is that row; a write happens in one piece or not at all, an update on
-- the row with its ETag alone, a creation on no row alone.
pub record IsTable {W : Type 0} (table : TableClient W) (key : String) (row : W → Option Entity)
    (Others : W → W → Type 0) : Type 0 where
  pub others_refl : (a : W) → Others a a
  pub others_then : (a b c : W) → Others a b → Others b c → Others a c
  pub others_etag :
      (w w' : W) (e e' : Entity)
      → Others w w'
      → row w ≡ some e
      → row w' ≡ some e'
      → e'.etag ≡ e.etag
      → e' ≡ e
  pub read_others : (w : W) → Others w (table.get_entity key w).1
  pub read_answer :
      (w : W) (o : Option Entity)
      → found_or_none (table.get_entity key w).0 ≡ ok o
      → o ≡ row (table.get_entity key w).1
  pub update_once :
      (e : Entity) (w : W)
      → (w1 : W) × Others w w1
        × (((table.update_entity key e w).1 ≡ w1)
            ⊎ ((old : Entity) × (row w1 ≡ some old)
                × (old.etag ≡ e.etag)
                × ((etag : String) × (row (table.update_entity key e w).1
                      ≡ some (record e { etag = etag })))))
  pub create_once :
      (e : Entity) (w : W)
      → (w1 : W) × Others w w1
        × (((table.create_entity key e w).1 ≡ w1)
            ⊎ ((row w1 ≡ none)
                × ((etag : String) × (row (table.create_entity key e w).1
                      ≡ some (record e { etag = etag })))))

module _ {Bytes W : Type 0} (rt : Runtime Bytes) {table : TableClient W} (drive_id : String)
    {row : W → Option Entity} {Others : W → W → Type 0}
    (laws : IsTable table (row_key rt table drive_id) row Others) where
  -- Others acted, and then nothing was written, or a row that the call allows was changed in one piece.
  pub data Steps (allowed : Option Entity → Type 0) (change : Option Entity → Entity) (w w' : W)
      : Type 0 where
    quiet : Others w w' → Steps allowed change w w'
    wrote :
        (w1 : W) (etag : String)
        → Others w w1
        → allowed (row w1)
        → row w' ≡ some (record (change (row w1)) { etag = etag })
        → Steps allowed change w w'

  module _ (allowed : Option Entity → Type 0) (change : Option Entity → Entity) where
    Stepped : W → W → Type 0
    Stepped = Steps allowed change

    -- A write that others' activity precedes.
    after-Others : (a b c : W) → Others a b → Stepped b c → Stepped a c
    unfolding Stepped
    after-Others a b c first (quiet more) = quiet (laws.others_then a b c first more)
    after-Others a b c first (wrote w1 etag more ok_row new) =
        wrote w1 etag (laws.others_then a b w1 first more) ok_row new

    -- The state behind a guarded write is that of the write.
    unless-Stepped :
        (name : String) (call : Exec W (Unit {0})) (w : W)
        → Stepped w (call w).1
        → Stepped w (unless rt table drive_id name call w).1
    unfolding unless
    unless-Stepped name call w s =
        let once : Exec W Bool = (do call; pure true) in
        let tried = after_bind (Stepped w) call (λ u. pure true) w (λ e failed. s) (λ u done. s) in
        after_catch (Stepped w) once (λ e. if has_name name e then pure false else raise e) w tried
          λ e failed.
            after_if (Stepped w) (has_name name e) (pure false) (raise e) (once w).1 (λ y. tried)
              (λ n. tried)

    update-Stepped :
        (e : Entity) (w : W)
        → row w ≡ some e
        → allowed (some e)
        → (change (some e)).etag ≡ e.etag
        → Stepped w (update rt table drive_id (change (some e)) w).1
    unfolding update Stepped
    update-Stepped e w here fine kept =
        let (w1, others, outcome) = laws.update_once (change (some e)) w in
        unless-Stepped "ResourceModifiedError"
          (table.update_entity (row_key rt table drive_id) (change (some e))) w
          (elim outcome [
            | inl same ↦ subst (Stepped w) (sym same) (quiet others)
            | inr (old, there, tagged, (etag, new)) ↦
                let unchanged : old ≡ e =
                  laws.others_etag w w1 e old others here there (tagged ∙ kept) in
                let now : row w1 ≡ some e = there ∙ ap some unchanged in
                wrote w1 etag others (subst allowed (sym now) fine) (
                  new
                  ∙ ap (λ (o : Option Entity). some (record (change o) { etag = etag })) (sym now))
          ])

    create-Stepped :
        (w : W)
        → row w ≡ none
        → allowed none
        → Stepped w
            (unless rt table drive_id "ResourceExistsError"
              (table.create_entity (row_key rt table drive_id) (change none))
              w).1
    unfolding Stepped
    create-Stepped w absent fine =
        let (w1, others, outcome) = laws.create_once (change none) w in
        unless-Stepped "ResourceExistsError"
          (table.create_entity (row_key rt table drive_id) (change none)) w
          (elim outcome [
            | inl same ↦ subst (Stepped w) (sym same) (quiet others)
            | inr (gone, (etag, new)) ↦ wrote w1 etag others (subst allowed (sym gone) fine) (
                new
                ∙ ap (λ (o : Option Entity). some (record (change o) { etag = etag })) (sym gone))
          ])

    -- A call that reads the row and goes on from what it read.
    read-Stepped :
        (next : Option Entity → Exec W Bool) (w : W)
        → ((o : Option Entity) (v : W) → row v ≡ o → Others v v → Stepped v (next o v).1)
        → Stepped w ((get_entity rt table drive_id >>= next) w).1
    unfolding get_entity Stepped
    read-Stepped next w go =
        let v = (table.get_entity (row_key rt table drive_id) w).1 in
        let others = laws.read_others w in
        after_bind (Stepped w) (get_entity rt table drive_id) next w (λ e failed. quiet others)
          λ o found.
            after-Others w v _ others
              (go o v (sym (laws.read_answer w o found)) (laws.others_refl v))

  abbrev pub blank : Entity
  blank = record {
    drive_id = drive_id;
    delta_link = none;
    lease_owner = none;
    lease_until = none;
    committed_lease_owner = some "";
    etag = "";
  }

  abbrev pub row_or_blank : Option Entity → Entity
  row_or_blank none = blank
  row_or_blank (some e) = e

  -- The lease is the owner's.
  abbrev pub IsHeld : String → Option Entity → Type 0
  IsHeld owner o = (e : Entity) × (o ≡ some e) × (text e.lease_owner ≡ owner)

  -- No lease of another owner is running.
  abbrev pub IsFree : String → ℕ → Option Entity → Type 0
  IsFree owner now o =
      (is_running (row_or_blank o).lease_until now
        && not (text (row_or_blank o).lease_owner == owner))
      ≡ false

  abbrev pub leased : String → ℕ → ℕ → Option Entity → Entity
  leased owner lease_seconds now o = record (row_or_blank o) {
    lease_owner = some owner;
    lease_until = some (lease_until now lease_seconds);
    committed_lease_owner = some "";
  }

  abbrev pub committed : String → String → ℕ → Option Entity → Entity
  committed delta_link owner now o = record (row_or_blank o) {
    delta_link = some delta_link;
    lease_owner = some "";
    lease_until = some now;
    committed_lease_owner = some owner;
  }

  -- For a table with conditional updates and creations, on which other clients act before every
  -- call: an acquire either writes nothing, or changes the drive's row in one piece, at a moment
  -- at which no lease of another owner is running by the caller's clock, into the row with the
  -- caller's lease and no committed owner.
  pub acquire-Steps :
      (owner : String) (lease_seconds now : ℕ) (w : W)
      → Steps
          (IsFree owner now)
          (leased owner lease_seconds now)
          w
          (acquire rt table drive_id owner lease_seconds now w).1
  unfolding acquire acquire_of Stepped
  acquire-Steps owner lease_seconds now w =
      let allowed = IsFree owner now in
      let change = leased owner lease_seconds now in
      read-Stepped allowed change (acquire_of rt table drive_id owner lease_seconds now) w
        (λ o v here still.
          elim o
              as (λ o.
                row v ≡ o
                → Steps allowed change v
                    (acquire_of rt table drive_id owner lease_seconds now o v).1) [
                      | none ↦ λ absent. create-Stepped allowed change v absent refl
                      | some e ↦ λ there.
                          after_if (Steps allowed change v)
                            (is_running e.lease_until now && not (text e.lease_owner == owner))
                            (pure false) _ v (λ taken. quiet still)
                            (λ free. update-Stepped allowed change e v there free refl)
                    ]
            here)

  -- For a table with updates conditional on the ETag, on which other clients act before every
  -- call: a commit either writes nothing, or changes the drive's row in one piece, at a moment at
  -- which the row's lease is the caller's, into the row with the new link, no lease owner, and the
  -- caller as the committed one.
  pub commit-Steps :
      (delta_link owner : String) (now : ℕ) (w : W)
      → Steps
          (IsHeld owner)
          (committed delta_link owner now)
          w
          (commit rt table drive_id delta_link owner now w).1
  unfolding commit commit_of Stepped
  commit-Steps delta_link owner now w =
      let allowed = IsHeld owner in
      let change = committed delta_link owner now in
      read-Stepped allowed change (commit_of rt table drive_id delta_link owner now) w
        (λ o v here still.
          elim o
              as (λ o.
                row v ≡ o
                → Steps allowed change v (commit_of rt table drive_id delta_link owner now o v).1) [
                  | none ↦ λ absent. quiet still
                  | some e ↦ λ there.
                      after_if (Steps allowed change v)
                        (text e.delta_link == delta_link && text e.committed_lease_owner == owner)
                        (pure true) _ v (λ again. quiet still)
                        λ new.
                          after_if (Steps allowed change v) (not (text e.lease_owner == owner))
                            (pure false) _ v (λ lost. quiet still)
                            (λ held.
                              update-Stepped allowed change e v there
                                (
                                  e,
                                  refl,
                                  (eq_iff (text e.lease_owner) owner).0 (ground (arith, held)),
                                )
                                refl)
                ]
            here)
