-- ===== src/OnedriveSync/Processor/Checkpoint.antt =====
-- What process() leaves behind: a lease with its checkpoint, or no lease.
use enterprise_multi_agent_s.Prelude.{
  ℕ, String, ◌≡◌, ◌≢◌, refl, sym, ap, subst, ◌∙◌, true, false, false≢true, not, Option, some, List,
  ◌==◌, eq_refl, Bool-cases, inl, inr,
}
use enterprise_multi_agent_s.Python.Result.{
  Exn, Result, ok, err, runtime_error, Result-cases, ok-injective, err-ok, raise_if,
}
use enterprise_multi_agent_s.Python.Exec.{
  catch, bind-ok, bind_of_ok, bind_of_err, handle, raise, lift,
}
use enterprise_multi_agent_s.Python.Dict.{string_eq}
use enterprise_multi_agent_s.Python.Json.{obj, Fields, get, text_or_empty-str}
use enterprise_multi_agent_s.Runtime.{Runtime}
use enterprise_multi_agent_s.Events.{EventEnvelope}
use enterprise_multi_agent_s.OnedriveSync.{DeltaCursorStore, default_lease_seconds}
use enterprise_multi_agent_s.OnedriveSync.Processor.{
  GraphClient, collapse, recover, checkpoint_of, output_of, finish, synchronize, release_and_raise,
  process_update, process, commit_checkpoint, acknowledge,
}

-- What the processor relies on: the owner of the drive's lease, and its cursor.
pub record IsLeasing {W : Type 0} (cursors : DeltaCursorStore W) (drive_id : String)
    (holder cursor : W → Option String) : Type 0 where
  pub acquire_granted :
      (owner : String) (n : ℕ) (w : W)
      → (cursors.acquire drive_id owner n w).0 ≡ ok true
      → holder (cursors.acquire drive_id owner n w).1 ≡ some owner
  pub acquire_refused :
      (owner : String) (n : ℕ) (w : W)
      → (cursors.acquire drive_id owner n w).0 ≢ ok true
      → holder (cursors.acquire drive_id owner n w).1 ≡ holder w
  pub renew_granted :
      (owner : String) (n : ℕ) (w : W)
      → (cursors.renew drive_id owner n w).0 ≡ ok true
      → holder (cursors.renew drive_id owner n w).1 ≡ some owner
  pub release_ok : (owner : String) (w : W) → (cursors.release drive_id owner w).0 ≡ ok tt
  pub release_drops :
      (owner : String) (w : W) → holder (cursors.release drive_id owner w).1 ≢ some owner
  pub commit_held :
      (delta_link owner : String) (w : W)
      → holder w ≡ some owner
      → ((cursors.commit drive_id delta_link owner w).0 ≡ ok true)
        × (cursor (cursors.commit drive_id delta_link owner w).1 ≡ some delta_link)

module _ {Bytes W : Type 0} (rt : Runtime Bytes) {cursors : DeltaCursorStore W} (drive_id : String)
    (graph : GraphClient W) {holder cursor : W → Option String}
    (laws : IsLeasing cursors drive_id holder cursor) where
  -- An output of a synchronisation that holds the lease.
  abbrev HasCheckpoint : String → Fields → W → Type 0
  HasCheckpoint owner out w =
      (link : String) × (get out "_checkpoint" ≡ obj (checkpoint_of drive_id link owner))
      × (holder w ≡ some owner)

  -- The lease is held exactly beside a checkpoint.
  pub record Settles (owner : String) (outcome : Result Fields × W) : Type 0 where
    pub returned : (out : Fields) → outcome.0 ≡ ok out → HasCheckpoint owner out outcome.1
    pub raised : (e : Exn) → outcome.0 ≡ err e → holder outcome.1 ≢ some owner

  finish-checkpoint :
      (owner : String) (delta : List Fields × String) (w : W) (out : Fields)
      → (finish rt drive_id graph cursors owner delta w).0 ≡ ok out
      → HasCheckpoint owner out (finish rt drive_id graph cursors owner delta w).1
  unfolding finish get
  finish-checkpoint owner delta w out h =
      let (renewed, answer, rest) =
        bind-ok (cursors.renew drive_id owner default_lease_seconds) _ w out h in
      elim (Bool-cases renewed) [
        | inl held ↦
            let done : finish rt drive_id graph cursors owner delta w ≡ (
              ok (output_of drive_id (collapse rt delta.0) delta.1 owner),
              (cursors.renew drive_id owner default_lease_seconds w).1,
            ) =
              rw held at rest in
            let same : output_of drive_id (collapse rt delta.0) delta.1 owner ≡ out =
              ok-injective (sym (ap (λ (x : Result Fields × W). x.0) done) ∙ h) in
            (
              delta.1,
              subst
                  (λ (o : Fields). get o "_checkpoint" ≡ obj (checkpoint_of drive_id delta.1 owner))
                  same refl,
              ap (λ (x : Result Fields × W). holder x.1) done
                  ∙ laws.renew_granted owner default_lease_seconds w (rw held at answer),
            )
        | inr lost ↦
            let failed : finish rt drive_id graph cursors owner delta w ≡ (
              err (runtime_error "OneDrive delta lease was lost"),
              (cursors.renew drive_id owner default_lease_seconds w).1,
            ) =
              rw lost at rest in
            absurd (err-ok (sym (ap (λ (x : Result Fields × W). x.0) failed) ∙ h))
      ]

  synchronize-checkpoint :
      (owner : String) (w : W) (out : Fields)
      → (synchronize rt drive_id graph cursors owner w).0 ≡ ok out
      → HasCheckpoint owner out (synchronize rt drive_id graph cursors owner w).1
  unfolding synchronize
  synchronize-checkpoint owner w out h =
      let (previous, read, from_read) = bind-ok (cursors.get drive_id) _ w out h in
      let w1 = (cursors.get drive_id w).1 in
      let h1 = ap (λ (x : Result Fields × W). x.0) (sym from_read) ∙ h in
      let listed = catch (graph.list_delta drive_id previous) (recover rt drive_id graph cursors) in
      let (delta, changes, from_changes) =
        bind-ok listed (finish rt drive_id graph cursors owner) w1 out h1 in
      let whole = from_read ∙ from_changes in
      subst (λ (x : Result Fields × W). HasCheckpoint owner out x.1) (sym whole)
        (finish-checkpoint owner delta (listed w1).1 out
          (ap (λ (x : Result Fields × W). x.0) (sym whole) ∙ h))

  -- A raise after which somebody else, or nobody, has the lease.
  raised-Settles :
      (owner : String) (e : Exn) (w : W) → holder w ≢ some owner → Settles owner (err e, w)
  raised-Settles owner e w free = record {
    returned = λ out h. absurd (err-ok h);
    raised = λ e' h. free;
  }

  released-Settles :
      (owner : String) (e : Exn) (w : W)
      → Settles owner (release_and_raise rt drive_id graph cursors owner e w)
  unfolding release_and_raise
  released-Settles owner e w =
      subst (Settles owner)
        (sym (
          bind_of_ok (cursors.release drive_id owner) (λ u. raise e) w tt
            (laws.release_ok owner w)))
        (raised-Settles owner e _ (laws.release_drops owner w))

  guarded-Settles :
      (owner : String) (w : W)
      → Settles owner (
          catch
            (synchronize rt drive_id graph cursors owner)
            (release_and_raise rt drive_id graph cursors owner)
            w)
  guarded-Settles owner w =
      let m = synchronize rt drive_id graph cursors owner in
      let after = release_and_raise rt drive_id graph cursors owner in
      elim (Result-cases (m w).0) [
        | inl (out, done) ↦
            subst (λ (r : Result Fields). Settles owner (handle r after (m w).1)) (sym done)
              (record {
                returned = λ out' h.
                    subst (λ (o : Fields). HasCheckpoint owner o (m w).1) (ok-injective h)
                      (synchronize-checkpoint owner w out done);
                raised = λ e h. absurd (err-ok (sym h));
              })
        | inr (e, failed) ↦
            subst (λ (r : Result Fields). Settles owner (handle r after (m w).1)) (sym failed)
              (released-Settles owner e (m w).1)
      ]

  -- For a cursor store with leases and an owner that does not hold the drive's lease: process of a
  -- drive.updated event that returns has a checkpoint with that owner and holds the lease, and one
  -- that raises, from whatever call, does not leave the lease with the owner.
  pub process-Settles :
      (owner : String) (event : EventEnvelope) (w : W)
      → event.type ≡ "drive.updated"
      → holder w ≢ some owner
      → Settles owner (process rt drive_id graph cursors owner event w)
  unfolding process process_update
  process-Settles owner event w updated free =
      let acquire = cursors.acquire drive_id owner default_lease_seconds in
      let still : (acquire w).0 ≢ ok true → holder (acquire w).1 ≢ some owner = λ refused taken.
        free (sym (laws.acquire_refused owner default_lease_seconds w refused) ∙ taken) in
      rw updated (elim (Result-cases (acquire w).0) [
        | inr (e, failed) ↦
            subst (Settles owner) (sym (bind_of_err acquire _ w e failed))
              (raised-Settles owner e _ (still (λ h. err-ok (sym failed ∙ h))))
        | inl (true, granted) ↦
            subst (Settles owner) (sym (bind_of_ok acquire _ w true granted))
              (guarded-Settles owner (acquire w).1)
        | inl (false, refused) ↦
            subst (Settles owner) (sym (bind_of_ok acquire _ w false refused))
              (raised-Settles owner _ _ (still (λ h. false≢true (ok-injective (sym refused ∙ h)))))
      ])

  acknowledge-commit :
      (link owner : String) (w : W)
      → (link == "") ≡ false
      → (owner == "") ≡ false
      → holder w ≡ some owner
      → let r = acknowledge rt drive_id graph cursors (checkpoint_of drive_id link owner) w in
        (r.0 ≡ ok tt) × (cursor r.1 ≡ some link)
  unfolding acknowledge get
  acknowledge-commit link owner w full named held =
      let (committed, stored) = laws.commit_held link owner w held in
      let commit = cursors.commit drive_id link owner in
      rw
        (
          text_or_empty-str rt.repr drive_id,
          text_or_empty-str rt.repr link,
          text_or_empty-str rt.repr owner,
        )
        (unfold commit_checkpoint in
          rw (eq_refl drive_id, full, named)
            (subst (λ (r : Result (Unit {0}) × W). (r.0 ≡ ok tt) × (cursor r.1 ≡ some link))
              (sym (
                bind_of_ok commit
                  (λ committed. lift (
                    raise_if (not committed)
                      (runtime_error "OneDrive delta lease was lost before cursor commit")))
                  w true committed))
              (refl, stored)))

  -- For a cursor store with leases and a named owner without the lease: when process of a
  -- drive.updated event returns, its checkpoint has the drive, a link and the owner, and, when the
  -- link is not empty, acknowledge of that checkpoint returns and makes the link the drive's
  -- cursor.
  pub acknowledge-process :
      (owner : String) (event : EventEnvelope) (w : W) (out : Fields)
      → event.type ≡ "drive.updated"
      → (owner == "") ≡ false
      → holder w ≢ some owner
      → (process rt drive_id graph cursors owner event w).0 ≡ ok out
      → (link : String) × (get out "_checkpoint" ≡ obj (checkpoint_of drive_id link owner))
        × ((link == "") ≡ false
            → let w' = (process rt drive_id graph cursors owner event w).1 in
              let r =
                acknowledge rt drive_id graph cursors (checkpoint_of drive_id link owner) w' in
              (r.0 ≡ ok tt) × (cursor r.1 ≡ some link))
  acknowledge-process owner event w out updated named free done =
      let (link, checkpoint, held) =
        (process-Settles owner event w updated free).returned out done in
      (link, checkpoint, λ full. acknowledge-commit link owner _ full named held)
