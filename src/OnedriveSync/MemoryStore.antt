-- ===== src/OnedriveSync/MemoryStore.antt =====
-- The memory store as the processor's cursor store, beside the readings that its clock has still to
-- give.

use enterprise_multi_agent_s.Prelude.{
  ℕ, suc, String, ◌≡◌, ◌≢◌, refl, ap, ◌∙◌, Bool, true, false, Option, none, some, eq_iff, eq_refl,
  arith, if◌then◌else◌, Bool-cases, inl, inr,
}
use enterprise_multi_agent_s.Python.Result.{Result, ok, ok-injective}
use enterprise_multi_agent_s.Python.Dict
use enterprise_multi_agent_s.Python.Dict.{string_eq, get-put, get-remove}
use enterprise_multi_agent_s.OnedriveSync.{
  DeltaCursorStore, MemoryDeltaCursorStore, held_by, lease_until, get, set, acquire, renew, commit,
  release,
}
use enterprise_multi_agent_s.OnedriveSync.Lease.{equals-some}
use enterprise_multi_agent_s.OnedriveSync.Processor.Checkpoint.{IsLeasing}

abbrev pub Clocked : Type 0
Clocked = MemoryDeltaCursorStore × (ℕ → ℕ)

abbrev later : (ℕ → ℕ) → ℕ → ℕ
later clock n = clock (suc n)

abbrev pub memory_cursors : DeltaCursorStore Clocked
memory_cursors = record {
  get = λ drive_id w. (ok (get drive_id w.0), w);
  set = λ drive_id delta_link w. (ok tt, (set drive_id delta_link w.0, w.1));
  acquire = λ drive_id owner lease_seconds w. (
    ok (acquire drive_id owner lease_seconds (w.1 0) w.0).0,
    ((acquire drive_id owner lease_seconds (w.1 0) w.0).1, later w.1),
  );
  renew = λ drive_id owner lease_seconds w. (
    ok (renew drive_id owner lease_seconds (w.1 0) w.0).0,
    ((renew drive_id owner lease_seconds (w.1 0) w.0).1, later w.1),
  );
  commit = λ drive_id delta_link owner w. (
    ok (commit drive_id delta_link owner w.0).0,
    ((commit drive_id delta_link owner w.0).1, w.1),
  );
  release = λ drive_id owner w. (ok tt, (release drive_id owner w.0, w.1));
}

abbrev pub owner_of : Option (String × ℕ) → Option String
owner_of none = none
owner_of (some (owner, until)) = some owner

module _ (drive_id : String) where
  abbrev pub holder : MemoryDeltaCursorStore → Option String
  holder s = owner_of (Dict.get drive_id s.leases)

  acquire-holder :
      (owner : String) (n now : ℕ) (s : MemoryDeltaCursorStore)
      → holder (acquire drive_id owner n now s).1
        ≡ (if (acquire drive_id owner n now s).0 then some owner else holder s)
  unfolding acquire
  acquire-holder owner n now s =
      ground
        (arith, eq_refl drive_id, get-put drive_id drive_id (owner, lease_until now n) s.leases)

  renew-holder :
      (owner : String) (n now : ℕ) (s : MemoryDeltaCursorStore)
      → (renew drive_id owner n now s).0 ≡ true
      → holder (renew drive_id owner n now s).1 ≡ some owner
  unfolding renew
  renew-holder owner n now s h =
      ground
        (arith, h, eq_refl drive_id, get-put drive_id drive_id (owner, lease_until now n) s.leases)

  owner_of-held :
      (o : Option (String × ℕ)) (owner : String) → held_by o owner ≡ false → owner_of o ≢ some owner
  owner_of-held none owner h p = absurd cc
  owner_of-held (some (other, until)) owner h p =
      let same : other ≡ owner = cc in ground (arith, eq_iff other owner, h, same)

  owner_of-held_iff :
      (o : Option (String × ℕ)) (owner : String) → owner_of o ≡ some owner → held_by o owner ≡ true
  owner_of-held_iff none owner p = absurd cc
  owner_of-held_iff (some (other, until)) owner p =
      let same : other ≡ owner = cc in (eq_iff other owner).1 same

  release-holder :
      (owner : String) (s : MemoryDeltaCursorStore) → holder (release drive_id owner s) ≢ some owner
  unfolding release
  release-holder owner s = elim (Bool-cases (held_by (Dict.get drive_id s.leases) owner)) [
    | inl held ↦ rw (held, get-remove drive_id drive_id s.leases, eq_refl drive_id) (λ p. absurd cc)
    | inr free ↦ rw free (owner_of-held (Dict.get drive_id s.leases) owner free)
  ]

  commit-holder :
      (delta_link owner : String) (s : MemoryDeltaCursorStore)
      → holder s ≡ some owner
      → ((commit drive_id delta_link owner s).0 ≡ true)
        × (Dict.get drive_id (commit drive_id delta_link owner s).1.values ≡ some delta_link)
  unfolding commit
  commit-holder delta_link owner s h = ground (
    arith,
    owner_of-held_iff (Dict.get drive_id s.leases) owner h,
    eq_refl drive_id,
    equals-some (Dict.get drive_id s.values) delta_link,
    get-put drive_id drive_id delta_link s.values,
  )

  -- The memory cursor store, whatever its clock reads, keeps the contract of leases: a granted
  -- acquire or renew gives the lease to the caller, a refused acquire moves no lease, release
  -- never raises and never leaves the lease with its caller, and the holder's commit answers true
  -- and stores the link.
  pub memory-IsLeasing : IsLeasing memory_cursors drive_id (λ w. holder w.0) (λ w. get drive_id w.0)
  unfolding get
  memory-IsLeasing = record {
    acquire_granted = λ owner n w h.
        let granted = ok-injective h in acquire-holder owner n (w.1 0) w.0 ∙ rw granted;
    acquire_refused = λ owner n w h.
        acquire-holder owner n (w.1 0) w.0
        ∙ refused_case (acquire drive_id owner n (w.1 0) w.0).0 (some owner) (holder w.0) h;
    renew_granted = λ owner n w h. renew-holder owner n (w.1 0) w.0 (ok-injective h);
    release_ok = λ owner w. refl;
    release_drops = λ owner w. release-holder owner w.0;
    commit_held =
        λ delta_link owner w h. let c = commit-holder delta_link owner w.0 h in (ap ok c.0, c.1);
  }
    where
      refused_case :
          (b : Bool) (x y : Option String)
          → ◌≢◌ {A = Result Bool} (ok b) (ok true)
          → (if b then x else y) ≡ y
      refused_case true x y h = absurd (h refl)
      refused_case false x y h = refl
