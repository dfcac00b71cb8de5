-- ===== src/OnedriveSync/Lease.antt =====
-- The leases of the memory store over any run of calls.
pub mod Calls
use enterprise_multi_agent_s.Prelude.{
  ℕ, ◌<◌, String, ◌≡◌, ap, Bool, true, false, ◌&&◌, Option, none, some, List, [], ◌∷◌, ◌==◌, eq_iff,
  eq_refl, arith, All,
}
use enterprise_multi_agent_s.Python.Dict
use enterprise_multi_agent_s.Python.Dict.{string_eq, get-put, get-remove}
use enterprise_multi_agent_s.OnedriveSync.{
  MemoryDeltaCursorStore, held_by, equals, lease_until, get, set, acquire, renew, commit, release,
}
use enterprise_multi_agent_s.OnedriveSync.Lease.Calls.{
  Call, set_call, acquire_call, renew_call, commit_call, release_call, perform, run, IsForeign,
  Holds, run-Holds, acquire-Holds,
}

pub equals-some : (o : Option String) (v : String) → equals o v ≡ true → o ≡ some v
equals-some none v h = absurd (ground arith)
equals-some (some w) v h = ap some ((eq_iff w v).0 h)

module _ (drive_id owner : String) where
  abbrev Refused : String → ℕ → ℕ → MemoryDeltaCursorStore → Type 0
  Refused other lease_seconds now s = acquire drive_id other lease_seconds now s ≡ (false, s)

  holder_refuses :
      (until : ℕ) (other : String) (lease_seconds now : ℕ) (s : MemoryDeltaCursorStore)
      → Holds drive_id owner until s
      → (owner == other) ≡ false
      → now < until
      → Refused other lease_seconds now s
  unfolding acquire
  holder_refuses until other lease_seconds now s h differs before =
      rw h (ground (arith, differs, before))

  holder_commits :
      (until : ℕ) (delta_link : String) (s : MemoryDeltaCursorStore)
      → Holds drive_id owner until s
      → ((commit drive_id delta_link owner s).0 ≡ true)
        × (get drive_id (commit drive_id delta_link owner s).1 ≡ some delta_link)
  unfolding commit get
  holder_commits until delta_link s h = ground (
    arith,
    h,
    equals-some (Dict.get drive_id s.values) delta_link,
    eq_refl drive_id,
    eq_refl owner,
    get-put drive_id drive_id delta_link s.values,
  )

  -- In the memory cursor store, after an acquire of a drive by an owner that answered true,
  -- whatever others then call before the lease's end: an acquire by another owner before that end
  -- answers false and changes nothing, and the owner's commit answers true and leaves its link as
  -- the drive's cursor.
  pub acquire-excludes :
      (lease_seconds now : ℕ) (s : MemoryDeltaCursorStore) (calls : List Call)
      → (acquire drive_id owner lease_seconds now s).0 ≡ true
      → All (IsForeign owner (lease_until now lease_seconds)) calls
      → ((other : String) (seconds later : ℕ)
          → (owner == other) ≡ false
          → later < lease_until now lease_seconds
          → acquire drive_id other seconds later
              (run calls (acquire drive_id owner lease_seconds now s).1)
            ≡ (false, run calls (acquire drive_id owner lease_seconds now s).1))
        × ((delta_link : String)
            → ((commit drive_id delta_link owner
                  (run calls (acquire drive_id owner lease_seconds now s).1)).0
                ≡ true)
              × (get drive_id
                    (commit drive_id delta_link owner
                      (run calls (acquire drive_id owner lease_seconds now s).1)).1
                  ≡ some delta_link))
  acquire-excludes lease_seconds now s calls granted foreign =
      let until = lease_until now lease_seconds in
      let start = (acquire drive_id owner lease_seconds now s).1 in
      let h =
        run-Holds drive_id owner until calls start
          (acquire-Holds drive_id owner lease_seconds now s granted) foreign in
      (
        λ other seconds later differs before.
            holder_refuses until other seconds later (run calls start) h differs before,
        λ delta_link. holder_commits until delta_link (run calls start) h,
      )

  -- The owner has neither the lease nor the last commit.
  record IsFenced (s : MemoryDeltaCursorStore) : Type 0 where
    no_lease : held_by (Dict.get drive_id s.leases) owner ≡ false
    no_commit : equals (Dict.get drive_id s.committed_owners) owner ≡ false

  -- A call that is no acquire of the drive by the owner.
  abbrev pub IsOther : Call → Type 0
  IsOther (acquire_call drive other lease_seconds now) =
      (drive == drive_id && other == owner) ≡ false
  IsOther c = Unit

  perform-IsFenced :
      (c : Call) (s : MemoryDeltaCursorStore) → IsFenced s → IsOther c → IsFenced (perform c s).1
  unfolding perform set acquire renew commit release
  perform-IsFenced (set_call d l) s f o = record {
    no_lease = f.no_lease;
    no_commit = ground (arith, get-remove d drive_id s.committed_owners, f.no_commit);
  }
  perform-IsFenced (acquire_call d a t now) s f o = record {
    no_lease = ground (
      arith,
      o,
      eq_iff d drive_id,
      get-put d drive_id (a, lease_until now t) s.leases,
      f.no_lease,
    );
    no_commit = ground (arith, get-remove d drive_id s.committed_owners, f.no_commit);
  }
  perform-IsFenced (renew_call d a t now) s f o = record {
    no_lease = ground (
      arith,
      eq_iff d drive_id,
      eq_iff a owner,
      get-put d drive_id (a, lease_until now t) s.leases,
      f.no_lease,
    );
    no_commit = ground (arith, f.no_commit);
  }
  perform-IsFenced (commit_call d l a) s f o = record {
    no_lease = ground (arith, get-remove d drive_id s.leases, f.no_lease);
    no_commit = ground (
      arith,
      eq_iff d drive_id,
      eq_iff a owner,
      get-put d drive_id a s.committed_owners,
      f.no_lease,
      f.no_commit,
    );
  }
  perform-IsFenced (release_call d a) s f o = record {
    no_lease = ground (arith, get-remove d drive_id s.leases, f.no_lease);
    no_commit = ground (arith, f.no_commit);
  }

  run-IsFenced :
      (calls : List Call) (s : MemoryDeltaCursorStore)
      → IsFenced s
      → All IsOther calls
      → IsFenced (run calls s)
  unfolding run
  run-IsFenced [] s f o = f
  run-IsFenced (c ∷ calls) s f o =
      run-IsFenced calls (perform c s).1 (perform-IsFenced c s f o.0) o.1

  acquire-IsFenced :
      (other : String) (lease_seconds now : ℕ) (s : MemoryDeltaCursorStore)
      → (other == owner) ≡ false
      → (acquire drive_id other lease_seconds now s).0 ≡ true
      → IsFenced (acquire drive_id other lease_seconds now s).1
  unfolding acquire
  acquire-IsFenced other lease_seconds now s differs granted = record {
    no_lease = ground (
      arith,
      eq_refl drive_id,
      differs,
      granted,
      get-put drive_id drive_id (other, lease_until now lease_seconds) s.leases,
    );
    no_commit =
        ground (arith, eq_refl drive_id, granted, get-remove drive_id drive_id s.committed_owners);
  }

  fenced_refused :
      (delta_link : String) (seconds now : ℕ) (s : MemoryDeltaCursorStore)
      → IsFenced s
      → (commit drive_id delta_link owner s ≡ (false, s))
        × (renew drive_id owner seconds now s ≡ (false, s))
        × (release drive_id owner s ≡ s)
  unfolding commit renew release
  fenced_refused delta_link seconds now s f = (
    ground (arith, f.no_lease, f.no_commit),
    ground (arith, f.no_lease),
    ground (arith, f.no_lease),
  )

  -- In the memory cursor store, once another owner has acquired a drive, and as long as the old
  -- owner does not acquire it again, whatever else is called: the old owner's commit and renew
  -- answer false and its release does nothing, and none of the three changes the store.
  pub stale-refused :
      (other : String) (lease_seconds now : ℕ) (s : MemoryDeltaCursorStore) (calls : List Call)
      (delta_link : String) (seconds later : ℕ)
      → (other == owner) ≡ false
      → (acquire drive_id other lease_seconds now s).0 ≡ true
      → All IsOther calls
      → let s' = run calls (acquire drive_id other lease_seconds now s).1 in
        (commit drive_id delta_link owner s' ≡ (false, s'))
        × (renew drive_id owner seconds later s' ≡ (false, s'))
        × (release drive_id owner s' ≡ s')
  stale-refused other lease_seconds now s calls delta_link seconds later differs granted others =
      fenced_refused delta_link seconds later _
        (run-IsFenced calls _ (acquire-IsFenced other lease_seconds now s differs granted) others)

  -- In the memory cursor store, a commit that answered true answers true when it is repeated at
  -- once, and the repetition changes nothing.
  pub commit-again :
      (delta_link : String) (s : MemoryDeltaCursorStore)
      → (commit drive_id delta_link owner s).0 ≡ true
      → commit drive_id delta_link owner (commit drive_id delta_link owner s).1
        ≡ (true, (commit drive_id delta_link owner s).1)
  unfolding commit
  commit-again delta_link s done = ground (
    arith,
    eq_refl drive_id,
    eq_refl owner,
    eq_refl delta_link,
    get-put drive_id drive_id delta_link s.values,
    get-put drive_id drive_id owner s.committed_owners,
  )
