-- ===== src/Tests/Rivals.antt =====
-- The table quota over a table with optimistic locking, which another client uses too.
use Prim.Native.String.{count, ◌++◌ as append}
use Prim.Native.String.append
use Prim.Native.String.count
use enterprise_multi_agent_s.Prelude.{
  ℕ, suc, Bool, ◌≤◌, String, ◌≡◌, refl, sym, ◌∙◌, ◌⊎◌, ap, inl, inr, true, false, Option, none,
  some, List, [], ◌∷◌, ◌++◌, ◌==◌, eq_iff, eq_refl, arith, subst, Bool-cases, if◌then◌else◌,
}
use enterprise_multi_agent_s.Python.Result.{Exn, ok, err, service_error}
use enterprise_multi_agent_s.Python.Exec.{Exec}
use enterprise_multi_agent_s.Python.Dict
use enterprise_multi_agent_s.Python.Dict.{Dict, string_eq}
use enterprise_multi_agent_s.Python.Text.{after_prefix}
use enterprise_multi_agent_s.Python.Text.Prefixes.{append-ne}
use enterprise_multi_agent_s.Quota.{partition_key}
use enterprise_multi_agent_s.Quota.AzureTable.{
  Entity, Operation, create, TableClient, plain_entity, found_or_none, allow,
}
use enterprise_multi_agent_s.Quota.AzureTable.Concurrent.{AllFit, allow-Fits}
use enterprise_multi_agent_s.Quota.AzureTable.Concurrent.Partitions.{
  answer, Effects, Fits, IsTable, Commits, none_yet, one_more, first_event,
}
use enterprise_multi_agent_s.Tests.Samples.{sample_runtime}
use enterprise_multi_agent_s.Tests.Cells.{
  Cell, tag, shown, numbered, create_counter, create_event, apply_all, and_then-some,
  apply_all-Effects, counter-tag,
}

abbrev Cells : Type 0
Cells = String → Cell

-- The cells, and whether another client acts before each of the next calls.
record World : Type 0 where
  cells : Cells
  plan : List Bool

abbrev at_key : String → Cell → Cells → Cells
at_key k c w j = if k == j then c else w j

abbrev partition_of : String
partition_of = partition_key sample_runtime "org/repo" "2026-01-01"

-- The other client's transaction, for the first event of the day.
abbrev rival_operations : List Operation
rival_operations =
    create "quota" (plain_entity "2026-01-01" (some 1))
    ∷ create "event-rival" (plain_entity "2026-01-01" none)
    ∷ []

abbrev moved : Option Cell → String → Cells → Cells
moved none k w = w
moved (some c) k w = at_key k c w

abbrev acted : Bool → Cells → Cells
acted false w = w
acted true w = moved (apply_all rival_operations (w partition_of)) partition_of w

abbrev turn : List Bool → Cells → World
turn [] w = record { cells = w; plan = [] }
turn (b ∷ plan) w = record { cells = acted b w; plan = plan }

abbrev others_turn : World → World
others_turn w = turn w.plan w.cells

abbrev entity_or_missing : Option Entity → World → Exec World Entity
entity_or_missing none old w = (err (service_error "ResourceNotFoundError" 404), w)
entity_or_missing (some e) old w = (ok e, w)

abbrev submitted : Option Cell → String → Exec World (Unit {0})
submitted none k w = (err (service_error "TableTransactionError" 409), w)
submitted (some c) k w = (ok tt, record w { cells = at_key k c w.cells })

abbrev table : TableClient World
table = record {
  get_entity =
      λ k row w. entity_or_missing (answer row (shown ((others_turn w).cells k))) w (others_turn w);
  submit_transaction =
      λ k os w. submitted (apply_all os ((others_turn w).cells k)) k (others_turn w);
}

answered :
    (o o' : Option Entity) (v w : World)
    → found_or_none (entity_or_missing o v w).0 ≡ ok o'
    → o' ≡ o
answered none o' v w h = cc
answered (some e) o' v w h = cc

unread : (o : Option Entity) (v w : World) → w ≡ (entity_or_missing o v w).1
unread none v w = refl
unread (some e) v w = refl

submitted-commit :
    (o : Option Cell) (k : String) (os : List Operation) (w : World)
    → o ≡ apply_all os (w.cells k)
    → ((Effects os (shown (w.cells k)) (shown ((submitted o k w).1.cells k)))
        × ((j : String)
            → ((k == j) ≡ false)
            → shown ((submitted o k w).1.cells j) ≡ shown (w.cells j)))
      ⊎ (((submitted o k w).1 ≡ w) × ((e : Exn) × ((submitted o k w).0 ≡ err e)))
submitted-commit none k os w h = inr (refl, (_, refl))
submitted-commit (some c) k os w h =
    inl (rw (eq_refl k) (apply_all-Effects os (w.cells k) c (sym h)), λ j other. rw other)

-- What the other client does to a cell: transactions of the same code, each with a new ETag.
record Rivals (bound : ℕ) (c d : Cell) : Type 0 where
  commits : Commits bound (shown c) (shown d)
  tagged : tag d ≡ tag c → (shown d).counter ≡ (shown c).counter

abbrev Others : ℕ → World → World → Type 0
Others bound w v = (k : String) → Rivals bound (w.cells k) (v.cells k)

resting : (bound : ℕ) (c : Cell) → Rivals bound c c
resting bound c = record { commits = none_yet (shown c); tagged = λ same. refl }

count-tag : (s : String) → count (append "v" s) ≡ suc (count s)
count-tag s =
    ap count (append.cons _ "" s)
    ∙ count.cons _ (append "" s)
    ∙ ap (λ t. suc (count t)) (append.nil s)

counted-tag :
    (o : Option ℕ) (e : Entity) (c d : Cell)
    → create_counter o e c ≡ some d
    → count (tag d) ≡ suc (count (tag c))
counted-tag none e c d h =
    let last : numbered e c ≡ d = cc in
    subst (λ (x : Cell). count (tag x) ≡ suc (count (tag c))) last (count-tag (tag c))
counted-tag (some n) e c d h = cc

event-tag :
    (o : Option Entity) (row : String) (e : Entity) (c d : Cell)
    → create_event o row e c ≡ some d
    → tag d ≡ tag c
event-tag none row e c d h =
    let last : record c { events = c.events ++ (row, e) ∷ [] } ≡ d = cc in
    subst (λ (x : Cell). tag x ≡ tag c) last refl
event-tag (some old) row e c d h = cc

rival-tag :
    (c d : Cell) → apply_all rival_operations c ≡ some d → count (tag d) ≡ suc (count (tag c))
rival-tag c d h =
    let (b, one, then_event) =
      and_then-some (create_counter c.number (plain_entity "2026-01-01" (some 1)) c)
        (apply_all (create "event-rival" (plain_entity "2026-01-01" none) ∷ [])) d h in
    let (b', two, last) =
      and_then-some
        (create_event (Dict.get "event-rival" b.events) "event-rival"
          (plain_entity "2026-01-01" none) b)
        (apply_all []) d then_event in
    let done : b' ≡ d = cc in
    subst (λ (x : Cell). count (tag x) ≡ suc (count (tag c))) done
      (ap count (event-tag (Dict.get "event-rival" b.events) "event-rival" _ b b' two)
        ∙ counted-tag c.number _ c b one)

acting :
    (bound : ℕ) (c d : Cell) → 1 ≤ bound → apply_all rival_operations c ≡ some d → Rivals bound c d
acting bound c d room h = record {
  commits = one_more (shown c) (shown c) (shown d) (none_yet (shown c)) (
      first_event "2026-01-01" "event-rival" (shown c) (shown d) room refl
        (apply_all-Effects rival_operations c d h));
  tagged = λ same. absurd (omega (arith, ap count same, rival-tag c d h));
}

moved-Others :
    (bound : ℕ) (o : Option Cell) (w : Cells)
    → 1 ≤ bound
    → apply_all rival_operations (w partition_of) ≡ o
    → (k : String) → Rivals bound (w k) (moved o partition_of w k)
moved-Others bound none w room h k = resting bound (w k)
moved-Others bound (some c) w room h k = elim (Bool-cases (partition_of == k)) [
  | inr other ↦ rw other (resting bound (w k))
  | inl same ↦
      subst (λ (j : String). Rivals bound (w j) (at_key partition_of c w j))
        ((eq_iff partition_of k).0 same)
        (rw (eq_refl partition_of) (acting bound (w partition_of) c room h))
]

turn-Others :
    (bound : ℕ) (plan : List Bool) (w : Cells)
    → 1 ≤ bound
    → (k : String) → Rivals bound (w k) ((turn plan w).cells k)
turn-Others bound [] w room k = resting bound (w k)
turn-Others bound (false ∷ plan) w room k = resting bound (w k)
turn-Others bound (true ∷ plan) w room k =
    moved-Others bound (apply_all rival_operations (w partition_of)) w room refl k

read-Others :
    (bound : ℕ) (o : Option Entity) (w : World)
    → 1 ≤ bound
    → Others bound w (entity_or_missing o w (others_turn w)).1
read-Others bound o w room =
    subst (λ (v : World). Others bound w v) (unread o w (others_turn w))
      (turn-Others bound w.plan w.cells room)

table-IsTable :
    (bound : ℕ) → 1 ≤ bound → IsTable table (λ w k. shown (w.cells k)) (Others bound) bound
table-IsTable bound room = record {
  others_commit = λ w v k others. (others k).commits;
  others_etag = λ w v k others same. (others k).tagged same;
  read_others = λ k row w. read-Others bound (answer row (shown ((others_turn w).cells k))) w room;
  read_answer = λ k row w o h.
      answered (answer row (shown ((others_turn w).cells k))) o w (others_turn w) h
      ∙ ap (λ (v : World). answer row (shown (v.cells k)))
          (unread (answer row (shown ((others_turn w).cells k))) w (others_turn w));
  read_etag = λ k w c etag h e.
      counter-tag (w.cells k).number (tag (w.cells k)) c etag
        (unfold after_prefix in append-ne "v" (w.cells k).version "" refl) h e;
  commit = λ k os w. (
    others_turn w,
    turn-Others bound w.plan w.cells room,
    submitted-commit (apply_all os ((others_turn w).cells k)) k os (others_turn w) refl,
  );
}

-- The other client creates the counter between the reads of an attempt and its transaction.
abbrev fresh : World
fresh = record {
  cells = λ k. record { number = none; version = ""; events = [] };
  plan = false ∷ false ∷ true ∷ [];
}

fresh-AllFit : AllFit (table-IsTable 2 (omega arith)) fresh
fresh-AllFit j = record { counted = refl; within = omega arith }

-- A call with a limit of two, whose first transaction is in conflict with the other client's.
allow-Fits_example : Fits 2 (
    shown (
      (allow table sample_runtime 5 (some "2026-01-01") "org/repo" "d1" 2 fresh).1.cells
        partition_of))
allow-Fits_example =
    allow-Fits (table-IsTable 2 (omega arith)) sample_runtime 5 (some "2026-01-01") "org/repo" "d1"
      2 fresh (omega arith) fresh-AllFit partition_of
