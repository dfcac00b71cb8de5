-- ===== src/Quota/AzureTable/Concurrent.antt =====
-- The quota under concurrent updates: other clients of the table may act before every call.
pub mod Partitions
use enterprise_multi_agent_s.Prelude.{
  ℕ, zero, suc, ◌+◌, ◌≤◌, String, ◌≡◌, refl, sym, ap, ◌∙◌, subst, ◌⊎◌, inl, inr, Bool, true, false,
  Option, none, some, List, [], ◌∷◌, ◌++◌, ◌==◌, eq_iff, arith, leb, length, length-append, is_some,
  Bool-cases, if◌then◌else◌,
}
use enterprise_multi_agent_s.Python.Result.{Exn, ok, err, Result-cases}
use enterprise_multi_agent_s.Python.Exec.{
  Exec, pure, raise, lift, ◌>>◌, after_bind, after_catch, after_if,
}
use enterprise_multi_agent_s.Python.Dict
use enterprise_multi_agent_s.Python.Dict.{Dict, string_eq, beq_refl}
use enterprise_multi_agent_s.Python.Text.{after_prefix}
use enterprise_multi_agent_s.Python.Text.Prefixes.{append-ne}
use enterprise_multi_agent_s.Runtime.{Runtime}
use enterprise_multi_agent_s.Quota.{
  event_row_key, partition_key, validated_inputs, utc_date, digest,
}
use enterprise_multi_agent_s.Quota.AzureTable.{
  Entity, Operation, create, update, TableClient, etag_of, is_retryable_conflict, count_of,
  plain_entity, get_entity, found_or_none, creations, updates, submit, reserve_with, attempt,
  attempts, allow,
}
use enterprise_multi_agent_s.Quota.AzureTable.Concurrent.Partitions.{
  Partition, Effects, Fits, IsTable, Commit, first_event, another_event, Commit-Fits, Commits-Fits,
}

limit_positive :
    (repository event_id : String) (limit : ℕ) (inputs : String × String)
    → validated_inputs repository event_id limit ≡ ok inputs
    → 1 ≤ limit
unfolding validated_inputs
limit_positive repository event_id limit inputs h = ground arith

module _ {W : Type 0} {table : TableClient W} {partition : W → String → Partition}
    {Others : W → W → Type 0} {bound : ℕ} (laws : IsTable table partition Others bound) where
  abbrev pub AllFit : W → Type 0
  AllFit w = (j : String) → Fits bound (partition w j)

  -- A continuation that keeps the bound.
  abbrev Keeps : Exec W Bool → Type 0
  Keeps m = (w : W) → AllFit w → AllFit (m w).1

  others-Fits :
      (w w' : W) (k : String)
      → Others w w'
      → Fits bound (partition w k)
      → Fits bound (partition w' k)
  others-Fits w w' k others f = Commits-Fits bound _ _ (laws.others_commit w w' k others) f

  read-AllFit : (k row : String) (w : W) → AllFit w → AllFit (table.get_entity k row w).1
  read-AllFit k row w f j = others-Fits _ _ j (laws.read_others k row w) (f j)

  -- A transaction of the kind that the others commit too, on whatever they left.
  transaction-AllFit :
      (k : String) (os : List Operation) (w : W)
      → AllFit w
      → ((w1 : W) (p' : Partition)
          → Others w w1
          → Effects os (partition w1 k) p'
          → Commit bound (partition w1 k) p')
      → AllFit (table.submit_transaction k os w).1
  transaction-AllFit k os w f keep j =
      let (w1, others, outcome) = laws.commit k os w in
      let here = λ (i : String). others-Fits w w1 i others (f i) in
      elim outcome [
        | inr (same, failed) ↦ rw same (here j)
        | inl (effects, elsewhere) ↦ elim (Bool-cases (k == j)) [
          | inl own ↦
              subst (λ (i : String). Fits bound (partition (table.submit_transaction k os w).1 i))
                ((eq_iff k j).0 own) (Commit-Fits bound _ _ (keep w1 _ others effects) (here k))
          | inr other ↦ rw (elsewhere j other) (here j)
        ]
      ]

  module _ (day k row : String) (limit : ℕ) where
    submit-AllFit :
        (os : List Operation) (rest : Exec W Bool) (w : W)
        → AllFit w
        → ((w1 : W) (p' : Partition)
            → Others w w1
            → Effects os (partition w1 k) p'
            → Commit bound (partition w1 k) p')
        → Keeps rest
        → AllFit (submit table day k row limit os rest w).1
    unfolding submit
    submit-AllFit os rest w f keep keeps_rest =
        let sent = transaction-AllFit k os w f keep in
        let tried =
          after_bind AllFit (table.submit_transaction k os) (λ _. pure true) w (λ e h. sent)
            (λ u h. sent) in
        let once : Exec W Bool = (do table.submit_transaction k os; pure true) in
        after_catch AllFit once (λ e. if is_retryable_conflict e then rest else raise e) w tried
          λ e failed.
            after_if AllFit (is_retryable_conflict e) rest (raise e) (once w).1
              (λ again. keeps_rest (once w).1 tried) (λ fatal. tried)

    reserve_with-AllFit :
        (c : Option Entity) (rest : Exec W Bool) (w : W)
        → 1 ≤ limit
        → limit ≤ bound
        → (row == "quota") ≡ false
        → (partition w k).counter ≡ c
        → AllFit w
        → Keeps rest
        → AllFit (reserve_with table day k row limit c rest w).1
    unfolding reserve_with creations updates
    reserve_with-AllFit none rest w some_room small other read f keeps_rest =
        submit-AllFit _ rest w f
          (λ w1 p' others effects.
            first_event day row (partition w1 k) p' (omega arith) other effects)
          keeps_rest
    reserve_with-AllFit (some c) rest w some_room small other read f keeps_rest =
        after_if AllFit (leb limit (count_of c)) _ _ w (λ full. f)
          λ room. elim (Result-cases (etag_of c)) [
            | inr (e, missing) ↦ rw missing f
            | inl (etag, tagged) ↦ rw tagged (
                submit-AllFit _ rest w f
                  (λ w1 p' others effects.
                    another_event limit day row etag c (partition w1 k) p' small room other
                      (λ same.
                        laws.others_etag w w1 k others
                          (same ∙ sym (laws.read_etag k w c etag read tagged))
                        ∙ read)
                      effects)
                  keeps_rest)
          ]

    attempts-AllFit :
        (n : ℕ)
        → 1 ≤ limit
        → limit ≤ bound
        → (row == "quota") ≡ false
        → Keeps (attempts table day k row limit n)
    unfolding attempts attempt get_entity
    attempts-AllFit zero some_room small other w f = f
    attempts-AllFit (suc n) some_room small other w f =
        let rest = attempts table day k row limit n in
        let f1 = read-AllFit k row w f in
        after_bind AllFit (get_entity table k row) _ w (λ e h. f1)
          λ event h.
            after_if AllFit (is_some event) (pure true) _ _ (λ old. f1)
              λ new.
                let w1 = (get_entity table k row w).1 in
                let f2 = read-AllFit k "quota" w1 f1 in
                after_bind AllFit (get_entity table k "quota")
                  (λ c. reserve_with table day k row limit c rest) w1 (λ e h'. f2)
                  λ c found.
                    reserve_with-AllFit c rest (get_entity table k "quota" w1).1 some_room small
                      other (sym (laws.read_answer k "quota" w1 c found)) f2
                      (attempts-AllFit n some_room small other)

  -- For a table with conditional updates and atomic transactions, on which before every call other
  -- clients may commit any number of transactions of this code, with limits at most the bound:
  -- when each partition's counter is the number of its event rows and at most the bound, it still
  -- is after a call of allow with a limit at most the bound, whatever conflicts, retries and
  -- failures it meets, a transaction that commits and then reports an error included.
  pub allow-Fits :
      {Bytes : Type 0} (rt : Runtime Bytes) (max_retries : ℕ) (clock : Option String)
      (repository event_id : String) (limit : ℕ) (w : W)
      → limit ≤ bound
      → AllFit w
      → (j : String)
      → Fits bound (partition (allow table rt max_retries clock repository event_id limit w).1 j)
  unfolding allow after_prefix
  allow-Fits rt max_retries clock repository event_id limit w small f =
      after_bind AllFit (lift (validated_inputs repository event_id limit)) _ w (λ e h. f)
        λ inputs valid.
          after_bind AllFit (lift (utc_date clock)) _ w (λ e h. f)
            λ day read.
              attempts-AllFit day (partition_key rt inputs.0 day) (event_row_key rt inputs.1) limit
                max_retries (limit_positive repository event_id limit inputs valid) small
                (unfold event_row_key in
                  append-ne "event-" (digest rt "event" inputs.1) "quota" refl)
                w f
