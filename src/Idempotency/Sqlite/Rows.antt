-- ===== src/Idempotency/Sqlite/Rows.antt =====
-- The rows of a SqliteIdempotencyStore that stand for the entries of a MemoryIdempotencyStore.
use enterprise_multi_agent_s.Prelude.{
  Bool, true, false, Option, none, some, [], ◌∷◌, ◌≡◌, refl, sym, subst, if◌then◌else◌,
}
use enterprise_multi_agent_s.Python.Dict
use enterprise_multi_agent_s.Python.Dict.{Dict, pair_eq, pair_beq, beq_refl}
use enterprise_multi_agent_s.Runtime.{Runtime}
use enterprise_multi_agent_s.Events.{to_json}
use enterprise_multi_agent_s.Events.RoundTrip.{IsCanonical}
use enterprise_multi_agent_s.Idempotency.Contract.{Entry, Key}
use enterprise_multi_agent_s.Idempotency.Sqlite.{Row, Table}

module _ {Bytes : Type 0} (rt : Runtime Bytes) where
  -- the row of an entry
  pub record IsRow (row : Row Bytes) (v : Entry) : Type 0 where
    pub payload : row.payload ≡ to_json rt v.event
    pub payload_hash : row.payload_hash ≡ v.payload_hash
    pub state : row.state ≡ v.state
    pub canonical : IsCanonical v.event

  -- the table of a dictionary, row by row
  abbrev pub Represents : Table Bytes → Dict Key Entry → Type 0
  Represents [] [] = Unit {0}
  Represents ((k, row) ∷ t) ((j, v) ∷ d) = (k ≡ j) × (IsRow row v × Represents t d)
  Represents _ _ = ⊥

  abbrev pub Match : Option (Row Bytes) → Option Entry → Type 0
  Match none none = Unit {0}
  Match (some row) (some v) = IsRow row v
  Match _ _ = ⊥

  Match-if :
      (b : Bool) (row : Row Bytes) (v : Entry) (o : Option (Row Bytes)) (p : Option Entry)
      → IsRow row v
      → Match o p
      → Match (if b then some row else o) (if b then some v else p)
  Match-if true row v o p here there = here
  Match-if false row v o p here there = there

  pub get-Represents :
      (k : Key) (t : Table Bytes) (d : Dict Key Entry)
      → Represents t d
      → Match (Dict.get k t) (Dict.get k d)
  unfolding Dict.get
  get-Represents k [] [] h = tt
  get-Represents k ((i, row) ∷ t) ((j, v) ∷ d) (same, (here, there)) =
      subst
        (λ (i : Key).
          Match (if pair_beq i k then some row else Dict.get k t)
            (if pair_beq j k then some v else Dict.get k d))
        (sym same)
        (Match-if (pair_beq j k) row v (Dict.get k t) (Dict.get k d) here
          (get-Represents k t d there))
  get-Represents k [] (x ∷ d) h = elim h [ ]
  get-Represents k (x ∷ t) [] h = elim h [ ]

  Represents-if :
      (b : Bool) (t t' : Table Bytes) (d d' : Dict Key Entry)
      → Represents t d
      → Represents t' d'
      → Represents (if b then t else t') (if b then d else d')
  Represents-if true t t' d d' here there = here
  Represents-if false t t' d d' here there = there

  pub put-Represents :
      (k : Key) (row : Row Bytes) (v : Entry) (t : Table Bytes) (d : Dict Key Entry)
      → IsRow row v
      → Represents t d
      → Represents (Dict.put k row t) (Dict.put k v d)
  unfolding Dict.put
  put-Represents k row v [] [] r h = (refl, (r, tt))
  put-Represents k row v ((i, old) ∷ t) ((j, w) ∷ d) r (same, (here, there)) =
      subst
        (λ (i : Key).
          Represents (if pair_beq i k then (i, row) ∷ t else (i, old) ∷ Dict.put k row t)
            (if pair_beq j k then (j, v) ∷ d else (j, w) ∷ Dict.put k v d))
        (sym same)
        (Represents-if (pair_beq j k) ((j, row) ∷ t) ((j, old) ∷ Dict.put k row t) ((j, v) ∷ d)
          ((j, w) ∷ Dict.put k v d) (refl, (r, there))
          (refl, (here, put-Represents k row v t d r there)))
  put-Represents k row v [] (x ∷ d) r h = elim h [ ]
  put-Represents k row v (x ∷ t) [] r h = elim h [ ]
