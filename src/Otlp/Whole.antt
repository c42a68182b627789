-- ===== src/Otlp/Whole.antt =====
-- The JSON reader against a description without budgets: all the records of the body, or none.
use thermite_rs.Prelude.{
  none, some, Option, Bytes, Bool-cases, List, Result, [], ap, append-nil, append_assoc, arith,
  codes, err, false, if◌then◌else◌, inl, inr, leb, length, map, ok, refl, suc, sym, true, zero, ℕ,
  ◌++◌, ◌+◌, ◌-◌, ◌∙◌, ◌∷◌, ◌≡◌,
}
use thermite_rs.Json.{Value, pointer}
use thermite_rs.Otlp.Record.{Group, Record}
use thermite_rs.Otlp.Json.{
  JsonError, Numbers, array_at, attributes, decode, read_groups, read_records, read_scopes,
  record_from, too_many, malformed_json,
}

-- The log records under a list of scopes, and under the elements of a body.
unfoldable pub records_of_scopes : List Value → List Value
unfolding array_at
records_of_scopes [] = []
records_of_scopes (scope ∷ scopes) = array_at (codes "logRecords") scope ++ records_of_scopes scopes

unfoldable pub records_of : Value → List Value
unfolding records_of_scopes array_at
records_of logs = records_of_scopes (array_at (codes "scopeLogs") logs)

unfoldable pub count_records : List Value → ℕ
unfolding records_of
count_records [] = 0
count_records (logs ∷ more) = length (records_of logs) + count_records more

-- What a group is read as.
unfoldable pub group_of : Numbers → Value → Group
unfolding attributes records_of pointer record_from
group_of numbers logs = record {
  resource = attributes (pointer (codes "resource" ∷ codes "attributes" ∷ []) logs);
  records = map (record_from numbers) (records_of logs);
}

module _ (numbers : Numbers) (max_allowed : ℕ) where
  abbrev Read : Type 0
  Read = Result JsonError (List Record × ℕ)

  abbrev and_read : Read → (List Record × ℕ → Read) → Read
  and_read first f = elim first [ err e ↦ err e | ok read ↦ f read ]

  read_records-append :
      (xs ys : List Value) (budget : ℕ) (records : List Record)
      → read_records numbers max_allowed (xs ++ ys) budget records
        ≡ and_read
            (read_records numbers max_allowed xs budget records)
            (λ read. read_records numbers max_allowed ys read.1 read.0)
  unfolding read_records
  read_records-append [] ys budget records = refl
  read_records-append (x ∷ xs) ys zero records = refl
  read_records-append (x ∷ xs) ys (suc budget) records =
      read_records-append xs ys budget (records ++ record_from numbers x ∷ [])

  and_scopes :
      (first : Read) (scopes : List Value)
      → ((read : List Record × ℕ)
          → read_records numbers max_allowed (records_of_scopes scopes) read.1 read.0
            ≡ read_scopes numbers max_allowed scopes read.1 read.0)
      → and_read first
          (λ read. read_records numbers max_allowed (records_of_scopes scopes) read.1 read.0)
        ≡ and_read first (λ read. read_scopes numbers max_allowed scopes read.1 read.0)
  and_scopes (err e) scopes same = refl
  and_scopes (ok read) scopes same = same read

  read_scopes_lem :
      (scopes : List Value) (budget : ℕ) (records : List Record)
      → read_scopes numbers max_allowed scopes budget records
        ≡ read_records numbers max_allowed (records_of_scopes scopes) budget records
  unfolding read_scopes records_of_scopes read_records array_at
  read_scopes_lem [] budget records = refl
  read_scopes_lem (scope ∷ scopes) budget records =
      let found = array_at (codes "logRecords") scope in
      sym (
        read_records-append found (records_of_scopes scopes) budget records
        ∙ and_scopes (read_records numbers max_allowed found budget records) scopes
            (λ read. sym (read_scopes_lem scopes read.1 read.0)))

  read_records_lem :
      (vs : List Value) (budget : ℕ) (records : List Record)
      → read_records numbers max_allowed vs budget records ≡ (
          if leb (length vs) budget
          then ok (records ++ map (record_from numbers) vs, budget - length vs)
          else err (too_many max_allowed))
  unfolding read_records
  read_records_lem [] budget records =
      let empty : leb 0 budget ≡ true = ground arith in
      rw (empty, append-nil records) (ap (λ n. ok (records, n)) (omega arith))
  read_records_lem (v ∷ vs) zero records =
      let full : leb (suc (length vs)) 0 ≡ false = ground arith in rw full refl
  read_records_lem (v ∷ vs) (suc budget) records =
      let next : leb (suc (length vs)) (suc budget) ≡ leb (length vs) budget = ground arith in
      let left : suc budget - suc (length vs) ≡ budget - length vs = omega arith in
      rw
        (
          next,
          left,
          read_records_lem vs budget (records ++ record_from numbers v ∷ []),
          append_assoc records (record_from numbers v ∷ []) (map (record_from numbers) vs),
        )
        refl

  abbrev and_group :
      Read → (List Record × ℕ → Result JsonError (List Group)) → Result JsonError (List Group)
  and_group first f = elim first [ err e ↦ err e | ok read ↦ f read ]

  read_groups_lem :
      (all : List Value) (budget : ℕ) (groups : List Group)
      → read_groups numbers max_allowed all budget groups ≡ (
          if leb (count_records all) budget
          then ok (groups ++ map (group_of numbers) all)
          else err (too_many max_allowed))
  unfolding read_groups count_records records_of group_of array_at
  read_groups_lem [] budget groups =
      let empty : leb 0 budget ≡ true = ground arith in rw (empty, append-nil groups) refl
  read_groups_lem (logs ∷ more) budget groups =
      let found = records_of_scopes (array_at (codes "scopeLogs") logs) in
      let resource = attributes (pointer (codes "resource" ∷ codes "attributes" ∷ []) logs) in
      let rest : List Record × ℕ → Result JsonError (List Group) = λ read.
        read_groups numbers max_allowed more read.1
          (groups ++ record { resource = resource; records = read.0 } ∷ []) in
      let read =
        read_scopes_lem (array_at (codes "scopeLogs") logs) budget []
        ∙ read_records_lem found budget [] in
      ap (λ first. and_group first rest) read ∙ elim (Bool-cases (leb (length found) budget)) [
        | inl e ↦
            let both : leb (length found + count_records more) budget
                ≡ leb (count_records more) (budget - length found) =
              ground arith in
            rw (e, both)
              (read_groups_lem more (budget - length found) (groups ++ group_of numbers logs ∷ [])
                ∙ ap
                    (λ gs.
                      if leb (count_records more) (budget - length found)
                      then ok gs
                      else err (too_many max_allowed))
                    (append_assoc groups (group_of numbers logs ∷ [])
                      (map (group_of numbers) more)))
        | inr e ↦
            let both : leb (length found + count_records more) budget ≡ false = ground arith in
            rw (e, both) refl
      ]

-- What the reader makes of a body that parses, or does not.
abbrev pub all_or_nothing : Numbers → ℕ → Option Value → Result JsonError (List Group)
all_or_nothing numbers max_allowed none = err malformed_json
all_or_nothing numbers max_allowed (some root) =
    let all = array_at (codes "resourceLogs") root in
    if leb (count_records all) max_allowed
    then ok (map (group_of numbers) all)
    else err (too_many max_allowed)

parsed_lem :
    (numbers : Numbers) (max_allowed : ℕ) (parsed : Option Value)
    → elim parsed [
      | none ↦ err malformed_json
      | some root ↦
          read_groups numbers max_allowed (array_at (codes "resourceLogs") root) max_allowed []
    ]
      ≡ all_or_nothing numbers max_allowed parsed
parsed_lem numbers max_allowed none = refl
parsed_lem numbers max_allowed (some root) =
    read_groups_lem numbers max_allowed (array_at (codes "resourceLogs") root) max_allowed []

-- The JSON reader takes all the records of a body in their order, each under its own resource, or
-- refuses the body: when the JSON is malformed, and otherwise when it has more records than allowed.
pub json_reads_all_or_nothing :
    (from_slice : Bytes → Option Value) (numbers : Numbers) (max_allowed : ℕ) (body : Bytes)
    → decode from_slice numbers max_allowed body
      ≡ all_or_nothing numbers max_allowed (from_slice body)
unfolding decode
json_reads_all_or_nothing from_slice numbers max_allowed body =
    parsed_lem numbers max_allowed (from_slice body)
